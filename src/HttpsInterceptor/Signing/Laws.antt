-- ===== src/HttpsInterceptor/Signing/Laws.antt =====
-- What openssl documents of the calls that src/https_interceptor.rs makes.
use bifrost_core.Prelude.{ℕ, ◌+◌, ◌*◌, ◌/◌, ◌≡◌, Option, none, some, List, [], ◌∷◌, ◌++◌}
use bifrost_core.Prelude.Exec.{Outcome, ok}
use bifrost_core.Prelude.Text.{Str, codes}
use bifrost_core.HttpsInterceptor.Signing.{OpenSsl}

-- What a builder or a certificate holds; `signer` is the key whose signature is valid for the rest.
pub record Fields (Key Name Time Extension : Type 0) : Type 0 where
  pub version : ℕ
  pub serial : Str
  pub not_before : Option Time
  pub not_after : Option Time
  pub subject : Option Name
  pub issuer : Option Name
  pub extensions : List Extension
  pub pubkey : Option Key
  pub signer : Option Key

-- A call that succeeds has an effect on what can be seen of the builder.
abbrev pub Sets : {Cert F : Type 0} → (Cert → F) → (Cert → Outcome Cert) → (F → F) → Type 0
Sets {Cert} view set change = (b c : Cert) → set b ≡ ok c → view c ≡ change (view b)

-- The documentation of openssl: each setter sets its field, and a signature is not valid for what
-- is set after it; signing makes one that is valid for what is there. `days_from_now` is that many days
-- after the moment, in seconds, and a name and an extension hold what they are made of.
pub record IsOpenSsl {Cert Key Name Time Extension : Type 0}
    (ssl : OpenSsl Cert Key Name Time Extension) : Type 0 where
  pub view : Cert → Fields Key Name Time Extension
  pub seconds : Time → ℕ
  pub common_name : Name → Option Str
  pub dns_names : Extension → List Str
  pub new_law : (b : Cert) → ssl.new_builder ≡ ok b → (view b).extensions ≡ []
  pub version_law :
      (n : ℕ) → Sets view (ssl.set_version n) (λ v. record v { version = n; signer = none })
  pub serial_law :
      (n : Str) → Sets view (ssl.set_serial_number n) (λ v. record v { serial = n; signer = none })
  pub not_before_law :
      (t : Time)
      → Sets view (ssl.set_not_before t) (λ v. record v { not_before = some t; signer = none })
  pub not_after_law :
      (t : Time)
      → Sets view (ssl.set_not_after t) (λ v. record v { not_after = some t; signer = none })
  pub subject_law :
      (n : Name)
      → Sets view (ssl.set_subject_name n) (λ v. record v { subject = some n; signer = none })
  pub issuer_law :
      (n : Name)
      → Sets view (ssl.set_issuer_name n) (λ v. record v { issuer = some n; signer = none })
  pub extension_law :
      (e : Extension)
      → Sets view
          (ssl.append_extension e)
          (λ v. record v { extensions = v.extensions ++ e ∷ []; signer = none })
  pub pubkey_law :
      (k : Key) → Sets view (ssl.set_pubkey k) (λ v. record v { pubkey = some k; signer = none })
  pub sign_law :
      (k : Key) (digest : Str) → Sets view (ssl.sign k digest) (λ v. record v { signer = some k })
  pub build_law : (b : Cert) → view (ssl.build b) ≡ view b
  pub days_law :
      (moment days : ℕ) (t : Time)
      → ssl.days_from_now moment days ≡ ok t
      → seconds t ≡ moment / 1000000000 + days * 86400
  pub name_law :
      (cn : Str) (n named : Name)
      → ssl.append_entry_by_text (codes "CN") cn n ≡ ok named
      → common_name (ssl.build_name named) ≡ some cn
  pub dns_law :
      (domain : Str) (root b : Cert) (e : Extension)
      → ssl.dns_extension domain root b ≡ ok e
      → dns_names e ≡ domain ∷ []
