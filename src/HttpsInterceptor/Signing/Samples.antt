-- ===== src/HttpsInterceptor/Signing/Samples.antt =====
-- An openssl that does what it documents, for the tests.
use bifrost_core.Prelude.{
  ℕ, Bool, false, sym, ap, ◌+◌, ◌*◌, ◌/◌, ◌≡◌, refl, none, some, [], ◌∷◌, ◌++◌,
}
use bifrost_core.Prelude.Exec.{Outcome, ok, err, panic}
use bifrost_core.Prelude.Text.{Str, codes}
use bifrost_core.HttpsInterceptor.Signing.{OpenSsl}
use bifrost_core.HttpsInterceptor.Signing.Laws.{Fields, IsOpenSsl}

abbrev pub Shown : Type 0
Shown = Fields Str Str ℕ Str

abbrev blank : Shown
blank = record {
  version = 0;
  serial = [];
  not_before = none;
  not_after = none;
  subject = none;
  issuer = none;
  extensions = [];
  pubkey = none;
  signer = none;
}

-- Keys, names and extensions are texts, times are seconds, and certificates what they show.
abbrev pub ssl : OpenSsl Shown Str Str ℕ Str
ssl = record {
  read = λ path. ok path;
  from_pem = λ pem. ok blank;
  private_key_from_pem = λ pem. ok pem;
  new_builder = ok blank;
  set_version = λ n v. ok (record v { version = n; signer = none });
  random = λ moment. moment;
  from_u32 = λ n. ok (n ∷ []);
  to_asn1_integer = λ n. ok n;
  set_serial_number = λ n v. ok (record v { serial = n; signer = none });
  days_from_now = λ moment days. ok (moment / 1000000000 + days * 86400);
  set_not_before = λ t v. ok (record v { not_before = some t; signer = none });
  set_not_after = λ t v. ok (record v { not_after = some t; signer = none });
  new_name = ok [];
  append_entry_by_text = λ field text name. ok text;
  build_name = λ name. name;
  set_subject_name = λ n v. ok (record v { subject = some n; signer = none });
  subject_name = λ v. codes "root";
  set_issuer_name = λ n v. ok (record v { issuer = some n; signer = none });
  dns_extension = λ domain root v. ok domain;
  append_extension = λ e v. ok (record v { extensions = v.extensions ++ e ∷ []; signer = none });
  generate_rsa = λ moment bits. ok (codes "rsa");
  from_rsa = λ key. ok key;
  set_pubkey = λ k v. ok (record v { pubkey = some k; signer = none });
  sign = λ k digest v. ok (record v { signer = some k });
  build = λ v. v;
  to_der = λ v. ok (codes "der");
  private_key_to_pkcs8 = λ key. ok key;
}

abbrev value_or : {A : Type 0} → A → Outcome A → A
value_or a (ok b) = b
value_or a (err e) = a
value_or a panic = a

returned : {A : Type 0} (a b : A) → ok a ≡ ok b → b ≡ a
returned a b e = sym (ap (value_or a) e)

pub law : IsOpenSsl ssl
law = record {
  view = λ v. v;
  seconds = λ t. t;
  common_name = λ n. some n;
  dns_names = λ e. e ∷ [];
  new_law = λ b e. ap (λ (v : Shown). v.extensions) (returned blank b e);
  version_law = λ n b c e. returned _ c e;
  serial_law = λ n b c e. returned _ c e;
  not_before_law = λ t b c e. returned _ c e;
  not_after_law = λ t b c e. returned _ c e;
  subject_law = λ n b c e. returned _ c e;
  issuer_law = λ n b c e. returned _ c e;
  extension_law = λ x b c e. returned _ c e;
  pubkey_law = λ k b c e. returned _ c e;
  sign_law = λ k digest b c e. returned _ c e;
  build_law = λ b. refl;
  days_law = λ moment days t e. returned _ t e;
  name_law = λ cn n named e. ap some (returned cn named e);
  dns_law = λ domain root b x e. ap (λ (d : Str). d ∷ []) (returned domain x e);
}

abbrev pub accept_any : Str → Str → Outcome (Unit {0})
accept_any cert key = ok tt

abbrev pub nowhere : Str → Bool
nowhere addr = false
