-- ===== src/HttpsInterceptor/Signing/Certificate.antt =====
-- What the certificates that `generate_cert` makes say, where openssl does what it documents.
use bifrost_core.Prelude.{none, ℕ, ◌+◌, ◌*◌, ◌/◌, ◌≡◌, refl, ap, ◌∙◌, some, [], ◌∷◌, ◌++◌}
use bifrost_core.Prelude.Exec.{ok}
use bifrost_core.Prelude.Text.{Str, codes}
use bifrost_core.HttpsInterceptor.Signing.{
  OpenSsl, set_serial, set_validity, set_names, add_san, set_key, fill, from_files, make_cert,
}
use bifrost_core.HttpsInterceptor.Signing.Laws.{Fields, IsOpenSsl}
use bifrost_core.HttpsInterceptor.Signing.Returns.{
  Returns, explain-Returns, ask-Returns, update-Returns, last-Returns, then-Returns, lift-Returns,
  Returns-ok,
}

module _ {Cert Key Name Time Extension : Type 0} (ssl : OpenSsl Cert Key Name Time Extension)
    (law : IsOpenSsl ssl) (moment : ℕ) where
  abbrev Seen : Type 0
  Seen = Fields Key Name Time Extension

  -- From a builder that shows one thing to a builder that shows another.
  abbrev Shows : (Seen → Seen → Type 0) → {A : Type 0} → Cert → A → Cert → Type 0
  Shows R b a c = R (law.view b) (law.view c)

  abbrev HasSerial : Seen → Seen → Type 0
  HasSerial v v' = (n : Str) × (v' ≡ record v { serial = n; signer = none })

  set_serial-Returns : (b : Cert) → Returns (Shows HasSerial b) (set_serial ssl moment b)
  unfolding set_serial
  set_serial-Returns b =
      explain-Returns (Shows HasSerial b) _ b _ _
        λ n e. last-Returns (Shows HasSerial b) _ b _ λ c e'. (n, law.serial_law n b c e')

  abbrev IsValid : Seen → Seen → Type 0
  IsValid v v' =
      (t u : Time) × (law.seconds u ≡ moment / 1000000000 + 365 * 86400)
      × (v' ≡ record v { not_before = some t; not_after = some u; signer = none })

  set_validity-Returns : (b : Cert) → Returns (Shows IsValid b) (set_validity ssl moment b)
  unfolding set_validity
  set_validity-Returns b = explain-Returns _ _ b _ _ λ t e. explain-Returns _ _ b _ _ λ u e'.
      update-Returns _ _ b _ _ λ c q. last-Returns _ _ c _ λ d q'. (
        t,
        u,
        law.days_law moment 365 u e',
        law.not_after_law u c d q'
            ∙ ap {A = Seen} (λ v. record v { not_after = some u; signer = none })
                (law.not_before_law t b c q),
      )

  abbrev AreNames : Cert → Str → Seen → Seen → Type 0
  AreNames root_cert cn v v' =
      (n : Name) × (law.common_name n ≡ some cn)
      × (v' ≡ record v {
        subject = some n;
        issuer = some (ssl.subject_name root_cert);
        signer = none;
      })

  set_names-Returns :
      (root_cert : Cert) (cn : Str) (b : Cert)
      → Returns (Shows (AreNames root_cert cn) b) (set_names ssl moment root_cert cn b)
  unfolding set_names
  set_names-Returns root_cert cn b = explain-Returns _ _ b _ _ λ n e.
      explain-Returns _ _ b _ _ λ named e'. update-Returns _ _ b _ _ λ c q.
        last-Returns _ _ c _ λ d q'. (
          ssl.build_name named,
          law.name_law cn n named e',
          law.issuer_law (ssl.subject_name root_cert) c d q'
              ∙ ap {A = Seen}
                  (λ v. record v { issuer = some (ssl.subject_name root_cert); signer = none })
                  (law.subject_law (ssl.build_name named) b c q),
        )

  abbrev HasSan : Str → Seen → Seen → Type 0
  HasSan domain v v' =
      (e : Extension) × (law.dns_names e ≡ domain ∷ [])
      × (v' ≡ record v { extensions = v.extensions ++ e ∷ []; signer = none })

  add_san-Returns :
      (root_cert : Cert) (domain : Str) (b : Cert)
      → Returns (Shows (HasSan domain) b) (add_san ssl moment root_cert domain b)
  unfolding add_san
  add_san-Returns root_cert domain b = ask-Returns _ _ b _ _ λ e q.
      last-Returns _ _ b _
        λ c q'. (e, law.dns_law domain root_cert b e q, law.extension_law e b c q')

  abbrev IsKeyed : Key → Key → Seen → Seen → Type 0
  IsKeyed root_key k v v' = v' ≡ record v { pubkey = some k; signer = some root_key }

  set_key-Returns :
      (root_key : Key) (b : Cert)
      → Returns
          (λ k c. IsKeyed root_key k (law.view b) (law.view c))
          (set_key ssl moment root_key b)
  unfolding set_key
  set_key-Returns root_key b = explain-Returns _ _ b _ _ λ rsa e. explain-Returns _ _ b _ _ λ k e'.
      update-Returns _ _ b _ _ λ c q. update-Returns _ _ c _ _ λ d q'.
        law.sign_law root_key (codes "sha256") c d q'
        ∙ ap {A = Seen} (λ v. record v { signer = some root_key }) (law.pubkey_law k b c q)

  -- A certificate and its key, as they are written: the key is the certificate's, the root signed
  -- it, it is for the domain under this common name, and ends 365 days after the moment.
  pub record IsMade (root_cert : Cert) (root_key : Key) (cn domain : Str) (pair : Str × Str)
      : Type 0 where
    pub cert : Cert
    pub key : Key
    pub subject : Name
    pub san : Extension
    pub until : Time
    pub der : ssl.to_der cert ≡ ok pair.0
    pub pkcs8 : ssl.private_key_to_pkcs8 key ≡ ok pair.1
    pub has_key : (law.view cert).pubkey ≡ some key
    pub is_signed : (law.view cert).signer ≡ some root_key
    pub has_issuer : (law.view cert).issuer ≡ some (ssl.subject_name root_cert)
    pub has_subject : (law.view cert).subject ≡ some subject
    pub is_named : law.common_name subject ≡ some cn
    pub has_san : (law.view cert).extensions ≡ san ∷ []
    pub is_for : law.dns_names san ≡ domain ∷ []
    pub has_until : (law.view cert).not_after ≡ some until
    pub lasts : law.seconds until ≡ moment / 1000000000 + 365 * 86400

  fill-Returns :
      (root_cert : Cert) (root_key : Key) (cn domain : Str) (b : Cert)
      → (law.view b).extensions ≡ []
      → Returns
          (λ pair c. IsMade root_cert root_key cn domain pair)
          (fill ssl moment root_cert root_key cn domain b)
  unfolding fill
  fill-Returns root_cert root_key cn domain b0 new = update-Returns _ _ b0 _ _ λ b1 q1.
      then-Returns _ (Shows HasSerial b1) _ _ (set_serial-Returns b1) λ _ b2 (n, q2).
        then-Returns _ (Shows IsValid b2) _ _ (set_validity-Returns b2) λ _ b3 (t, u, days, q3).
          then-Returns _ (Shows (AreNames root_cert cn) b3) _ _ (set_names-Returns root_cert cn b3)
            λ _ b4 (name, named, q4).
              then-Returns _ (Shows (HasSan domain) b4) _ _ (add_san-Returns root_cert domain b4)
                λ _ b5 (e, dns, q5).
                  then-Returns _ (λ k c. IsKeyed root_key k (law.view b5) (law.view c)) _ _
                    (set_key-Returns root_key b5)
                    λ k b6 q6. ask-Returns _ _ b6 _ _ λ cert_der der.
                      explain-Returns _ _ b6 _ _ λ key_der pkcs8.
                        let q1 = law.version_law 2 b0 b1 q1 in
                        record {
                          cert = ssl.build b6;
                          key = k;
                          subject = name;
                          san = e;
                          until = u;
                          der = der;
                          pkcs8 = pkcs8;
                          has_key = rw (law.build_law b6, q6) refl;
                          is_signed = rw (law.build_law b6, q6) refl;
                          has_issuer = rw (law.build_law b6, q6, q5, q4) refl;
                          has_subject = rw (law.build_law b6, q6, q5, q4) refl;
                          is_named = named;
                          has_san = rw (law.build_law b6, q6, q5, q4, q3, q2, q1, new) refl;
                          is_for = dns;
                          has_until = rw (law.build_law b6, q6, q5, q4, q3) refl;
                          lasts = days;
                        }

  -- Made with the root certificate and key that two files hold.
  pub record IsRooted (cert_path key_path cn domain : Str) (pair : Str × Str) : Type 0 where
    pub cert_data : Str
    pub key_data : Str
    pub root_cert : Cert
    pub root_key : Key
    pub read_cert : ssl.read cert_path ≡ ok cert_data
    pub read_key : ssl.read key_path ≡ ok key_data
    pub parsed_cert : ssl.from_pem cert_data ≡ ok root_cert
    pub parsed_key : ssl.private_key_from_pem key_data ≡ ok root_key
    pub made : IsMade root_cert root_key cn domain pair

  from_files-Returns :
      (cert_path key_path cn domain : Str)
      → Returns
          (λ pair _. IsRooted cert_path key_path cn domain pair)
          (from_files ssl moment cert_path key_path cn domain tt)
  unfolding from_files
  from_files-Returns cert_path key_path cn domain = explain-Returns _ _ tt _ _ λ cert_data e.
      explain-Returns _ _ tt _ _ λ key_data e'. explain-Returns _ _ tt _ _ λ root_cert q.
        explain-Returns _ _ tt _ _ λ root_key q'. explain-Returns _ _ tt _ _ λ b new.
          lift-Returns (IsRooted cert_path key_path cn domain) _ _
            (fill ssl moment root_cert root_key cn domain b)
            (fill-Returns root_cert root_key cn domain b (law.new_law b new))
            λ pair made. record {
              cert_data = cert_data;
              key_data = key_data;
              root_cert = root_cert;
              root_key = root_key;
              read_cert = e;
              read_key = e';
              parsed_cert = q;
              parsed_key = q';
              made = made;
            }

  -- Where openssl does what it documents, a certificate and key that are made are those of the
  -- root in the two files, for this common name and domain, for 365 days from the moment.
  pub make_cert-IsRooted :
      (cert_path key_path cn domain : Str) (pair : Str × Str)
      → make_cert ssl moment cert_path key_path cn domain ≡ ok pair
      → IsRooted cert_path key_path cn domain pair
  unfolding make_cert
  make_cert-IsRooted cert_path key_path cn domain pair e =
      Returns-ok (λ pair _. IsRooted cert_path key_path cn domain pair) _ pair e
        (from_files-Returns cert_path key_path cn domain)
