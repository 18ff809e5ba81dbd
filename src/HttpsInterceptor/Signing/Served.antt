-- ===== src/HttpsInterceptor/Signing/Served.antt =====
-- The certificates that `get_or_generate_cert` of src/https_interceptor.rs gives, made by openssl.
use mathlib.Core.Path.{subst}
use bifrost_core.Prelude.{
  zero, suc, ◌≤◌, refl, sym, ap, ◌∙◌, [], ◌∷◌, take, length, ltb, Bool-cases, inl, inr, ℕ, Bool,
  ◌/◌, ◌<◌, ◌≡◌, some, arith,
}
use bifrost_core.Prelude.Exec.{Outcome, ok}
use bifrost_core.Prelude.Text.{Str}
use bifrost_core.Store.{Store, Config}
use bifrost_core.Global.{Global}
use bifrost_core.HttpsInterceptor.{CachedCert, CertCache, Tls, cn_value, get_or_generate_cert}
use bifrost_core.HttpsInterceptor.Certs.{
  IsIssued, AreIssued, IsAnswer, get_or_generate_cert-IsAnswer,
}
use bifrost_core.HttpsInterceptor.Signing.{OpenSsl, make_cert, tls_of}
use bifrost_core.HttpsInterceptor.Signing.Laws.{IsOpenSsl}
use bifrost_core.HttpsInterceptor.Signing.Certificate.{IsRooted, make_cert-IsRooted}

take-all : (n : ℕ) (s : Str) → length s ≤ n → take n s ≡ s
take-all zero [] h = refl
take-all zero (c ∷ s) h = ground arith
take-all (suc n) [] h = refl
take-all (suc n) (c ∷ s) h = ap (λ r. c ∷ r) (take-all n s (omega arith))

cn_value-take : (domain : Str) → cn_value domain ≡ take 64 domain
unfolding cn_value
cn_value-take domain = elim (Bool-cases (ltb 64 (length domain))) [
  | inl e ↦ rw e refl
  | inr e ↦ rw e (sym (take-all 64 domain (ground arith)))
]

answer_of :
    (tls : Tls) (config : Config) (domain : Str) (g : Global) (cache : CertCache) (c : CachedCert)
    (r : Outcome CachedCert × (Global × CertCache))
    → r.0 ≡ ok c
    → IsAnswer tls config domain g cache r
    → IsIssued tls config domain c × (g.clock < c.expiry)
answer_of tls config domain g cache c r e h =
    let (issued, valid, _, _, _) = subst (λ o. IsAnswer tls config domain g cache (o, r.1)) e h in
    (issued, valid)

module _ {Cert Key Name Time Extension : Type 0} (ssl : OpenSsl Cert Key Name Time Extension)
    (law : IsOpenSsl ssl) (with_single_cert : Str → Str → Outcome (Unit {0}))
    (connect : Str → Bool) where
  abbrev pub tls : Tls
  tls = tls_of ssl with_single_cert connect

  -- Made for the domain with the root of the configuration, and not past its end at a time.
  abbrev pub IsCertified : Config → Str → ℕ → CachedCert → Type 0
  IsCertified config domain now c =
      (moment : ℕ) × (made : IsRooted ssl law moment config.cert_path config.key_path
        (take 64 domain) domain (c.cert, c.key))
      × (now / 1000000000 < law.seconds made.made.until)

  IsIssued-IsCertified :
      (config : Config) (domain : Str) (now : ℕ) (c : CachedCert)
      → IsIssued tls config domain c
      → now < c.expiry
      → IsCertified config domain now c
  IsIssued-IsCertified config domain now c (moment, expiry, pair) soon =
      let made =
        make_cert-IsRooted ssl law moment config.cert_path config.key_path (take 64 domain) domain
          (c.cert, c.key)
          (ap (λ cn. make_cert ssl moment config.cert_path config.key_path cn domain)
              (sym (cn_value-take domain))
            ∙ pair) in
      (moment, made, omega (arith, expiry, soon, made.made.lasts))

  -- Where openssl does what it documents, the store is initialised, and the cache has issued
  -- certificates only: a certificate that a call gives, new or from the cache, was signed with the
  -- root key of the configured files, names the root as its issuer and the domain, cut to 64 bytes,
  -- as its subject, is for the whole domain, comes with its own key, and has not reached its end.
  pub get_or_generate_cert-IsCertified :
      (domain : Str) (s : Store) (g : Global) (cache : CertCache) (c : CachedCert)
      → g.context ≡ some s
      → AreIssued tls s.config cache
      → (get_or_generate_cert tls domain (g, cache)).0 ≡ ok c
      → IsCertified s.config domain g.clock c
  get_or_generate_cert-IsCertified domain s g cache c ready good got =
      let (issued, soon) =
        answer_of tls s.config domain g cache c (get_or_generate_cert tls domain (g, cache)) got
          (get_or_generate_cert-IsAnswer tls domain s g ready cache good) in
      IsIssued-IsCertified s.config domain g.clock c issued soon
