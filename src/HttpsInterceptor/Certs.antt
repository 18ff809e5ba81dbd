-- ===== src/HttpsInterceptor/Certs.antt =====
-- The certificates of src/https_interceptor.rs.
use mathlib.Core.Path.{subst}
use bifrost_core.Prelude.{
  ℕ, ◌+◌, ◌<◌, ◌≡◌, refl, Bool-cases, true, Option, none, some, inl, inr, arith, ltb,
}
use bifrost_core.Prelude.Exec.{Outcome, ok, err, panic}
use bifrost_core.Prelude.Table.{
  get_entry, Entries, Entries-insert_entry, Entries-get_entry, get_entry-insert_entry,
}
use bifrost_core.Prelude.Text.{Str}
use bifrost_core.Store.{Store, Config}
use bifrost_core.Global.{Global, get_config, at_time}
use bifrost_core.HttpsInterceptor.{
  CachedCert, CertCache, cache_duration, Tls, signed, unexpired, generate_cert,
  get_or_generate_cert, issued,
}

-- A certificate that was signed for a domain, an hour before it expires.
abbrev pub IsIssued : Tls → Config → Str → CachedCert → Type 0
IsIssued tls config domain c =
    (moment : ℕ) × (c.expiry ≡ moment + cache_duration)
    × (signed tls config moment domain ≡ ok (c.cert, c.key))

abbrev pub AreIssued : Tls → Config → CertCache → Type 0
AreIssued tls config = Entries (IsIssued tls config)

-- What a request for a certificate gives: one that is issued for the domain and still valid, in a
-- cache that is well-formed again; or the failure of the signing, and no change.
abbrev pub IsAnswer :
    Tls → Config → Str → Global → CertCache → Outcome CachedCert × (Global × CertCache) → Type 0
IsAnswer tls config domain g cache (ok c, (g', cache')) =
    IsIssued tls config domain c
    × (g.clock < c.expiry)
    × (get_entry domain cache' ≡ some c)
    × AreIssued tls config cache'
    × (g' ≡ g)
IsAnswer tls config domain g cache (err e, (g', cache')) =
    (signed tls config g.clock domain ≡ err e) × (cache' ≡ cache) × (g' ≡ g)
IsAnswer tls config domain g cache (panic, (g', cache')) =
    (signed tls config g.clock domain ≡ panic) × (cache' ≡ cache) × (g' ≡ g)

module _ (tls : Tls) (domain : Str) (s : Store) (g : Global) (ready : g.context ≡ some s) where
  pub get_config-is : get_config g ≡ (ok s.config, g)
  unfolding get_config
  get_config-is = rw ready refl

  IsAnswer-generated :
      (cache : CertCache) (r : Outcome (Str × Str))
      → AreIssued tls s.config cache
      → unexpired g.clock (get_entry domain cache) ≡ none
      → signed tls s.config g.clock domain ≡ r
      → IsAnswer tls s.config domain g cache (get_or_generate_cert tls domain (g, cache))
  unfolding get_or_generate_cert generate_cert
  IsAnswer-generated cache (ok pair) good old q =
      let c = issued g.clock pair in
      let is_issued : IsIssued tls s.config domain c = (g.clock, refl, q) in
      rw (old, get_config-is, q)
        (
          is_issued,
          omega arith,
          get_entry-insert_entry domain c cache,
          Entries-insert_entry (IsIssued tls s.config) domain c cache is_issued good,
          refl,
        )
  IsAnswer-generated cache (err e) good old q = rw (old, get_config-is, q) (q, refl, refl)
  IsAnswer-generated cache panic good old q = rw (old, get_config-is, q) (q, refl, refl)

  IsAnswer-cached :
      (cache : CertCache) (c : CachedCert)
      → AreIssued tls s.config cache
      → get_entry domain cache ≡ some c
      → ltb g.clock c.expiry ≡ true
      → IsAnswer tls s.config domain g cache (get_or_generate_cert tls domain (g, cache))
  unfolding get_or_generate_cert
  IsAnswer-cached cache c good hit e =
      rw (hit, e)
        (
          Entries-get_entry (IsIssued tls s.config) domain c cache good hit,
          ground arith,
          hit,
          good,
          refl,
        )

  -- Where the store is initialised and every certificate of the cache was issued for its domain, a
  -- call gives a certificate that was issued for the domain and has not expired, from the cache or
  -- new, or the failure of making one now, which changes nothing; the cache stays well-formed.
  pub get_or_generate_cert-IsAnswer :
      (cache : CertCache)
      → AreIssued tls s.config cache
      → IsAnswer tls s.config domain g cache (get_or_generate_cert tls domain (g, cache))
  get_or_generate_cert-IsAnswer cache good = at (get_entry domain cache) refl
    where
      stale :
          unexpired g.clock (get_entry domain cache) ≡ none
          → IsAnswer tls s.config domain g cache (get_or_generate_cert tls domain (g, cache))
      stale old = IsAnswer-generated cache (signed tls s.config g.clock domain) good old refl

      at :
          (o : Option CachedCert)
          → get_entry domain cache ≡ o
          → IsAnswer tls s.config domain g cache (get_or_generate_cert tls domain (g, cache))
      at none hit = stale (rw hit refl)
      at (some c) hit = elim (Bool-cases (ltb g.clock c.expiry)) [
        | inl e ↦ IsAnswer-cached cache c good hit e
        | inr e ↦ stale (rw (hit, e) refl)
      ]

-- A certificate that was just made, or taken from the cache, is given again until it expires,
-- whatever the signing does then, and that changes nothing.
pub get_or_generate_cert-again :
    (tls later : Tls) (domain : Str) (s : Store) (g g' : Global) (cache cache' : CertCache)
    (c : CachedCert) (time : ℕ)
    → g.context ≡ some s
    → AreIssued tls s.config cache
    → get_or_generate_cert tls domain (g, cache) ≡ (ok c, (g', cache'))
    → time < c.expiry
    → get_or_generate_cert later domain (at_time time g', cache')
      ≡ (ok c, (at_time time g', cache'))
unfolding get_or_generate_cert
get_or_generate_cert-again tls later domain s g g' cache cache' c time ready good got soon =
    let answer : IsAnswer tls s.config domain g cache (ok c, (g', cache')) =
      subst (IsAnswer tls s.config domain g cache) got
        (get_or_generate_cert-IsAnswer tls domain s g ready cache good) in
    let valid : ltb time c.expiry ≡ true = ground arith in
    let (_, _, hit, _, _) = answer in rw (hit, valid) refl
