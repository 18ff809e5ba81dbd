-- ===== src/HttpsInterceptor/Cache.antt =====
-- The certificate cache of src/https_interceptor.rs, over every request.
use bifrost_core.Prelude.{ℕ, ◌≡◌, Option, some, []}
use bifrost_core.Prelude.Exec.{Exec, Outcome, ok, err, panic, lift, zoom, ◌>>=◌}
use bifrost_core.Prelude.Preserving.{Preserves, >>=-Preserves, if-Preserves}
use bifrost_core.Prelude.Text.{Str}
use bifrost_core.Http.{Request, Reply}
use bifrost_core.Store.{Store, Config}
use bifrost_core.Global.{Global, next_request_id, get_config}
use bifrost_core.HttpsInterceptor.{
  CachedCert, CertCache, Tls, Work, get_or_generate_cert, authority_of, on_authority,
  handle_connect, host_of,
}
use bifrost_core.HttpsInterceptor.Certs.{
  AreIssued, IsAnswer, get_config-is, get_or_generate_cert-IsAnswer,
}

module _ (tls : Tls) (s : Store) where
  -- The store is this one, and the cache has issued certificates only.
  abbrev pub IsKept : Global × CertCache → Type 0
  IsKept (g, cache) = (g.context ≡ some s) × AreIssued tls s.config cache

  answer-IsKept :
      (domain : Str) (g : Global) (cache : CertCache)
      (r : Outcome CachedCert × (Global × CertCache))
      → IsKept (g, cache)
      → IsAnswer tls s.config domain g cache r
      → IsKept (r.1)
  answer-IsKept domain g cache (ok c, (g', cache')) (ready, good) (_, _, _, good', same) =
      (rw same ready, good')
  answer-IsKept domain g cache (err e, (g', cache')) (ready, good) (_, same, same') =
      rw (same, same') (ready, good)
  answer-IsKept domain g cache (panic, (g', cache')) (ready, good) (_, same, same') =
      rw (same, same') (ready, good)

  get_or_generate_cert-IsKept : (domain : Str) → Preserves IsKept (get_or_generate_cert tls domain)
  get_or_generate_cert-IsKept domain (g, cache) (ready, good) =
      answer-IsKept domain g cache (get_or_generate_cert tls domain (g, cache)) (ready, good)
        (get_or_generate_cert-IsAnswer tls domain s g ready cache good)

  on_authority-IsKept :
      (id : ℕ) (c : Config) (auth : Str) → Preserves IsKept (on_authority tls id c auth)
  on_authority-IsKept id c auth =
      if-Preserves IsKept c.enable_https _ _
        (>>=-Preserves IsKept (get_or_generate_cert tls (host_of auth)) _
          (get_or_generate_cert-IsKept (host_of auth))
          (λ cert.
            >>=-Preserves IsKept (lift (tls.with_single_cert cert.cert cert.key)) _ (λ t p. p)
              (λ accepted t p. p)))
        (λ t p. p)

  get_config-IsKept : Preserves IsKept (zoom get_config)
  get_config-IsKept (g, cache) (ready, good) = rw (get_config-is tls [] s g ready) (ready, good)

  next_request_id-IsKept : Preserves IsKept (zoom next_request_id)
  unfolding next_request_id
  next_request_id-IsKept t p = p

  module _ (req : Request) where
    abbrev authority : Exec (Global × CertCache) Str
    authority = lift (authority_of req req.uri.authority)

    abbrev configured : ℕ → Config → Exec (Global × CertCache) (Option Reply × Work)
    configured id c = authority >>= on_authority tls id c

    pub handle_connect-IsKept : Preserves IsKept (handle_connect tls req)
    unfolding handle_connect
    handle_connect-IsKept =
        >>=-Preserves IsKept (zoom next_request_id) (λ id. zoom get_config >>= configured id)
          next_request_id-IsKept
          λ id. >>=-Preserves IsKept (zoom get_config) (configured id) get_config-IsKept λ c.
            >>=-Preserves IsKept authority (on_authority tls id c) (λ t p. p)
              (on_authority-IsKept id c)
