-- ===== src/HttpsInterceptor/Effect.antt =====
-- What src/https_interceptor.rs does to the global state, on every outcome.
use bifrost_core.Prelude.{ℕ, ◌≡◌, refl, Bool-cases, inl, inr, Bool, true, false, Option, none, some}
use bifrost_core.Prelude.Exec.{Exec, Outcome, ok, err, panic, lift, pure, zoom, ◌>>=◌}
use bifrost_core.Prelude.Preserving.{
  Preserves, >>=-Preserves, lift-Preserves, zoom-Preserves, >>=-Ends,
}
use bifrost_core.Prelude.Table.{get_entry}
use bifrost_core.Prelude.Text.{Str}
use bifrost_core.Prelude.Words.{wrapping_add}
use bifrost_core.Http.{Request, Reply}
use bifrost_core.Store.{Store, Config}
use bifrost_core.Global.{Global, next_request_id, get_config}
use bifrost_core.Global.Preserving.{IsAt, get_config-IsAt}
use bifrost_core.Tunnel.{handle_tunnel_proxy}
use bifrost_core.HttpsInterceptor.{
  CachedCert, CertCache, Tls, Work, nothing, intercept, forward, signed, issued, generate_cert,
  keep, or_generate, unexpired, get_or_generate_cert, authority_of, on_authority, handle_connect,
  host_of, tunnelled, address_of, connected, alpn_protocols,
}

-- The task of a tunnel has a given id.
abbrev pub HasId : ℕ → Work → Type 0
HasId n nothing = Unit
HasId n (intercept host protocols) = Unit
HasId n (forward task) = task.request_id ≡ n

abbrev pub ConnectResult : Type 0
ConnectResult = Outcome (Option Reply × Work) × (Global × CertCache)

module _ (s : Store) (n : ℕ) where
  -- Whatever comes of a CONNECT, its id is taken and the store stays; a tunnel gets the id.
  abbrev pub IsConnected : ConnectResult → Type 0
  IsConnected (ok (response, work), t) = HasId n work × IsAt s (wrapping_add n 1) (t.0)
  IsConnected (err e, t) = IsAt s (wrapping_add n 1) (t.0)
  IsConnected (panic, t) = IsAt s (wrapping_add n 1) (t.0)

  abbrev Beside : Global × CertCache → Type 0
  Beside t = IsAt s n (t.0)

module _ (s : Store) (n : ℕ) (tls : Tls) where
  generate_cert-IsAt : (domain : Str) → Preserves (IsAt s n) (generate_cert tls domain)
  unfolding generate_cert
  generate_cert-IsAt domain g =
      >>=-Preserves (IsAt s n) get_config
        (λ c. lift (signed tls c g.clock domain) >>= λ pair. pure (issued g.clock pair))
        (get_config-IsAt s n)
        (λ c.
          >>=-Preserves (IsAt s n) (lift (signed tls c g.clock domain))
            (λ pair. pure (issued g.clock pair))
            (lift-Preserves (IsAt s n) (signed tls c g.clock domain)) (λ pair t p. p))
        g

  or_generate-IsAt :
      (domain : Str) (o : Option CachedCert) → Preserves (Beside s n) (or_generate tls domain o)
  or_generate-IsAt domain (some c) = λ t p. p
  or_generate-IsAt domain none =
      >>=-Preserves (Beside s n) (zoom (generate_cert tls domain)) (keep domain)
        (zoom-Preserves (IsAt s n) (generate_cert tls domain) (generate_cert-IsAt domain))
        (λ c (g, cache) p. p)

  get_or_generate_cert-IsAt :
      (domain : Str) → Preserves (Beside s n) (get_or_generate_cert tls domain)
  unfolding get_or_generate_cert
  get_or_generate_cert-IsAt domain (g, cache) =
      or_generate-IsAt domain (unexpired g.clock (get_entry domain cache)) (g, cache)

module _ (s : Store) (n : ℕ) (tls : Tls) where
  abbrev Next : Global × CertCache → Type 0
  Next = Beside s (wrapping_add n 1)

  Next-stops :
      (t : Global × CertCache)
      → Next t
      → ((e : Str) → IsConnected s n (err e, t)) × IsConnected s n (panic, t)
  Next-stops t p = ((λ e. p), p)

  tunnelled-HasId :
      (reached : Bool) (host : Str) → HasId n (tunnelled (handle_tunnel_proxy reached n host)).1
  unfolding handle_tunnel_proxy
  tunnelled-HasId true host = refl
  tunnelled-HasId false host = tt

  on_authority-IsConnected :
      (c : Config) (auth : Str) (t : Global × CertCache)
      → Next t
      → IsConnected s n (on_authority tls n c auth t)
  on_authority-IsConnected c auth t p = elim (Bool-cases c.enable_https) [
    | inl e ↦ rw e (
        >>=-Ends Next (IsConnected s n) (get_or_generate_cert tls (host_of auth)) intercepted
          (get_or_generate_cert-IsAt s (wrapping_add n 1) tls (host_of auth)) Next-stops
          (λ cert.
            >>=-Ends Next (IsConnected s n) (lift (tls.with_single_cert cert.cert cert.key))
              (λ accepted. answer) (λ t p. p) Next-stops (λ accepted t p. (tt, p)))
          t p)
    | inr e ↦ rw e (tunnelled-HasId (tls.connect (address_of auth)) (host_of auth), p)
  ]
    where
      answer : Exec (Global × CertCache) (Option Reply × Work)
      answer = pure (some connected, intercept (host_of auth) (alpn_protocols c.enable_h2))

      intercepted : CachedCert → Exec (Global × CertCache) (Option Reply × Work)
      intercepted cert = lift (tls.with_single_cert cert.cert cert.key) >>= λ accepted. answer

  pub handle_connect-IsConnected :
      (req : Request) (t : Global × CertCache)
      → Beside s n t
      → IsConnected s n (handle_connect tls req t)
  unfolding handle_connect next_request_id
  handle_connect-IsConnected req (g, cache) (e, k) = rw k (
      >>=-Ends Next (IsConnected s n) (zoom get_config) configured
        (zoom-Preserves (IsAt s (wrapping_add n 1)) get_config
          (get_config-IsAt s (wrapping_add n 1)))
        Next-stops
        (λ c.
          >>=-Ends Next (IsConnected s n) (lift authority) (on_authority tls n c) (λ t p. p)
            Next-stops (on_authority-IsConnected c))
        (record g { request_id_counter = wrapping_add n 1 }, cache) (e, refl))
    where
      authority : Outcome Str
      authority = authority_of req req.uri.authority

      configured : Config → Exec (Global × CertCache) (Option Reply × Work)
      configured c = lift authority >>= on_authority tls n c
