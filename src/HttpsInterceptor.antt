-- ===== src/HttpsInterceptor.antt =====
-- src/https_interceptor.rs: a CONNECT request, which becomes a tunnel or is decrypted with a
-- certificate made for its host. What openssl, rustls and the file system do is `Tls`.
pub mod Certs
pub mod Cache
pub mod Signing
pub mod Address
pub mod Effect
mod Tests
use bifrost_core.Prelude.{
  ℕ, ◌+◌, Bool, true, false, not, Option, none, some, List, [], ◌∷◌, ◌++◌, length, take, ltb,
  if◌then◌else◌,
}
use bifrost_core.Prelude.Exec.{Outcome, Exec, ok, err, panic, pure, lift, zoom, ◌>>=◌}
use bifrost_core.Prelude.Table.{get_entry, insert_entry}
use bifrost_core.Prelude.Text.{Str, codes, contains, split, str_eq}
use bifrost_core.Http.{of_text, Uri, Request, Reply}
use bifrost_core.Store.{Config}
use bifrost_core.Global.{Global, get_config, next_request_id}
use bifrost_core.Tunnel.{Task, handle_tunnel_proxy}

-- `expiry` is in nanoseconds since the epoch.
pub record CachedCert : Type 0 where
  pub cert : Str
  pub key : Str
  pub expiry : ℕ

abbrev pub CertCache : Type 0
CertCache = List (Str × CachedCert)

-- One hour.
abbrev pub cache_duration : ℕ
cache_duration = 3600000000000

-- `sign` makes a certificate and its key: at a moment (which stands for the time and the serial
-- number drawn then), with the root certificate and key of two paths, for a common name and a
-- domain. `with_single_cert` accepts a certificate and its key or not. `connect` tells whether an
-- address can be reached.
pub record Tls : Type 0 where
  pub sign : ℕ → Str → Str → Str → Str → Outcome (Str × Str)
  pub with_single_cert : Str → Str → Outcome (Unit {0})
  pub connect : Str → Bool

-- The common name of a long domain is cut.
unfoldable pub cn_value : Str → Str
cn_value domain = if ltb 64 (length domain) then take 64 domain else domain

abbrev pub signed : Tls → Config → ℕ → Str → Outcome (Str × Str)
signed tls config moment domain =
    tls.sign moment config.cert_path config.key_path (cn_value domain) domain

abbrev issued : ℕ → Str × Str → CachedCert
issued now (cert, key) = record { cert = cert; key = key; expiry = now + cache_duration }

unfoldable pub generate_cert : Tls → Str → Exec Global CachedCert
unfolding cn_value
generate_cert tls domain g =
    (do
      config ← get_config
      pair ← lift (signed tls config g.clock domain)
      pure (issued g.clock pair))
      g

abbrev pub unexpired : ℕ → Option CachedCert → Option CachedCert
unexpired now none = none
unexpired now (some c) = if ltb now c.expiry then some c else none

-- `cache.insert(domain.to_string(), cert.clone())`
abbrev keep : Str → CachedCert → Exec (Global × CertCache) CachedCert
keep domain c (g, cache) = (ok c, (g, insert_entry domain c cache))

abbrev or_generate : Tls → Str → Option CachedCert → Exec (Global × CertCache) CachedCert
or_generate tls domain (some c) = pure c
or_generate tls domain none = do c ← zoom (generate_cert tls domain); keep domain c

unfoldable pub get_or_generate_cert : Tls → Str → Exec (Global × CertCache) CachedCert
unfolding generate_cert
get_or_generate_cert tls domain (g, cache) =
    or_generate tls domain (unexpired g.clock (get_entry domain cache)) (g, cache)

-- What the connection is used for after the answer: `intercept` terminates TLS for a host with the
-- given protocols, and every request on it goes to `handle_http`.
pub data Work : Type 0 where
  nothing : Work
  intercept : Str → List Str → Work
  forward : Task → Work

abbrev is_h2 : Option Str → Bool
is_h2 none = false
is_h2 (some protocol) = str_eq protocol (codes "h2")

-- The task that `intercept` stands for: the client is upgraded or not, then the TLS handshake fails
-- or yields the protocol that was negotiated, if any. What comes back is whether the connection is
-- served by HTTP/2.
unfoldable pub handshake : Bool → Outcome (Option Str) → Option Bool
handshake false accepted = none
handshake true (ok protocol) = some (is_h2 protocol)
handshake true (err e) = none
handshake true panic = none

-- `addr`, with the port of TLS if the authority has no colon
unfoldable pub address_of : Str → Str
address_of auth = if not (contains auth (codes ":")) then auth ++ codes ":443" else auth

abbrev first_part : List Str → Str → Str
first_part [] auth = auth
first_part (part ∷ rest) auth = part

unfoldable pub host_of : Str → Str
host_of auth = first_part (split b':' auth) auth

abbrev pub authority_of : Request → Option Str → Outcome Str
authority_of req none = err (codes "Invalid CONNECT request")
authority_of req (some auth) = ok auth

abbrev pub alpn_protocols : Bool → List Str
alpn_protocols true = codes "h2" ∷ codes "http/1.1" ∷ []
alpn_protocols false = codes "http/1.1" ∷ []

abbrev pub connected : Reply
connected = record {
  status = 200;
  headers =
      (codes "connection", of_text (codes "keep-alive"))
      ∷ (codes "proxy-connection", of_text (codes "keep-alive"))
      ∷ [];
  body = [];
}

abbrev of_task : Option Task → Work
of_task none = nothing
of_task (some task) = forward task

abbrev tunnelled : Reply × Option Task → Option Reply × Work
tunnelled (reply, task) = (some reply, of_task task)

abbrev pub on_authority : Tls → ℕ → Config → Str → Exec (Global × CertCache) (Option Reply × Work)
on_authority tls request_id config auth =
    if config.enable_https
    then (do
      c ← get_or_generate_cert tls (host_of auth)
      accepted ← lift (tls.with_single_cert c.cert c.key)
      pure (some connected, intercept (host_of auth) (alpn_protocols config.enable_h2)))
    else pure
        (tunnelled (handle_tunnel_proxy (tls.connect (address_of auth)) request_id (host_of auth)))

unfoldable pub handle_connect : Tls → Request → Exec (Global × CertCache) (Option Reply × Work)
unfolding get_or_generate_cert address_of host_of
handle_connect tls req = do
  request_id ← zoom next_request_id
  config ← zoom get_config
  auth ← lift (authority_of req req.uri.authority)
  on_authority tls request_id config auth
