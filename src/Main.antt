-- ===== src/Main.antt =====
-- src/main.rs: `ProxyServer`. The state is that of the program beside the certificates of the
-- HTTPS interceptor, which the server owns.
pub mod Errors
pub mod Effect
pub mod Cache
pub mod Bounds
mod Tests
use bifrost_core.Prelude.{ℕ, Bool, true, false, Option, none, some, List, [], ◌∷◌, if◌then◌else◌}
use bifrost_core.Prelude.Exec.{Exec, pure, attempt, zoom, ◌>>=◌, ◌>>◌}
use bifrost_core.Prelude.Text.{Str, codes, str_eq}
use bifrost_core.Http.{Request, Reply, connect_method}
use bifrost_core.Global.{Global, init}
use bifrost_core.Plugin.{Plugin}
use bifrost_core.HttpInterceptor.{Network, plain, handle_http}
use bifrost_core.HttpsInterceptor
use bifrost_core.HttpsInterceptor.{CertCache, Tls, Work, nothing}

abbrev error_response : Reply
error_response = plain 500 []

abbrev answered : Option (Option Reply × Work) → Exec (Global × CertCache) (Reply × Work)
answered (some (some response, work)) = pure (response, work)
answered (some (none, work)) = pure (error_response, work)
answered none = pure (error_response, nothing)

-- `ProxyServer::handle_connect`
unfoldable pub handle_connect : Tls → Request → Exec (Global × CertCache) (Reply × Work)
handle_connect tls req = do
  response ← attempt (HttpsInterceptor.handle_connect tls req)
  answered response

abbrev with_nothing : Reply → Exec (Global × CertCache) (Reply × Work)
with_nothing reply = pure (reply, nothing)

unfoldable pub proxy_handler :
    Network → Tls → List (Plugin Global) → Request → Exec (Global × CertCache) (Reply × Work)
unfolding handle_connect
proxy_handler network tls plugins req =
    if str_eq req.method connect_method
    then handle_connect tls req
    else (do reply ← zoom (handle_http network plugins req); with_nothing reply)

-- The command line, as clap yields it.
pub record Args : Type 0 where
  pub port : ℕ
  pub enable_https : Bool
  pub enable_h2 : Bool
  pub max_network_records : ℕ

-- What `main` sets up once the two certificate files are found.
unfoldable pub set_up : Args → Exec Global (Unit {0})
set_up args =
    init args.port (codes "files/root.crt") (codes "files/root.key") args.enable_https
      args.enable_h2 (some args.max_network_records)
