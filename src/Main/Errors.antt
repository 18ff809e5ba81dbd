-- ===== src/Main/Errors.antt =====
-- How src/main.rs answers a CONNECT without interception.
use bifrost_core.Prelude.{
  ℕ, Bool, Option-cases, if◌then◌else◌, [], ◌∷◌, ◌+◌, ◌%◌, ◌≡◌, refl, true, false, Bool-cases,
  Option, none, some, List, inl, inr,
}
use bifrost_core.Prelude.Exec.{ok}
use bifrost_core.Prelude.Text.{Str, codes, str_eq}
use bifrost_core.Prelude.Words.{u64_mod, wrapping_add}
use bifrost_core.Http.{HeaderMap, of_text, Request, Reply, connect_method}
use bifrost_core.Store.{Store}
use bifrost_core.Global.{Global, get_config, next_request_id}
use bifrost_core.Plugin.{Plugin}
use bifrost_core.Tunnel.{handle_tunnel_proxy}
use bifrost_core.HttpInterceptor.{Network}
use bifrost_core.HttpsInterceptor
use bifrost_core.HttpsInterceptor.{CertCache, Tls, Work, nothing, forward, address_of, host_of}
use bifrost_core.Main.{handle_connect, proxy_handler}

abbrev tunnel_headers : HeaderMap
tunnel_headers =
    (codes "connection", of_text (codes "keep-alive"))
    ∷ (codes "proxy-connection", of_text (codes "keep-alive"))
    ∷ (codes "proxy-agent", of_text (codes "bifrost"))
    ∷ []

-- What a CONNECT without interception is due: by whether its URI has an authority, and whether the
-- address of the authority can be reached.
abbrev pub due : (Str → Bool) → ℕ → Option Str → Reply × Work
due reached id none = (record { status = 500; headers = []; body = [] }, nothing)
due reached id (some auth) =
    if reached (address_of auth)
    then (
      record { status = 200; headers = tunnel_headers; body = [] },
      forward (record { request_id = id; host = host_of auth }),
    )
    else (record { status = 502; headers = []; body = [] }, nothing)

-- Without interception, on an initialised store, a CONNECT is answered with 500 where its URI has
-- no authority, with 502 where the address of its authority cannot be reached, and with 200 and the
-- three headers of a tunnel where it can; then and only then there is a tunnel, with the next id and
-- the host of the authority. On every branch an id is taken and nothing else changes: no certificate
-- is made, and nothing is counted or recorded yet.
pub proxy_handler-tunnels :
    (network : Network) (tls : Tls) (plugins : List (Plugin Global)) (req : Request) (s : Store)
    (g : Global) (cache : CertCache)
    → g.context ≡ some s
    → str_eq req.method connect_method ≡ true
    → s.config.enable_https ≡ false
    → proxy_handler network tls plugins req (g, cache) ≡ (
      ok (due tls.connect g.request_id_counter req.uri.authority),
      (record g { request_id_counter = (g.request_id_counter + 1) % u64_mod }, cache),
    )
unfolding proxy_handler handle_connect HttpsInterceptor.handle_connect handle_tunnel_proxy
    get_config next_request_id wrapping_add
proxy_handler-tunnels network tls plugins req s g cache ready connect plain =
    rw (connect, ready)
      (elim (Option-cases req.uri.authority) [
        | inl e ↦ rw e refl
        | inr (auth, e) ↦
            rw (e, plain)
              (elim (Bool-cases (tls.connect (address_of auth))) [
                | inl r ↦ rw r refl
                | inr r ↦ rw r refl
              ])
      ])
