-- ===== src/Main/Effect.antt =====
-- What src/main.rs does to the global state with a request, on every outcome.
use bifrost_core.Prelude.{ℕ, ◌≡◌, Bool-cases, inl, inr, none, some}
use bifrost_core.Prelude.Exec.{Outcome, ok, err, panic, try_of, continue}
use bifrost_core.Prelude.Text.{str_eq}
use bifrost_core.Prelude.Words.{wrapping_add}
use bifrost_core.Http.{Request, Reply, connect_method}
use bifrost_core.Store.{Store}
use bifrost_core.Global.{Global}
use bifrost_core.Global.Preserving.{IsAt}
use bifrost_core.Plugin.Json.{Serde}
use bifrost_core.Plugin.Registry.{registered}
use bifrost_core.HttpInterceptor.{Network, handle_http}
use bifrost_core.HttpInterceptor.Effect.{Effect, numbered, handle_http-Effect}
use bifrost_core.HttpsInterceptor
use bifrost_core.HttpsInterceptor.{CertCache, Tls, Work, nothing, intercept, forward}
use bifrost_core.HttpsInterceptor.Effect.{
  ConnectResult, HasId, IsConnected, handle_connect-IsConnected,
}
use bifrost_core.Main.{handle_connect, proxy_handler, answered, with_nothing, error_response}

module _ (s : Store) (n : ℕ) where
  -- After a request: a tunnel has the id that was next, and the store is as it was; without one,
  -- the request was served without an id, with one, or with a record.
  abbrev pub IsServed : Outcome (Reply × Work) × (Global × CertCache) → Type 0
  IsServed (ok (reply, forward task), t) = (task.request_id ≡ n) × IsAt s (wrapping_add n 1) (t.0)
  IsServed (ok (reply, nothing), t) = Effect s n (t.0)
  IsServed (ok (reply, intercept host protocols), t) = Effect s n (t.0)
  IsServed (err e, t) = Effect s n (t.0)
  IsServed (panic, t) = Effect s n (t.0)

  work-IsServed :
      (reply : Reply) (work : Work) (t : Global × CertCache)
      → HasId n work
      → IsAt s (wrapping_add n 1) (t.0)
      → IsServed (ok (reply, work), t)
  work-IsServed reply nothing t h p = numbered p
  work-IsServed reply (intercept host protocols) t h p = numbered p
  work-IsServed reply (forward task) t h p = (h, p)

  answered-IsServed :
      (r : ConnectResult) → IsConnected s n r → IsServed (continue (try_of (r.0)) answered (r.1))
  answered-IsServed (ok (some reply, work), t) (h, p) = work-IsServed reply work t h p
  answered-IsServed (ok (none, work), t) (h, p) = work-IsServed error_response work t h p
  answered-IsServed (err e, t) p = numbered p
  answered-IsServed (panic, t) p = numbered p

  http-IsServed :
      (r : Outcome Reply × Global) (cache : CertCache)
      → Effect s n (r.1)
      → IsServed (continue (r.0) with_nothing (r.1, cache))
  http-IsServed (ok reply, g) cache p = p
  http-IsServed (err e, g) cache p = p
  http-IsServed (panic, g) cache p = p

  pub proxy_handler-IsServed :
      (network : Network) (tls : Tls) (serde : Serde) (req : Request) (g : Global)
      (cache : CertCache)
      → IsAt s n g
      → IsServed (proxy_handler network tls (registered serde) req (g, cache))
  unfolding proxy_handler handle_connect
  proxy_handler-IsServed network tls serde req g cache p =
      elim (Bool-cases (str_eq req.method connect_method)) [
        | inl e ↦ rw e (
            answered-IsServed (HttpsInterceptor.handle_connect tls req (g, cache))
              (handle_connect-IsConnected s n tls req (g, cache) p))
        | inr e ↦ rw e (
            http-IsServed (handle_http network (registered serde) req g) cache
              (handle_http-Effect s n network serde req g p))
      ]
