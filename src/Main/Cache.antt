-- ===== src/Main/Cache.antt =====
-- The certificate cache over a request that src/main.rs handles.
use bifrost_core.Prelude.{Bool-cases, inl, inr, Option, none, some, List}
use bifrost_core.Prelude.Exec.{Outcome, ok, err, panic, attempt, continue}
use bifrost_core.Prelude.Preserving.{Preserves, >>=-Preserves, attempt-Preserves}
use bifrost_core.Prelude.Text.{str_eq}
use bifrost_core.Http.{Request, Reply, connect_method}
use bifrost_core.Store.{Store}
use bifrost_core.Global.{Global}
use bifrost_core.Plugin.{Plugin}
use bifrost_core.HttpInterceptor.{Network, handle_http}
use bifrost_core.HttpsInterceptor
use bifrost_core.HttpsInterceptor.{CertCache, Tls, Work}
use bifrost_core.HttpsInterceptor.Certs.{AreIssued}
use bifrost_core.HttpsInterceptor.Cache.{IsKept, handle_connect-IsKept}
use bifrost_core.Main.{handle_connect, answered, with_nothing, proxy_handler}

module _ (tls : Tls) (s : Store) where
  answered-IsKept : (o : Option (Option Reply × Work)) → Preserves (IsKept tls s) (answered o)
  answered-IsKept (some (some reply, work)) t p = p
  answered-IsKept (some (none, work)) t p = p
  answered-IsKept none t p = p

  http-AreIssued :
      (r : Outcome Reply × Global) (cache : CertCache)
      → AreIssued tls s.config cache
      → AreIssued tls s.config (continue r.0 with_nothing (r.1, cache)).1.1
  http-AreIssued (ok reply, g) cache p = p
  http-AreIssued (err e, g) cache p = p
  http-AreIssued (panic, g) cache p = p

  pub proxy_handler-AreIssued :
      (network : Network) (plugins : List (Plugin Global)) (req : Request) (g : Global)
      (cache : CertCache)
      → IsKept tls s (g, cache)
      → AreIssued tls s.config (proxy_handler network tls plugins req (g, cache)).1.1
  unfolding proxy_handler handle_connect
  proxy_handler-AreIssued network plugins req g cache p =
      elim (Bool-cases (str_eq req.method connect_method)) [
        | inl e ↦
            rw e
              (>>=-Preserves (IsKept tls s) (attempt (HttpsInterceptor.handle_connect tls req))
                answered
                (attempt-Preserves (IsKept tls s) (HttpsInterceptor.handle_connect tls req)
                  (handle_connect-IsKept tls s req))
                answered-IsKept (g, cache) p).1
        | inr e ↦ rw e (http-AreIssued (handle_http network plugins req g) cache p.1)
      ]
