-- ===== src/Main/Bounds.antt =====
-- Over any sequence of requests src/main.rs keeps the configuration and the limit on the records.
use mathlib.Core.Path.{subst}
use bifrost_core.Prelude.{ℕ, ◌≡◌, refl, some, List, [], ◌∷◌, arith, length, ◌≤◌}
use bifrost_core.Prelude.Exec.{Outcome, ok, err, panic}
use bifrost_core.Prelude.Text.{codes}
use bifrost_core.Http.{Request, Reply}
use bifrost_core.Store.{Store, Config, new_store}
use bifrost_core.Store.Window.{window}
use bifrost_core.Store.Bounds.{IsWithin, add_network_record-IsWithin, update-IsWithin}
use bifrost_core.Global.{Global, start, at_time, init}
use bifrost_core.Global.Preserving.{Holds}
use bifrost_core.Plugin.{Plugin}
use bifrost_core.Plugin.Json.{Serde}
use bifrost_core.Plugin.NetStorage.{new_record, set_sending}
use bifrost_core.Plugin.NetStorage.Lifecycle.{after_request}
use bifrost_core.Plugin.Registry.{registered, counting}
use bifrost_core.Plugin.TrafficStats.{count_start}
use bifrost_core.HttpInterceptor.{Network}
use bifrost_core.HttpInterceptor.Effect.{Effect, unseen, numbered, counted}
use bifrost_core.HttpsInterceptor.{CertCache, Tls, Work, nothing, intercept, forward}
use bifrost_core.Main.{proxy_handler, Args, set_up}
use bifrost_core.Main.Effect.{IsServed, proxy_handler-IsServed}

-- The state after requests, each at its time, one after another; what the answers are is dropped.
unfoldable pub serve :
    Network
    → Tls
    → List (Plugin Global)
    → List (ℕ × Request)
    → Global × CertCache
    → Global × CertCache
unfolding proxy_handler
serve network tls plugins [] t = t
serve network tls plugins ((time, req) ∷ rest) (g, cache) =
    serve network tls plugins rest (proxy_handler network tls plugins req (at_time time g, cache)).1

abbrev pub config_of : Args → Config
config_of args = record {
  port = args.port;
  cert_path = codes "files/root.crt";
  key_path = codes "files/root.key";
  enable_https = args.enable_https;
  enable_h2 = args.enable_h2;
  max_network_records = args.max_network_records;
}

module _ (config : Config) (network : Network) (tls : Tls) (serde : Serde) where
  after_request-IsWithin :
      (now id : ℕ) (req : Request) (s : Store)
      → IsWithin config s
      → IsWithin config (after_request now id req (counting count_start s))
  after_request-IsWithin now id req s h =
      update-IsWithin config id set_sending _
        (add_network_record-IsWithin config (new_record now id req) (counting count_start s) h)

  Effect-AreWithin :
      (s : Store) (n : ℕ) (g : Global)
      → IsWithin config s
      → Effect s n g
      → Holds (IsWithin config) g
  Effect-AreWithin s n g h (unseen (e, k)) = (s, e, h)
  Effect-AreWithin s n g h (numbered (e, k)) = (s, e, h)
  Effect-AreWithin s n g h (counted now req (e, k)) = (_, e, after_request-IsWithin now n req s h)

  served-AreWithin :
      (s : Store) (n : ℕ) (r : Outcome (Reply × Work) × (Global × CertCache))
      → IsWithin config s
      → IsServed s n r
      → Holds (IsWithin config) (r.1.0)
  served-AreWithin s n (ok (reply, nothing), t) h p = Effect-AreWithin s n (t.0) h p
  served-AreWithin s n (ok (reply, intercept host protocols), t) h p =
      Effect-AreWithin s n (t.0) h p
  served-AreWithin s n (ok (reply, forward task), t) h (_, (e, k)) = (s, e, h)
  served-AreWithin s n (err e, t) h p = Effect-AreWithin s n (t.0) h p
  served-AreWithin s n (panic, t) h p = Effect-AreWithin s n (t.0) h p

  serve-AreWithin :
      (reqs : List (ℕ × Request)) (t : Global × CertCache)
      → Holds (IsWithin config) (t.0)
      → Holds (IsWithin config) (serve network tls (registered serde) reqs t).0
  unfolding serve
  serve-AreWithin [] t p = p
  serve-AreWithin ((time, req) ∷ rest) (g, cache) (s, e, h) =
      let now = at_time time g in
      serve-AreWithin rest (proxy_handler network tls (registered serde) req (now, cache)).1 (
        served-AreWithin s g.request_id_counter _ h
          (proxy_handler-IsServed s g.request_id_counter network tls serde req now cache (e, refl)))

set_up-AreWithin :
    (args : Args) (clock : ℕ) → Holds (IsWithin (config_of args)) (set_up args (start clock)).1
unfolding set_up init new_store
set_up-AreWithin args clock = (_, refl, (refl, omega arith))

-- From the set-up on, with the registered plugins and requests that are handled one after another,
-- whatever the network, the requests and their times are, the store stays initialised with the
-- configuration of the command line, and never has more records than the limit (one, where the
-- limit is 0).
pub serve-IsWithin :
    (args : Args) (clock : ℕ) (network : Network) (tls : Tls) (serde : Serde)
    (reqs : List (ℕ × Request))
    → let g = (serve network tls (registered serde) reqs ((set_up args (start clock)).1, [])).0 in
      (s : Store) × (g.context ≡ some s)
      × (s.config ≡ config_of args)
      × (length s.network_records ≤ window args.max_network_records)
serve-IsWithin args clock network tls serde reqs =
    let (s, e, (same, within)) =
      serve-AreWithin (config_of args) network tls serde reqs ((set_up args (start clock)).1, [])
        (set_up-AreWithin args clock) in
    (s, e, same, subst (λ c. length s.network_records ≤ window c.max_network_records) same within)
