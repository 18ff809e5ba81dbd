-- ===== src/Plugin/Registry/Effect.antt =====
-- What the registered plugins do to the global state when a request comes.
use mathlib.Core.List.{reverse}
use bifrost_core.Prelude.{
  ℕ, ◌≡◌, refl, true, false, some, if◌then◌else◌, Bool-cases, inl, inr, none, take, [], ◌∷◌,
}
use bifrost_core.Prelude.Exec.{Exec, ok, pure, lift, ◌>>=◌}
use bifrost_core.Prelude.Preserving.{
  Preserves, >>=-Preserves, if-Preserves, lift-Preserves, Reaches, >>=-Reaches, if-Reaches,
}
use bifrost_core.Prelude.Text.{Str, codes, str_eq}
use bifrost_core.Http.{Request, options_method}
use bifrost_core.Store.{Store, Config}
use bifrost_core.Global.{Global, on_store, get_config}
use bifrost_core.Global.Preserving.{IsAt, on_store-IsAt, get_config-IsAt}
use bifrost_core.Plugin.{Verdict}
use bifrost_core.Plugin.Json.{Serde, Value}
use bifrost_core.Plugin.Manager
use bifrost_core.Plugin.NetStorage.{net_storage}
use bifrost_core.Plugin.NetStorage.Effects.{with_store}
use bifrost_core.Plugin.NetStorage.Lifecycle.{after_request, handle_request-ready}
use bifrost_core.Plugin.TrafficStats.{handle_start, count_start, traffic_stats}
use bifrost_core.Plugin.BifrostServer
use bifrost_core.Plugin.BifrostServer.{
  options_reply, config_json, array_of, stats_json, collect, get_host, is_bifrost_host, wrapped,
  route, host_server, handle_config, handle_get_record, handle_traffic_stats, bifrost_server,
}
use bifrost_core.Plugin.Registry.{registered, counting}

module _ (serde : Serde) (s : Store) (n : ℕ) where
  wrapped-IsAt :
      (handler : Exec Global Value)
      → Preserves (IsAt s n) handler
      → Preserves (IsAt s n) (wrapped serde handler)
  unfolding wrapped
  wrapped-IsAt handler h g p = h g p

  handle_config-IsAt : Preserves (IsAt s n) (wrapped serde handle_config)
  unfolding wrapped handle_config
  handle_config-IsAt =
      >>=-Preserves (IsAt s n) get_config (λ c. pure (config_json c)) (get_config-IsAt s n)
        (λ c g p. p)

  handle_get_record-IsAt : Preserves (IsAt s n) (wrapped serde (handle_get_record serde))
  unfolding wrapped handle_get_record
  handle_get_record-IsAt =
      >>=-Preserves (IsAt s n) (on_store (λ s. (ok s.network_records, s)))
        (λ records. lift (array_of (collect serde (take 10 (reverse records)))))
        (on_store-IsAt s n (λ s. ok s.network_records)) (λ records g p. p)

  handle_traffic_stats-IsAt : Preserves (IsAt s n) (wrapped serde (handle_traffic_stats serde))
  unfolding wrapped handle_traffic_stats
  handle_traffic_stats-IsAt =
      >>=-Preserves (IsAt s n) (on_store (λ s. (ok s.traffic_stats, s)))
        (λ stats. pure (stats_json serde stats)) (on_store-IsAt s n (λ s. ok s.traffic_stats))
        (λ stats g p. p)

  route-IsAt : (path : Str) → Preserves (IsAt s n) (route serde path)
  unfolding route
  route-IsAt path g p = elim (Bool-cases (str_eq path (codes "/"))) [
    | inl a ↦ rw a p
    | inr a ↦ elim (Bool-cases (str_eq path (codes "/config"))) [
      | inl b ↦ rw (a, b) (handle_config-IsAt g p)
      | inr b ↦ elim (Bool-cases (str_eq path (codes "/get_record"))) [
        | inl c ↦ rw (a, b, c) (handle_get_record-IsAt g p)
        | inr c ↦ elim (Bool-cases (str_eq path (codes "/traffic_stats"))) [
          | inl d ↦ rw (a, b, c, d) (handle_traffic_stats-IsAt g p)
          | inr d ↦ rw (a, b, c, d) p
        ]
      ]
    ]
  ]

  host_server-IsAt : (req : Request) → Preserves (IsAt s n) (host_server serde req)
  unfolding host_server
  host_server-IsAt req =
      if-Preserves (IsAt s n) (str_eq req.method options_method) (pure options_reply)
        (route serde req.uri.path) (λ g p. p) (route-IsAt req.uri.path)

  server-IsAt : (req : Request) → Preserves (IsAt s n) (BifrostServer.handle_request serde req)
  unfolding BifrostServer.handle_request
  server-IsAt req =
      >>=-Preserves (IsAt s n) get_config (λ c. lift (get_host req) >>= λ host. answer_at c host)
        (get_config-IsAt s n)
        (λ c.
          >>=-Preserves (IsAt s n) (lift (get_host req)) (answer_at c)
            (lift-Preserves (IsAt s n) (get_host req))
            (λ host.
              if-Preserves (IsAt s n) (is_bifrost_host host c.port)
                (host_server serde req >>= λ response. pure (false, some response))
                (pure (true, none))
                (>>=-Preserves (IsAt s n) (host_server serde req)
                  (λ response. pure (false, some response)) (host_server-IsAt req)
                  (λ response g p. p))
                (λ g p. p)))
    where
      answer_at : Config → Str → Exec Global Verdict
      answer_at c host =
          if is_bifrost_host host c.port
          then (do response ← host_server serde req; pure (false, some response))
          else pure (true, none)

-- What the plugins do with a request of an id: they leave the store as it is, or they count the
-- request and add its record.
pub data Taken (id : ℕ) (s : Store) (n : ℕ) (g : Global) : Type 0 where
  kept : IsAt s n g → Taken id s n g
  added :
      (now : ℕ) (req : Request)
      → IsAt (after_request now id req (counting count_start s)) n g
      → Taken id s n g

module _ (serde : Serde) (id : ℕ) (s : Store) (n : ℕ) where
  counted-passes :
      (g : Global) (req : Request)
      → g.context ≡ some s
      → Manager.handle_request (traffic_stats ∷ net_storage ∷ []) id (g, req) ≡ (
        ok (true, none),
        (with_store g (after_request g.clock id req (counting count_start s)), req),
      )
  unfolding Manager.handle_request handle_start
  counted-passes g req ready =
      let counted = with_store g (counting count_start s) in
      rw ready (rw (handle_request-ready id req (counting count_start s) counted refl) refl)

  counted-Taken :
      Reaches
        (λ (t : Global × Request). IsAt s n t.0)
        (λ t. Taken id s n t.0)
        (Manager.handle_request (traffic_stats ∷ net_storage ∷ []) id)
  counted-Taken (g, req) (ready, k) = rw (counted-passes g req ready) (added g.clock req (refl, k))

  pub registered-Taken :
      Reaches
        (λ (t : Global × Request). IsAt s n t.0)
        (λ t. Taken id s n t.0)
        (Manager.handle_request (registered serde) id)
  unfolding registered Manager.register_plugin Manager.handle_request
  registered-Taken =
      >>=-Reaches (λ t. IsAt s n t.0) (λ t. IsAt s n t.0) (λ t. Taken id s n t.0)
        ((bifrost_server serde).handle_request id)
        (λ verdict. if verdict.0 then others else pure (false, verdict.1))
        (λ (g, req) p. server-IsAt serde s n req g p) (λ t p. kept p)
        (λ (verdict : Verdict).
          if-Reaches (λ t. IsAt s n t.0) (λ t. Taken id s n t.0) verdict.0 others
            (pure (false, verdict.1)) counted-Taken (λ t p. kept p))
    where
      others : Exec (Global × Request) Verdict
      others = Manager.handle_request (traffic_stats ∷ net_storage ∷ []) id
