-- ===== src/Tunnel/Balance.antt =====
-- The tunnel with the plugins that the program registers: what it counts.
use bifrost_core.Prelude.{ℕ, ◌<◌, ◌≡◌, refl, ap, ◌∙◌, Bool, true, none, some, List, length, arith}
use bifrost_core.Prelude.Exec.{ok, attempt, >>=-ok}
use bifrost_core.Prelude.Text.{Str}
use bifrost_core.Prelude.Words.{u64_mod, wrapping_add, wrapping_sub, wrapping_sub-wrapping_add}
use bifrost_core.Http.{Request}
use bifrost_core.Store.{Store, update_network_record_by_id}
use bifrost_core.Store.Update.{traffic_stats-update}
use bifrost_core.Global.{Global}
use bifrost_core.Plugin.{DataDirection, upstream, downstream}
use bifrost_core.Plugin.Manager
use bifrost_core.Plugin.Json.{Serde}
use bifrost_core.Plugin.NetStorage.{record_data, record_close}
use bifrost_core.Plugin.NetStorage.Effects.{with_store}
use bifrost_core.Plugin.TrafficStats.{count_start, count_end, count_data}
use bifrost_core.Plugin.Registry.{
  registered, counting, handle_connect-registered, handle_connect_close-registered,
  handle_data-registered,
}
use bifrost_core.Tunnel.{
  Event, Progress, going, stopped, Turn, run_loop, start_loop, closing, handle_tunnel,
}
use bifrost_core.Tunnel.Steps.{steps, IsSteady, run_loop-steps}

-- An initialised store with these counts of requests: open ones, and all so far.
pub record HasCounts (open_requests total : ℕ) (g : Global) : Type 0 where
  pub store : Store
  pub ready : g.context ≡ some store
  pub current_requests : store.traffic_stats.current_requests ≡ open_requests
  pub total_requests : store.traffic_stats.total_requests ≡ total

module _ (serde : Serde) (id : ℕ) where
  data_keeps :
      (d : DataDirection) (n : ℕ) (s : Store)
      → ((counting (count_data d n) s).traffic_stats.current_requests
          ≡ s.traffic_stats.current_requests)
        × ((counting (count_data d n) s).traffic_stats.total_requests
            ≡ s.traffic_stats.total_requests)
  unfolding count_data
  data_keeps upstream n s = (refl, refl)
  data_keeps downstream n s = (refl, refl)

  pub IsSteady-registered :
      (open_requests total : ℕ) → IsSteady (registered serde) id (HasCounts open_requests total)
  IsSteady-registered open_requests total = record {
    at = λ d chunk g h.
        let s = counting (count_data d (length chunk)) h.store in
        let same = traffic_stats-update id (record_data d chunk) s in
        (
          some tt,
          with_store g (update_network_record_by_id id (record_data d chunk) s).1,
          rw (handle_data-registered serde id h.store g h.ready d chunk) refl,
          record {
            store = (update_network_record_by_id id (record_data d chunk) s).1;
            ready = refl;
            current_requests =
                ap (λ t. t.current_requests) same
                ∙ (data_keeps d (length chunk) h.store).0
                ∙ h.current_requests;
            total_requests =
                ap (λ t. t.total_requests) same
                ∙ (data_keeps d (length chunk) h.store).1
                ∙ h.total_requests;
          },
        );
  }

  end_counts :
      (s : Store)
      → ((counting count_end s).traffic_stats.current_requests
          ≡ wrapping_sub s.traffic_stats.current_requests 1)
        × ((counting count_end s).traffic_stats.total_requests ≡ s.traffic_stats.total_requests)
  unfolding count_end
  end_counts s = (refl, refl)

  start_counts :
      (s : Store) (g : Global)
      → HasCounts
          (wrapping_add s.traffic_stats.current_requests 1)
          (wrapping_add s.traffic_stats.total_requests 1)
          (with_store g (counting count_start s))
  unfolding count_start
  start_counts s g = record {
    store = counting count_start s;
    ready = refl;
    current_requests = refl;
    total_requests = refl;
  }

  -- The open requests after the tunnel's loop: its own while it goes on.
  abbrev pub open_after : Progress → ℕ → ℕ
  open_after going n = wrapping_add n 1
  open_after stopped n = n

  closing-HasCounts :
      (host : Str) (n total : ℕ) (turn : Turn) (g : Global)
      → n < u64_mod
      → HasCounts (wrapping_add n 1) total g
      → (g' : Global) × (closing (registered serde) id host turn g ≡ (ok turn, g'))
        × HasCounts (open_after turn.0 n) total g'
  closing-HasCounts host n total (going, l) g b h = (g, refl, h)
  closing-HasCounts host n total (stopped, l) g b h =
      let s = counting count_end h.store in
      let same = traffic_stats-update id record_close s in
      let g' = with_store g (update_network_record_by_id id record_close s).1 in
      let closed : attempt (Manager.handle_connect_close (registered serde) id host) g
          ≡ (ok (some true), g') =
        rw (handle_connect_close-registered serde id h.store g h.ready host) refl in
      (
        g',
        >>=-ok (attempt (Manager.handle_connect_close (registered serde) id host)) _ closed,
        record {
          store = (update_network_record_by_id id record_close s).1;
          ready = refl;
          current_requests =
              ap (λ t. t.current_requests) same
              ∙ (end_counts h.store).0
              ∙ ap (λ k. wrapping_sub k 1) h.current_requests
              ∙ wrapping_sub-wrapping_add n 1 b (omega arith);
          total_requests =
              ap (λ t. t.total_requests) same ∙ (end_counts h.store).1 ∙ h.total_requests;
        },
      )

  -- With the registered plugins, on an initialised store, a tunnel neither fails nor panics,
  -- whatever its events. It is counted once in the total; it is counted as open as long as its
  -- loop goes on; and once it has stopped, for whichever reason, the count of open requests is
  -- again what it was before the tunnel.
  pub handle_tunnel-balances :
      (print_status : ℕ → Str) (write_ok : Bool) (es : List Event) (now : ℕ) (req : Request)
      (host : Str) (s : Store) (g : Global)
      → g.context ≡ some s
      → s.traffic_stats.current_requests < u64_mod
      → (turn : Turn) × (g' : Global) × (handle_tunnel
            (registered serde)
            id
            print_status
            write_ok
            es
            now
            req
            host
            g
          ≡ (ok turn, g'))
        × HasCounts
            (open_after turn.0 s.traffic_stats.current_requests)
            (wrapping_add s.traffic_stats.total_requests 1)
            g'
  unfolding handle_tunnel
  handle_tunnel-balances print_status write_ok es now req host s g ready b =
      let n = s.traffic_stats.current_requests in
      let total = wrapping_add s.traffic_stats.total_requests 1 in
      let l = start_loop (registered serde) id now in
      let begun = with_store g (counting count_start s) in
      let connected : attempt (Manager.handle_connect (registered serde) id req) g
          ≡ (ok (some (true, none)), begun) =
        rw (handle_connect-registered serde id s g ready req) refl in
      let (ended, ran, counts) =
        run_loop-steps (registered serde) id (HasCounts (wrapping_add n 1) total)
          (IsSteady-registered (wrapping_add n 1) total) es l begun (start_counts s g) in
      let (left, closed, counts') = closing-HasCounts host n total (steps es l) ended b counts in
      (
        steps es l,
        left,
        >>=-ok (attempt (Manager.handle_connect (registered serde) id req)) _ connected
            ∙ >>=-ok (run_loop (registered serde) id es l) _ ran
            ∙ closed,
        counts',
      )
