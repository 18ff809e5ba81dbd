-- ===== src/Tunnel/Tests.antt =====
-- Tests of src/tunnel_interceptor.rs and the theorems at concrete inputs.
use bifrost_core.Prelude.{ℕ, ◌≤◌, ◌≡◌, refl, true, false, none, List, [], ◌∷◌, arith}
use bifrost_core.Prelude.Exec.{ok}
use bifrost_core.Prelude.Text.{codes}
use bifrost_core.Prelude.Words.{wrapping_add}
use bifrost_core.Store.{new_stats}
use bifrost_core.Global.{Global}
use bifrost_core.Plugin.{Plugin, upstream, downstream}
use bifrost_core.Plugin.Registry.{registered}
use bifrost_core.Tunnel.{
  received, failed, read, timed_out, Happening, Event, Loop, going, stopped, Turn, run_loop,
  start_loop, handle_tunnel, handle_tunnel_proxy, connect_request, bad_gateway,
}
use bifrost_core.Tunnel.Balance.{HasCounts, open_after, handle_tunnel-balances, IsSteady-registered}
use bifrost_core.Tunnel.Delivery.{IsServed, run_loop-serves}
use bifrost_core.Tunnel.Errors.{
  IsIdleSince, failing_writes-go_on, three_failed_reads-stop, timeout-idle,
}
use bifrost_core.Tunnel.Steps.{steps, run_loop-steps}
use bifrost_core.Samples.{sample_uri, sample_serde, store_with, global_with}

abbrev global : Global
global = global_with (store_with 10 [])

abbrev plugins : List (Plugin Global)
plugins = registered sample_serde

abbrev at : ℕ → Happening → Event
at t w = record { time = t; what = w }

-- Each read gives data, and no write succeeds.
abbrev unwritten : List Event
unwritten =
    at 1 (read upstream (received (codes "a")) false)
    ∷ at 2 (read upstream (received (codes "b")) false)
    ∷ at 3 (read downstream (received (codes "c")) false)
    ∷ at 4 (read downstream (received (codes "d")) false)
    ∷ []

abbrev session : List Event
session =
    at 1 (read upstream (received (codes "hi")) true)
    ∷ at 2 (read downstream failed true)
    ∷ at 3 (read downstream (received (codes "yo")) true)
    ∷ at 4 (read upstream (received []) true)
    ∷ at 5 timed_out
    ∷ []

abbrev begin : Loop
begin = start_loop plugins 3 0

counts : HasCounts 0 0 global
counts = record {
  store = store_with 10 [];
  ready = refl;
  current_requests = unfold new_stats in refl;
  total_requests = unfold new_stats in refl;
}

unreachable : handle_tunnel_proxy false 3 (codes "h") ≡ (bad_gateway, none)
unfolding handle_tunnel_proxy
unreachable = refl

run_loop-serves_example :
    (turn : Turn) × (g' : Global) × (run_loop plugins 3 session begin global ≡ (ok turn, g'))
    × IsServed session begin turn
run_loop-serves_example =
    run_loop-serves plugins 3 (HasCounts 0 0) (IsSteady-registered sample_serde 3 0 0) session begin
      global counts

failing_writes-go_on_example :
    (l' : Loop) × (g' : Global) × (run_loop plugins 3 unwritten begin global ≡ (ok (going, l'), g'))
    × (l'.error_count ≤ 1)
failing_writes-go_on_example =
    failing_writes-go_on plugins 3 (HasCounts 0 0) (IsSteady-registered sample_serde 3 0 0)
      unwritten begin global counts (tt, (tt, (tt, (tt, tt)))) (omega arith)

three_failed_reads-stop_example :
    (l' : Loop) × (g' : Global) × (run_loop plugins 3
        (at 1 (read upstream failed true)
          ∷ at 2 (read downstream failed true)
          ∷ at 3 (read upstream failed true)
          ∷ session)
        begin
        global
      ≡ (ok (stopped, l'), g'))
three_failed_reads-stop_example =
    three_failed_reads-stop plugins 3 (HasCounts 0 0) (IsSteady-registered sample_serde 3 0 0)
      (at 1 (read upstream failed true)) (at 2 (read downstream failed true))
      (at 3 (read upstream failed true)) session begin global counts tt tt tt

-- One chunk, then 5 minutes.
abbrev quiet : List Event
quiet = at 7 (read upstream (received (codes "a")) true) ∷ []

abbrev after_quiet : Loop
after_quiet = record begin { deadline = 300000000007; to_server = codes "a" }

quiet_runs : (g' : Global) × (run_loop plugins 3 quiet begin global ≡ (ok (going, after_quiet), g'))
unfolding steps
quiet_runs =
    let (g', ran, _) =
      run_loop-steps plugins 3 (HasCounts 0 0) (IsSteady-registered sample_serde 3 0 0) quiet begin
        global counts in
    (g', ran)

timeout-idle_example : IsIdleSince 300000000008 quiet
timeout-idle_example =
    timeout-idle plugins 3 (HasCounts 0 0) (IsSteady-registered sample_serde 3 0 0) quiet 0
      300000000008 begin after_quiet global quiet_runs.0 counts (omega arith) (omega arith)
      quiet_runs.1 (omega arith)

handle_tunnel-balances_example :
    (turn : Turn) × (g' : Global) × (handle_tunnel plugins 3
        (λ n. codes "200 OK")
        true
        session
        0
        (connect_request sample_uri)
        (codes "example.com")
        global
      ≡ (ok turn, g'))
    × HasCounts
        (open_after sample_serde 3 turn.0 (store_with 10 []).traffic_stats.current_requests)
        (wrapping_add (store_with 10 []).traffic_stats.total_requests 1)
        g'
handle_tunnel-balances_example =
    handle_tunnel-balances sample_serde 3 (λ n. codes "200 OK") true session 0
      (connect_request sample_uri) (codes "example.com") (store_with 10 []) global refl
      (unfold new_stats in omega arith)
