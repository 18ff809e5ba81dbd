-- ===== src/Plugin/Manager/Tests.antt =====
-- The theorem on the manager at concrete inputs.
use bifrost_core.Prelude.{true, none, List, [], ◌∷◌}
use bifrost_core.Prelude.Text.{codes}
use bifrost_core.Http.{Request, Incoming}
use bifrost_core.Global.{Global}
use bifrost_core.Plugin.{Plugin, downstream}
use bifrost_core.Plugin.Manager
use bifrost_core.Plugin.Manager.Runs.{Runs, goes_on, itself, always, manager-Runs}
use bifrost_core.Plugin.NetStorage.{net_storage}
use bifrost_core.Plugin.TrafficStats.{traffic_stats}
use bifrost_core.Samples.{sample_request}

abbrev both : List (Plugin Global)
both = traffic_stats ∷ net_storage ∷ []

manager-Runs_example :
    ((t : Global × Request)
      → Runs
          (λ p. p.handle_request 1)
          goes_on
          (true, none)
          both
          t
          (Manager.handle_request both 1 t))
    × ((t : Global × Incoming)
        → Runs
            (λ p. p.handle_response 1 sample_request)
            itself
            true
            both
            t
            (Manager.handle_response both 1 sample_request t))
    × ((s : Global)
        → Runs
            (λ p. p.handle_connect 1 sample_request)
            goes_on
            (true, none)
            both
            s
            (Manager.handle_connect both 1 sample_request s))
    × ((s : Global)
        → Runs
            (λ p. p.handle_connect_close 1 (codes "h"))
            itself
            true
            both
            s
            (Manager.handle_connect_close both 1 (codes "h") s))
    × ((s : Global)
        → Runs
            (λ p. p.handle_data 1 downstream (codes "x"))
            always
            tt
            both
            s
            (Manager.handle_data both 1 downstream (codes "x") s))
manager-Runs_example = manager-Runs both 1 sample_request (codes "h") downstream (codes "x")
