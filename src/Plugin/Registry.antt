-- ===== src/Plugin/Registry.antt =====
-- src/plugin/mod.rs: `PluginManager::init`, and what the three plugins do together.
-- `PLUGIN_MANAGER` is set once, by `main`, and is the list below from then on.
pub mod Effect
pub mod Passed
mod Tests
use bifrost_core.Prelude.{
  ℕ, ◌≡◌, ◌≢◌, refl, Bool, true, false, Option, none, some, List, [], ◌∷◌, length, if◌then◌else◌,
}
use bifrost_core.Prelude.Exec.{Exec, ok, panic, ◌>>=◌, ◌>>◌}
use bifrost_core.Prelude.Text.{Str}
use bifrost_core.Http.{Request, Reply}
use bifrost_core.NetworkRecord.{NetworkRecord}
use bifrost_core.Store.{Store, TrafficStatsData, add_network_record, update_network_record_by_id}
use bifrost_core.Global.{Global, on_store, get_config}
use bifrost_core.Plugin.{Plugin, DataDirection}
use bifrost_core.Plugin.Manager
use bifrost_core.Plugin.Json.{Serde}
use bifrost_core.Plugin.NetStorage
use bifrost_core.Plugin.NetStorage.{net_storage, record_close, record_data}
use bifrost_core.Plugin.NetStorage.Effects.{
  with_store, handle_data-ready, handle_connect_close-ready,
}
use bifrost_core.Plugin.TrafficStats
use bifrost_core.Plugin.TrafficStats.{traffic_stats, count_start, count_end, count_data, on_stats}
use bifrost_core.Plugin.BifrostServer
use bifrost_core.Plugin.BifrostServer.{bifrost_server, get_host, is_bifrost_host}
use bifrost_core.Plugin.BifrostServer.Routes.{host_server-answers}
use bifrost_core.Plugin.NetStorage.Lifecycle.{after_request, handle_request-ready}

-- A store with changed counters.
abbrev pub counting : (TrafficStatsData → TrafficStatsData) → Store → Store
counting f s = record s { traffic_stats = f s.traffic_stats }

module _ (serde : Serde) where
  unfoldable pub registered : List (Plugin Global)
  unfolding Manager.register_plugin
  registered =
      Manager.register_plugin
        (Manager.register_plugin (Manager.register_plugin [] (bifrost_server serde)) traffic_stats)
        net_storage

  module _ (id : ℕ) (s : Store) (g : Global) (ready : g.context ≡ some s) where
    -- A tunnel's connect passes all plugins; it is counted, and no record is made.
    pub handle_connect-registered :
        (req : Request)
        → Manager.handle_connect registered id req g
          ≡ (ok (true, none), with_store g (counting count_start s))
    unfolding registered Manager.handle_connect TrafficStats.handle_start
    handle_connect-registered req = rw ready refl

    pub handle_connect_close-registered :
        (target : Str)
        → Manager.handle_connect_close registered id target g ≡ (
          ok true,
          with_store g (update_network_record_by_id id record_close (counting count_end s)).1,
        )
    unfolding registered Manager.handle_connect_close TrafficStats.handle_end
    handle_connect_close-registered target = rw ready (
        rw
          (handle_connect_close-ready id (counting count_end s)
            (with_store g (counting count_end s)) refl)
          refl)

    pub handle_data-registered :
        (direction : DataDirection) (chunk : Str)
        → Manager.handle_data registered id direction chunk g ≡ (
          ok tt,
          with_store g
              (update_network_record_by_id id
                (record_data direction chunk)
                (counting (count_data direction (length chunk)) s)).1,
        )
    unfolding registered Manager.handle_data TrafficStats.handle_data
    handle_data-registered direction chunk = rw ready (
        rw
          (handle_data-ready id (counting (count_data direction (length chunk)) s)
            (with_store g (counting (count_data direction (length chunk)) s)) refl direction chunk)
          refl)

    get_config-ready : get_config g ≡ (ok s.config, g)
    unfolding get_config
    get_config-ready = rw ready refl

    module _ (req : Request) (host : Str) (host_is : get_host req ≡ ok host) where
      -- A request for the proxy itself, on an initialised store and where turning a record into
      -- JSON does not panic, is answered by the first plugin: it is neither counted nor recorded,
      -- and the global state and the request stay as they were.
      pub own_request-unseen :
          ((r : NetworkRecord) → serde.to_value r ≢ panic)
          → is_bifrost_host host s.config.port ≡ true
          → (reply : Reply) × (Manager.handle_request registered id (g, req)
              ≡ (ok (false, some reply), (g, req)))
      unfolding registered Manager.handle_request BifrostServer.handle_request
      own_request-unseen can_print own =
          let (reply, answered, _, _) = host_server-answers serde can_print req s g ready in
          (reply, rw (get_config-ready, host_is, own, answered) refl)

      -- Any other request passes all plugins without a response: it is counted, and its record is
      -- added in the state `Sending`; the request stays as it was.
      pub other_request-passes :
          is_bifrost_host host s.config.port ≡ false
          → Manager.handle_request registered id (g, req) ≡ (
            ok (true, none),
            (with_store g (after_request g.clock id req (counting count_start s)), req),
          )
      unfolding registered Manager.handle_request BifrostServer.handle_request
          TrafficStats.handle_start
      other_request-passes other =
          let counted = with_store g (counting count_start s) in
          rw (get_config-ready, host_is, other)
            (rw ready (rw (handle_request-ready id req (counting count_start s) counted refl) refl))
