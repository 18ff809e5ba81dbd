-- ===== src/Plugin/Manager.antt =====
-- src/plugin/mod.rs: `PluginManager`, as the list of its plugins in the order of registration.
pub mod Runs
mod Tests
use bifrost_core.Prelude.{
  ℕ, Bool, true, false, Option, none, some, List, [], ◌∷◌, ◌++◌, if◌then◌else◌,
}
use bifrost_core.Prelude.Exec.{Exec, pure, ◌>>=◌, ◌>>◌}
use bifrost_core.Prelude.Text.{Str}
use bifrost_core.Http.{Request, Incoming, Reply}
use bifrost_core.Plugin.{Plugin, DataDirection, Verdict}

module _ {S : Type 0} where
  unfoldable pub register_plugin : List (Plugin S) → Plugin S → List (Plugin S)
  register_plugin plugins plugin = plugins ++ plugin ∷ []

  unfoldable pub handle_request : List (Plugin S) → ℕ → Exec (S × Request) Verdict
  handle_request [] request_id = pure (true, none)
  handle_request (plugin ∷ plugins) request_id = do
    verdict ← plugin.handle_request request_id
    if verdict.0 then handle_request plugins request_id else pure (false, verdict.1)

  unfoldable pub handle_response : List (Plugin S) → ℕ → Request → Exec (S × Incoming) Bool
  handle_response [] request_id req = pure true
  handle_response (plugin ∷ plugins) request_id req = do
    continue_processing ← plugin.handle_response request_id req
    if continue_processing then handle_response plugins request_id req else pure false

  unfoldable pub handle_connect : List (Plugin S) → ℕ → Request → Exec S Verdict
  handle_connect [] request_id req = pure (true, none)
  handle_connect (plugin ∷ plugins) request_id req = do
    verdict ← plugin.handle_connect request_id req
    if verdict.0 then handle_connect plugins request_id req else pure (false, verdict.1)

  unfoldable pub handle_connect_close : List (Plugin S) → ℕ → Str → Exec S Bool
  handle_connect_close [] request_id target = pure true
  handle_connect_close (plugin ∷ plugins) request_id target = do
    continue_processing ← plugin.handle_connect_close request_id target
    if continue_processing then handle_connect_close plugins request_id target else pure false

  unfoldable pub handle_data : List (Plugin S) → ℕ → DataDirection → Str → Exec S (Unit {0})
  handle_data [] request_id direction data' = pure tt
  handle_data (plugin ∷ plugins) request_id direction data' = do
    plugin.handle_data request_id direction data'
    handle_data plugins request_id direction data'
