-- ===== src/Plugin/BifrostServer/Tests.antt =====
-- Tests of src/plugin/bifrost_server.rs and the theorems at concrete inputs.
use mathlib.Core.List.{reverse}
use bifrost_core.Prelude.{
  ◌≤◌, ◌≡◌, ◌↔◌, ◌⊎◌, refl, true, false, List, [], ◌∷◌, ◌++◌, All, length, take, if◌then◌else◌,
}
use bifrost_core.Prelude.Exec.{ok}
use bifrost_core.Prelude.Text.{codes, show, str_eq, contains, IsInfix}
use bifrost_core.Http.{Request, Reply, options_method}
use bifrost_core.Store.{Store}
use bifrost_core.Plugin.Json.{Value, array, null, of_list}
use bifrost_core.Plugin.BifrostServer.{is_bifrost_host, host_server, handle_get_record}
use bifrost_core.Plugin.BifrostServer.Host.{is_bifrost_host_iff}
use bifrost_core.Plugin.BifrostServer.Records.{AreShown, HasNoBody, handle_get_record-shows}
use bifrost_core.Plugin.BifrostServer.Routes.{
  HasCors, is_ok, path_status, records_of, host_server-answers,
}
use bifrost_core.Samples.{request_to, sample_record, sample_serde, store_with, global_with}

-- With port 80 the address of another server is taken for the proxy.
longer_port : is_bifrost_host (codes "localhost:8080") 80 ≡ true
unfolding is_bifrost_host contains show
longer_port = refl

other_host : is_bifrost_host (codes "example.com:80") 80 ≡ false
unfolding is_bifrost_host contains show
other_host = refl

is_bifrost_host_iff_example : (is_bifrost_host (codes "localhost:8080") 80 ≡ true) ↔ (
    IsInfix (codes "127.0.0.1:" ++ show 80) (codes "localhost:8080")
    ⊎ IsInfix (codes "localhost:" ++ show 80) (codes "localhost:8080"))
is_bifrost_host_iff_example = is_bifrost_host_iff (codes "localhost:8080") 80

abbrev config_request : Request
config_request = request_to (codes "localhost:8080") (codes "/config")

abbrev store : Store
store = store_with 10 (sample_record 1 ∷ sample_record 2 ∷ [])

host_server-answers_example :
    (reply : Reply) × (host_server sample_serde config_request (global_with store)
      ≡ (ok reply, global_with store))
    × (reply.status ≡ (
        if str_eq (codes "GET") options_method
        then 200
        else path_status (codes "/config") (is_ok (records_of sample_serde store))))
    × HasCors reply
host_server-answers_example =
    host_server-answers sample_serde (λ r e. cc) config_request store (global_with store) refl

shown :
    (handle_get_record sample_serde (global_with store)).0 ≡ ok (array (of_list (null ∷ null ∷ [])))
unfolding handle_get_record
shown = refl

handle_get_record-shows_example :
    (vs : List Value) × (array (of_list (null ∷ null ∷ [])) ≡ array (of_list vs))
    × AreShown sample_serde (take 10 (reverse store.network_records)) vs
    × All HasNoBody vs
    × (length vs ≤ 10)
handle_get_record-shows_example =
    handle_get_record-shows sample_serde store (global_with store)
      (array (of_list (null ∷ null ∷ []))) refl shown
