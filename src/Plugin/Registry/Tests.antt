-- ===== src/Plugin/Registry/Tests.antt =====
-- The theorems on the registered plugins at concrete inputs.
use bifrost_core.Prelude.{◌≡◌, refl, true, false, some, [], ◌∷◌}
use bifrost_core.Prelude.Exec.{ok}
use bifrost_core.Prelude.Text.{codes, contains, show, str_eq}
use bifrost_core.Http.{Request, Reply, get_header}
use bifrost_core.Store.{Store}
use bifrost_core.Plugin.Manager
use bifrost_core.Plugin.BifrostServer.{get_host, is_bifrost_host}
use bifrost_core.Plugin.Registry.{registered, own_request-unseen}
use bifrost_core.Samples.{sample_record, request_to, sample_serde, store_with, global_with}

abbrev store : Store
store = store_with 10 []

-- With a record of another request.
abbrev busy : Store
busy = store_with 10 (sample_record 2 ∷ [])

abbrev own_request : Request
own_request = request_to (codes "localhost:8080") (codes "/config")

own_host : get_host own_request ≡ ok (codes "localhost:8080")
unfolding get_host get_header str_eq
own_host = refl

is_own : is_bifrost_host (codes "localhost:8080") 8080 ≡ true
unfolding is_bifrost_host contains show
is_own = refl

own_request-unseen_example :
    (reply : Reply) × (Manager.handle_request
        (registered sample_serde)
        3
        (global_with store, own_request)
      ≡ (ok (false, some reply), (global_with store, own_request)))
own_request-unseen_example =
    own_request-unseen sample_serde 3 store (global_with store) refl own_request
      (codes "localhost:8080") own_host (λ r e. cc) is_own
