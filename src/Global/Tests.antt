-- ===== src/Global/Tests.antt =====
-- The theorems on the global cells at concrete inputs.
use bifrost_core.Prelude.{◌≢◌}
use bifrost_core.Prelude.{arith}
use bifrost_core.Global.{start, next_request_id}
use bifrost_core.Global.Laws.{after_ids, request_ids-distinct}

request_ids-distinct_example :
    (next_request_id (after_ids 1 (start 5))).0 ≢ (next_request_id (after_ids 4 (start 5))).0
request_ids-distinct_example =
    request_ids-distinct 1 4 (start 5) (omega arith) (omega arith) (omega arith)
