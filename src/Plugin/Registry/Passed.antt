-- ===== src/Plugin/Registry/Passed.antt =====
-- What the plugins of src/plugin/mod.rs leave of a request that is not for the proxy itself.
use bifrost_core.Prelude.{ℕ, ◌+◌, ◌%◌, ◌≡◌, refl, none, [], ◌∷◌, ◌++◌}
use bifrost_core.Prelude.Words.{u64_mod, wrapping_add}
use bifrost_core.Http.{Request}
use bifrost_core.NetworkRecord.{NetworkRecord, sending}
use bifrost_core.Store.{Store, evict}
use bifrost_core.Global.{Global}
use bifrost_core.Plugin.Manager
use bifrost_core.Plugin.NetStorage.{new_record}
use bifrost_core.Plugin.NetStorage.Lifecycle.{IsFresh, after_request}
use bifrost_core.Plugin.NetStorage.Pending.{pending_record, after_request_lem}
use bifrost_core.Plugin.TrafficStats.{count_start}
use bifrost_core.Plugin.Registry.{counting}

-- The request is counted once in each of three counters, and nothing else of the figures changes;
-- the record of its id is the newest one, names the request and the time, and waits for the answer.
pub record IsPassed (now id : ℕ) (req : Request) (s s' : Store) : Type 0 where
  pub entry : NetworkRecord
  pub same_config : s'.config ≡ s.config
  pub counted : s'.traffic_stats ≡ record s.traffic_stats {
    total_requests = (s.traffic_stats.total_requests + 1) % u64_mod;
    current_requests = (s.traffic_stats.current_requests + 1) % u64_mod;
    requests_this_second = (s.traffic_stats.requests_this_second + 1) % u64_mod;
  }
  pub recorded :
      s'.network_records ≡ evict s.config.max_network_records s.network_records ++ entry ∷ []
  pub has_id : entry.id ≡ id
  pub has_method : entry.method ≡ req.method
  pub has_url : entry.url ≡ req.uri.to_string
  pub has_time : entry.start_time ≡ now
  pub is_sending : entry.state ≡ sending
  pub no_status : entry.status_code ≡ none
  pub no_end : entry.end_time ≡ none
  pub no_request_body : entry.request_body ≡ none
  pub no_response_body : entry.response_body ≡ none

pub after_request-IsPassed :
    (now id : ℕ) (req : Request) (s : Store)
    → IsFresh id s
    → IsPassed now id req s (after_request now id req (counting count_start s))
unfolding count_start wrapping_add new_record
after_request-IsPassed now id req s fresh =
    rw (after_request_lem now id req (counting count_start s) fresh) record {
      entry = pending_record now id req;
      same_config = refl;
      counted = refl;
      recorded = refl;
      has_id = refl;
      has_method = refl;
      has_url = refl;
      has_time = refl;
      is_sending = refl;
      no_status = refl;
      no_end = refl;
      no_request_body = refl;
      no_response_body = refl;
    }
