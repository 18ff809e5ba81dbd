-- ===== src/Store.antt =====
-- src/store.rs: the configuration, the network records and the traffic counters.
-- The locks and the `Arc`s are not modelled: each method below runs while it holds its lock, and
-- is one step of its caller.
pub mod Window
pub mod Bounds
pub mod Update
mod Tests
use bifrost_core.Prelude.{
  ℕ, ◌≡◌, Bool, Option, none, some, List, [], ◌∷◌, ◌++◌, leb, ◌==◌, length, if◌then◌else◌,
}
use bifrost_core.Prelude.Exec.{Outcome, ok, err}
use bifrost_core.Prelude.Text.{Str, codes}
use bifrost_core.Http.{or_else}
use bifrost_core.NetworkRecord.{NetworkRecord}

pub record TrafficStatsData : Type 0 where
  pub bytes_in : ℕ
  pub bytes_out : ℕ
  pub last_bytes_in : ℕ
  pub last_bytes_out : ℕ
  pub current_speed_in : ℕ
  pub current_speed_out : ℕ
  pub last_update : ℕ
  pub total_requests : ℕ
  pub current_requests : ℕ
  pub last_second : ℕ
  pub requests_this_second : ℕ
  pub last_qps : ℕ
  pub max_speed_in : ℕ
  pub max_speed_out : ℕ
  pub max_qps : ℕ

pub record Config : Type 0 where
  pub port : ℕ
  pub cert_path : Str
  pub key_path : Str
  pub enable_https : Bool
  pub enable_h2 : Bool
  pub max_network_records : ℕ

pub record Store : Type 0 where
  pub config : Config
  pub network_records : List NetworkRecord
  pub traffic_stats : TrafficStatsData

-- `TrafficStatsData::new`; `now` is the time in seconds.
unfoldable pub new_stats : ℕ → TrafficStatsData
new_stats now = record {
  bytes_in = 0;
  bytes_out = 0;
  last_bytes_in = 0;
  last_bytes_out = 0;
  current_speed_in = 0;
  current_speed_out = 0;
  last_update = now;
  total_requests = 0;
  current_requests = 0;
  last_second = now;
  requests_this_second = 0;
  last_qps = 0;
  max_speed_in = 0;
  max_speed_out = 0;
  max_qps = 0;
}

-- The value that `Store::init` gives to the global cell.
unfoldable pub new_store : ℕ → ℕ → Str → Str → Bool → Bool → Option ℕ → Store
unfolding new_stats
new_store now port cert_path key_path enable_https enable_h2 max_network_records = record {
  config = record {
    port = port;
    cert_path = cert_path;
    key_path = key_path;
    enable_https = enable_https;
    enable_h2 = enable_h2;
    max_network_records = or_else max_network_records 10000;
  };
  network_records = [];
  traffic_stats = new_stats now;
}

-- `VecDeque::pop_front`
abbrev pub pop_front : List NetworkRecord → List NetworkRecord
pop_front [] = []
pop_front (r ∷ rs) = rs

-- The room that is made for a new record.
abbrev pub evict : ℕ → List NetworkRecord → List NetworkRecord
evict max_records rs = if leb max_records (length rs) then pop_front rs else rs

unfoldable pub add_network_record : NetworkRecord → Store → Store
add_network_record r s = record s {
  network_records = evict s.config.max_network_records s.network_records ++ r ∷ [];
}

-- `records.iter_mut().find(|r| r.id == request_id)`, with the change made to what is found.
unfoldable pub update_first :
    ℕ → (NetworkRecord → NetworkRecord) → List NetworkRecord → Option (List NetworkRecord)
update_first id f [] = none
update_first id f (r ∷ rs) =
    let rest = update_first id f rs in
    if r.id == id then some (f r ∷ rs) else elim rest [ none ↦ none | some rs' ↦ some (r ∷ rs') ]

abbrev pub record_not_found : Str
record_not_found = codes "Record not found"

unfoldable pub update_network_record_by_id :
    ℕ → (NetworkRecord → NetworkRecord) → Store → Outcome (Unit {0}) × Store
unfolding update_first
update_network_record_by_id id f s = elim (update_first id f s.network_records) [
  | none ↦ (err record_not_found, s)
  | some rs ↦ (ok tt, record s { network_records = rs })
]
