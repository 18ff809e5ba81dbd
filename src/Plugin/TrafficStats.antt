-- ===== src/Plugin/TrafficStats.antt =====
-- src/plugin/traffic_stats.rs: the counters of requests and bytes, and the task that computes
-- speeds and requests per second, and the line of `start_stats_printer`, which nothing calls.
pub mod Account
pub mod Race
mod Tests
use bifrost_core.Prelude.{ℕ, Bool, true, none, List, [], ◌∷◌, ltb, length, if◌then◌else◌, ◌++◌}
use bifrost_core.Prelude.Exec.{Outcome, Exec, ok, pure, zoom, ◌>>=◌, ◌>>◌}
use bifrost_core.Prelude.Text.{Str, codes, show}
use bifrost_core.Prelude.Words.{wrapping_add, wrapping_sub, saturating_sub}
use bifrost_core.Http.{Request}
use bifrost_core.Store.{Store, TrafficStatsData}
use bifrost_core.Global.{Global, on_store}
use bifrost_core.Plugin.{Plugin, DataDirection, upstream, downstream, Verdict}

-- `handle_request` and `handle_connect` count a request.
unfoldable pub count_start : TrafficStatsData → TrafficStatsData
count_start stats = record stats {
  total_requests = wrapping_add stats.total_requests 1;
  current_requests = wrapping_add stats.current_requests 1;
  requests_this_second = wrapping_add stats.requests_this_second 1;
}

-- `handle_response` and `handle_connect_close` end one.
unfoldable pub count_end : TrafficStatsData → TrafficStatsData
count_end stats = record stats { current_requests = wrapping_sub stats.current_requests 1 }

unfoldable pub count_data : DataDirection → ℕ → TrafficStatsData → TrafficStatsData
count_data upstream n stats = record stats { bytes_out = wrapping_add stats.bytes_out n }
count_data downstream n stats = record stats { bytes_in = wrapping_add stats.bytes_in n }

-- A change to `Store::global().get_traffic_stats()`, whose counters are shared by an `Arc`.
unfoldable pub on_stats : (TrafficStatsData → TrafficStatsData) → Exec Global (Unit {0})
unfolding on_store
on_stats f = on_store (λ s. (ok tt, record s { traffic_stats = f s.traffic_stats }))

unfoldable pub handle_start : Exec Global Verdict
unfolding on_stats count_start
handle_start = do on_stats count_start; pure (true, none)

unfoldable pub handle_end : Exec Global Bool
unfolding on_stats count_end
handle_end = do on_stats count_end; pure true

unfoldable pub handle_data : DataDirection → Str → Exec Global (Unit {0})
unfolding on_stats count_data
handle_data direction chunk = on_stats (count_data direction (length chunk))

abbrev pub traffic_stats : Plugin Global
traffic_stats = record {
  handle_request = λ request_id. zoom handle_start;
  handle_response = λ request_id req. zoom handle_end;
  handle_connect = λ request_id req. handle_start;
  handle_connect_close = λ request_id target. handle_end;
  handle_data = λ request_id. handle_data;
}

-- The variables of the task's loop.
pub record Ticker : Type 0 where
  pub last_bytes_in : ℕ
  pub last_bytes_out : ℕ
  pub current_bytes_in : ℕ
  pub current_bytes_out : ℕ
  pub speed_in : ℕ
  pub speed_out : ℕ
  pub current_qps : ℕ

abbrev pub new_ticker : Ticker
new_ticker = record {
  last_bytes_in = 0;
  last_bytes_out = 0;
  current_bytes_in = 0;
  current_bytes_out = 0;
  speed_in = 0;
  speed_out = 0;
  current_qps = 0;
}

-- The accesses to the shared counters in one round, in order. A maximum is read and written in one
-- step, as no other task writes it.
pub data Action : Type 0 where
  load_bytes_in load_bytes_out store_speed_in store_speed_out raise_max_in raise_max_out : Action
  load_qps store_qps reset_requests raise_max_qps remember_bytes : Action

abbrev raised : ℕ → ℕ → ℕ
raised new old = if ltb old new then new else old

unfoldable pub act : Action → Ticker × TrafficStatsData → Ticker × TrafficStatsData
act load_bytes_in (t, s) = (record t { current_bytes_in = s.bytes_in }, s)
act load_bytes_out (t, s) = (
  record t {
    current_bytes_out = s.bytes_out;
    speed_in = saturating_sub t.current_bytes_in t.last_bytes_in;
    speed_out = saturating_sub s.bytes_out t.last_bytes_out;
  },
  s,
)
act store_speed_in (t, s) = (t, record s { current_speed_in = t.speed_in })
act store_speed_out (t, s) = (t, record s { current_speed_out = t.speed_out })
act raise_max_in (t, s) = (t, record s { max_speed_in = raised t.speed_in s.max_speed_in })
act raise_max_out (t, s) = (t, record s { max_speed_out = raised t.speed_out s.max_speed_out })
act load_qps (t, s) = (record t { current_qps = s.requests_this_second }, s)
act store_qps (t, s) = (t, record s { last_qps = t.current_qps })
act reset_requests (t, s) = (t, record s { requests_this_second = 0 })
act raise_max_qps (t, s) = (t, record s { max_qps = raised t.current_qps s.max_qps })
act remember_bytes (t, s) =
    (record t { last_bytes_in = t.current_bytes_in; last_bytes_out = t.current_bytes_out }, s)

abbrev pub round : List Action
round =
    load_bytes_in ∷ load_bytes_out ∷ store_speed_in ∷ store_speed_out ∷ raise_max_in ∷ raise_max_out
    ∷ load_qps ∷ store_qps ∷ reset_requests ∷ raise_max_qps ∷ remember_bytes ∷ []

unfoldable pub act_all : List Action → Ticker × TrafficStatsData → Ticker × TrafficStatsData
unfolding act
act_all [] m = m
act_all (a ∷ rest) m = act_all rest (act a m)

-- A round that no other task interrupts.
unfoldable pub tick : Ticker × TrafficStatsData → Ticker × TrafficStatsData
unfolding act_all
tick = act_all round

-- The line that `start_stats_printer` logs each second; `mega` prints a number of bytes in MB with
-- two decimals.
unfoldable pub stats_line : (ℕ → Str) → TrafficStatsData → Str
stats_line mega stats =
    let total : ℕ → Str = λ n. mega n ++ codes " MB (" in
    let speed : ℕ → Str = λ n. mega n ++ codes " MB/s" in
    codes "Inbound: "
    ++ (total stats.bytes_in
        ++ (speed stats.current_speed_in
            ++ (codes ", Peak: "
                ++ (speed stats.max_speed_in
                    ++ (codes "), Outbound: "
                        ++ (total stats.bytes_out
                            ++ (speed stats.current_speed_out
                                ++ (codes ", Peak: "
                                    ++ (speed stats.max_speed_out
                                        ++ (codes "), Requests: "
                                            ++ (show stats.current_requests
                                                ++ (codes " (Total: "
                                                    ++ (show stats.total_requests
                                                        ++ (codes "), QPS: "
                                                            ++ (show stats.last_qps
                                                            ++ (codes " (Peak: "
                                                            ++ (show stats.max_qps
                                                            ++ codes ")")))))))))))))))))
