-- ===== src/Plugin/TrafficStats/Account.antt =====
-- The counters add up: over any sequence of requests, transfers and undisturbed rounds of the task.
use bifrost_core.Prelude.{
  leb, if◌then◌else◌, ℕ, ◌+◌, ◌-◌, map, ◌%◌, ◌<◌, ◌≤◌, ◌≡◌, List, [], ◌∷◌, arith,
}
use bifrost_core.Prelude.Words.{u64_mod, wrapping_add, wrapping_sub, saturating_sub}
use bifrost_core.Store.{TrafficStatsData, new_stats}
use bifrost_core.Plugin.{DataDirection, upstream, downstream}
use bifrost_core.Plugin.TrafficStats.{count_start, count_end, count_data, Ticker, new_ticker, tick}

-- `start` is a call of `handle_request` or `handle_connect`, `finish` one of `handle_response` or
-- `handle_connect_close`, `transfer` one of `handle_data`, and `second` a round of the task.
pub data Event : Type 0 where
  start finish second : Event
  transfer : DataDirection → ℕ → Event

-- `seconds` has the counters as they stood after each round, the latest first.
pub record Run : Type 0 where
  pub ticker : Ticker
  pub stats : TrafficStatsData
  pub seconds : List TrafficStatsData

abbrev pub begin : ℕ → Run
begin now = record { ticker = new_ticker; stats = new_stats now; seconds = [] }

abbrev after_tick : List TrafficStatsData → Ticker × TrafficStatsData → Run
after_tick seconds (t, s) = record { ticker = t; stats = s; seconds = s ∷ seconds }

unfoldable pub on_event : Event → Run → Run
unfolding count_start count_end count_data tick
on_event start r = record r { stats = count_start r.stats }
on_event finish r = record r { stats = count_end r.stats }
on_event (transfer d n) r = record r { stats = count_data d n r.stats }
on_event second r = after_tick r.seconds (tick (r.ticker, r.stats))

unfoldable pub run : List Event → Run → Run
unfolding on_event
run [] r = r
run (e ∷ es) r = run es (on_event e r)

-- What has happened, counted without the program. `received_before` and `sent_before` are the bytes
-- up to the last second, and the lists have the bytes of each second, the latest first.
pub record Totals : Type 0 where
  pub starts : ℕ
  pub finishes : ℕ
  pub received : ℕ
  pub sent : ℕ
  pub received_before : ℕ
  pub sent_before : ℕ
  pub each_received : List ℕ
  pub each_sent : List ℕ

abbrev pub nothing : Totals
nothing = record {
  starts = 0;
  finishes = 0;
  received = 0;
  sent = 0;
  received_before = 0;
  sent_before = 0;
  each_received = [];
  each_sent = [];
}

abbrev pub count : Event → Totals → Totals
count start c = record c { starts = c.starts + 1 }
count finish c = record c { finishes = c.finishes + 1 }
count second c = record c {
  received_before = c.received;
  sent_before = c.sent;
  each_received = (c.received - c.received_before) ∷ c.each_received;
  each_sent = (c.sent - c.sent_before) ∷ c.each_sent;
}
count (transfer upstream n) c = record c { sent = c.sent + n }
count (transfer downstream n) c = record c { received = c.received + n }

abbrev pub count_all : List Event → Totals → Totals
count_all [] c = c
count_all (e ∷ es) c = count_all es (count e c)

abbrev pub sum_by : (TrafficStatsData → ℕ) → List TrafficStatsData → ℕ
sum_by f [] = 0
sum_by f (s ∷ ss) = f s + sum_by f ss

abbrev pub larger : ℕ → ℕ → ℕ
larger m n = if leb m n then n else m

abbrev pub max_by : (TrafficStatsData → ℕ) → List TrafficStatsData → ℕ
max_by f [] = 0
max_by f (s ∷ ss) = larger (f s) (max_by f ss)

-- `in_flight` is the count of requests that are open: starts less finishes, modulo 2 ^ 64.
pub record IsAccount (c : Totals) (r : Run) : Type 0 where
  pub requests : r.stats.total_requests ≡ c.starts
  pub in_flight : (r.stats.current_requests + c.finishes) % u64_mod ≡ c.starts
  pub word : r.stats.current_requests < u64_mod
  pub per_second : sum_by (λ s. s.last_qps) r.seconds + r.stats.requests_this_second ≡ c.starts
  pub bytes_in : r.stats.bytes_in ≡ c.received
  pub bytes_out : r.stats.bytes_out ≡ c.sent
  pub seen_in : r.ticker.last_bytes_in ≡ c.received_before
  pub seen_out : r.ticker.last_bytes_out ≡ c.sent_before
  pub grows_in : c.received_before ≤ c.received
  pub grows_out : c.sent_before ≤ c.sent
  pub speeds_in : map (λ s. s.current_speed_in) r.seconds ≡ c.each_received
  pub speeds_out : map (λ s. s.current_speed_out) r.seconds ≡ c.each_sent
  pub peak_qps : r.stats.max_qps ≡ max_by (λ s. s.last_qps) r.seconds
  pub peak_in : r.stats.max_speed_in ≡ max_by (λ s. s.current_speed_in) r.seconds
  pub peak_out : r.stats.max_speed_out ≡ max_by (λ s. s.current_speed_out) r.seconds

-- No count has passed the range of its word.
abbrev pub Fits : Totals → Type 0
Fits c = (c.starts < u64_mod) × (c.received < u64_mod) × (c.sent < u64_mod)

on_event-IsAccount :
    (e : Event) (c : Totals) (r : Run)
    → Fits (count e c)
    → IsAccount c r
    → IsAccount (count e c) (on_event e r)
unfolding on_event wrapping_add wrapping_sub saturating_sub
on_event-IsAccount start c r b h = ground arith
on_event-IsAccount finish c r b h = ground arith
on_event-IsAccount (transfer upstream n) c r b h = ground arith
on_event-IsAccount (transfer downstream n) c r b h = ground arith
on_event-IsAccount second c r b h = ground arith

Fits-count : (e : Event) (c : Totals) → Fits (count e c) → Fits c
Fits-count start c h = omega arith
Fits-count finish c h = omega arith
Fits-count second c h = h
Fits-count (transfer upstream n) c h = omega arith
Fits-count (transfer downstream n) c h = omega arith

Fits-count_all : (es : List Event) (c : Totals) → Fits (count_all es c) → Fits c
Fits-count_all [] c h = h
Fits-count_all (e ∷ es) c h = Fits-count e c (Fits-count_all es (count e c) h)

run-IsAccount_from :
    (es : List Event) (c : Totals) (r : Run)
    → Fits (count_all es c)
    → IsAccount c r
    → IsAccount (count_all es c) (run es r)
unfolding run
run-IsAccount_from [] c r b h = h
run-IsAccount_from (e ∷ es) c r b h =
    run-IsAccount_from es (count e c) (on_event e r) b
      (on_event-IsAccount e c r (Fits-count_all es (count e c) b) h)

-- From the start of the program, over any sequence of starts, finishes, transfers and undisturbed
-- rounds whose counts of starts and bytes stay below 2 ^ 64: the total is the number of starts;
-- the count of open requests is starts less finishes (modulo 2 ^ 64); each start is in the
-- requests per second of exactly one round or still waiting for the next; the byte counts are
-- exact; the speeds that each round sets are the bytes that came and went since the round before;
-- and each peak is the maximum of the rounds' figures.
pub run-IsAccount :
    (now : ℕ) (es : List Event)
    → Fits (count_all es nothing)
    → IsAccount (count_all es nothing) (run es (begin now))
run-IsAccount now es b =
    run-IsAccount_from es nothing (begin now) b (unfold new_stats in ground arith)
