-- ===== src/Plugin/TrafficStats/Race.antt =====
-- The task against the handlers, access by access: `requests_this_second` is read and set to zero
-- in two steps, and what is counted between them is in no second.
use bifrost_core.Prelude.{ℕ, ◌+◌, ◌<◌, ◌≤◌, ◌≡◌, refl, List, [], ◌∷◌, arith}
use bifrost_core.Prelude.Words.{u64_mod, wrapping_add}
use bifrost_core.Store.{TrafficStatsData, new_stats}
use bifrost_core.Plugin.{DataDirection, upstream, downstream}
use bifrost_core.Plugin.TrafficStats.{
  count_start, count_end, count_data, Ticker, new_ticker, Action, load_bytes_in, load_bytes_out,
  store_speed_in, store_speed_out, raise_max_in, raise_max_out, load_qps, store_qps, reset_requests,
  raise_max_qps, remember_bytes, act,
}

-- The access that follows; the last one leads to the next round.
unfoldable pub next : Action → Action
next load_bytes_in = load_bytes_out
next load_bytes_out = store_speed_in
next store_speed_in = store_speed_out
next store_speed_out = raise_max_in
next raise_max_in = raise_max_out
next raise_max_out = load_qps
next load_qps = store_qps
next store_qps = reset_requests
next reset_requests = raise_max_qps
next raise_max_qps = remember_bytes
next remember_bytes = load_bytes_in

-- One turn of the scheduler: an access of the task, or a whole handler of the plugin.
pub data Turn : Type 0 where
  advance start finish : Turn
  transfer : DataDirection → ℕ → Turn

-- `log` has the values that were stored as requests per second.
pub record Machine : Type 0 where
  pub position : Action
  pub ticker : Ticker
  pub stats : TrafficStatsData
  pub log : List ℕ

abbrev pub boot : ℕ → Machine
boot now = record { position = load_bytes_in; ticker = new_ticker; stats = new_stats now; log = [] }

abbrev noted : Action → ℕ → List ℕ → List ℕ
noted store_qps qps log = qps ∷ log
noted _ qps log = log

abbrev moved : Machine → Ticker × TrafficStatsData → Machine
moved m (t, s) = record {
  position = next m.position;
  ticker = t;
  stats = s;
  log = noted m.position m.ticker.current_qps m.log;
}

unfoldable pub turn : Turn → Machine → Machine
unfolding next act count_start count_end count_data
turn advance m = moved m (act m.position (m.ticker, m.stats))
turn start m = record m { stats = count_start m.stats }
turn finish m = record m { stats = count_end m.stats }
turn (transfer d n) m = record m { stats = count_data d n m.stats }

unfoldable pub play : List Turn → Machine → Machine
unfolding turn
play [] m = m
play (t ∷ ts) m = play ts (turn t m)

-- How many starts a schedule has from a position on, and how many of them come between the read
-- of `requests_this_second` and its reset.
abbrev pub starts_of : List Turn → ℕ
starts_of [] = 0
starts_of (start ∷ ts) = starts_of ts + 1
starts_of (_ ∷ ts) = starts_of ts

abbrev pub in_gap : Action → ℕ
in_gap store_qps = 1
in_gap reset_requests = 1
in_gap _ = 0

unfoldable pub gap_starts : Action → List Turn → ℕ
unfolding next
gap_starts at [] = 0
gap_starts at (advance ∷ ts) = gap_starts (next at) ts
gap_starts at (start ∷ ts) = in_gap at + gap_starts at ts
gap_starts at (_ ∷ ts) = gap_starts at ts

abbrev pub total : List ℕ → ℕ
total [] = 0
total (n ∷ ns) = n + total ns

-- The starts that have been logged or wait to be.
abbrev pub counted : Action → ℕ → ℕ → ℕ → ℕ
counted store_qps logged current waiting = logged + current
counted reset_requests logged current waiting = logged
counted _ logged current waiting = logged + waiting

abbrev pub counted_in : Machine → ℕ
counted_in m = counted m.position (total m.log) m.ticker.current_qps m.stats.requests_this_second

advance-counted : (m : Machine) → counted_in (turn advance m) ≡ counted_in m
unfolding turn
advance-counted m = ground arith

start-counted :
    (m : Machine)
    → m.stats.requests_this_second + 1 < u64_mod
    → counted_in (turn start m) + in_gap m.position ≡ counted_in m + 1
unfolding turn wrapping_add
start-counted m h = ground arith

position-start : (m : Machine) → (turn start m).position ≡ m.position
unfolding turn
position-start m = refl

waiting-turn :
    (t : Turn) (ts : List Turn) (m : Machine)
    → (turn t m).stats.requests_this_second + starts_of ts
      ≤ m.stats.requests_this_second + starts_of (t ∷ ts)
unfolding turn wrapping_add
waiting-turn advance ts m = ground arith
waiting-turn start ts m = omega arith
waiting-turn finish ts m = omega arith
waiting-turn (transfer upstream n) ts m = omega arith
waiting-turn (transfer downstream n) ts m = omega arith

turn-counted :
    (t : Turn) (ts : List Turn) (m : Machine)
    → m.stats.requests_this_second + starts_of (t ∷ ts) < u64_mod
    → counted_in (turn t m) + gap_starts m.position (t ∷ ts) + starts_of ts
      ≡ counted_in m + gap_starts (turn t m).position ts + starts_of (t ∷ ts)
turn-counted advance ts m h = unfold gap_starts in unfold turn in ground (arith, advance-counted m)
turn-counted start ts m h =
    unfold gap_starts in ground (arith, start-counted m (omega arith), position-start m)
turn-counted finish ts m h = unfold gap_starts in unfold turn in ground arith
turn-counted (transfer upstream n) ts m h = unfold gap_starts in unfold turn in ground arith
turn-counted (transfer downstream n) ts m h = unfold gap_starts in unfold turn in ground arith

play-counted :
    (ts : List Turn) (m : Machine)
    → m.stats.requests_this_second + starts_of ts < u64_mod
    → counted_in (play ts m) + gap_starts m.position ts ≡ counted_in m + starts_of ts
unfolding play gap_starts
play-counted [] m h = omega arith
play-counted (t ∷ ts) m h =
    omega (
      arith,
      play-counted ts (turn t m) (omega (arith, waiting-turn t ts m)),
      turn-counted t ts m h,
    )

-- Whatever the schedule of the task and the handlers from the start of the program, with fewer
-- than 2 ^ 64 starts: the starts that are logged as requests per second or wait to be, and those
-- that came between the task's read of `requests_this_second` and its reset, are all the starts.
-- So each request that starts in that gap is in no second.
pub play-loses_gap :
    (now : ℕ) (ts : List Turn)
    → starts_of ts < u64_mod
    → counted_in (play ts (boot now)) + gap_starts load_bytes_in ts ≡ starts_of ts
play-loses_gap now ts h =
    unfold new_stats in omega (arith, play-counted ts (boot now) (unfold new_stats in omega arith))
