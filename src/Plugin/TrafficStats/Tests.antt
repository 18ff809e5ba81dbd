-- ===== src/Plugin/TrafficStats/Tests.antt =====
-- Tests of src/plugin/traffic_stats.rs and the theorems at concrete inputs.
use bifrost_core.Prelude.{◌+◌, ◌≡◌, refl, List, [], ◌∷◌, ◌++◌, arith}
use bifrost_core.Prelude.Text.{codes, show}
use bifrost_core.Prelude.Words.{wrapping_add, wrapping_sub, saturating_sub}
use bifrost_core.Store.{new_stats}
use bifrost_core.Plugin.{upstream, downstream}
use bifrost_core.Plugin.TrafficStats.{load_bytes_in, stats_line}
use bifrost_core.Plugin.TrafficStats.Account.{
  Event, second, transfer, run, begin, nothing, count_all, IsAccount, run-IsAccount,
}
use bifrost_core.Plugin.TrafficStats.Race.{
  Turn, advance, play, boot, starts_of, gap_starts, counted_in, play-loses_gap,
}

abbrev events : List Event
events =
    Event.start
    ∷ transfer downstream 100
    ∷ second
    ∷ transfer upstream 7
    ∷ Event.start
    ∷ Event.finish
    ∷ second
    ∷ []

peak : (run events (begin 0)).stats.max_speed_in ≡ 100
unfolding run wrapping_add wrapping_sub saturating_sub new_stats
peak = refl

run-IsAccount_example : IsAccount (count_all events nothing) (run events (begin 0))
run-IsAccount_example = run-IsAccount 0 events (omega arith)

-- Seven accesses read the count of requests; a request starts; the next two store it and reset.
abbrev schedule : List Turn
schedule =
    Turn.start ∷ advance ∷ advance ∷ advance ∷ advance ∷ advance ∷ advance ∷ advance ∷ Turn.start
    ∷ advance ∷ advance ∷ []

lost : gap_starts load_bytes_in schedule ≡ 1
unfolding gap_starts
lost = refl

play-loses_gap_example :
    counted_in (play schedule (boot 0)) + gap_starts load_bytes_in schedule ≡ starts_of schedule
play-loses_gap_example = play-loses_gap 0 schedule (omega arith)

first_line :
    stats_line show (new_stats 0)
    ≡ codes "Inbound: 0 MB (0 MB/s, Peak: 0 MB/s), Outbound: 0 MB (0 MB/s, Peak: 0 MB/s), "
      ++ codes "Requests: 0 (Total: 0), QPS: 0 (Peak: 0)"
unfolding stats_line new_stats show
first_line = refl
