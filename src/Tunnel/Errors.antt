-- ===== src/Tunnel/Errors.antt =====
-- When the loop gives up: the counter of errors and the timer.
use native.Mathlib.Nat.{le_trans}
use bifrost_core.Prelude.{ℕ, ◌+◌, ◌≤◌, ◌≡◌, refl, ap, ◌∙◌, true, false, List, [], ◌∷◌, arith, All}
use bifrost_core.Prelude.Exec.{ok}
use bifrost_core.Global.{Global}
use bifrost_core.Plugin.{Plugin, upstream, downstream}
use bifrost_core.Tunnel.{
  received, failed, read, timed_out, timeout_duration, Happening, Event, Loop, going, stopped, Turn,
  run_loop, count_error,
}
use bifrost_core.Tunnel.Steps.{step, then_steps, steps, IsSteady, run_loop-steps}

-- A read that gave data, whatever became of the write.
abbrev pub IsData : Happening → Type 0
IsData (read d (received (c ∷ cs)) write_ok) = Unit
IsData _ = ⊥

abbrev pub IsFailedRead : Happening → Type 0
IsFailedRead (read d failed write_ok) = Unit
IsFailedRead _ = ⊥

step-data :
    (w : Happening) (now : ℕ) (l : Loop)
    → IsData w
    → ((step w now l).0 ≡ going) × ((step w now l).1.error_count ≤ 1)
unfolding step
step-data (read upstream (received (c ∷ cs)) true) now l h = (refl, omega arith)
step-data (read downstream (received (c ∷ cs)) true) now l h = (refl, omega arith)
step-data (read d (received (c ∷ cs)) false) now l h = (refl, omega arith)
step-data (read d (received []) b) now l h = absurd h
step-data (read d failed b) now l h = absurd h
step-data timed_out now l h = absurd h

then_steps-going : (t : Turn) (rest : Loop → Turn) → t.0 ≡ going → then_steps t rest ≡ rest t.1
then_steps-going (going, l) rest e = refl
then_steps-going (stopped, l) rest e = cc

steps-data :
    (es : List Event) (l : Loop)
    → All (λ e. IsData e.what) es
    → l.error_count ≤ 1
    → ((steps es l).0 ≡ going) × ((steps es l).1.error_count ≤ 1)
unfolding steps
steps-data [] l h few = (refl, few)
steps-data (e ∷ es) l h few =
    let (goes, few') = step-data e.what e.time l h.0 in
    rw (then_steps-going (step e.what e.time l) (steps es) goes)
      (steps-data es (step e.what e.time l).1 h.1 few')

-- After reads that all gave data the loop goes on, even if every write has failed: each read sets
-- the counter back to 0, so that failing writes never bring it past 1, far from `MAX_ERRORS`.
pub failing_writes-go_on :
    (plugins : List (Plugin Global)) (id : ℕ) (P : Global → Type 0)
    → IsSteady plugins id P
    → (es : List Event) (l : Loop) (g : Global) → P g
    → All (λ e. IsData e.what) es
    → l.error_count ≤ 1
    → (l' : Loop) × (g' : Global) × (run_loop plugins id es l g ≡ (ok (going, l'), g'))
      × (l'.error_count ≤ 1)
failing_writes-go_on plugins id P steady es l g p h few =
    let (g', done, _) = run_loop-steps plugins id P steady es l g p in
    let (goes, few') = steps-data es l h few in
    ((steps es l).1, g', done ∙ ap (λ t. (ok (t, (steps es l).1), g')) goes, few')

-- Times that do not go back.
abbrev pub InOrder : ℕ → List Event → Type 0
InOrder now [] = Unit
InOrder now (e ∷ es) = (now ≤ e.time) × InOrder e.time es

step-deadline :
    (w : Happening) (now t : ℕ) (l : Loop)
    → now ≤ t
    → l.deadline ≤ now + timeout_duration
    → (l.deadline ≤ (step w t l).1.deadline)
      × ((step w t l).1.deadline ≤ t + timeout_duration)
      × (IsData w → t + timeout_duration ≤ (step w t l).1.deadline)
unfolding step
step-deadline timed_out now t l h k = (omega arith, omega arith, λ d. absurd d)
step-deadline (read d failed b) now t l h k = (omega arith, omega arith, λ x. absurd x)
step-deadline (read d (received []) b) now t l h k = (omega arith, omega arith, λ x. absurd x)
step-deadline (read upstream (received (c ∷ cs)) true) now t l h k =
    (omega arith, omega arith, λ x. omega arith)
step-deadline (read downstream (received (c ∷ cs)) true) now t l h k =
    (omega arith, omega arith, λ x. omega arith)
step-deadline (read d (received (c ∷ cs)) false) now t l h k =
    (omega arith, omega arith, λ x. omega arith)

-- The timer is not due before 5 minutes after any data.
abbrev pub IsIdleSince : ℕ → List Event → Type 0
IsIdleSince t es = All (λ e. IsData e.what → e.time + timeout_duration ≤ t) es

IsIdleSince-le : (a b : ℕ) (es : List Event) → a ≤ b → IsIdleSince a es → IsIdleSince b es
IsIdleSince-le a b [] h k = tt
IsIdleSince-le a b (e ∷ es) h k = ((λ d. le_trans (k.0 d) h), IsIdleSince-le a b es h k.1)

steps-deadline :
    (es : List Event) (now : ℕ) (l : Loop)
    → InOrder now es
    → l.deadline ≤ now + timeout_duration
    → (steps es l).0 ≡ going
    → (l.deadline ≤ (steps es l).1.deadline) × IsIdleSince (steps es l).1.deadline es
unfolding steps
steps-deadline [] now l order due goes = (omega arith, tt)
steps-deadline (e ∷ es) now l order due goes =
    go (step e.what e.time l) (step-deadline e.what now e.time l order.0 due) goes
      (λ l' h k. steps-deadline es e.time l' order.1 h k)
  where
    go :
        (t : Turn)
        → (l.deadline ≤ t.1.deadline)
          × (t.1.deadline ≤ e.time + timeout_duration)
          × (IsData e.what → e.time + timeout_duration ≤ t.1.deadline)
        → (then_steps t (steps es)).0 ≡ going
        → ((l' : Loop)
            → l'.deadline ≤ e.time + timeout_duration
            → (steps es l').0 ≡ going
            → (l'.deadline ≤ (steps es l').1.deadline) × IsIdleSince (steps es l').1.deadline es)
        → (l.deadline ≤ (then_steps t (steps es)).1.deadline)
          × IsIdleSince (then_steps t (steps es)).1.deadline (e ∷ es)
    go (going, l') (up, high, data_in) goes rest =
        let (later, idle) = rest l' high goes in
        (le_trans up later, ((λ d. le_trans (data_in d) later), idle))
    go (stopped, l') h goes rest = cc

-- For events whose times do not go back, as long as the loop goes on: if the timer is due at a
-- time `t`, then no data has come from either side in the 5 minutes before `t`.
pub timeout-idle :
    (plugins : List (Plugin Global)) (id : ℕ) (P : Global → Type 0)
    → IsSteady plugins id P
    → (es : List Event) (now t : ℕ) (l l' : Loop) (g g' : Global) → P g
    → InOrder now es
    → l.deadline ≤ now + timeout_duration
    → run_loop plugins id es l g ≡ (ok (going, l'), g')
    → l'.deadline ≤ t
    → IsIdleSince t es
timeout-idle plugins id P steady es now t l l' g g' p order due ran fires =
    let (g'', done, _) = run_loop-steps plugins id P steady es l g p in
    let same : steps es l ≡ (going, l') = cc (done, ran) in
    let (_, idle) = steps-deadline es now l order due (ap (λ x. x.0) same) in
    IsIdleSince-le l'.deadline t es fires (rw same at idle)

step-failed : (w : Happening) (now : ℕ) → IsFailedRead w → (l : Loop) → step w now l ≡ count_error l
unfolding step
step-failed timed_out now h l = absurd h
step-failed (read d failed b) now h l = refl
step-failed (read d (received []) b) now h l = absurd h
step-failed (read d (received (c ∷ cs)) b) now h l = absurd h

three_errors :
    (l : Loop) (rest : Loop → Turn)
    → (then_steps
        (count_error l)
        (λ x. then_steps (count_error x) (λ y. then_steps (count_error y) rest))).0
      ≡ stopped
three_errors l rest = ground arith

-- Three reads that fail one after the other end the loop, whatever happened before and whichever
-- sides they are from.
pub three_failed_reads-stop :
    (plugins : List (Plugin Global)) (id : ℕ) (P : Global → Type 0)
    → IsSteady plugins id P
    → (a b c : Event) (es : List Event) (l : Loop) (g : Global) → P g
    → IsFailedRead a.what
    → IsFailedRead b.what
    → IsFailedRead c.what
    → (l' : Loop) × (g' : Global) × (run_loop plugins id (a ∷ b ∷ c ∷ es) l g
        ≡ (ok (stopped, l'), g'))
unfolding steps
three_failed_reads-stop plugins id P steady a b c es l g h p q r =
    let all = a ∷ b ∷ c ∷ es in
    let (g', done, _) = run_loop-steps plugins id P steady all l g h in
    let stops : (steps all l).0 ≡ stopped =
      simp (step-failed a.what a.time p, step-failed b.what b.time q, step-failed c.what c.time r)
        (three_errors l (steps es)) in
    ((steps all l).1, g', done ∙ ap (λ t. (ok (t, (steps all l).1), g')) stops)
