-- ===== src/Tunnel/Steps.antt =====
-- What the loop does to its own variables does not depend on what the plugins answer, as long as
-- they do not panic.
use bifrost_core.Prelude.{ℕ, ◌≡◌, refl, ◌∙◌, Option, List, [], ◌∷◌}
use bifrost_core.Prelude.Exec.{ok, attempt, >>=-ok}
use bifrost_core.Prelude.Text.{Str}
use bifrost_core.Global.{Global}
use bifrost_core.Plugin.{Plugin, DataDirection}
use bifrost_core.Plugin.Manager
use bifrost_core.Tunnel.{
  received, failed, read, timed_out, Happening, Event, Loop, going, stopped, Turn, count_error,
  fresh, after_write, on_happening, continue_loop, run_loop,
}

unfoldable pub step : Happening → ℕ → Loop → Turn
step timed_out now l = (stopped, l)
step (read d failed write_ok) now l = count_error l
step (read d (received []) write_ok) now l = (stopped, l)
step (read d (received (b ∷ bs)) write_ok) now l = after_write d (b ∷ bs) write_ok (fresh now l)

abbrev pub then_steps : Turn → (Loop → Turn) → Turn
then_steps (going, l) rest = rest l
then_steps (stopped, l) rest = (stopped, l)

unfoldable pub steps : List Event → Loop → Turn
unfolding step
steps [] l = (going, l)
steps (e ∷ es) l = then_steps (step e.what e.time l) (steps es)

module _ (plugins : List (Plugin Global)) (id : ℕ) (P : Global → Type 0) where
  -- Data handed to the plugins does not make them panic, and keeps `P`.
  pub record IsSteady : Type 0 where
    pub at :
        (d : DataDirection) (chunk : Str) (g : Global)
        → P g
        → (o : Option (Unit {0})) × (g' : Global) × (attempt
              (Manager.handle_data plugins id d chunk)
              g
            ≡ (ok o, g'))
          × P g'

  module _ (steady : IsSteady) where
    pub on_happening-step :
        (w : Happening) (now : ℕ) (l : Loop) (g : Global)
        → P g
        → (g' : Global) × (on_happening plugins id w now l g ≡ (ok (step w now l), g')) × P g'
    unfolding on_happening step
    on_happening-step timed_out now l g p = (g, refl, p)
    on_happening-step (read d failed b) now l g p = (g, refl, p)
    on_happening-step (read d (received []) b) now l g p = (g, refl, p)
    on_happening-step (read d (received (c ∷ cs)) b) now l g p =
        let (o, g', done, p') = steady.at d (c ∷ cs) g p in
        (g', >>=-ok (attempt (Manager.handle_data plugins id d (c ∷ cs))) _ done, p')

    then_steps-loop :
        (es : List Event) (t : Turn) (g : Global)
        → P g
        → ((l : Loop) (g : Global)
            → P g
            → (g' : Global) × (run_loop plugins id es l g ≡ (ok (steps es l), g')) × P g')
        → (g' : Global) × (continue_loop t (run_loop plugins id es) g
            ≡ (ok (then_steps t (steps es)), g'))
          × P g'
    then_steps-loop es (going, l) g p rest = rest l g p
    then_steps-loop es (stopped, l) g p rest = (g, refl, p)

    -- The loop ends in the state that `steps` says, and keeps `P`.
    pub run_loop-steps :
        (es : List Event) (l : Loop) (g : Global)
        → P g
        → (g' : Global) × (run_loop plugins id es l g ≡ (ok (steps es l), g')) × P g'
    unfolding run_loop steps
    run_loop-steps [] l g p = (g, refl, p)
    run_loop-steps (e ∷ es) l g p =
        let (g', done, p') = on_happening-step e.what e.time l g p in
        let (g'', later, p'') =
          then_steps-loop es (step e.what e.time l) g' p' (run_loop-steps es) in
        (g'', >>=-ok (on_happening plugins id e.what e.time l) _ done ∙ later, p'')
