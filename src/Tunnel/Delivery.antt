-- ===== src/Tunnel/Delivery.antt =====
-- What the tunnel writes is what it has read, in order.
use bifrost_core.Prelude.{
  ℕ, ◌+◌, leb, Bool-cases, ◌≡◌, ◌≢◌, refl, sym, ap, ◌∙◌, Bool, true, false, List, [], ◌∷◌, ◌++◌,
  append_assoc, append-nil, inl, inr,
}
use bifrost_core.Prelude.Exec.{ok}
use bifrost_core.Prelude.Text.{Str}
use bifrost_core.Global.{Global}
use bifrost_core.Plugin.{Plugin, DataDirection, upstream, downstream}
use bifrost_core.Tunnel.{
  received, failed, read, timed_out, Happening, Event, Loop, going, stopped, Turn, count_error,
  fresh, written, run_loop, max_errors,
}
use bifrost_core.Tunnel.Steps.{step, then_steps, steps, IsSteady, run_loop-steps}

-- What was written to the side that data of a direction goes to.
abbrev pub output : DataDirection → Loop → Str
output upstream l = l.to_server
output downstream l = l.to_client

abbrev when_same : DataDirection → DataDirection → Str → Str
when_same upstream upstream chunk = chunk
when_same downstream downstream chunk = chunk
when_same _ _ chunk = []

-- The chunk of a direction that an event brings and whose write succeeds.
abbrev pub delivered : DataDirection → Happening → Str
delivered d (read d' (received chunk) true) = when_same d d' chunk
delivered d _ = []

abbrev pub delivered_all : DataDirection → List Event → Str
delivered_all d [] = []
delivered_all d (e ∷ es) = delivered d e.what ++ delivered_all d es

count_error-output : (d : DataDirection) (l : Loop) → output d (count_error l).1 ≡ output d l
count_error-output upstream l = refl
count_error-output downstream l = refl

written-output :
    (d d' : DataDirection) (now : ℕ) (chunk : Str) (l : Loop)
    → output d (written d' chunk (fresh now l)) ≡ output d l ++ when_same d d' chunk
written-output upstream upstream now chunk l = refl
written-output upstream downstream now chunk l = sym (append-nil l.to_server)
written-output downstream upstream now chunk l = sym (append-nil l.to_client)
written-output downstream downstream now chunk l = refl

fresh_error-output :
    (d : DataDirection) (now : ℕ) (l : Loop) → output d (count_error (fresh now l)).1 ≡ output d l
fresh_error-output upstream now l = refl
fresh_error-output downstream now l = refl

-- A round that the loop goes on after adds what it delivers; one that ends the loop adds nothing.
abbrev Adds : DataDirection → Happening → Loop → Turn → Type 0
Adds d w l (going, l') = output d l' ≡ output d l ++ delivered d w
Adds d w l (stopped, l') = output d l' ≡ output d l

count_error-Adds :
    (d d' : DataDirection) (b : Bool) (l : Loop) → Adds d (read d' failed b) l (count_error l)
count_error-Adds d d' b l = elim (Bool-cases (leb max_errors (l.error_count + 1))) [
  | inl e ↦ rw e (count_error-output d l)
  | inr e ↦ rw e (count_error-output d l ∙ sym (append-nil (output d l)))
]

step-Adds : (d : DataDirection) (w : Happening) (now : ℕ) (l : Loop) → Adds d w l (step w now l)
unfolding step
step-Adds d timed_out now l = refl
step-Adds d (read d' failed b) now l = count_error-Adds d d' b l
step-Adds d (read d' (received []) b) now l = refl
step-Adds d (read d' (received (c ∷ cs)) true) now l = written-output d d' now (c ∷ cs) l
step-Adds d (read d' (received (c ∷ cs)) false) now l =
    fresh_error-output d now l ∙ sym (append-nil (output d l))

-- The events up to the one that ended the loop, if one did, and what they have delivered.
pub record IsServed (es : List Event) (l : Loop) (turn : Turn) : Type 0 where
  pub before : List Event
  pub after : List Event
  pub split : es ≡ before ++ after
  pub outputs : (d : DataDirection) → output d turn.1 ≡ output d l ++ delivered_all d before
  pub all_served : turn.0 ≡ going → after ≡ []
  pub one_ended : turn.0 ≡ stopped → after ≢ []

steps-IsServed : (es : List Event) (l : Loop) → IsServed es l (steps es l)
unfolding steps
steps-IsServed [] l = record {
  before = [];
  after = [];
  split = refl;
  outputs = λ d. sym (append-nil (output d l));
  all_served = λ e. refl;
  one_ended = λ e. cc;
}
steps-IsServed (e ∷ es) l =
    go (step e.what e.time l) (λ d. step-Adds d e.what e.time l) (steps-IsServed es)
  where
    go :
        (t : Turn)
        → ((d : DataDirection) → Adds d e.what l t)
        → ((l' : Loop) → IsServed es l' (steps es l'))
        → IsServed (e ∷ es) l (then_steps t (steps es))
    go (going, l') adds rest =
        let r = rest l' in
        record {
          before = e ∷ r.before;
          after = r.after;
          split = ap (λ xs. e ∷ xs) r.split;
          outputs = λ d.
              r.outputs d
              ∙ ap (λ o. o ++ delivered_all d r.before) (adds d)
              ∙ append_assoc (output d l) (delivered d e.what) (delivered_all d r.before);
          all_served = r.all_served;
          one_ended = r.one_ended;
        }
    go (stopped, l') adds rest = record {
      before = [];
      after = e ∷ es;
      split = refl;
      outputs = λ d. adds d ∙ sym (append-nil (output d l));
      all_served = λ h. cc;
      one_ended = λ h k. cc;
    }

-- Where handing data to the plugins does not make them panic, the loop neither fails nor panics.
-- For some first part of the events, which is all of them as long as the loop goes on and which
-- leaves out at least the last one if the loop has stopped, each side has been sent, after what it
-- had been sent before, exactly the chunks that were read from the other side and whose writes
-- succeeded, in the order of the reads.
pub run_loop-serves :
    (plugins : List (Plugin Global)) (id : ℕ) (P : Global → Type 0)
    → IsSteady plugins id P
    → (es : List Event) (l : Loop) (g : Global) → P g
    → (turn : Turn) × (g' : Global) × (run_loop plugins id es l g ≡ (ok turn, g'))
      × IsServed es l turn
run_loop-serves plugins id P steady es l g p =
    let (g', done, _) = run_loop-steps plugins id P steady es l g p in
    (steps es l, g', done, steps-IsServed es l)
