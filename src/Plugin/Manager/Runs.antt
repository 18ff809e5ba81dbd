-- ===== src/Plugin/Manager/Runs.antt =====
-- Which plugins a loop of the manager runs, and what it ends with, as a relation.
use bifrost_core.Prelude.{ℕ, ◌≡◌, refl, Bool, true, false, List, [], ◌∷◌, none, if◌then◌else◌}
use bifrost_core.Prelude.Exec.{Outcome, Exec, ok, err, panic, pure, continue}
use bifrost_core.Prelude.Text.{Str}
use bifrost_core.Http.{Request, Incoming}
use bifrost_core.Plugin.{Plugin, DataDirection, Verdict}
use bifrost_core.Plugin.Manager

-- From a state to an outcome and a state: the plugins are called in order, each in the state that
-- the one before it has left, until one answers with a value that does not let the call pass, fails
-- or panics; what it answers stands. Where all let it pass the answer is `passed`.
pub data Runs {S T V : Type 0} (call : Plugin S → Exec T V) (passes : V → Bool) (passed : V)
    : List (Plugin S) → T → Outcome V × T → Type 0 where
  through : {t : T} → Runs call passes passed [] t (ok passed, t)
  pass :
      {p : Plugin S} {ps : List (Plugin S)} {t t' : T} {r : Outcome V × T} (v : V)
      → call p t ≡ (ok v, t')
      → passes v ≡ true
      → Runs call passes passed ps t' r
      → Runs call passes passed (p ∷ ps) t r
  stop :
      {p : Plugin S} {ps : List (Plugin S)} {t t' : T} (v : V)
      → call p t ≡ (ok v, t')
      → passes v ≡ false
      → Runs call passes passed (p ∷ ps) t (ok v, t')
  fail :
      {p : Plugin S} {ps : List (Plugin S)} {t t' : T} (e : Str)
      → call p t ≡ (err e, t')
      → Runs call passes passed (p ∷ ps) t (err e, t')
  crash :
      {p : Plugin S} {ps : List (Plugin S)} {t t' : T}
      → call p t ≡ (panic, t')
      → Runs call passes passed (p ∷ ps) t (panic, t')

-- The test on a verdict.
abbrev pub goes_on : Verdict → Bool
goes_on (b, response) = b

abbrev pub itself : Bool → Bool
itself b = b

abbrev pub always : Unit {0} → Bool
always u = true

-- One plugin before the rest of the list, for each kind of answer.
module _ {S T : Type 0} (p : Plugin S) (ps : List (Plugin S)) (t : T) where
  Runs-verdict :
      (call : Plugin S → Exec T Verdict) (rest : Exec T Verdict)
      → ((t' : T) → Runs call goes_on (true, none) ps t' (rest t'))
      → (r : Outcome Verdict × T) → call p t ≡ r
      → Runs call goes_on
          (true, none)
          (p ∷ ps)
          t
          (continue r.0 (λ v. if v.0 then rest else pure (false, v.1)) r.1)
  Runs-verdict call rest h (ok (true, x), t') e = pass (true, x) e refl (h t')
  Runs-verdict call rest h (ok (false, x), t') e = stop (false, x) e refl
  Runs-verdict call rest h (err x, t') e = fail x e
  Runs-verdict call rest h (panic, t') e = crash e

  Runs-bool :
      (call : Plugin S → Exec T Bool) (rest : Exec T Bool)
      → ((t' : T) → Runs call itself true ps t' (rest t'))
      → (r : Outcome Bool × T) → call p t ≡ r
      → Runs call itself true (p ∷ ps) t (continue r.0 (λ b. if b then rest else pure false) r.1)
  Runs-bool call rest h (ok true, t') e = pass true e refl (h t')
  Runs-bool call rest h (ok false, t') e = stop false e refl
  Runs-bool call rest h (err x, t') e = fail x e
  Runs-bool call rest h (panic, t') e = crash e

  Runs-unit :
      (call : Plugin S → Exec T (Unit {0})) (rest : Exec T (Unit {0}))
      → ((t' : T) → Runs call always tt ps t' (rest t'))
      → (r : Outcome (Unit {0}) × T) → call p t ≡ r
      → Runs call always tt (p ∷ ps) t (continue r.0 (λ _. rest) r.1)
  Runs-unit call rest h (ok tt, t') e = pass tt e refl (h t')
  Runs-unit call rest h (err x, t') e = fail x e
  Runs-unit call rest h (panic, t') e = crash e

module _ {S : Type 0} where
  handle_request-Runs :
      (ps : List (Plugin S)) (id : ℕ) (t : S × Request)
      → Runs (λ p. p.handle_request id) goes_on (true, none) ps t (Manager.handle_request ps id t)
  unfolding Manager.handle_request
  handle_request-Runs [] id t = through
  handle_request-Runs (p ∷ ps) id t =
      Runs-verdict p ps t (λ p. p.handle_request id) (Manager.handle_request ps id)
        (handle_request-Runs ps id) (p.handle_request id t) refl

  handle_response-Runs :
      (ps : List (Plugin S)) (id : ℕ) (req : Request) (t : S × Incoming)
      → Runs (λ p. p.handle_response id req) itself true ps t (Manager.handle_response ps id req t)
  unfolding Manager.handle_response
  handle_response-Runs [] id req t = through
  handle_response-Runs (p ∷ ps) id req t =
      Runs-bool p ps t (λ p. p.handle_response id req) (Manager.handle_response ps id req)
        (handle_response-Runs ps id req) (p.handle_response id req t) refl

  handle_connect-Runs :
      (ps : List (Plugin S)) (id : ℕ) (req : Request) (s : S)
      → Runs
          (λ p. p.handle_connect id req)
          goes_on
          (true, none)
          ps
          s
          (Manager.handle_connect ps id req s)
  unfolding Manager.handle_connect
  handle_connect-Runs [] id req s = through
  handle_connect-Runs (p ∷ ps) id req s =
      Runs-verdict p ps s (λ p. p.handle_connect id req) (Manager.handle_connect ps id req)
        (handle_connect-Runs ps id req) (p.handle_connect id req s) refl

  handle_connect_close-Runs :
      (ps : List (Plugin S)) (id : ℕ) (target : Str) (s : S)
      → Runs
          (λ p. p.handle_connect_close id target)
          itself
          true
          ps
          s
          (Manager.handle_connect_close ps id target s)
  unfolding Manager.handle_connect_close
  handle_connect_close-Runs [] id target s = through
  handle_connect_close-Runs (p ∷ ps) id target s =
      Runs-bool p ps s (λ p. p.handle_connect_close id target)
        (Manager.handle_connect_close ps id target) (handle_connect_close-Runs ps id target)
        (p.handle_connect_close id target s) refl

  handle_data-Runs :
      (ps : List (Plugin S)) (id : ℕ) (d : DataDirection) (chunk : Str) (s : S)
      → Runs (λ p. p.handle_data id d chunk) always tt ps s (Manager.handle_data ps id d chunk s)
  unfolding Manager.handle_data
  handle_data-Runs [] id d chunk s = through
  handle_data-Runs (p ∷ ps) id d chunk s =
      Runs-unit p ps s (λ p. p.handle_data id d chunk) (Manager.handle_data ps id d chunk)
        (handle_data-Runs ps id d chunk) (p.handle_data id d chunk s) refl

  -- Each of the five loops does what `Runs` says, on every state: the plugins are called in order,
  -- each in the state that the one before it has left. The first that answers with false, fails or
  -- panics ends the loop, with its answer, and no later one is called; where none does, the answer
  -- is to go on, without a response. Data goes to all plugins until one fails.
  pub manager-Runs :
      (ps : List (Plugin S)) (id : ℕ) (req : Request) (target : Str) (d : DataDirection)
      (chunk : Str)
      → ((t : S × Request)
          → Runs
              (λ p. p.handle_request id)
              goes_on
              (true, none)
              ps
              t
              (Manager.handle_request ps id t))
        × ((t : S × Incoming)
            → Runs
                (λ p. p.handle_response id req)
                itself
                true
                ps
                t
                (Manager.handle_response ps id req t))
        × ((s : S)
            → Runs
                (λ p. p.handle_connect id req)
                goes_on
                (true, none)
                ps
                s
                (Manager.handle_connect ps id req s))
        × ((s : S)
            → Runs
                (λ p. p.handle_connect_close id target)
                itself
                true
                ps
                s
                (Manager.handle_connect_close ps id target s))
        × ((s : S)
            → Runs
                (λ p. p.handle_data id d chunk)
                always
                tt
                ps
                s
                (Manager.handle_data ps id d chunk s))
  manager-Runs ps id req target d chunk = (
    handle_request-Runs ps id,
    handle_response-Runs ps id req,
    handle_connect-Runs ps id req,
    handle_connect_close-Runs ps id target,
    handle_data-Runs ps id d chunk,
  )
