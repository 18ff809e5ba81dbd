-- ===== src/HttpsInterceptor/Signing/Returns.antt =====
-- What holds of the result of calls whose failures end an action.
use mathlib.Core.Path.{subst}
use bifrost_core.Prelude.{◌≡◌, refl}
use bifrost_core.Prelude.Exec.{Outcome, Exec, ok, err, panic, lift, continue, ◌>>=◌, ◌>>◌}
use bifrost_core.Prelude.Text.{Str}
use bifrost_core.HttpsInterceptor.Signing.{map_err, explain, ask, changed, update}

-- Of an action that returns.
abbrev pub Returns : {S A : Type 0} → (A → S → Type 0) → Outcome A × S → Type 0
Returns P (ok a, t) = P a t
Returns P (err e, t) = Unit
Returns P (panic, t) = Unit

module _ {S B : Type 0} (P : B → S → Type 0) (label : Str) (s : S) where
  pub explain-Returns :
      {A : Type 0} (r : Outcome A) (f : A → Exec S B)
      → ((a : A) → r ≡ ok a → Returns P (f a s))
      → Returns P ((explain label r >>= f) s)
  unfolding explain
  explain-Returns (ok a) f h = h a refl
  explain-Returns (err e) f h = tt
  explain-Returns panic f h = tt

  pub ask-Returns :
      {A : Type 0} (g : S → Outcome A) (f : A → Exec S B)
      → ((a : A) → g s ≡ ok a → Returns P (f a s))
      → Returns P ((ask label g >>= f) s)
  unfolding ask explain
  ask-Returns g f h = explain-Returns (g s) f h

  changed-Returns :
      (r : Outcome S) (k : Exec S B)
      → ((t : S) → r ≡ ok t → Returns P (k t))
      → Returns P
          (continue (changed s (map_err label r)).0 (λ _. k) (changed s (map_err label r)).1)
  changed-Returns (ok t) k h = h t refl
  changed-Returns (err e) k h = tt
  changed-Returns panic k h = tt

  pub update-Returns :
      (g : S → Outcome S) (k : Exec S B)
      → ((t : S) → g s ≡ ok t → Returns P (k t))
      → Returns P ((update label g >> k) s)
  unfolding update
  update-Returns g k h = changed-Returns (g s) k h

-- The last call of an action.
changed-last :
    {S : Type 0} (P : Unit {0} → S → Type 0) (label : Str) (s : S) (r : Outcome S)
    → ((t : S) → r ≡ ok t → P tt t)
    → Returns P (changed s (map_err label r))
changed-last P label s (ok t) h = h t refl
changed-last P label s (err e) h = tt
changed-last P label s panic h = tt

pub last-Returns :
    {S : Type 0} (P : Unit {0} → S → Type 0) (label : Str) (s : S) (g : S → Outcome S)
    → ((t : S) → g s ≡ ok t → P tt t)
    → Returns P (update label g s)
unfolding update
last-Returns P label s g h = changed-last P label s (g s) h

pub then-Returns :
    {S A B : Type 0} (P : B → S → Type 0) (Q : A → S → Type 0) (r : Outcome A × S)
    (f : A → Exec S B)
    → Returns Q r
    → ((a : A) (t : S) → Q a t → Returns P (f a t))
    → Returns P (continue r.0 f r.1)
then-Returns P Q (ok a, t) f q h = h a t q
then-Returns P Q (err e, t) f q h = tt
then-Returns P Q (panic, t) f q h = tt

-- From one state to another, where the property is of the result.
pub lift-Returns :
    {S T A : Type 0} (P Q : A → Type 0) (t : T) (r : Outcome A × S)
    → Returns (λ a _. Q a) r
    → ((a : A) → Q a → P a)
    → Returns (λ a _. P a) (lift r.0 t)
lift-Returns P Q t (ok a, s) q h = h a q
lift-Returns P Q t (err e, s) q h = tt
lift-Returns P Q t (panic, s) q h = tt

pub Returns-ok :
    {S A : Type 0} (P : A → S → Type 0) (r : Outcome A × S) (a : A)
    → r.0 ≡ ok a
    → Returns P r
    → P a r.1
Returns-ok P r a e h = subst (λ o. Returns P (o, r.1)) e h
