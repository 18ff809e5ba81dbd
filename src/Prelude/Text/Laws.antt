-- ===== src/Prelude/Text/Laws.antt =====
-- Laws of the operations on text: equality, search and splitting.
mod Decimal
use Prim.Native.Nat.{ℕ}
use mathlib.Core.Path.{◌≡◌, refl, ap, ◌∙◌}
use mathlib.Core.Logic.{◌≢◌, ◌↔◌, ◌⊎◌, inl, inr}
use mathlib.Core.Bool.{true, false, ◌||◌}
use mathlib.Core.Option.{some, none}
use mathlib.Core.List.{[], ◌∷◌, ◌++◌}
use native.Mathlib.Omega.{arith}
use bifrost_core.Prelude.Tests.{◌==◌, ==_refl, Bool-cases}
use bifrost_core.Prelude.Lists.{All}
use bifrost_core.Prelude.Text.Defs.{Str, str_eq, starts_with, contains, rsplit_once}
pub use Decimal.*

pub str_eq_refl : (s : Str) → str_eq s s ≡ true
unfolding str_eq
str_eq_refl [] = refl
str_eq_refl (a ∷ s) = ground (arith, str_eq_refl s)

pub str_eq_sound : (s t : Str) → str_eq s t ≡ true → s ≡ t
unfolding str_eq
str_eq_sound [] [] h = refl
str_eq_sound [] (b ∷ t) h = cc
str_eq_sound (a ∷ s) [] h = cc
str_eq_sound (a ∷ s) (b ∷ t) h = ground (arith, str_eq_sound s t)

pub str_eq_ne : (s t : Str) → s ≢ t → str_eq s t ≡ false
str_eq_ne s t h = elim (Bool-cases (str_eq s t)) [
  | inl e ↦ absurd (h (str_eq_sound s t e))
  | inr e ↦ e
]

pub ne_of_str_eq : (s t : Str) → str_eq s t ≡ false → s ≢ t
ne_of_str_eq s t h e = cc (h, ap (λ x. str_eq x t) e ∙ str_eq_refl t)

starts_with-append : (t u : Str) → starts_with (t ++ u) t ≡ true
unfolding starts_with
starts_with-append [] [] = refl
starts_with-append [] (a ∷ u) = refl
starts_with-append (a ∷ t) u = ground (arith, starts_with-append t u)

starts_with_sound : (s t : Str) → starts_with s t ≡ true → (u : Str) × (s ≡ t ++ u)
unfolding starts_with
starts_with_sound s [] h = (s, refl)
starts_with_sound [] (b ∷ t) h = cc
starts_with_sound (a ∷ s) (b ∷ t) h =
    let (u, e) = starts_with_sound s t (ground arith) in (u, ground (arith, e))

abbrev pub IsInfix : Str → Str → Type 0
IsInfix t s = (x : Str) × (y : Str) × (s ≡ x ++ (t ++ y))

contains-append : (x t y : Str) → contains (x ++ (t ++ y)) t ≡ true
unfolding contains
contains-append [] [] [] = refl
contains-append [] [] (a ∷ y) = refl
contains-append [] (a ∷ t) y = ground (arith, starts_with-append (a ∷ t) y)
contains-append (a ∷ x) t y = ground (arith, contains-append x t y)

contains_sound : (s t : Str) → contains s t ≡ true → IsInfix t s
unfolding contains
contains_sound [] t h = let (u, e) = starts_with_sound [] t h in ([], u, e)
contains_sound (a ∷ s) t h = elim (Bool-cases (starts_with (a ∷ s) t)) [
  | inl here ↦ (let (u, e) = starts_with_sound (a ∷ s) t here in ([], u, e))
  | inr gone ↦ (let (x, y, e) = contains_sound s t (ground arith) in (a ∷ x, y, ap (λ r. a ∷ r) e))
]

-- `contains` is the search for an infix.
pub contains_iff : (s t : Str) → (contains s t ≡ true) ↔ IsInfix t s
contains_iff s t = (contains_sound s t, λ (x, y, e). rw e (contains-append x t y))

rsplit_once-none : (sep : ℕ) (y : Str) → All (λ c. c ≢ sep) y → rsplit_once sep y ≡ none
unfolding rsplit_once
rsplit_once-none sep [] h = refl
rsplit_once-none sep (a ∷ y) h = ground (arith, rsplit_once-none sep y)

-- The last separator is where `rsplit_once` cuts.
pub rsplit_once-append :
    (sep : ℕ) (x y : Str) → All (λ c. c ≢ sep) y → rsplit_once sep (x ++ sep ∷ y) ≡ some (x, y)
unfolding rsplit_once
rsplit_once-append sep [] y h = rw (rsplit_once-none sep y h, ==_refl)
rsplit_once-append sep (a ∷ x) y h = rw (rsplit_once-append sep x y h)
