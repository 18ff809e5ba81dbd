-- ===== src/Prelude/Text/Laws/Decimal.antt =====
-- Printing and parsing decimal numbers.
use Prim.Native.Nat.{ℕ, zero, suc, ◌+◌, ◌-◌, ◌*◌, ◌/◌, ◌%◌, ◌≤◌, ◌<◌}
use mathlib.Core.Path.{◌≡◌, refl, ◌∙◌}
use mathlib.Core.Logic.{◌≢◌, inl, inr}
use mathlib.Core.Option.{Option, some, none}
use mathlib.Core.List.{[], ◌∷◌, ◌++◌}
use native.Mathlib.Omega.{arith}
use bifrost_core.Prelude.Tests.{ltb, Bool-cases}
use bifrost_core.Prelude.Lists.{All, All-append}
use bifrost_core.Prelude.Text.Defs.{Str, digits, show, scan_u16, parse_u16}

abbrev pub IsDigit : ℕ → Type 0
IsDigit c = (48 ≤ c) × (c ≤ 57)

abbrev then_scan : Option ℕ → Str → Option ℕ
then_scan none t = none
then_scan (some m) t = scan_u16 m t

scan_u16-append : (acc : ℕ) (s t : Str) → scan_u16 acc (s ++ t) ≡ then_scan (scan_u16 acc s) t
unfolding scan_u16
scan_u16-append acc [] t = refl
scan_u16-append acc (c ∷ s) t = ground (arith, scan_u16-append (acc * 10 + (c - 48)) s t)

scan_u16_digit :
    (q r : ℕ) → r < 10 → q * 10 + r < 65536 → scan_u16 q ((r + 48) ∷ []) ≡ some (q * 10 + r)
unfolding scan_u16
scan_u16_digit q r h k = ground arith

-- The numbers below `10 ^ f`.
abbrev pub cap : ℕ → ℕ
cap zero = 1
cap (suc f) = 10 * cap f

scan_u16-digits : (f n : ℕ) → n < cap f → n < 65536 → scan_u16 0 (digits f n) ≡ some n
unfolding digits
scan_u16-digits zero n h k = unfold scan_u16 in ground arith
scan_u16-digits (suc f) n h k = elim (Bool-cases (ltb n 10)) [
  | inl small ↦ ground (arith, scan_u16_digit 0 n)
  | inr large ↦ ground (
    arith,
    scan_u16-append 0 (digits f (n / 10)) ((n % 10 + 48) ∷ []),
    scan_u16-digits f (n / 10) (omega arith) (omega arith),
    scan_u16_digit (n / 10) (n % 10) (omega arith) (omega arith),
  )
]

pub digits-IsDigit : (f n : ℕ) → All IsDigit (digits f n)
unfolding digits
digits-IsDigit zero n = tt
digits-IsDigit (suc f) n = elim (Bool-cases (ltb n 10)) [
  | inl small ↦ rw small ((ground arith, ground arith), tt)
  | inr large ↦ rw large (
      All-append IsDigit (digits f (n / 10)) _ (digits-IsDigit f (n / 10))
        ((omega arith, omega arith), tt))
]

pub show-IsDigit : (n : ℕ) → All IsDigit (show n)
unfolding show
show-IsDigit n = digits-IsDigit 20 n

append-ne-nil : (s : Str) (c : ℕ) → s ++ c ∷ [] ≢ []
append-ne-nil [] c e = cc
append-ne-nil (d ∷ s) c e = cc

parse_u16-digit : (c : ℕ) (s : Str) → All IsDigit (c ∷ s) → parse_u16 (c ∷ s) ≡ scan_u16 0 (c ∷ s)
unfolding parse_u16
parse_u16-digit c [] h = refl
parse_u16-digit c (d ∷ s) h = ground arith

parse_u16-digits :
    (s : Str) (n : ℕ) → All IsDigit s → s ≢ [] → scan_u16 0 s ≡ some n → parse_u16 s ≡ some n
parse_u16-digits [] n h k e = absurd (k refl)
parse_u16-digits (c ∷ s) n h k e = parse_u16-digit c s h ∙ e

digits-ne-nil : (f n : ℕ) → digits (suc f) n ≢ []
unfolding digits
digits-ne-nil f n e = elim (Bool-cases (ltb n 10)) [
  | inl small ↦ ground arith
  | inr large ↦ append-ne-nil (digits f (n / 10)) (n % 10 + 48) (ground arith)
]

-- A port that was printed is read back.
pub parse_u16-show : (n : ℕ) → n < 65536 → parse_u16 (show n) ≡ some n
unfolding show
parse_u16-show n h =
    parse_u16-digits (digits 20 n) n (digits-IsDigit 20 n) (digits-ne-nil 19 n)
      (scan_u16-digits 20 n (omega arith) h)
