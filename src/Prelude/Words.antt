-- ===== src/Prelude/Words.antt =====
-- Machine integers of 64 bits: `AtomicU64` (whose `fetch_add` and `fetch_sub` wrap) and `usize` of
-- a release build on a 64-bit target.
use Prim.Native.Nat.{ℕ, ◌+◌, ◌-◌, ◌%◌, ◌≤◌, ◌<◌}
use mathlib.Core.Path.{◌≡◌}
use native.Mathlib.Omega.{arith}

-- 2 ^ 64
abbrev pub u64_mod : ℕ
u64_mod = 18446744073709551616

unfoldable pub wrapping_add : ℕ → ℕ → ℕ
wrapping_add a b = (a + b) % u64_mod

unfoldable pub wrapping_sub : ℕ → ℕ → ℕ
wrapping_sub a b = (a + u64_mod - b) % u64_mod

-- `u64::saturating_sub`
unfoldable pub saturating_sub : ℕ → ℕ → ℕ
saturating_sub a b = a - b

pub wrapping_add-lt : (a b : ℕ) → wrapping_add a b < u64_mod
unfolding wrapping_add
wrapping_add-lt a b = omega arith

pub wrapping_add-exact : (a b : ℕ) → a + b < u64_mod → wrapping_add a b ≡ a + b
unfolding wrapping_add
wrapping_add-exact a b h = omega arith

pub wrapping_sub-exact : (a b : ℕ) → b ≤ a → a < u64_mod → wrapping_sub a b ≡ a - b
unfolding wrapping_sub
wrapping_sub-exact a b h k = omega arith

pub wrapping_sub-wrapping_add :
    (a b : ℕ) → a < u64_mod → b < u64_mod → wrapping_sub (wrapping_add a b) b ≡ a
unfolding wrapping_add wrapping_sub
wrapping_sub-wrapping_add a b h k = omega arith

pub wrapping_add_assoc : (a b c : ℕ) → wrapping_add (wrapping_add a b) c ≡ wrapping_add a (b + c)
unfolding wrapping_add
wrapping_add_assoc a b c = omega arith
