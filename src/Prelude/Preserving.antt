-- ===== src/Prelude/Preserving.antt =====
-- Actions that keep a property of the state, on every outcome.
use Prim.Native.Nat.{ℕ}
use mathlib.Core.Bool.{Bool, true, false}
use mathlib.Core.List.{List}
use bifrost_core.Prelude.Tests.{if◌then◌else◌}
use bifrost_core.Prelude.Exec.{
  Outcome, ok, err, panic, Exec, lift, attempt, zoom, continue, ◌>>=◌, ◌>>◌,
}

-- On every outcome, from a state with the one property to a state with the other.
abbrev pub Reaches {κ κ'} : {S A : Type 0} → (S → Type κ) → (S → Type κ') → Exec S A → Type (κ ⊔ κ')
Reaches {S} P E m = (s : S) → P s → E (m s).1

abbrev pub Preserves {κ} : {S A : Type 0} → (S → Type κ) → Exec S A → Type κ
Preserves {S} P m = (s : S) → P s → P (m s).1

module _ {κ} {S A : Type 0} (P : S → Type κ) where
  pub >>=-Preserves :
      {B : Type 0} (m : Exec S A) (f : A → Exec S B)
      → Preserves P m
      → ((a : A) → Preserves P (f a))
      → Preserves P (m >>= f)
  >>=-Preserves {B} m f h k s p = at (m s) (h s p)
    where
      at : (r : Outcome A × S) → P r.1 → P (continue {B = B} r.0 f r.1).1
      at (ok a, t) q = k a t q
      at (err e, t) q = q
      at (panic, t) q = q

  pub attempt-Preserves : (m : Exec S A) → Preserves P m → Preserves P (attempt m)
  attempt-Preserves m h s p = h s p

  pub lift-Preserves : (r : Outcome A) → Preserves P (lift r)
  lift-Preserves r s p = p

  pub if-Preserves :
      (b : Bool) (m n : Exec S A) → Preserves P m → Preserves P n → Preserves P (if b then m else n)
  if-Preserves true m n h k = h
  if-Preserves false m n h k = k

  pub zoom-Preserves :
      {R : Type 0} (m : Exec S A) → Preserves P m → Preserves (λ (t : S × R). P t.0) (zoom m)
  zoom-Preserves m h (s, r) p = h s p

pub >>-Preserves {κ} :
    {S A B : Type 0} (P : S → Type κ) (m : Exec S A) (k : Exec S B)
    → Preserves P m
    → Preserves P k
    → Preserves P (m >> k)
>>-Preserves P m k h j = >>=-Preserves P m (λ _. k) h (λ _. j)

-- By way of a property that is enough where the first action stops.
module _ {κ κ' κ''} {S A : Type 0} (P : S → Type κ) (M : S → Type κ') (E : S → Type κ'') where
  pub >>=-Reaches :
      {B : Type 0} (m : Exec S A) (f : A → Exec S B)
      → Reaches P M m
      → ((s : S) → M s → E s)
      → ((a : A) → Reaches M E (f a))
      → Reaches P E (m >>= f)
  >>=-Reaches {B} m f h stop k s p = at (m s) (h s p)
    where
      at : (r : Outcome A × S) → M r.1 → E (continue {B = B} r.0 f r.1).1
      at (ok a, t) q = k a t q
      at (err e, t) q = stop t q
      at (panic, t) q = stop t q

pub if-Reaches {κ κ'} :
    {S A : Type 0} (P : S → Type κ) (E : S → Type κ') (b : Bool) (m n : Exec S A)
    → Reaches P E m
    → Reaches P E n
    → Reaches P E (if b then m else n)
if-Reaches P E true m n h k = h
if-Reaches P E false m n h k = k

-- With a property of the outcome beside the state.
module _ {κ κ'} {S A B : Type 0} (P : S → Type κ) (E : Outcome B × S → Type κ') where
  pub >>=-Ends :
      (m : Exec S A) (f : A → Exec S B)
      → Preserves P m
      → ((s : S) → P s → ((e : List ℕ) → E (err e, s)) × E (panic, s))
      → ((a : A) (s : S) → P s → E (f a s))
      → (s : S) → P s
      → E ((m >>= f) s)
  >>=-Ends m f h stop k s p = at (m s) (h s p)
    where
      at : (r : Outcome A × S) → P r.1 → E (continue r.0 f r.1)
      at (ok a, t) q = k a t q
      at (err e, t) q = (stop t q).0 e
      at (panic, t) q = (stop t q).1
