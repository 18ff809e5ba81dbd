-- ===== src/Prelude/Exec.antt =====
-- Fallible code over a state. A call returns, fails with a `Box<dyn Error>` (its message), or
-- panics (`unwrap`, `expect`); what was written before stays written, so the state comes back too.
use Prim.Native.Nat.{ℕ}
use mathlib.Core.Path.{◌≡◌, refl, ap}
use mathlib.Core.List.{List}
use mathlib.Core.Option.{Option, none, some}

pub data Outcome {ℓ} (A : Type ℓ) : Type ℓ where
  ok : A → Outcome A
  err : List ℕ → Outcome A
  panic : Outcome A

abbrev pub Exec {ℓ} : Type ℓ → Type ℓ → Type ℓ
Exec S A = S → Outcome A × S

-- `.ok()`: an error is dropped, a panic is not.
abbrev pub try_of {ℓ} : {A : Type ℓ} → Outcome A → Outcome (Option A)
try_of (ok a) = ok (some a)
try_of (err e) = ok none
try_of panic = panic

module _ {ℓ} {S A : Type ℓ} where
  abbrev pub pure : A → Exec S A
  pure a s = (ok a, s)

  abbrev pub fail : List ℕ → Exec S A
  fail e s = (err e, s)

  abbrev pub abort : Exec S A
  abort s = (panic, s)

  abbrev pub gets : (S → A) → Exec S A
  gets f s = (ok (f s), s)

  -- A `Result` whose error is passed on by `?`.
  abbrev pub lift : Outcome A → Exec S A
  lift r s = (r, s)

  abbrev pub attempt : Exec S A → Exec S (Option A)
  attempt m s = let (r, s') = m s in (try_of r, s')

module _ {ℓ} {S A B : Type ℓ} where
  abbrev pub continue : Outcome A → (A → Exec S B) → Exec S B
  continue (ok a) f s = f a s
  continue (err e) f s = (err e, s)
  continue panic f s = (panic, s)

  infixl 5 ◌>>=◌ ◌>>◌
  abbrev pub ◌>>=◌ : Exec S A → (A → Exec S B) → Exec S B
  ◌>>=◌ m f s = let (r, s') = m s in continue r f s'

  abbrev pub ◌>>◌ : Exec S A → Exec S B → Exec S B
  ◌>>◌ m k s = let (r, s') = m s in continue r (λ _. k) s'

-- An action on one part of the state, such as what `&mut req` refers to beside the globals.
abbrev pub zoom {ℓ} : {S R A : Type ℓ} → Exec S A → Exec (S × R) A
zoom m (s, r) = let (a, s') = m s in (a, (s', r))

module _ {ℓ} {S A B : Type ℓ} where
  pub >>=_congr :
      (m : Exec S A) {f g : A → Exec S B}
      → ((a : A) (s : S) → f a s ≡ g a s)
      → (s : S) → (m >>= f) s ≡ (m >>= g) s
  >>=_congr m {f} {g} h s = at (m s)
    where
      at : (r : Outcome A × S) → continue r.0 f r.1 ≡ continue r.0 g r.1
      at (ok a, t) = h a t
      at (err e, t) = refl
      at (panic, t) = refl

  -- What follows a call that returned.
  pub >>=-ok :
      (m : Exec S A) (f : A → Exec S B) {s t : S} {a : A} → m s ≡ (ok a, t) → (m >>= f) s ≡ f a t
  >>=-ok m f e = ap (λ (r : Outcome A × S). continue r.0 f r.1) e

module _ {ℓ} {S A B C : Type ℓ} where
  pub >>=_assoc :
      (m : Exec S A) (f : A → Exec S B) (g : B → Exec S C) (s : S)
      → ((m >>= f) >>= g) s ≡ (m >>= λ a. f a >>= g) s
  >>=_assoc m f g s = at (m s)
    where
      at : (r : Outcome A × S) → (lift r.0 >>= f >>= g) r.1 ≡ continue r.0 (λ a. f a >>= g) r.1
      at (ok a, t) = refl
      at (err e, t) = refl
      at (panic, t) = refl
