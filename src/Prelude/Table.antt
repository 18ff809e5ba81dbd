-- ===== src/Prelude/Table.antt =====
-- A map from texts, as a list with one entry for a key: `HashMap<String, _>` and `DashMap<String, _>`.
use mathlib.Core.Path.{◌≡◌, refl, sym}
use mathlib.Core.Logic.{inl, inr}
use mathlib.Core.Bool.{true, false}
use mathlib.Core.Option.{Option, none, some}
use mathlib.Core.List.{List, [], ◌∷◌}
use native.Mathlib.Omega.{arith}
use bifrost_core.Prelude.Tests.{Bool-cases, if◌then◌else◌}
use bifrost_core.Prelude.Lists.{All}
use bifrost_core.Prelude.Text.{Str, str_eq, str_eq_refl, str_eq_sound}

module _ {A : Type 0} where
  -- `get`
  unfoldable pub get_entry : Str → List (Str × A) → Option A
  get_entry key [] = none
  get_entry key ((k, entry) ∷ rest) = if str_eq k key then some entry else get_entry key rest

  -- `insert`, which replaces an entry of the key.
  unfoldable pub insert_entry : Str → A → List (Str × A) → List (Str × A)
  insert_entry key entry [] = (key, entry) ∷ []
  insert_entry key entry ((k, old) ∷ rest) =
      if str_eq k key then (key, entry) ∷ rest else (k, old) ∷ insert_entry key entry rest

  pub get_entry-insert_entry :
      (key : Str) (entry : A) (t : List (Str × A))
      → get_entry key (insert_entry key entry t) ≡ some entry
  unfolding get_entry insert_entry
  get_entry-insert_entry key entry [] = rw (str_eq_refl key) refl
  get_entry-insert_entry key entry ((k, old) ∷ t) = elim (Bool-cases (str_eq k key)) [
    | inl e ↦ rw (e, str_eq_refl key) refl
    | inr e ↦ rw (e, e) (get_entry-insert_entry key entry t)
  ]

module _ {A : Type 0} (key k : Str) (old entry : A) (t : List (Str × A)) where
  get_entry-found : str_eq k key ≡ true → get_entry key ((k, old) ∷ t) ≡ some entry → old ≡ entry
  unfolding get_entry
  get_entry-found q e = ground arith

  get_entry-passed :
      str_eq k key ≡ false
      → get_entry key ((k, old) ∷ t) ≡ some entry
      → get_entry key t ≡ some entry
  unfolding get_entry
  get_entry-passed q e = ground arith

-- Every entry satisfies a predicate on its key and itself.
abbrev pub Entries {κ} : {A : Type 0} → (Str → A → Type κ) → List (Str × A) → Type κ
Entries P t = All (λ e. P (e.0) (e.1)) t

module _ {κ} {A : Type 0} (P : Str → A → Type κ) where
  pub Entries-insert_entry :
      (key : Str) (entry : A) (t : List (Str × A))
      → P key entry
      → Entries P t
      → Entries P (insert_entry key entry t)
  unfolding insert_entry
  Entries-insert_entry key entry [] p h = (p, tt)
  Entries-insert_entry key entry ((k, old) ∷ t) p h = elim (Bool-cases (str_eq k key)) [
    | inl e ↦ rw e (p, h.1)
    | inr e ↦ rw e (h.0, Entries-insert_entry key entry t p (h.1))
  ]

  pub Entries-get_entry :
      (key : Str) (entry : A) (t : List (Str × A))
      → Entries P t
      → get_entry key t ≡ some entry
      → P key entry
  unfolding get_entry
  Entries-get_entry key entry [] h e = cc
  Entries-get_entry key entry ((k, old) ∷ t) h e = elim (Bool-cases (str_eq k key)) [
    | inl q ↦ rw (sym (str_eq_sound k key q), sym (get_entry-found key k old entry t q e)) (h.0)
    | inr q ↦ Entries-get_entry key entry t (h.1) (get_entry-passed key k old entry t q e)
  ]
