-- ===== src/Global/Preserving.antt =====
-- Properties of the initialised store that the handlers keep.
use bifrost_core.Prelude.{ℕ, ◌≡◌, refl, some}
use bifrost_core.Prelude.Exec.{Outcome}
use bifrost_core.Prelude.Preserving.{Preserves}
use bifrost_core.Store.{Store}
use bifrost_core.Global.{Global, on_store, get_config}

-- The store is initialised and has a property.
abbrev pub Holds : (Store → Type 0) → Global → Type 0
Holds Q g = (s : Store) × (g.context ≡ some s) × Q s

-- The store and the counter of ids have these values; the clock and the cache of names are free.
abbrev pub IsAt : Store → ℕ → Global → Type 0
IsAt s n g = (g.context ≡ some s) × (g.request_id_counter ≡ n)

module _ (s : Store) (n : ℕ) where
  -- Reading the store.
  pub on_store-IsAt :
      {A : Type 0} (f : Store → Outcome A) → Preserves (IsAt s n) (on_store (λ s. (f s, s)))
  unfolding on_store
  on_store-IsAt f g (e, k) = (rw e refl, rw e k)

  pub get_config-IsAt : Preserves (IsAt s n) get_config
  unfolding get_config
  get_config-IsAt = on_store-IsAt (λ s. Outcome.ok s.config)
