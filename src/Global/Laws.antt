-- ===== src/Global/Laws.antt =====
-- The global cells: the store is set once, and request ids are not given out twice.
use bifrost_core.Prelude.{
  ℕ, zero, suc, ◌+◌, ◌%◌, ◌<◌, ◌≡◌, ◌≢◌, refl, Bool, Option, inl, inr, arith, Option-cases,
}
use bifrost_core.Prelude.Exec.{Outcome, ok}
use bifrost_core.Prelude.Text.{Str}
use bifrost_core.Prelude.Words.{u64_mod, wrapping_add}
use bifrost_core.Global.{Global, init, next_request_id}

-- Once `Store::init` has run, a second call, with whatever arguments, succeeds and changes nothing.
pub init_once :
    (port port' : ℕ) (cert key cert' key' : Str) (https h2 https' h2' : Bool) (max max' : Option ℕ)
    (g : Global)
    → let g' = (init port cert key https h2 max g).1 in
      init port' cert' key' https' h2' max' g' ≡ (ok tt, g')
unfolding init
init_once port port' cert key cert' key' https h2 https' h2' max max' g =
    elim (Option-cases g.context) [ inl e ↦ rw e refl | inr (s, e) ↦ rw e refl ]

-- The state after a number of ids have been given out.
unfoldable pub after_ids : ℕ → Global → Global
after_ids zero g = g
after_ids (suc k) g = after_ids k (next_request_id g).1

counter-after_ids :
    (k : ℕ) (g : Global)
    → g.request_id_counter < u64_mod
    → (after_ids k g).request_id_counter ≡ (g.request_id_counter + k) % u64_mod
unfolding after_ids next_request_id wrapping_add
counter-after_ids zero g h = omega arith
counter-after_ids (suc k) g h =
    omega (arith, counter-after_ids k (next_request_id g).1 (omega arith))

ok-injective : {a b : ℕ} → ◌≡◌ {A = Outcome ℕ} (ok a) (ok b) → a ≡ b
ok-injective e = cc

-- Two requests that come within 2 ^ 64 requests of each other get different ids.
pub request_ids-distinct :
    (j k : ℕ) (g : Global)
    → g.request_id_counter < u64_mod
    → j < k
    → k < u64_mod
    → (next_request_id (after_ids j g)).0 ≢ (next_request_id (after_ids k g)).0
unfolding next_request_id
request_ids-distinct j k g h lt b e =
    absurd (omega (arith, counter-after_ids j g h, counter-after_ids k g h, ok-injective e))
