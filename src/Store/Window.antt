-- ===== src/Store/Window.antt =====
-- `add_network_record` keeps the newest records, in order of arrival.
use bifrost_core.Prelude.{
  ℕ, zero, suc, ◌+◌, ◌-◌, ◌≤◌, ◌≡◌, refl, sym, ap, ◌∙◌, List, [], ◌∷◌, ◌++◌, arith, length,
  length-append, leb, Bool-cases, inl, inr, ◌≡⟨◌⟩◌, ◌∎,
}
use bifrost_core.NetworkRecord.{NetworkRecord}
use bifrost_core.Store.{Store, add_network_record, evict}

module _ {ℓ} {A : Type ℓ} where
  abbrev pub drop : ℕ → List A → List A
  drop zero xs = xs
  drop (suc n) [] = []
  drop (suc n) (x ∷ xs) = drop n xs

  -- The last `k` items.
  abbrev pub last_of : ℕ → List A → List A
  last_of k xs = drop (length xs - k) xs

  length-drop : (n : ℕ) (xs : List A) → length (drop n xs) ≡ length xs - n
  length-drop zero xs = omega arith
  length-drop (suc n) [] = omega arith
  length-drop (suc n) (x ∷ xs) = omega (arith, length-drop n xs)

  drop-append : (n : ℕ) (xs ys : List A) → n ≤ length xs → drop n (xs ++ ys) ≡ drop n xs ++ ys
  drop-append zero xs ys h = refl
  drop-append (suc n) [] ys h = absurd (omega arith)
  drop-append (suc n) (x ∷ xs) ys h = drop-append n xs ys (omega arith)

  drop-nil : (n : ℕ) → ◌≡◌ {A = List A} (drop n []) []
  drop-nil zero = refl
  drop-nil (suc n) = refl

  drop-drop : (a b : ℕ) (xs : List A) {n : ℕ} → n ≡ b + a → drop a (drop b xs) ≡ drop n xs
  drop-drop a zero xs e = ap (λ k. drop k xs) (omega arith)
  drop-drop a (suc b) [] {n} e = drop-nil a ∙ sym (drop-nil n)
  drop-drop a (suc b) (x ∷ xs) {n} e =
      drop-drop a b xs {n = n - 1} (omega arith)
      ∙ ap (λ k. drop k (x ∷ xs)) {x = suc (n - 1)} (omega arith)

  pub length-last_of-le : (k : ℕ) (xs : List A) → length (last_of k xs) ≤ k
  length-last_of-le k xs = omega (arith, length-drop (length xs - k) xs)

  -- Dropping early loses nothing of the last items.
  last_of-append : (k : ℕ) (xs ys : List A) → last_of k (last_of k xs ++ ys) ≡ last_of k (xs ++ ys)
  last_of-append k xs ys =
      last_of k (drop d xs ++ ys)
      ≡⟨ ap (last_of k) (sym (drop-append d xs ys (omega arith))) ⟩ last_of k (drop d (xs ++ ys))
      ≡⟨ drop-drop _ d (xs ++ ys)
          (omega (arith, length-drop d (xs ++ ys), length-append {ℓ} xs ys)) ⟩
        last_of k (xs ++ ys) ∎
    where
      d : ℕ
      d = length xs - k

-- The window never holds fewer than one record: with a limit of 0 the newest one is kept.
abbrev pub window : ℕ → ℕ
window zero = 1
window (suc n) = suc n

drop-eq : {k n : ℕ} (xs ys : List NetworkRecord) → drop k xs ≡ ys → k ≡ n → ys ≡ drop n xs
drop-eq xs ys h e = sym h ∙ ap (λ i. drop i xs) e

evict-last_of :
    (m : ℕ) (rs : List NetworkRecord) (r : NetworkRecord)
    → length rs ≤ window m
    → evict m rs ++ r ∷ [] ≡ last_of (window m) (rs ++ r ∷ [])
evict-last_of zero [] r h = refl
evict-last_of zero (x ∷ []) r h = refl
evict-last_of zero (x ∷ y ∷ rs) r h = absurd (omega arith)
evict-last_of (suc m) [] r h = drop-eq {k = 0} (r ∷ []) _ (ground arith) (omega arith)
evict-last_of (suc m) (x ∷ rs) r h = elim (Bool-cases (leb (suc m) (length (x ∷ rs)))) [
  | inl full ↦
      drop-eq {k = 1} (x ∷ (rs ++ r ∷ [])) _ (rw full) (ground (arith, length-append rs (r ∷ [])))
  | inr room ↦
      drop-eq {k = 0} (x ∷ (rs ++ r ∷ [])) _ (rw room) (ground (arith, length-append rs (r ∷ [])))
]

-- One more record, where the window holds at most its size.
add-last_of :
    (r : NetworkRecord) (s : Store)
    → length s.network_records ≤ window s.config.max_network_records
    → (add_network_record r s).network_records
      ≡ last_of (window s.config.max_network_records) (s.network_records ++ r ∷ [])
unfolding add_network_record
add-last_of r s h = evict-last_of s.config.max_network_records s.network_records r h

-- A store whose records are the newest of a history, and what it becomes.
abbrev pub Holds : List NetworkRecord → Store → Type 0
Holds history s = s.network_records ≡ last_of (window s.config.max_network_records) history

-- Adding a record to a store whose records are the last `window` of a history, where `window` is
-- the configured maximum but at least one, gives the last `window` of the history with that record
-- at its end: the oldest is dropped only when there is no room, and the order stays.
pub add_network_record-Holds :
    (history : List NetworkRecord) (r : NetworkRecord) (s : Store)
    → Holds history s
    → Holds (history ++ r ∷ []) (add_network_record r s)
unfolding add_network_record
add_network_record-Holds history r s h =
    let k = window s.config.max_network_records in
    (add_network_record r s).network_records
    ≡⟨ add-last_of r s (rw h (length-last_of-le k history)) ⟩
      last_of k (s.network_records ++ r ∷ [])
    ≡⟨ ap (λ rs. last_of k (rs ++ r ∷ [])) h ⟩ last_of k (last_of k history ++ r ∷ [])
    ≡⟨ last_of-append k history (r ∷ []) ⟩ last_of k (history ++ r ∷ []) ∎
