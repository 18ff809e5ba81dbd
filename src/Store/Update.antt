-- ===== src/Store/Update.antt =====
-- `update_network_record_by_id` changes the first record with the id, and nothing else.
use mathlib.Core.Option
use bifrost_core.Prelude.{
  ℕ, ◌≡◌, ◌≢◌, refl, ap, ◌⊎◌, Option, none, some, List, [], ◌∷◌, ◌++◌, arith, inl, inr, All, ◌==◌,
  ==_iff, Bool-cases, Option-cases, if◌then◌else◌,
}
use bifrost_core.Prelude.Exec.{ok, err}
use bifrost_core.NetworkRecord.{NetworkRecord}
use bifrost_core.Store.{Store, update_first, record_not_found, update_network_record_by_id}

-- The record that readers of an id see.
unfoldable pub find_record : ℕ → List NetworkRecord → Option NetworkRecord
find_record id [] = none
find_record id (r ∷ rs) = if r.id == id then some r else find_record id rs

-- One record of `rs`, the first with its id, is replaced in `rs'`.
pub record IsReplaced (id : ℕ) (f : NetworkRecord → NetworkRecord) (rs rs' : List NetworkRecord)
    : Type 0 where
  pub before : List NetworkRecord
  pub found : NetworkRecord
  pub after : List NetworkRecord
  pub same_id : found.id ≡ id
  pub others : All (λ r. r.id ≢ id) before
  pub old : rs ≡ before ++ found ∷ after
  pub new : rs' ≡ before ++ f found ∷ after

module _ (id : ℕ) (f : NetworkRecord → NetworkRecord) where
  IsReplaced-cons :
      {r : NetworkRecord} {rs rs' : List NetworkRecord}
      → r.id ≢ id
      → IsReplaced id f rs rs'
      → IsReplaced id f (r ∷ rs) (r ∷ rs')
  IsReplaced-cons {r} other c = record {
    before = r ∷ c.before;
    found = c.found;
    after = c.after;
    same_id = c.same_id;
    others = (other, c.others);
    old = ap (λ xs. r ∷ xs) c.old;
    new = ap (λ xs. r ∷ xs) c.new;
  }

  update_first-cases :
      (rs : List NetworkRecord)
      → ((update_first id f rs ≡ none) × All (λ r. r.id ≢ id) rs)
        ⊎ ((rs' : List NetworkRecord) × (update_first id f rs ≡ some rs') × IsReplaced id f rs rs')
  unfolding update_first
  update_first-cases [] = inl (refl, tt)
  update_first-cases (r ∷ rs) = elim (Bool-cases (r.id == id)) [
    | inl here ↦ inr (
      f r ∷ rs,
      rw here refl,
      record {
        before = [];
        found = r;
        after = rs;
        same_id = (==_iff r.id id).0 here;
        others = tt;
        old = refl;
        new = refl;
      },
    )
    | inr other ↦ elim (update_first-cases rs) [
      | inl (missing, absent) ↦ inl (rw (other, missing), (ground arith, absent))
      | inr (rs', done, replaced) ↦
          inr (r ∷ rs', rw (other, done), IsReplaced-cons (ground arith) replaced)
    ]
  ]

  -- Either no record has the id, the call fails with "Record not found" and the store stays as it
  -- was; or the call succeeds, the function is applied to the first record with the id, and the
  -- other records, their order, the configuration and the counters stay as they were.
  pub update_network_record_by_id-cases :
      (s : Store)
      → (All (λ r. r.id ≢ id) s.network_records
          × (update_network_record_by_id id f s ≡ (err record_not_found, s)))
        ⊎ ((rs' : List NetworkRecord) × IsReplaced id f s.network_records rs'
            × (update_network_record_by_id id f s ≡ (ok tt, record s { network_records = rs' })))
  unfolding update_network_record_by_id
  update_network_record_by_id-cases s = elim (update_first-cases s.network_records) [
    | inl (missing, absent) ↦ inl (absent, rw (missing, update_network_record_by_id))
    | inr (rs', done, replaced) ↦ inr (rs', replaced, rw (done, update_network_record_by_id))
  ]

  find_record-update_first :
      ((r : NetworkRecord) → (f r).id ≡ r.id)
      → (j : ℕ) (rs : List NetworkRecord)
      → find_record j (Option.get_or (update_first id f rs) rs)
        ≡ (if j == id then Option.map f (find_record j rs) else find_record j rs)
  unfolding update_first find_record
  find_record-update_first keep j [] = ground arith
  find_record-update_first keep j (r ∷ rs) =
      ground (arith, find_record-update_first keep j rs, keep r)

  -- What readers of an id see after an update by a function that keeps the ids.
  pub find_record-update :
      ((r : NetworkRecord) → (f r).id ≡ r.id)
      → (j : ℕ) (s : Store)
      → find_record j (update_network_record_by_id id f s).1.network_records ≡ (
          if j == id
          then Option.map f (find_record j s.network_records)
          else find_record j s.network_records)
  unfolding update_network_record_by_id
  find_record-update keep j s = ground (arith, find_record-update_first keep j s.network_records)

  update_first-absent :
      (rs : List NetworkRecord) → All (λ r. r.id ≢ id) rs → update_first id f rs ≡ none
  unfolding update_first
  update_first-absent [] h = refl
  update_first-absent (r ∷ rs) h = ground (arith, update_first-absent rs h.1)

  pub update-absent :
      (s : Store)
      → All (λ r. r.id ≢ id) s.network_records
      → update_network_record_by_id id f s ≡ (err record_not_found, s)
  unfolding update_network_record_by_id
  update-absent s h = rw (update_first-absent s.network_records h, update_network_record_by_id)

  pub traffic_stats-update :
      (s : Store) → (update_network_record_by_id id f s).1.traffic_stats ≡ s.traffic_stats
  unfolding update_network_record_by_id
  traffic_stats-update s = elim (Option-cases (update_first id f s.network_records)) [
    | inl e ↦ rw (e, update_network_record_by_id) refl
    | inr (rs, e) ↦ rw (e, update_network_record_by_id) refl
  ]
