-- ===== src/Store/Bounds.antt =====
-- The limit on the records, and the configuration, under the operations of src/store.rs.
use bifrost_core.Prelude.{
  ℕ, zero, suc, ◌+◌, ◌≤◌, ◌≡◌, Option-cases, some, List, [], ◌∷◌, ◌++◌, length, length-append, inl,
  inr, arith,
}
use bifrost_core.NetworkRecord.{NetworkRecord}
use bifrost_core.Store.{
  Store, Config, evict, add_network_record, update_first, update_network_record_by_id,
}
use bifrost_core.Store.Window.{window}

-- The configuration is the given one, and the records are within its limit.
abbrev pub IsWithin : Config → Store → Type 0
IsWithin config s =
    (s.config ≡ config) × (length s.network_records ≤ window s.config.max_network_records)

pub length-evict-le :
    (m : ℕ) (rs : List NetworkRecord) (r : NetworkRecord)
    → length rs ≤ window m
    → length (evict m rs ++ r ∷ []) ≤ window m
length-evict-le zero [] r h = ground arith
length-evict-le (suc m) [] r h = ground arith
length-evict-le zero (x ∷ xs) r h = ground (arith, length-append xs (r ∷ []))
length-evict-le (suc m) (x ∷ xs) r h = ground (arith, length-append xs (r ∷ []))

pub length-evict-grows :
    (m : ℕ) (rs : List NetworkRecord) (r : NetworkRecord)
    → length (evict m rs ++ r ∷ []) ≤ length rs + 1
length-evict-grows zero [] r = ground arith
length-evict-grows (suc m) [] r = ground arith
length-evict-grows zero (x ∷ xs) r = ground (arith, length-append xs (r ∷ []))
length-evict-grows (suc m) (x ∷ xs) r = ground (arith, length-append xs (r ∷ []))

pub add_network_record-IsWithin :
    (config : Config) (r : NetworkRecord) (s : Store)
    → IsWithin config s
    → IsWithin config (add_network_record r s)
unfolding add_network_record
add_network_record-IsWithin config r s h =
    (h.0, length-evict-le s.config.max_network_records s.network_records r (h.1))

length-update_first :
    (id : ℕ) (f : NetworkRecord → NetworkRecord) (rs rs' : List NetworkRecord)
    → update_first id f rs ≡ some rs'
    → length rs' ≡ length rs
unfolding update_first
length-update_first id f [] rs' e = cc
length-update_first id f (r ∷ rs) rs' e = elim (Option-cases (update_first id f rs)) [
  | inl q ↦ ground arith
  | inr (rs'', q) ↦ ground (arith, length-update_first id f rs rs'' q)
]

pub update-IsWithin :
    (config : Config) (id : ℕ) (f : NetworkRecord → NetworkRecord) (s : Store)
    → IsWithin config s
    → IsWithin config (update_network_record_by_id id f s).1
unfolding update_network_record_by_id
update-IsWithin config id f s h = elim (Option-cases (update_first id f s.network_records)) [
  | inl e ↦ rw (e, update_network_record_by_id) h
  | inr (rs, e) ↦
      rw (e, update_network_record_by_id)
        (h.0, omega (arith, length-update_first id f s.network_records rs e, h.1))
]
