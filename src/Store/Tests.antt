-- ===== src/Store/Tests.antt =====
-- Tests of src/store.rs and the theorems at concrete inputs.
use bifrost_core.Prelude.{◌≡◌, ◌≢◌, refl, ◌⊎◌, List, [], ◌∷◌, ◌++◌, All}
use bifrost_core.Prelude.Exec.{ok, err}
use bifrost_core.NetworkRecord.{NetworkRecord}
use bifrost_core.Samples.{sample_record, store_with}
use bifrost_core.Store.{Store, add_network_record, record_not_found, update_network_record_by_id}
use bifrost_core.Store.Window.{Holds, add_network_record-Holds}
use bifrost_core.Store.Update.{IsReplaced, update_network_record_by_id-cases}

-- A limit of 0 keeps the newest record.
zero_limit :
    (add_network_record (sample_record 2) (store_with 0 (sample_record 1 ∷ []))).network_records
    ≡ sample_record 2 ∷ []
unfolding add_network_record
zero_limit = refl

-- Nothing is updated for an id without a record.
missing : (update_network_record_by_id 9 (λ r. r) (store_with 2 [])).0 ≡ err record_not_found
unfolding update_network_record_by_id
missing = refl

abbrev history : List NetworkRecord
history = sample_record 1 ∷ sample_record 2 ∷ sample_record 3 ∷ []

abbrev full : Store
full = store_with 2 (sample_record 2 ∷ sample_record 3 ∷ [])

add_network_record-Holds_example :
    Holds (history ++ sample_record 4 ∷ []) (add_network_record (sample_record 4) full)
add_network_record-Holds_example = add_network_record-Holds history (sample_record 4) full refl

abbrev renumber : NetworkRecord → NetworkRecord
renumber r = record r { request_size = 99 }

update_network_record_by_id-cases_example :
    (All (λ r. r.id ≢ 3) full.network_records
      × (update_network_record_by_id 3 renumber full ≡ (err record_not_found, full)))
    ⊎ ((rs' : List NetworkRecord) × IsReplaced 3 renumber full.network_records rs'
        × (update_network_record_by_id 3 renumber full
            ≡ (ok tt, record full { network_records = rs' })))
update_network_record_by_id-cases_example = update_network_record_by_id-cases 3 renumber full
