-- ===== src/Plugin/NetStorage/Pending.antt =====
-- The record of a request that has had no response: what `handle_request` leaves.
use bifrost_core.Prelude.{ℕ, ◌≡◌, ◌≢◌, refl, none, some, List, [], ◌∷◌, ◌++◌, arith, All}
use bifrost_core.Http.{Request}
use bifrost_core.NetworkRecord.{NetworkRecord, sending}
use bifrost_core.Store.{Store, evict, add_network_record, update_first, update_network_record_by_id}
use bifrost_core.Plugin.NetStorage.{set_sending, new_record}
use bifrost_core.Plugin.NetStorage.Lifecycle.{after_request, All-evict}

-- In the state `Sending`, without a response, a time of its end or a body of either direction.
pub record IsPending (r : NetworkRecord) : Type 0 where
  pub state : r.state ≡ sending
  pub status_code : r.status_code ≡ none
  pub response_headers : r.response_headers ≡ []
  pub end_time : r.end_time ≡ none
  pub request_body : r.request_body ≡ none
  pub response_body : r.response_body ≡ none

update_first-last :
    (id : ℕ) (f : NetworkRecord → NetworkRecord) (rs : List NetworkRecord) (r : NetworkRecord)
    → All (λ x. x.id ≢ id) rs
    → r.id ≡ id
    → update_first id f (rs ++ r ∷ []) ≡ some (rs ++ f r ∷ [])
unfolding update_first
update_first-last id f [] r h e = ground arith
update_first-last id f (x ∷ rs) r h e = ground (arith, update_first-last id f rs r (h.1) e)

abbrev pub pending_record : ℕ → ℕ → Request → NetworkRecord
pending_record now id req = set_sending (new_record now id req)

new_record-id : (now id : ℕ) (req : Request) → (new_record now id req).id ≡ id
unfolding new_record
new_record-id now id req = refl

pub pending_record-IsPending :
    (now id : ℕ) (req : Request)
    → IsPending (pending_record now id req) × ((pending_record now id req).id ≡ id)
unfolding new_record
pending_record-IsPending now id req = (
  record {
    state = refl;
    status_code = refl;
    response_headers = refl;
    end_time = refl;
    request_body = refl;
    response_body = refl;
  },
  refl,
)

-- With a fresh id the record is the last one.
pub after_request_lem :
    (now id : ℕ) (req : Request) (s : Store)
    → All (λ r. r.id ≢ id) s.network_records
    → after_request now id req s ≡ record s {
      network_records =
          evict s.config.max_network_records s.network_records ++ pending_record now id req ∷ [];
    }
unfolding add_network_record update_network_record_by_id new_record
after_request_lem now id req s h =
    rw
      (
        update_first-last id set_sending (evict s.config.max_network_records s.network_records)
            (new_record now id req)
            (All-evict (λ x. x.id ≢ id) s.config.max_network_records s.network_records h)
            (new_record-id now id req),
        update_network_record_by_id,
        after_request,
      )
      refl
