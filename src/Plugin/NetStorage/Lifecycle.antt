-- ===== src/Plugin/NetStorage/Lifecycle.antt =====
-- The states of a record: what each handler does to the record of its id, and to no other.
use mathlib.Core.Option
use bifrost_core.Prelude.{
  ℕ, ◌≡◌, ◌≢◌, refl, ap, ◌∙◌, ◌||◌, Bool, true, false, none, some, List, [], ◌∷◌, ◌++◌, arith, All,
  leb, length, Bool-cases, inl, inr, if◌then◌else◌, ==_refl,
}
use bifrost_core.Prelude.Exec.{ok}
use bifrost_core.Prelude.Text.{Str}
use bifrost_core.Http.{Request, Incoming}
use bifrost_core.NetworkRecord.{NetworkRecord, RequestState, completed, cancelled}
use bifrost_core.Store.{Store, evict, add_network_record, update_network_record_by_id}
use bifrost_core.Store.Update.{find_record, find_record-update, update-absent}
use bifrost_core.Global.{Global, on_store}
use bifrost_core.Plugin.{DataDirection, upstream, downstream}
use bifrost_core.Plugin.NetStorage.{
  set_sending, new_record, record_data, record_close, record_response, update_ok, handle_request,
  handle_response, handle_connect_close, handle_data,
}
use bifrost_core.Plugin.NetStorage.Capture.{lookup_record-handle_data}
use bifrost_core.Plugin.NetStorage.Effects.{
  with_store, update_ok-ready, lookup_record, lookup_record-update_ok,
}

abbrev pub IsFresh : ℕ → Store → Type 0
IsFresh id s = All (λ r. r.id ≢ id) s.network_records

pub All-evict :
    (P : NetworkRecord → Type 0) (m : ℕ) (rs : List NetworkRecord) → All P rs → All P (evict m rs)
All-evict P m [] h = elim (Bool-cases (leb m 0)) [ inl e ↦ rw e tt | inr e ↦ rw e tt ]
All-evict P m (r ∷ rs) h = elim (Bool-cases (leb m (length (r ∷ rs)))) [
  | inl e ↦ rw e (h.1)
  | inr e ↦ rw e h
]

find_record-append :
    (id : ℕ) (rs : List NetworkRecord) (r : NetworkRecord)
    → All (λ x. x.id ≢ id) rs
    → r.id ≡ id
    → find_record id (rs ++ r ∷ []) ≡ some r
unfolding find_record
find_record-append id [] r h e = ground arith
find_record-append id (x ∷ rs) r h e = ground (arith, find_record-append id rs r)

new_record-id : (now id : ℕ) (req : Request) → (new_record now id req).id ≡ id
unfolding new_record
new_record-id now id req = refl

find_record-add :
    (id : ℕ) (r : NetworkRecord) (s : Store)
    → r.id ≡ id
    → IsFresh id s
    → find_record id (add_network_record r s).network_records ≡ some r
unfolding add_network_record
find_record-add id r s e h =
    find_record-append id (evict s.config.max_network_records s.network_records) r
      (All-evict (λ x. x.id ≢ id) s.config.max_network_records s.network_records h) e

-- The store that `handle_request` leaves.
abbrev pub after_request : ℕ → ℕ → Request → Store → Store
after_request now id req s =
    (update_network_record_by_id id set_sending (add_network_record (new_record now id req) s)).1

pub handle_request-ready :
    (id : ℕ) (req : Request) (s : Store) (g : Global)
    → g.context ≡ some s
    → handle_request id req g ≡ (ok (true, none), with_store g (after_request g.clock id req s))
unfolding handle_request on_store
handle_request-ready id req s g e =
    let added = add_network_record (new_record g.clock id req) s in
    let (o, done) = update_ok-ready id set_sending added (with_store g added) refl in
    rw (e, done) refl

-- On an initialised store that has no record of the id, `handle_request` lets the request pass
-- without a response, and afterwards the record of the id is the one built from the request, in
-- the state `Sending`.
pub handle_request-sending :
    (id : ℕ) (req : Request) (s : Store) (g : Global)
    → g.context ≡ some s
    → IsFresh id s
    → ((handle_request id req g).0 ≡ ok (true, none))
      × (lookup_record id (handle_request id req g).1
          ≡ some (set_sending (new_record g.clock id req)))
unfolding lookup_record
handle_request-sending id req s g e fresh =
    let r = new_record g.clock id req in
    rw (handle_request-ready id req s g e) (
      refl,
      find_record-update id set_sending (λ r. refl) id (add_network_record r s)
          ∙ rw ==_refl (
              ap (Option.map set_sending)
                (find_record-add id r s (new_record-id g.clock id req) fresh)),
    )

update_ok-absent :
    (id : ℕ) (f : NetworkRecord → NetworkRecord) (s : Store) (g : Global)
    → g.context ≡ some s
    → IsFresh id s
    → update_ok id f g ≡ (ok none, g)
unfolding update_ok on_store
update_ok-absent id f s g e fresh = rw (e, update-absent id f s fresh) refl

-- For an id that no record has (a tunnel's id, for which none is made, or that of a record which
-- has left the window) the handlers of responses, of data and of the close succeed and change
-- nothing.
pub absent_id :
    (id : ℕ) (s : Store) (g : Global)
    → g.context ≡ some s
    → IsFresh id s
    → ((resp : Incoming) → handle_response id resp g ≡ (ok true, g))
      × ((d : DataDirection) (c : Str) → handle_data id d c g ≡ (ok tt, g))
      × (handle_connect_close id g ≡ (ok true, g))
unfolding handle_response handle_data handle_connect_close
absent_id id s g e fresh = (
  λ resp. rw (update_ok-absent id (record_response g.clock resp) s g e fresh) refl,
  λ d c. rw (update_ok-absent id (record_data d c) s g e fresh) refl,
  rw (update_ok-absent id record_close s g e fresh) refl,
)

-- The rest of a connection: chunks in either direction, then the close.
unfoldable pub finish : ℕ → List (DataDirection × Str) → Global → Global
finish id [] g = (handle_connect_close id g).1
finish id ((d, c) ∷ rest) g = finish id rest (handle_data id d c g).1

abbrev pub is_completed : RequestState → Bool
is_completed completed = true
is_completed _ = false

abbrev pub is_downstream : DataDirection → Bool
is_downstream upstream = false
is_downstream downstream = true

abbrev pub has_downstream : List (DataDirection × Str) → Bool
has_downstream [] = false
has_downstream ((d, c) ∷ rest) = is_downstream d || has_downstream rest

record_close-id : (r : NetworkRecord) → (record_close r).id ≡ r.id
unfolding record_close
record_close-id r = refl

state_after_close :
    (id : ℕ) (g : Global) (r : NetworkRecord)
    → lookup_record id g ≡ some r
    → lookup_record id (handle_connect_close id g).1 ≡ some (record_close r)
unfolding handle_connect_close
state_after_close id g r found =
    ground
      (arith, lookup_record-update_ok id record_close (λ r. record_close-id r) id g, ==_refl id)

state_after_data :
    (d : DataDirection) (c : Str) (r : NetworkRecord) (b : Bool)
    → (if b || is_completed (record_data d c r).state then completed else cancelled)
      ≡ (if (is_downstream d || b) || is_completed r.state then completed else cancelled)
unfolding record_data
state_after_data upstream c r b = refl
state_after_data downstream c r true = refl
state_after_data downstream c r false = refl

-- For a record of the id, chunks and then the close leave it `Completed` if a chunk came from the
-- server or if it was `Completed` before, and `Cancelled` if not, whatever its state was.
pub finish_state :
    (id : ℕ) (messages : List (DataDirection × Str)) (g : Global) (r : NetworkRecord)
    → lookup_record id g ≡ some r
    → (r' : NetworkRecord) × (lookup_record id (finish id messages g) ≡ some r')
      × (r'.state
          ≡ (if has_downstream messages || is_completed r.state then completed else cancelled))
unfolding finish
finish_state id [] g r found =
    (record_close r, state_after_close id g r found, unfold record_close in ground arith)
finish_state id ((d, c) ∷ rest) g r found =
    let (r', found', state) =
      finish_state id rest (handle_data id d c g).1 (record_data d c r)
        (lookup_record-handle_data id d c g ∙ rw found) in
    (r', found', state ∙ state_after_data d c r (has_downstream rest))
