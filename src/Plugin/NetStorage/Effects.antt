-- ===== src/Plugin/NetStorage/Effects.antt =====
-- What the handlers do to the record of an id, as seen from the global state.
use mathlib.Core.Option
use bifrost_core.Prelude.{
  ℕ, true, ◌≡◌, Option, none, some, arith, inl, inr, Option-cases, ◌==◌, if◌then◌else◌,
}
use bifrost_core.Prelude.Exec.{ok}
use bifrost_core.Http.{Incoming}
use bifrost_core.Prelude.Text.{Str}
use bifrost_core.NetworkRecord.{NetworkRecord}
use bifrost_core.Store.{Store, update_network_record_by_id}
use bifrost_core.Store.Update.{find_record, find_record-update, update_network_record_by_id-cases}
use bifrost_core.Global.{Global, on_store}
use bifrost_core.Plugin.{DataDirection}
use bifrost_core.Plugin.NetStorage.{
  update_ok, record_response, record_close, record_data, handle_response, handle_connect_close,
  handle_data,
}

abbrev in_store : ℕ → Option Store → Option NetworkRecord
in_store id none = none
in_store id (some s) = find_record id s.network_records

-- The record that readers of an id see.
unfoldable pub lookup_record : ℕ → Global → Option NetworkRecord
lookup_record id g = in_store id g.context

-- `Store::init` has run.
abbrev pub IsReady : Global → Type 0
IsReady g = (s : Store) × (g.context ≡ some s)

-- After `init` an update leaves a store, and neither fails nor panics.
abbrev pub with_store : Global → Store → Global
with_store g s = record g { context = some s }

pub update_ok-ready :
    (id : ℕ) (f : NetworkRecord → NetworkRecord) (s : Store) (g : Global)
    → g.context ≡ some s
    → (o : Option (Unit {0})) × (update_ok id f g
        ≡ (ok o, with_store g (update_network_record_by_id id f s).1))
unfolding update_ok on_store
update_ok-ready id f s g e = elim (update_network_record_by_id-cases id f s) [
  | inl (absent, done) ↦ (none, rw (e, done))
  | inr (rs, replaced, done) ↦ (some tt, rw (e, done))
]

module _ (id : ℕ) (f : NetworkRecord → NetworkRecord)
    (keep : (r : NetworkRecord) → (f r).id ≡ r.id) where
  pub lookup_record-update_ok :
      (j : ℕ) (g : Global)
      → lookup_record j (update_ok id f g).1
        ≡ (if j == id then Option.map f (lookup_record j g) else lookup_record j g)
  unfolding lookup_record update_ok on_store
  lookup_record-update_ok j g = elim (Option-cases g.context) [
    | inl e ↦ ground arith
    | inr (s, e) ↦ ground (arith, find_record-update id f keep j s)
  ]

module _ (id : ℕ) (s : Store) (g : Global) (ready : g.context ≡ some s) where
  pub handle_data-ready :
      (direction : DataDirection) (chunk : Str)
      → handle_data id direction chunk g
        ≡ (ok tt, with_store g (update_network_record_by_id id (record_data direction chunk) s).1)
  unfolding handle_data
  handle_data-ready direction chunk =
      let (o, e) = update_ok-ready id (record_data direction chunk) s g ready in rw e

  pub handle_connect_close-ready :
      handle_connect_close id g
      ≡ (ok true, with_store g (update_network_record_by_id id record_close s).1)
  unfolding handle_connect_close
  handle_connect_close-ready = let (o, e) = update_ok-ready id record_close s g ready in rw e

  pub handle_response-ready :
      (resp : Incoming)
      → handle_response id resp g ≡ (
        ok true,
        with_store g (update_network_record_by_id id (record_response g.clock resp) s).1,
      )
  unfolding handle_response
  handle_response-ready resp =
      let (o, e) = update_ok-ready id (record_response g.clock resp) s g ready in rw e
