-- ===== src/Plugin/NetStorage/Capture.antt =====
-- The body that a record keeps while the chunks of a message come in.
use mathlib.Core.Option
use native.Mathlib.Nat.{add_assoc}
use bifrost_core.Prelude.{
  ℕ, ◌+◌, ◌<◌, ◌≡◌, refl, ap, ◌∙◌, Option, none, some, List, [], ◌∷◌, ◌++◌, arith, leb, length,
  length-append, append_assoc, append-nil, if◌then◌else◌, ==_refl,
}
use bifrost_core.Prelude.Text.{Str}
use bifrost_core.Prelude.Words.{u64_mod, wrapping_add-exact}
use bifrost_core.NetworkRecord.{NetworkRecord}
use bifrost_core.Global.{Global}
use bifrost_core.Plugin.{DataDirection, upstream, downstream}
use bifrost_core.Plugin.NetStorage.{max_body_size, captured, record_data, handle_data}
use bifrost_core.Plugin.NetStorage.Effects.{lookup_record, lookup_record-update_ok}

-- The chunks of one direction, put together.
abbrev pub concat : List Str → Str
concat [] = []
concat (c ∷ cs) = c ++ concat cs

pub feed : DataDirection → List Str → NetworkRecord → NetworkRecord
feed direction [] r = r
feed direction (c ∷ cs) r = feed direction cs (record_data direction c r)

-- The state after the manager has handed over the chunks, one call after the other.
unfoldable pub send_all : ℕ → DataDirection → List Str → Global → Global
send_all id direction [] g = g
send_all id direction (c ∷ cs) g = send_all id direction cs (handle_data id direction c g).1

record_data-id :
    (direction : DataDirection) (c : Str) (r : NetworkRecord)
    → (record_data direction c r).id ≡ r.id
unfolding record_data
record_data-id upstream c r = refl
record_data-id downstream c r = refl

pub lookup_record-handle_data :
    (id : ℕ) (direction : DataDirection) (c : Str) (g : Global)
    → lookup_record id (handle_data id direction c g).1
      ≡ Option.map (record_data direction c) (lookup_record id g)
unfolding handle_data
lookup_record-handle_data id direction c g = ground (
  arith,
  lookup_record-update_ok id (record_data direction c) (record_data-id direction c) id g,
  ==_refl id,
)

map-map-feed :
    (direction : DataDirection) (c : Str) (cs : List Str) (o : Option NetworkRecord)
    → Option.map (feed direction cs) (Option.map (record_data direction c) o)
      ≡ Option.map (feed direction (c ∷ cs)) o
unfolding feed
map-map-feed direction c cs none = refl
map-map-feed direction c cs (some r) = refl

lookup_record-send_all :
    (id : ℕ) (direction : DataDirection) (cs : List Str) (g : Global)
    → lookup_record id (send_all id direction cs g)
      ≡ Option.map (feed direction cs) (lookup_record id g)
unfolding send_all feed
lookup_record-send_all id direction [] g = ground arith
lookup_record-send_all id direction (c ∷ cs) g =
    lookup_record-send_all id direction cs (handle_data id direction c g).1
    ∙ rw (lookup_record-handle_data id direction c g)
        (map-map-feed direction c cs (lookup_record id g))

-- What is kept of `body` when the size counted so far is `size`: all of it or nothing.
abbrev pub within_limit : ℕ → Str → Option Str
within_limit size body = if leb size max_body_size then some body else none

captured-within_limit :
    (size : ℕ) (body c : Str)
    → captured (size + length c) (within_limit size body) c
      ≡ within_limit (size + length c) (body ++ c)
captured-within_limit size body c = ground arith

-- The size and the body that a direction counts in.
abbrev pub size_of : DataDirection → NetworkRecord → ℕ
size_of upstream r = r.request_size
size_of downstream r = r.response_size

abbrev pub body_of : DataDirection → NetworkRecord → Option Str
body_of upstream r = r.request_body
body_of downstream r = r.response_body

size_of-record_data :
    (d : DataDirection) (c : Str) (r : NetworkRecord)
    → size_of d r + length c < u64_mod
    → size_of d (record_data d c r) ≡ size_of d r + length c
unfolding record_data
size_of-record_data upstream c r h = wrapping_add-exact r.request_size (length c) h
size_of-record_data downstream c r h = wrapping_add-exact r.response_size (length c) h

body_of-record_data :
    (d : DataDirection) (c : Str) (r : NetworkRecord)
    → size_of d r + length c < u64_mod
    → body_of d (record_data d c r) ≡ captured (size_of d r + length c) (body_of d r) c
unfolding record_data
body_of-record_data upstream c r h = rw (wrapping_add-exact r.request_size (length c) h)
body_of-record_data downstream c r h = rw (wrapping_add-exact r.response_size (length c) h)

-- The record after `cs`, if it has kept `body` of the bytes counted so far.
record IsFed (d : DataDirection) (size : ℕ) (body : Str) (r : NetworkRecord) : Type 0 where
  size_eq : size_of d r ≡ size
  body_eq : body_of d r ≡ within_limit size body

feed-IsFed :
    (d : DataDirection) (cs : List Str) (size : ℕ) (body : Str) (r : NetworkRecord)
    → IsFed d size body r
    → size + length (concat cs) < u64_mod
    → IsFed d (size + length (concat cs)) (body ++ concat cs) (feed d cs r)
unfolding feed
feed-IsFed d [] size body r h b = record {
  size_eq = omega (arith, h.size_eq);
  body_eq = ground (arith, append-nil body, h.body_eq);
}
feed-IsFed d (c ∷ cs) size body r h b =
    rw (length-append c (concat cs), ← append_assoc body c (concat cs), ← add_assoc size)
      (feed-IsFed d cs (size + length c) (body ++ c) (record_data d c r)
        (record {
          size_eq = size_of-record_data d c r small ∙ ap (λ n. n + length c) h.size_eq;
          body_eq =
              body_of-record_data d c r small
              ∙ rw (h.size_eq, h.body_eq) (captured-within_limit size body c);
        })
        (omega (arith, length-append c (concat cs))))
  where
    small : size_of d r + length c < u64_mod
    small = omega (arith, length-append c (concat cs), h.size_eq)

first-IsFed :
    (d : DataDirection) (c : Str) (r : NetworkRecord)
    → body_of d r ≡ none
    → size_of d r + length c < u64_mod
    → IsFed d (size_of d r + length c) c (record_data d c r)
first-IsFed d c r h b = record {
  size_eq = size_of-record_data d c r b;
  body_eq = body_of-record_data d c r b ∙ rw h;
}

-- Chunks of one direction, at least one, for a record that has kept nothing of that direction yet.
-- If the count of bytes stays below 2 ^ 64, afterwards the record's size is the size before plus
-- the length of the chunks, and its body is all the chunks put together if that size, which
-- counts the head too, is at most 2 MB; if it is more the body is dropped.
pub send_all-captures :
    (id : ℕ) (d : DataDirection) (c : Str) (cs : List Str) (g : Global) (r : NetworkRecord)
    → lookup_record id g ≡ some r
    → body_of d r ≡ none
    → size_of d r + length (concat (c ∷ cs)) < u64_mod
    → (r' : NetworkRecord) × (lookup_record id (send_all id d (c ∷ cs) g) ≡ some r')
      × (size_of d r' ≡ size_of d r + length (concat (c ∷ cs)))
      × (body_of d r' ≡ within_limit (size_of d r + length (concat (c ∷ cs))) (concat (c ∷ cs)))
unfolding feed
send_all-captures id d c cs g r found fresh b =
    let split = length-append c (concat cs) in
    let fed =
      feed-IsFed d cs (size_of d r + length c) c (record_data d c r)
        (first-IsFed d c r fresh (omega (arith, split))) (omega (arith, split)) in
    let same : size_of d r + length c + length (concat cs) ≡ size_of d r + length (c ++ concat cs) =
      omega (arith, split) in
    (
      feed d (c ∷ cs) r,
      lookup_record-send_all id d (c ∷ cs) g ∙ rw found,
      fed.size_eq ∙ same,
      fed.body_eq ∙ ap (λ n. within_limit n (c ++ concat cs)) same,
    )
