-- ===== src/Plugin/NetStorage/BodyBounds.antt =====
-- The memory that the bodies of a record take, whatever comes in.
use bifrost_core.Prelude.{
  ℕ, ◌+◌, ◌≤◌, ◌≡◌, ◌∙◌, Option, none, some, List, [], ◌∷◌, arith, length, length-append, All,
}
use bifrost_core.Prelude.Text.{Str}
use bifrost_core.Prelude.Words.{wrapping_add}
use bifrost_core.NetworkRecord.{NetworkRecord}
use bifrost_core.Global.{Global}
use bifrost_core.Plugin.{DataDirection, upstream, downstream}
use bifrost_core.Plugin.NetStorage.{max_body_size, captured, record_data, handle_data}
use bifrost_core.Plugin.NetStorage.Capture.{size_of, body_of, lookup_record-handle_data}
use bifrost_core.Plugin.NetStorage.Effects.{lookup_record}
use bifrost_core.Tunnel.{buffer_size}

-- Chunks of both directions, one call after the other.
unfoldable pub send_both : ℕ → List (DataDirection × Str) → Global → Global
send_both id [] g = g
send_both id ((d, c) ∷ cs) g = send_both id cs (handle_data id d c g).1

-- A body is kept while the counted size is within the limit; it may exceed that size by a chunk,
-- where the count has passed 2 ^ 64.
abbrev IsSmall : ℕ → Option Str → Type 0
IsSmall size none = Unit
IsSmall size (some body) = (size ≤ max_body_size) × (length body ≤ size + buffer_size)

captured-IsSmall :
    (size : ℕ) (body : Option Str) (c : Str)
    → length c ≤ buffer_size
    → IsSmall size body
    → IsSmall (wrapping_add size (length c)) (captured (wrapping_add size (length c)) body c)
unfolding wrapping_add
captured-IsSmall size none c b h = ground arith
captured-IsSmall size (some body) c b h = ground (arith, length-append body c)

IsFit : NetworkRecord → Type 0
IsFit r =
    IsSmall (size_of upstream r) (body_of upstream r)
    × IsSmall (size_of downstream r) (body_of downstream r)

record_data-IsFit :
    (d : DataDirection) (c : Str) (r : NetworkRecord)
    → length c ≤ buffer_size
    → IsFit r
    → IsFit (record_data d c r)
unfolding record_data IsFit
record_data-IsFit upstream c r b h = (captured-IsSmall r.request_size r.request_body c b h.0, h.1)
record_data-IsFit downstream c r b h =
    (h.0, captured-IsSmall r.response_size r.response_body c b h.1)

send_both-IsFit :
    (id : ℕ) (cs : List (DataDirection × Str)) (g : Global) (r : NetworkRecord)
    → All (λ e. length e.1 ≤ buffer_size) cs
    → lookup_record id g ≡ some r
    → IsFit r
    → (r' : NetworkRecord) × (lookup_record id (send_both id cs g) ≡ some r') × IsFit r'
unfolding send_both
send_both-IsFit id [] g r b found h = (r, found, h)
send_both-IsFit id ((d, c) ∷ cs) g r b found h =
    send_both-IsFit id cs (handle_data id d c g).1 (record_data d c r) b.1
      (lookup_record-handle_data id d c g ∙ rw found) (record_data-IsFit d c r b.0 h)

-- The most that a record keeps of one body.
abbrev pub IsBounded : Option Str → Type 0
IsBounded none = Unit
IsBounded (some body) = length body ≤ max_body_size + buffer_size

small-IsBounded : (size : ℕ) (body : Option Str) → IsSmall size body → IsBounded body
small-IsBounded size none h = tt
small-IsBounded size (some body) h = omega (arith, h.0, h.1)

-- Chunks of both directions in any order, each at most as long as a tunnel's buffer, for a record
-- that has kept no body yet. Afterwards the record is still there, and each of its two bodies is
-- dropped or at most 2 MB and one buffer long, even if the count of bytes has passed 2 ^ 64.
pub send_both-IsBounded :
    (id : ℕ) (cs : List (DataDirection × Str)) (g : Global) (r : NetworkRecord)
    → All (λ e. length e.1 ≤ buffer_size) cs
    → lookup_record id g ≡ some r
    → r.request_body ≡ none
    → r.response_body ≡ none
    → (r' : NetworkRecord) × (lookup_record id (send_both id cs g) ≡ some r')
      × IsBounded r'.request_body
      × IsBounded r'.response_body
unfolding IsFit
send_both-IsBounded id cs g r b found up down =
    let fresh : IsFit r = rw (up, down) (tt, tt) in
    let (r', now, fit) = send_both-IsFit id cs g r b found fresh in
    (
      r',
      now,
      small-IsBounded r'.request_size r'.request_body fit.0,
      small-IsBounded r'.response_size r'.response_body fit.1,
    )
