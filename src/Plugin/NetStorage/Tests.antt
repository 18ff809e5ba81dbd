-- ===== src/Plugin/NetStorage/Tests.antt =====
-- Tests of src/plugin/net_storage.rs and the theorems at concrete inputs.
use bifrost_core.Prelude.{
  ◌+◌, ◌%◌, ◌≡◌, refl, true, none, some, List, [], ◌∷◌, ◌++◌, ◌||◌, arith, length, if◌then◌else◌,
}
use bifrost_core.Prelude.Exec.{ok}
use bifrost_core.Prelude.Text.{Str, codes, show, rsplit_once}
use bifrost_core.Prelude.Words.{u64_mod, wrapping_add}
use bifrost_core.NetworkRecord.{NetworkRecord, completed, cancelled}
use bifrost_core.Store.{Store}
use bifrost_core.Store.Update.{find_record}
use bifrost_core.Global.{Global}
use bifrost_core.Plugin.{DataDirection, upstream, downstream}
use bifrost_core.Plugin.NetStorage.{
  set_sending, new_record, client_of, request_size_of, response_size_of, handle_request,
}
use bifrost_core.Plugin.NetStorage.Address.{client_of-show}
use bifrost_core.Plugin.NetStorage.BodyBounds.{send_both, IsBounded, send_both-IsBounded}
use bifrost_core.Plugin.NetStorage.Capture.{
  concat, send_all, size_of, body_of, within_limit, send_all-captures,
}
use bifrost_core.Plugin.NetStorage.Effects.{lookup_record}
use bifrost_core.Plugin.NetStorage.Lifecycle.{
  finish, has_downstream, is_completed, finish_state, handle_request-sending,
}
use bifrost_core.Plugin.NetStorage.Size.{request_head, response_head, sizes_of_heads}
use bifrost_core.Samples.{sample_request, sample_response, sample_record, store_with, global_with}

no_port : client_of (codes "unknown") ≡ (codes "unknown", 0)
unfolding client_of rsplit_once
no_port = refl

head_size : request_size_of sample_request ≡ 38
unfolding request_size_of wrapping_add
head_size = refl

client_of-show_example : client_of (codes "[::1]" ++ b':' ∷ show 5000) ≡ (codes "[::1]", 5000)
client_of-show_example = client_of-show (codes "[::1]") 5000 (omega arith)

sizes_of_heads_example :
    (request_size_of sample_request ≡ length (request_head sample_request) % u64_mod)
    × (response_size_of sample_response ≡ length (response_head sample_response) % u64_mod)
sizes_of_heads_example = sizes_of_heads sample_request sample_response

abbrev recorded : Global
recorded = global_with (store_with 10 (sample_record 3 ∷ sample_record 4 ∷ []))

found : lookup_record 4 recorded ≡ some (sample_record 4)
unfolding lookup_record find_record
found = refl

abbrev chunks : List Str
chunks = codes "de" ∷ codes "f" ∷ []

send_all-captures_example :
    (r' : NetworkRecord) × (lookup_record 4 (send_all 4 upstream (codes "abc" ∷ chunks) recorded)
      ≡ some r')
    × (size_of upstream r' ≡ 20 + length (concat (codes "abc" ∷ chunks)))
    × (body_of upstream r'
        ≡ within_limit
            (20 + length (concat (codes "abc" ∷ chunks)))
            (concat (codes "abc" ∷ chunks)))
send_all-captures_example =
    send_all-captures 4 upstream (codes "abc") chunks recorded (sample_record 4) found refl
      (omega arith)

abbrev messages : List (DataDirection × Str)
messages = (upstream, codes "ab") ∷ (downstream, codes "c") ∷ (upstream, codes "d") ∷ []

finish_state_example :
    (r' : NetworkRecord) × (lookup_record 4 (finish 4 messages recorded) ≡ some r')
    × (r'.state ≡ (
        if has_downstream messages || is_completed (sample_record 4).state
        then completed
        else cancelled))
finish_state_example = finish_state 4 messages recorded (sample_record 4) found

abbrev fresh_store : Store
fresh_store = store_with 2 (sample_record 3 ∷ sample_record 4 ∷ [])

handle_request-sending_example :
    ((handle_request 5 sample_request (global_with fresh_store)).0 ≡ ok (true, none))
    × (lookup_record 5 (handle_request 5 sample_request (global_with fresh_store)).1
        ≡ some (set_sending (new_record 7000000000 5 sample_request)))
handle_request-sending_example =
    handle_request-sending 5 sample_request fresh_store (global_with fresh_store) refl (omega arith)

send_both-IsBounded_example :
    (r' : NetworkRecord) × (lookup_record 4 (send_both 4 messages recorded) ≡ some r')
    × IsBounded r'.request_body
    × IsBounded r'.response_body
send_both-IsBounded_example =
    send_both-IsBounded 4 messages recorded (sample_record 4)
      (omega arith, (omega arith, (omega arith, tt))) found refl refl
