-- ===== src/Plugin/NetStorage.antt =====
-- src/plugin/net_storage.rs: the plugin that keeps a record of every request.
pub mod Size
pub mod Capture
pub mod BodyBounds
pub mod Address
pub mod Effects
pub mod Lifecycle
pub mod Pending
mod Tests
use bifrost_core.Prelude.{
  ℕ, zero, suc, ◌+◌, ◌-◌, Bool, true, Option, none, some, List, [], ◌∷◌, ◌++◌, map, leb, length,
  if◌then◌else◌,
}
use bifrost_core.Prelude.Exec.{Outcome, Exec, ok, pure, gets, attempt, zoom, ◌>>=◌, ◌>>◌}
use bifrost_core.Prelude.Text.{Str, codes, rsplit_once, parse_u16}
use bifrost_core.Prelude.Words.{wrapping_add}
use bifrost_core.Http.{HeaderValue, HeaderMap, Request, Incoming, or_else}
use bifrost_core.NetworkRecord.{
  NetworkRecord, RequestState, connecting, sending, receiving, completed, cancelled,
}
use bifrost_core.Store.{Store, add_network_record, update_network_record_by_id}
use bifrost_core.Global.{Global, on_store}
use bifrost_core.Plugin.{Plugin, DataDirection, upstream, downstream, Verdict}

-- 2 MB
abbrev pub max_body_size : ℕ
max_body_size = 2097152

-- The client's address from its printed form.
unfoldable pub client_of : Str → Str × ℕ
client_of remote_addr = elim (rsplit_once b':' remote_addr) [
  | some (ip, port) ↦ (ip, or_else (parse_u16 port) 0)
  | none ↦ (remote_addr, 0)
]

-- The loop over the headers, from the size so far.
unfoldable pub add_headers : ℕ → HeaderMap → ℕ
add_headers size [] = size
add_headers size ((name, value) ∷ rest) =
    add_headers (wrapping_add (wrapping_add size (length name + 2)) (length value.bytes + 2)) rest

unfoldable pub request_size_of : Request → ℕ
unfolding add_headers
request_size_of req =
    let line = wrapping_add 0 (length req.method + 1) in
    let line = wrapping_add line (length req.uri.path + 1) in
    let line = wrapping_add line (length req.version + 2) in
    wrapping_add (add_headers line req.headers) 2

unfoldable pub response_size_of : Incoming → ℕ
unfolding add_headers
response_size_of resp =
    let line = wrapping_add 0 (length resp.version + 1) in
    let line = wrapping_add line (length resp.status_text + 1) in
    let line = wrapping_add line (length (or_else resp.canonical_reason []) + 2) in
    wrapping_add (add_headers line resp.headers) 2

unfoldable pub copy_headers : HeaderMap → List (Str × Str)
copy_headers = map λ (name, value). (name, or_else value.to_str [])

-- The record that `handle_request` adds; `now` is `SystemTime::now()`.
unfoldable pub new_record : ℕ → ℕ → Request → NetworkRecord
unfolding client_of request_size_of copy_headers
new_record now request_id req =
    let remote_addr = or_else req.remote_addr (codes "unknown") in
    let client = client_of remote_addr in
    record {
      id = request_id;
      client_ip = client.0;
      client_port = client.1;
      server_ip = or_else req.uri.host (codes "unknown");
      server_port = or_else req.uri.port 80;
      host = or_else req.uri.host (codes "unknown");
      url = req.uri.to_string;
      path = req.uri.path;
      protocol = req.version;
      method = req.method;
      request_headers = copy_headers req.headers;
      response_headers = [];
      request_body = none;
      response_body = none;
      request_size = request_size_of req;
      response_size = 0;
      start_time = now;
      end_time = none;
      dns_duration = none;
      tcp_connect_duration = none;
      ttfb_duration = none;
      download_duration = none;
      status_code = none;
      status_message = none;
      state = connecting;
    }

abbrev pub set_sending : NetworkRecord → NetworkRecord
set_sending r = record r { state = sending }

-- `end_time.duration_since(start_time)`, which fails if the clock went back.
abbrev duration_since : ℕ → ℕ → Option ℕ
duration_since end_time start_time =
    if leb start_time end_time then some (end_time - start_time) else none

abbrev keep_or {ℓ} : {A : Type ℓ} → Option A → Option A → Option A
keep_or none old = old
keep_or (some a) old = some a

-- The change that `handle_response` makes to the record.
unfoldable pub record_response : ℕ → Incoming → NetworkRecord → NetworkRecord
unfolding response_size_of copy_headers
record_response now resp r = record r {
  state = receiving;
  status_code = some resp.status;
  status_message = some (or_else resp.canonical_reason (codes "Unknown"));
  response_headers = copy_headers resp.headers;
  end_time = some now;
  response_size = response_size_of resp;
  download_duration = keep_or (duration_since now r.start_time) r.download_duration;
}

-- The change that `handle_connect_close` makes.
abbrev cancel : RequestState → RequestState
cancel completed = completed
cancel _ = cancelled

unfoldable pub record_close : NetworkRecord → NetworkRecord
record_close r = record r { state = cancel r.state }

-- The body that is kept once `size` bytes have come in, the last of them `chunk`.
abbrev pub captured : ℕ → Option Str → Str → Option Str
captured size body chunk = if leb size max_body_size then some (or_else body [] ++ chunk) else none

-- The change that `handle_data` makes.
unfoldable pub record_data : DataDirection → Str → NetworkRecord → NetworkRecord
record_data upstream chunk r =
    let size = wrapping_add r.request_size (length chunk) in
    record r { request_body = captured size r.request_body chunk; request_size = size }
record_data downstream chunk r =
    let size = wrapping_add r.response_size (length chunk) in
    record r {
      response_body = captured size r.response_body chunk;
      response_size = size;
      state = completed;
    }

-- `Store::global().update_network_record_by_id(request_id, f).await.ok()`
unfoldable pub update_ok : ℕ → (NetworkRecord → NetworkRecord) → Exec Global (Option (Unit {0}))
update_ok request_id f = attempt (on_store (update_network_record_by_id request_id f))

unfoldable pub handle_request : ℕ → Request → Exec Global Verdict
unfolding new_record
handle_request request_id req = do
  now ← gets (λ g. g.clock)
  on_store (λ s. (ok tt, add_network_record (new_record now request_id req) s))
  update_ok request_id set_sending
  pure (true, none)

unfoldable pub handle_response : ℕ → Incoming → Exec Global Bool
unfolding record_response
handle_response request_id resp = do
  now ← gets (λ g. g.clock)
  update_ok request_id (record_response now resp)
  pure true

unfoldable pub handle_connect_close : ℕ → Exec Global Bool
unfolding record_close
handle_connect_close request_id = do update_ok request_id record_close; pure true

unfoldable pub handle_data : ℕ → DataDirection → Str → Exec Global (Unit {0})
unfolding record_data
handle_data request_id direction chunk = do
  update_ok request_id (record_data direction chunk)
  pure tt

abbrev pub net_storage : Plugin Global
net_storage = record {
  handle_request = λ request_id (g, req). zoom (handle_request request_id req) (g, req);
  handle_response = λ request_id req (g, resp). zoom (handle_response request_id resp) (g, resp);
  handle_connect = λ request_id req. pure (true, none);
  handle_connect_close = λ request_id target. handle_connect_close request_id;
  handle_data = handle_data;
}
