-- ===== src/Tunnel.antt =====
-- src/tunnel_interceptor.rs: the tunnel of a CONNECT request that is not decrypted.
-- The runtime is a list of events: which branch of `select!` becomes ready next, what the read
-- gives, whether the write that follows succeeds, and when. A list that ends before the loop does
-- leaves the tunnel open.
pub mod Steps
pub mod Delivery
pub mod Errors
pub mod Balance
mod Tests
use bifrost_core.Prelude.{
  ℕ, ◌+◌, Bool, true, false, not, Option, none, some, List, [], ◌∷◌, ◌++◌, leb, if◌then◌else◌,
}
use bifrost_core.Prelude.Exec.{Exec, pure, abort, attempt, lift, ok, panic, ◌>>=◌, ◌>>◌}
use bifrost_core.Prelude.Text.{Str, codes}
use bifrost_core.Http.{of_text, Uri, Request, Reply, connect_method}
use bifrost_core.Global.{Global}
use bifrost_core.Plugin.{Plugin, DataDirection, upstream, downstream, Verdict}
use bifrost_core.Plugin.Manager

-- The length of the two buffers: what one read gives at most.
abbrev pub buffer_size : ℕ
buffer_size = 32768

-- 5 minutes, in nanoseconds
abbrev pub timeout_duration : ℕ
timeout_duration = 300000000000

abbrev pub max_errors : ℕ
max_errors = 3

-- `received []` is `Ok(0)`, the end of the stream.
pub data ReadResult : Type 0 where
  received : Str → ReadResult
  failed : ReadResult

-- A read from one side, with the success of the write to the other side; `upstream` is a read from
-- the client.
pub data Happening : Type 0 where
  read : DataDirection → ReadResult → Bool → Happening
  timed_out : Happening

pub record Event : Type 0 where
  pub time : ℕ
  pub what : Happening

-- The variables of the loop, and what it has written to the two sides.
pub record Loop : Type 0 where
  pub error_count : ℕ
  pub deadline : ℕ
  pub to_server : Str
  pub to_client : Str

-- Whether the loop goes on.
pub data Progress : Type 0 where
  going stopped : Progress

abbrev pub Turn : Type 0
Turn = Progress × Loop

-- `error_count += 1; if error_count >= MAX_ERRORS { break; }`
abbrev pub count_error : Loop → Turn
count_error l =
    let n = l.error_count + 1 in
    (if leb max_errors n then stopped else going, record l { error_count = n })

abbrev pub fresh : ℕ → Loop → Loop
fresh now l = record l { error_count = 0; deadline = now + timeout_duration }

abbrev pub written : DataDirection → Str → Loop → Loop
written upstream chunk l = record l { to_server = l.to_server ++ chunk }
written downstream chunk l = record l { to_client = l.to_client ++ chunk }

abbrev pub after_write : DataDirection → Str → Bool → Loop → Turn
after_write direction chunk true l = (going, written direction chunk l)
after_write direction chunk false l = count_error l

-- `break` leaves the rest of the loop out.
abbrev pub continue_loop : Turn → (Loop → Exec Global Turn) → Exec Global Turn
continue_loop (going, l) rest = rest l
continue_loop (stopped, l) rest = pure (stopped, l)

module _ (plugins : List (Plugin Global)) (request_id : ℕ) where
  -- One round of the loop, at a time.
  unfoldable pub on_happening : Happening → ℕ → Loop → Exec Global Turn
  on_happening timed_out now l = pure (stopped, l)
  on_happening (read direction failed write_ok) now l = pure (count_error l)
  on_happening (read direction (received []) write_ok) now l = pure (stopped, l)
  on_happening (read direction (received (b ∷ bs)) write_ok) now l = do
    attempt (Manager.handle_data plugins request_id direction (b ∷ bs))
    pure (after_write direction (b ∷ bs) write_ok (fresh now l))

  unfoldable pub run_loop : List Event → Loop → Exec Global Turn
  unfolding on_happening
  run_loop [] l = pure (going, l)
  run_loop (e ∷ es) l = do turn ← on_happening e.what e.time l; continue_loop turn (run_loop es)

  abbrev pub start_loop : ℕ → Loop
  start_loop now = record {
    error_count = 0;
    deadline = now + timeout_duration;
    to_server = [];
    to_client = [];
  }

  -- `format!("HTTP/1.1 {}\r\n\r\n", response.status())`, where `print_status` is the library's.
  abbrev status_line : (ℕ → Str) → Reply → Str
  status_line print_status reply =
      codes "HTTP/1.1 " ++ (print_status reply.status ++ (13 ∷ 10 ∷ 13 ∷ 10 ∷ []))

  -- What follows from the verdict on the connect. `write_ok` is the success of writing the
  -- response, which is unwrapped.
  abbrev pub after_verdict :
      (ℕ → Str) → Bool → List Event → Loop → Option Verdict → Exec Global Turn
  after_verdict print_status write_ok events l none = pure (stopped, l)
  after_verdict print_status write_ok events l (some (true, response)) = run_loop events l
  after_verdict print_status write_ok events l (some (false, none)) = pure (stopped, l)
  after_verdict print_status write_ok events l (some (false, some reply)) =
      if write_ok
      then pure (stopped, record l { to_client = status_line print_status reply })
      else abort

  -- The close is told to the plugins once the tunnel has ended.
  abbrev pub closing : Str → Turn → Exec Global Turn
  closing host (going, l) = pure (going, l)
  closing host (stopped, l) = do
    attempt (Manager.handle_connect_close plugins request_id host)
    pure (stopped, l)

  unfoldable pub handle_tunnel :
      (ℕ → Str) → Bool → List Event → ℕ → Request → Str → Exec Global Turn
  unfolding run_loop
  handle_tunnel print_status write_ok events now req host = do
    verdict ← attempt (Manager.handle_connect plugins request_id req)
    turn ← after_verdict print_status write_ok events (start_loop now) verdict
    closing host turn

-- What `handle_tunnel_proxy` spawns if the target was reached.
pub record Task : Type 0 where
  pub request_id : ℕ
  pub host : Str

-- The request that the plugins see.
abbrev pub connect_request : Uri → Request
connect_request uri = record {
  method = connect_method;
  uri = uri;
  version = codes "HTTP/1.1";
  headers = [];
  remote_addr = none;
  body = [];
}

-- The task: nothing if the client's connection is not upgraded, and a panic if the library does
-- not parse the URI of the request.
unfoldable pub run_task :
    List (Plugin Global)
    → (Str → Option Uri)
    → (ℕ → Str)
    → Bool
    → Bool
    → List Event
    → ℕ
    → Task
    → Exec Global (Option Turn)
unfolding handle_tunnel
run_task plugins parse_uri print_status upgraded write_ok events now task =
    if upgraded
    then elim (parse_uri (codes "https://" ++ task.host)) [
      | none ↦ abort
      | some uri ↦ (do
        turn ←
            handle_tunnel plugins task.request_id print_status write_ok events now
              (connect_request uri) task.host
        pure (some turn))
    ]
    else pure none

abbrev pub ok_reply : Reply
ok_reply = record {
  status = 200;
  headers =
      (codes "connection", of_text (codes "keep-alive"))
      ∷ (codes "proxy-connection", of_text (codes "keep-alive"))
      ∷ (codes "proxy-agent", of_text (codes "bifrost"))
      ∷ [];
  body = [];
}

abbrev pub bad_gateway : Reply
bad_gateway = record { status = 502; headers = []; body = [] }

-- The answer to the CONNECT, and the task: both depend on whether the target could be reached.
unfoldable pub handle_tunnel_proxy : Bool → ℕ → Str → Reply × Option Task
handle_tunnel_proxy reached request_id host =
    if reached
    then (ok_reply, some (record { request_id = request_id; host = host }))
    else (bad_gateway, none)
