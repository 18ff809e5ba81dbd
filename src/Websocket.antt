-- ===== src/Websocket.antt =====
-- src/websocket_interceptor.rs: the upgrade of a request to a WebSocket, and the forwarding of
-- messages. tokio-tungstenite's `connect_async` and the parsing of URIs are arguments.
pub mod Target
pub mod Headers
pub mod Protocols
pub mod Forwarding
mod Tests
use bifrost_core.Prelude.{
  ℕ, zero, suc, ◌-◌, Bool, true, false, Option, none, some, List, [], ◌∷◌, ◌++◌, ◌&&◌, map, length,
  if◌then◌else◌,
}
use bifrost_core.Prelude.Exec.{Outcome, ok, err, panic}
use bifrost_core.Prelude.Text.{
  Str, codes, str_eq, starts_with, contains, to_lowercase, split, join, trim,
}
use bifrost_core.Http.{
  HeaderValue, HeaderMap, of_text, header_text, or_else, Uri, Request, Incoming, Reply, host_header,
}
use bifrost_core.Plugin.{DataDirection, upstream, downstream}

-- Whether the text of a header contains a word in lower case.
abbrev mentions : Str → Option Str → Bool
mentions word none = false
mentions word (some s) = contains (to_lowercase s) word

unfoldable pub is_websocket_upgrade : Request → Bool
is_websocket_upgrade req =
    mentions (codes "websocket") (header_text (codes "upgrade") req.headers)
    && mentions (codes "upgrade") (header_text (codes "connection") req.headers)

-- `s.replace(from, to)`, after `skip` bytes of an occurrence.
unfoldable pub replace_from : ℕ → Str → Str → Str → Str
replace_from skip from to [] = []
replace_from (suc skip) from to (a ∷ s) = replace_from skip from to s
replace_from zero from to (a ∷ s) =
    let found = to ++ replace_from (length from - 1) from to s in
    let other = a ∷ replace_from 0 from to s in if starts_with (a ∷ s) from then found else other

abbrev target_of : Uri → Str → Option Str → Str
target_of uri host none = codes "wss://" ++ (host ++ or_else uri.path_and_query [])
target_of uri host (some scheme) = replace_from 0 (codes "http") (codes "ws") uri.to_string

unfoldable pub target_uri : Request → Str
unfolding replace_from
target_uri req = target_of req.uri (or_else (header_text host_header req.headers) []) req.uri.scheme

abbrev pub protocol_header : Str
protocol_header = codes "sec-websocket-protocol"

-- `.split(',').map(trim).join(",")`
unfoldable pub clean_protocols : Str → Str
clean_protocols s = join (b',' ∷ []) (map trim (split b',' s))

abbrev pub sub_protocol : HeaderMap → Str
sub_protocol headers = clean_protocols (or_else (header_text protocol_header headers) [])

-- The loop over the headers; `all` is the whole map.
unfoldable pub copy_headers : HeaderMap → HeaderMap → HeaderMap
unfolding clean_protocols
copy_headers all [] = []
copy_headers all ((name, value) ∷ rest) =
    (if str_eq name protocol_header then (name, of_text (sub_protocol all)) else (name, value))
    ∷ copy_headers all rest

abbrev upgrade_request : Request → Uri → Request
upgrade_request req uri = record {
  method = codes "GET";
  uri = uri;
  version = codes "HTTP/1.1";
  headers = copy_headers req.headers req.headers;
  remote_addr = none;
  body = [];
}

-- The answer to the client: that of the target without its body, or 502.
abbrev after_connect : Outcome Incoming → Outcome Reply
after_connect (ok response) =
    ok (record { status = response.status; headers = response.headers; body = [] })
after_connect (err e) =
    ok (record { status = 502; headers = []; body = codes "Bad Gateway: " ++ e })
after_connect panic = panic

abbrev with_uri {ℓ} : {A : Type ℓ} → Option Uri → (Uri → Outcome A) → Outcome A
with_uri none k = panic
with_uri (some uri) k = k uri

-- The request is built by `unwrap`, so a URI that the library does not parse is a panic.
unfoldable pub handle_websocket :
    (Str → Option Uri) → (Request → Outcome Incoming) → Request → Outcome Reply
unfolding target_uri copy_headers
handle_websocket parse_uri connect req =
    with_uri (parse_uri (target_uri req)) λ uri. after_connect (connect (upgrade_request req uri))

-- What one of the two forwarding tasks meets next: a message with the success of sending it on, an
-- error on reading, or the end of the stream.
pub data Frame : Type 0 where
  message : Str → Bool → Frame
  read_error end_of_stream : Frame

-- The two tasks under `select!`: what each side has been sent, and whether a task has ended.
pub record Relay : Type 0 where
  pub to_server : List Str
  pub to_client : List Str
  pub ended : Bool

abbrev pub idle : Relay
idle = record { to_server = []; to_client = []; ended = false }

abbrev pub sent : DataDirection → Str → Relay → Relay
sent upstream m r = record r { to_server = r.to_server ++ m ∷ [] }
sent downstream m r = record r { to_client = r.to_client ++ m ∷ [] }

unfoldable pub on_frame : DataDirection → Frame → Relay → Relay
on_frame d (message m true) r = sent d m r
on_frame d (message m false) r = record r { ended = true }
on_frame d read_error r = record r { ended = true }
on_frame d end_of_stream r = record r { ended = true }

unfoldable pub relay : List (DataDirection × Frame) → Relay → Relay
unfolding on_frame
relay [] r = r
relay ((d, f) ∷ rest) r =
    let next = on_frame d f r in let later = relay rest next in if next.ended then next else later

-- A call of `close` on one side, and whether it succeeded; a failure is logged only.
pub data Close : Type 0 where
  client_write target_write : Bool → Close

-- What the spawned task has done: what it relayed, and its calls of `close`, in order.
pub record Session : Type 0 where
  pub relayed : Relay
  pub closes : List Close

abbrev close : Close → Session → Session
close c s = record s { closes = s.closes ++ c ∷ [] }

-- The two arms of `select!` do the same.
unfoldable pub close_both : Bool → Bool → Session → Session
close_both client_ok target_ok s = close (target_write target_ok) (close (client_write client_ok) s)

-- The task that `handle_websocket` spawns once the target has answered: nothing is forwarded where
-- the client is not upgraded.
unfoldable pub relay_task : Bool → Bool → Bool → List (DataDirection × Frame) → Option Session
unfolding close_both
relay_task false client_ok target_ok frames = none
relay_task true client_ok target_ok frames =
    let s : Session = record { relayed = relay frames idle; closes = [] } in
    some (if s.relayed.ended then close_both client_ok target_ok s else s)
