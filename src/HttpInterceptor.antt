-- ===== src/HttpInterceptor.antt =====
-- src/http_interceptor.rs: a request that is forwarded to the server it names.
-- What the program asks of the network and of the libraries is the record `Network`.
pub mod Dns
pub mod Counting
pub mod Errors
pub mod Effect
mod Tests
use bifrost_core.Prelude.{
  ℕ, ◌/◌, Bool, true, false, Option, none, some, List, [], ◌∷◌, ◌++◌, if◌then◌else◌, ltb,
}
use bifrost_core.Prelude.Exec.{Outcome, Exec, ok, err, panic, pure, lift, attempt, ◌>>=◌}
use bifrost_core.Prelude.Text.{Str, codes, str_eq, split, parse_u16}
use bifrost_core.Prelude.Table.{get_entry, insert_entry}
use bifrost_core.Prelude.Words.{wrapping_sub}
use bifrost_core.Http.{Uri, Request, Incoming, Reply, header_text, or_else, http_2, host_header}
use bifrost_core.Global.{Global, DnsCache, next_request_id}
use bifrost_core.Plugin.{Plugin, Verdict}
use bifrost_core.Plugin.Manager
use bifrost_core.Websocket.{is_websocket_upgrade, handle_websocket}

-- `tokio::net::lookup_host` on a host and a port, the parsing of a URI with the message of its
-- failure, `Client::request`, `connect_async`, and the printed time that a request took.
pub record Network : Type 0 where
  pub lookup_host : Str → ℕ → Outcome (List Str)
  pub parse_uri : Str → Option Uri
  pub parse_error : Str
  pub request : Request → Outcome Incoming
  pub connect_async : Request → Outcome Incoming
  pub elapsed : Str

abbrev pub plain : ℕ → Str → Reply
plain status body = record { status = status; headers = []; body = body }

abbrev pub build_502_error : Str → Reply
build_502_error error_msg = plain 502 error_msg

-- In seconds.
abbrev pub cache_duration : ℕ
cache_duration = 300

abbrev pub seconds : Global → ℕ
seconds g = g.clock / 1000000000

-- The addresses of an entry that is not too old; the difference wraps in a release build.
abbrev pub recent : ℕ → Option (List Str × ℕ) → Option (List Str)
recent now none = none
recent now (some (addrs, timestamp)) =
    if ltb (wrapping_sub now timestamp) cache_duration then some addrs else none

-- The parts of `host.split(':')`; a port that is not a `u16` panics.
abbrev port_part : List Str → Str
port_part (host ∷ port ∷ rest) = port
port_part _ = codes "443"

abbrev host_part : List Str → Str
host_part (host ∷ rest) = host
host_part [] = []

abbrev ask : Network → Str → Option ℕ → Outcome (List Str)
ask network host none = panic
ask network host (some port) = network.lookup_host host port

abbrev pub asked : Network → List Str → Outcome (List Str)
asked network parts = ask network (host_part parts) (parse_u16 (port_part parts))

abbrev remember : Str → Outcome (List Str) → Exec Global (List Str)
remember host (ok addrs) g =
    (ok addrs, record g { dns_cache = insert_entry host (addrs, seconds g) g.dns_cache })
remember host (err e) g = (err e, g)
remember host panic g = (panic, g)

abbrev or_ask : Network → Str → Option (List Str) → Exec Global (List Str)
or_ask network host (some addrs) = pure addrs
or_ask network host none = remember host (asked network (split b':' host))

unfoldable pub dns_lookup : Network → Str → Exec Global (List Str)
unfolding get_entry insert_entry
dns_lookup network host g = or_ask network host (recent (seconds g) (get_entry host g.dns_cache)) g

abbrev pub either {ℓ} : {A : Type ℓ} → Option A → Option A → Option A
either none b = b
either (some a) b = some a

unfoldable pub get_host : Request → Str
get_host req =
    if str_eq req.version http_2
    then or_else (either req.uri.authority (header_text (codes ":authority") req.headers))
        (codes "localhost")
    else or_else (header_text host_header req.headers) (codes "localhost")

abbrev pub absolute : Request → Option Str → Str
absolute req none = codes "https://" ++ (get_host req ++ or_else req.uri.path_and_query [])
absolute req (some scheme) = req.uri.to_string

unfoldable pub uri_string : Request → Str
unfolding get_host
uri_string req = absolute req req.uri.scheme

-- The builder copies the method and the headers; the version is the default, and the extensions,
-- which hold the client's address, are not copied.
abbrev pub request_at : Request → Uri → Request
request_at req uri = record {
  method = req.method;
  uri = uri;
  version = codes "HTTP/1.1";
  headers = req.headers;
  remote_addr = none;
  body = req.body;
}

abbrev build : Network → Request → Option Uri → Outcome Request
build network req none = err (codes "Build Request Failed: " ++ network.parse_error)
build network req (some uri) = ok (request_at req uri)

abbrev pub server_reply : Network → Str → Outcome Incoming → Outcome Reply
server_reply network host (ok response) =
    ok (record { status = response.status; headers = response.headers; body = response.body })
server_reply network host (err e) = ok (
    build_502_error (
      codes "Service Unavailable. Can't Connect to Target Server ["
      ++ (host ++ (codes "], [Time: " ++ (network.elapsed ++ codes "]")))))
server_reply network host panic = panic

-- What follows the plugins: their response, an error, or the request to the server.
abbrev pub after_plugins : Network → Str → Outcome Verdict → Request → Outcome Reply
after_plugins network host (ok (false, some response)) new_req = ok response
after_plugins network host (ok (false, none)) new_req = ok (plain 400 (codes "Bad Plugin Response"))
after_plugins network host (ok (true, response)) new_req =
    server_reply network host (network.request new_req)
after_plugins network host (err e) new_req = ok (plain 500 (codes "Internal Server Error"))
after_plugins network host panic new_req = panic

abbrev with_plugins : Network → List (Plugin Global) → Str → ℕ → Request → Exec Global Reply
with_plugins network plugins host request_id new_req g =
    let (verdict, (g', new_req')) = Manager.handle_request plugins request_id (g, new_req) in
    (after_plugins network host verdict new_req', g')

unfoldable pub http_request : Network → List (Plugin Global) → Request → Exec Global Reply
unfolding uri_string
http_request network plugins req = do
  request_id ← next_request_id
  new_req ← lift (build network req (network.parse_uri (uri_string req)))
  with_plugins network plugins (get_host req) request_id new_req

-- A failure, which is only logged, becomes a plain response.
abbrev replied : Option Reply → Reply → Exec Global Reply
replied none failure = pure failure
replied (some reply) failure = pure reply

abbrev handled : Network → List (Plugin Global) → Request → Exec Global Reply
handled network plugins req =
    if is_websocket_upgrade req
    then (do
      reply ← attempt (lift (handle_websocket network.parse_uri network.connect_async req))
      replied reply (plain 400 (codes "WebSocket upgrade failed")))
    else (do
      reply ← attempt (http_request network plugins req)
      replied reply (plain 500 (codes "Internal Server Error")))

abbrev after_lookup :
    Network → List (Plugin Global) → Request → Option (List Str) → Exec Global Reply
after_lookup network plugins req none =
    pure (build_502_error (codes "DNS Lookup Failed: [" ++ (get_host req ++ codes "]")))
after_lookup network plugins req (some addrs) = handled network plugins req

unfoldable pub handle_http : Network → List (Plugin Global) → Request → Exec Global Reply
unfolding get_host dns_lookup http_request
handle_http network plugins req = do
  found ← attempt (dns_lookup network (get_host req))
  after_lookup network plugins req found
