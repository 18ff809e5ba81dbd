-- ===== src/Plugin/BifrostServer.antt =====
-- src/plugin/bifrost_server.rs: the plugin that answers requests for the proxy itself.
-- The response builder gets constant headers only, and its errors are left out.
pub mod Host
pub mod Routes
pub mod Records
mod Tests
use mathlib.Core.List.{reverse}
use bifrost_core.Prelude.{
  ℕ, Bool, true, false, Option, none, some, List, [], ◌∷◌, ◌++◌, ◌||◌, take, if◌then◌else◌,
}
use bifrost_core.Prelude.Exec.{Outcome, Exec, ok, err, panic, pure, lift, zoom, ◌>>=◌, ◌>>◌}
use bifrost_core.Prelude.Text.{Str, codes, str_eq, contains, show}
use bifrost_core.Http.{
  HeaderMap, of_text, get_header, Request, Uri, Reply, connect_method, options_method, host_header,
  readable, or_else,
}
use bifrost_core.NetworkRecord.{NetworkRecord}
use bifrost_core.Store.{Store, Config, TrafficStatsData}
use bifrost_core.Global.{Global, on_store, get_config}
use bifrost_core.Plugin.{Plugin, Verdict}
use bifrost_core.Plugin.Json.{
  Value, bool, num, string, array, object, Fields, end, field, Serde, remove, of_list,
}

abbrev cors : HeaderMap
cors =
    (codes "access-control-allow-origin", of_text (codes "*"))
    ∷ (codes "access-control-allow-methods", of_text (codes "GET, POST, OPTIONS"))
    ∷ (codes "access-control-allow-headers", of_text (codes "Content-Type"))
    ∷ []

abbrev json_headers : HeaderMap
json_headers = (codes "content-type", of_text (codes "application/json")) ∷ cors

abbrev code_and : ℕ → Str → Value → Value
code_and code key v = object (field (codes "code") (num code) (field key v end))

-- `get_host`; the `unwrap` of the authority may panic.
abbrev with_scheme : Str → Option Str → Outcome Str
with_scheme scheme none = panic
with_scheme scheme (some authority) = ok (scheme ++ (codes "://" ++ authority))

abbrev host_of_uri : Request → Option Str → Outcome Str
host_of_uri req (some scheme) = with_scheme scheme req.uri.authority
host_of_uri req none = ok (or_else (readable (get_header host_header req.headers)) [])

unfoldable pub get_host : Request → Outcome Str
get_host req =
    if str_eq req.method connect_method
    then ok req.uri.to_string
    else host_of_uri req req.uri.scheme

unfoldable pub is_bifrost_host : Str → ℕ → Bool
is_bifrost_host host port =
    contains host (codes "127.0.0.1:" ++ show port)
    || contains host (codes "localhost:" ++ show port)

abbrev not_found_json : Value
not_found_json = code_and 1 (codes "message") (string (codes "Route not found"))

abbrev pub options_reply : Reply
options_reply = record { status = 200; headers = cors; body = [] }

abbrev pub config_json : Config → Value
config_json config = object (
    field (codes "port") (num config.port) (
      field (codes "cert_path") (string config.cert_path) (
        field (codes "key_path") (string config.key_path)
          (field (codes "enable_https") (bool config.enable_https) end))))

unfoldable pub handle_config : Exec Global Value
unfolding get_config
handle_config = do config ← get_config; pure (config_json config)

-- One record as JSON, without its bodies.
abbrev strip : Value → Value
strip (object fields) =
    object (remove (codes "response_body") (remove (codes "request_body") fields))
strip v = v

abbrev collect_cons : Outcome Value → Outcome (List Value) → Outcome (List Value)
collect_cons (ok v) (ok vs) = ok (v ∷ vs)
collect_cons (ok v) (err e) = err e
collect_cons (ok v) panic = panic
collect_cons (err e) _ = err e
collect_cons panic _ = panic

abbrev pub array_of : Outcome (List Value) → Outcome Value
array_of (ok vs) = ok (array (of_list vs))
array_of (err e) = err e
array_of panic = panic

module _ (serde : Serde) where
  abbrev json_reply : ℕ → Value → Reply
  json_reply status v = record { status = status; headers = json_headers; body = serde.to_string v }

  unfoldable pub wrap_response : Outcome Value → Outcome Reply
  wrap_response (ok data') = ok (json_reply 200 (code_and 0 (codes "data") data'))
  wrap_response (err e) = ok (json_reply 500 (code_and 1 (codes "message") (string e)))
  wrap_response panic = panic

  -- `wrap_response(handler(req).await).await`
  unfoldable pub wrapped : Exec Global Value → Exec Global Reply
  unfolding wrap_response
  wrapped handler g = let (r, g') = handler g in (wrap_response r, g')

  abbrev not_found_reply : Reply
  not_found_reply = json_reply 404 not_found_json

  unfoldable pub handle_not_found : Outcome Reply
  handle_not_found = ok not_found_reply

  unfoldable pub record_json : NetworkRecord → Outcome Value
  record_json r = elim (serde.to_value r) [ ok v ↦ ok (strip v) | err e ↦ err e | panic ↦ panic ]

  -- `.map(…).collect::<Result<Vec<_>, _>>()`, which stops at the first error.
  unfoldable pub collect : List NetworkRecord → Outcome (List Value)
  unfolding record_json
  collect [] = ok []
  collect (r ∷ rs) = collect_cons (record_json r) (collect rs)

  unfoldable pub handle_get_record : Exec Global Value
  unfolding collect on_store
  handle_get_record = do
    records ← on_store (λ s. (ok s.network_records, s))
    lift (array_of (collect (take 10 (reverse records))))

  abbrev megabytes : ℕ → Str → Value
  megabytes n unit = string (serde.mega n ++ unit)

  abbrev formatted_json : TrafficStatsData → Value
  formatted_json stats = object (
      field (codes "bytes_in") (megabytes stats.bytes_in (codes " MB")) (
        field (codes "bytes_out") (megabytes stats.bytes_out (codes " MB")) (
          field (codes "speed_in") (megabytes stats.current_speed_in (codes " MB/s")) (
            field (codes "speed_out") (megabytes stats.current_speed_out (codes " MB/s")) (
              field (codes "max_speed_in") (megabytes stats.max_speed_in (codes " MB/s")) (
                field (codes "max_speed_out") (megabytes stats.max_speed_out (codes " MB/s"))
                  end))))))

  abbrev pub stats_json : TrafficStatsData → Value
  stats_json stats = object (
      field (codes "bytes_in") (num stats.bytes_in) (
        field (codes "bytes_out") (num stats.bytes_out) (
          field (codes "total_requests") (num stats.total_requests) (
            field (codes "current_requests") (num stats.current_requests) (
              field (codes "qps") (num stats.last_qps) (
                field (codes "speed_in") (num stats.current_speed_in) (
                  field (codes "speed_out") (num stats.current_speed_out) (
                    field (codes "max_speed_in") (num stats.max_speed_in) (
                      field (codes "max_speed_out") (num stats.max_speed_out) (
                        field (codes "max_qps") (num stats.max_qps)
                          (field (codes "formatted") (formatted_json stats) end)))))))))))

  unfoldable pub handle_traffic_stats : Exec Global Value
  unfolding on_store
  handle_traffic_stats = do stats ← on_store (λ s. (ok s.traffic_stats, s)); pure (stats_json stats)

  unfoldable pub route : Str → Exec Global Reply
  unfolding wrapped handle_config handle_get_record handle_traffic_stats handle_not_found
  route path =
      if str_eq path (codes "/")
      then wrapped (pure (string (codes "Bifrost is working")))
      else if str_eq path (codes "/config")
      then wrapped handle_config
      else if str_eq path (codes "/get_record")
      then wrapped handle_get_record
      else if str_eq path (codes "/traffic_stats")
      then wrapped handle_traffic_stats
      else lift handle_not_found

  unfoldable pub host_server : Request → Exec Global Reply
  unfolding route
  host_server req =
      if str_eq req.method options_method then pure options_reply else route req.uri.path

  unfoldable pub handle_request : Request → Exec Global Verdict
  unfolding get_config get_host is_bifrost_host host_server
  handle_request req = do
    config ← get_config
    target_host ← lift (get_host req)
    if is_bifrost_host target_host config.port
        then (do response ← host_server req; pure (false, some response))
        else pure (true, none)

  unfoldable pub handle_response : Request → Exec Global Bool
  unfolding get_config get_host is_bifrost_host
  handle_response req = do
    config ← get_config
    target_host ← lift (get_host req)
    if is_bifrost_host target_host config.port then pure false else pure true

  abbrev pub bifrost_server : Plugin Global
  bifrost_server = record {
    handle_request = λ request_id (g, req). zoom (handle_request req) (g, req);
    handle_response = λ request_id req. zoom (handle_response req);
    handle_connect = λ request_id req. pure (true, none);
    handle_connect_close = λ request_id target. pure true;
    handle_data = λ request_id direction chunk. pure tt;
  }
