-- ===== src/HttpInterceptor/Counting.antt =====
-- What src/http_interceptor.rs leaves of a request in the store.
use bifrost_core.Prelude.{Option, ◌+◌, ◌%◌, ◌≡◌, none, some, [], ◌++◌}
use bifrost_core.Prelude.Exec.{Outcome, ok, err, panic}
use bifrost_core.Prelude.Text.{Str, codes}
use bifrost_core.Prelude.Words.{u64_mod}
use bifrost_core.Http.{or_else, Uri, Request, Incoming, Reply}
use bifrost_core.NetworkRecord.{NetworkRecord}
use bifrost_core.Store.{Store}
use bifrost_core.Global.{Global}
use bifrost_core.Plugin.BifrostServer
use bifrost_core.HttpInterceptor.{get_host}

-- The request that goes to the server: no version, extension or client address is passed on.
abbrev pub forwarded : Request → Uri → Request
forwarded req uri = record {
  method = req.method;
  uri = uri;
  version = codes "HTTP/1.1";
  headers = req.headers;
  remote_addr = none;
  body = req.body;
}

-- Where it goes: the URI that the client gave in absolute form, or else that of the host by HTTPS.
abbrev pub sent_to : Request → Option Str → Str
sent_to req (some scheme) = req.uri.to_string
sent_to req none = codes "https://" ++ (get_host req ++ or_else req.uri.path_and_query [])

-- What the client is due for what comes of the server: the answer's status, headers and body; 502
-- with a message that starts so; or the panic of the library.
abbrev pub IsDue : Str → Outcome Incoming → Outcome Reply → Type 0
IsDue host (ok response) reply =
    reply
    ≡ ok (record { status = response.status; headers = response.headers; body = response.body })
IsDue host (err e) reply =
    (rest : Str) × (reply
      ≡ ok (record {
        status = 502;
        headers = [];
        body = codes "Service Unavailable. Can't Connect to Target Server [" ++ (host ++ rest);
      }))
IsDue host panic reply = reply ≡ panic

-- The state after the id of a request is taken.
abbrev pub numbered : Global → Global
numbered g = record g { request_id_counter = (g.request_id_counter + 1) % u64_mod }
