-- ===== src/Websocket/Tests.antt =====
-- Tests of src/websocket_interceptor.rs and the theorems at concrete inputs.
use bifrost_core.Prelude.{◌≡◌, refl, true, false, none, some, inl, arith, [], ◌∷◌, ◌++◌, map, List}
use bifrost_core.Prelude.Text.{
  ne_of_str_eq, Str, codes, contains, str_eq, starts_with, to_lowercase, join, split, trim,
}
use bifrost_core.Http.{HeaderMap, Uri, Request, of_text, get_header, header_text}
use bifrost_core.Plugin.{DataDirection, upstream, downstream}
use bifrost_core.Websocket.{
  message, read_error, protocol_header, is_websocket_upgrade, replace_from, target_uri,
  clean_protocols, copy_headers, relay_task, client_write, target_write,
}
use bifrost_core.Websocket.Forwarding.{passed, of_direction, relay_task-in_order}
use bifrost_core.Websocket.Protocols.{
  Part, written, bare, copy_headers-protocols, copy_headers-others,
}
use bifrost_core.Websocket.Target.{target_uri-scheme}

abbrev headers : HeaderMap
headers =
    (codes "upgrade", of_text (codes "WebSocket"))
    ∷ (codes "connection", of_text (codes "keep-alive, Upgrade"))
    ∷ (codes "host", of_text (codes "h"))
    ∷ (protocol_header, of_text (codes "chat, soap "))
    ∷ (protocol_header, of_text (codes "mqtt"))
    ∷ []

abbrev secure : Uri
secure = record {
  scheme = some (codes "https");
  authority = some (codes "h");
  host = some (codes "h");
  port = none;
  path = codes "/chat";
  path_and_query = some (codes "/chat");
  to_string = codes "https://h/chat";
}

abbrev upgrade : Request
upgrade = record {
  method = codes "GET";
  uri = secure;
  version = codes "HTTP/1.1";
  headers = headers;
  remote_addr = none;
  body = [];
}

is_upgrade : is_websocket_upgrade upgrade ≡ true
unfolding is_websocket_upgrade header_text str_eq contains to_lowercase
is_upgrade = refl

-- The `http` of a path is replaced too.
path_changes :
    replace_from 0 (codes "http") (codes "ws") (codes "http://h/http") ≡ codes "ws://h/ws"
unfolding replace_from starts_with
path_changes = refl

cleaned : clean_protocols (codes "chat, soap ") ≡ codes "chat,soap"
unfolding clean_protocols join split trim
cleaned = refl

-- Of two lists of protocols the second is lost.
second_list :
    map
      (λ (n, v). v)
      (copy_headers headers (
        (protocol_header, of_text (codes "chat, soap "))
        ∷ (protocol_header, of_text (codes "mqtt"))
        ∷ []))
    ≡ of_text (codes "chat,soap") ∷ of_text (codes "chat,soap") ∷ []
unfolding copy_headers header_text str_eq clean_protocols join split trim
second_list = refl

no_more : contains (codes "s://h/chat") (codes "http") ≡ false
unfolding contains
no_more = refl

target_uri-scheme_example : target_uri upgrade ≡ codes "ws" ++ codes "s://h/chat"
target_uri-scheme_example =
    target_uri-scheme upgrade (codes "https") (codes "s://h/chat") refl refl no_more

abbrev chat : Part
chat = record {
  before = [];
  name = codes "chat";
  after = [];
  blank_before = tt;
  is_name = omega arith;
  blank_after = tt;
}

abbrev soap : Part
soap = record {
  before = codes " ";
  name = codes "soap";
  after = codes " ";
  blank_before = (inl refl, tt);
  is_name = omega arith;
  blank_after = (inl refl, tt);
}

first_list : header_text protocol_header headers ≡ some (written chat (soap ∷ []))
unfolding header_text get_header str_eq
first_list = refl

copy_headers-protocols_example :
    header_text protocol_header (copy_headers headers headers) ≡ some (bare chat (soap ∷ []))
copy_headers-protocols_example = copy_headers-protocols headers chat (soap ∷ []) first_list

copy_headers-others_example :
    get_header (codes "host") (copy_headers headers headers) ≡ get_header (codes "host") headers
unfolding str_eq
copy_headers-others_example =
    copy_headers-others headers (codes "host") (ne_of_str_eq (codes "host") protocol_header refl)

abbrev exchanged : List (DataDirection × Str)
exchanged = (upstream, codes "a") ∷ (downstream, codes "b") ∷ (upstream, codes "c") ∷ []

relay_task-in_order_example :
    relay_task true false true
      (map passed exchanged ++ (downstream, read_error) ∷ (upstream, message (codes "d") true) ∷ [])
    ≡ some (record {
      relayed = record {
        to_server = of_direction upstream exchanged;
        to_client = of_direction downstream exchanged;
        ended = true;
      };
      closes = client_write false ∷ target_write true ∷ [];
    })
relay_task-in_order_example =
    relay_task-in_order exchanged downstream read_error ((upstream, message (codes "d") true) ∷ [])
      false true refl

not_upgraded : relay_task false true true ((downstream, message (codes "a") true) ∷ []) ≡ none
unfolding relay_task
not_upgraded = refl
