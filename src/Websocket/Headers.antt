-- ===== src/Websocket/Headers.antt =====
-- The headers of the request that src/websocket_interceptor.rs sends to the target.
use bifrost_core.Prelude.{
  ◌≡◌, refl, Bool-cases, true, false, Option, none, some, [], ◌∷◌, ◌∙◌, ap, sym, Bool,
  if◌then◌else◌, inl, inr,
}
use bifrost_core.Prelude.Text.{Str, str_eq, str_eq_sound}
use bifrost_core.Http.{HeaderValue, HeaderMap, of_text, get_header}
use bifrost_core.Websocket.{protocol_header, sub_protocol, copy_headers}

-- The value that the target is sent for a header of the client.
abbrev pub sent_value : HeaderMap → Str → HeaderValue → HeaderValue
sent_value all name value =
    if str_eq name protocol_header then of_text (sub_protocol all) else value

abbrev pub sent_option : HeaderMap → Str → Option HeaderValue → Option HeaderValue
sent_option all name none = none
sent_option all name (some v) = some (sent_value all name v)

protocol_test :
    (key name : Str) (b : Bool)
    → str_eq key name ≡ true
    → str_eq key protocol_header ≡ b
    → str_eq name protocol_header ≡ b
protocol_test key name b q p =
    ap (λ x. str_eq x protocol_header) (sym (str_eq_sound key name q)) ∙ p

get_header-copy_one :
    (all : HeaderMap) (name key : Str) (value : HeaderValue) (rest : HeaderMap)
    → get_header name (copy_headers all rest) ≡ sent_option all name (get_header name rest)
    → get_header name (copy_headers all ((key, value) ∷ rest))
      ≡ sent_option all name (get_header name ((key, value) ∷ rest))
unfolding copy_headers get_header
get_header-copy_one all name key value rest ih = elim (Bool-cases (str_eq key protocol_header)) [
  | inl p ↦ elim (Bool-cases (str_eq key name)) [
    | inl q ↦ rw (p, q, protocol_test key name true q p) refl
    | inr q ↦ rw (p, q) ih
  ]
  | inr p ↦ elim (Bool-cases (str_eq key name)) [
    | inl q ↦ rw (p, q, protocol_test key name false q p) refl
    | inr q ↦ rw (p, q) ih
  ]
]

get_header-copy_from :
    (all headers : HeaderMap) (name : Str)
    → get_header name (copy_headers all headers) ≡ sent_option all name (get_header name headers)
unfolding copy_headers get_header
get_header-copy_from all [] name = refl
get_header-copy_from all ((key, value) ∷ rest) name =
    get_header-copy_one all name key value rest (get_header-copy_from all rest name)

-- Under each name the target reads the first value that the client gave under it, and under
-- Sec-WebSocket-Protocol the client's first list of protocols without the blanks around them.
pub get_header-copy_headers :
    (headers : HeaderMap) (name : Str)
    → get_header name (copy_headers headers headers)
      ≡ sent_option headers name (get_header name headers)
get_header-copy_headers headers name = get_header-copy_from headers headers name
