-- ===== src/Http.antt =====
-- The values of hyper and http that the program handles, as its accessors show them: what a
-- request, a URI, a header map or a response yields to the calls in src/. How the library parses
-- or prints them is not modelled; a printed form that the program asks for is a field.
use bifrost_core.Prelude.{ℕ, Option, none, some, List, [], ◌∷◌, if◌then◌else◌}
use bifrost_core.Prelude.Text.{Str, codes, str_eq}

-- `to_str()` may refuse the bytes of a header value.
pub record HeaderValue : Type 0 where
  pub bytes : Str
  pub to_str : Option Str

-- A value given as text, as in `.header("Connection", "keep-alive")`.
abbrev pub of_text : Str → HeaderValue
of_text s = record { bytes = s; to_str = some s }

-- A header map in its order of iteration; names are in lower case.
abbrev pub HeaderMap : Type 0
HeaderMap = List (Str × HeaderValue)

-- `headers.get(name)`: the first value of that name.
unfoldable pub get_header : Str → HeaderMap → Option HeaderValue
get_header name [] = none
get_header name ((key, value) ∷ rest) = if str_eq key name then some value else get_header name rest

abbrev pub readable : Option HeaderValue → Option Str
readable none = none
readable (some value) = value.to_str

abbrev pub or_else {ℓ} : {A : Type ℓ} → Option A → A → A
or_else none d = d
or_else (some a) d = a

-- `headers.get(name).and_then(|v| v.to_str().ok())`
unfoldable pub header_text : Str → HeaderMap → Option Str
unfolding get_header
header_text name headers = readable (get_header name headers)

pub record Uri : Type 0 where
  pub scheme : Option Str
  pub authority : Option Str
  pub host : Option Str
  pub port : Option ℕ
  pub path : Str
  pub path_and_query : Option Str
  pub to_string : Str

-- `method` is `method().as_str()`, `version` is `{:?}` of `version()`, and `remote_addr` is the
-- printed `SocketAddr` of the extensions.
pub record Request : Type 0 where
  pub method : Str
  pub uri : Uri
  pub version : Str
  pub headers : HeaderMap
  pub remote_addr : Option Str
  pub body : Str

-- A response that comes from a server: `Response<Incoming>`.
pub record Incoming : Type 0 where
  pub version : Str
  pub status : ℕ
  pub status_text : Str
  pub canonical_reason : Option Str
  pub headers : HeaderMap
  pub body : Str

-- A response that the proxy gives: `Response<BoxBody<Bytes, hyper::Error>>`.
pub record Reply : Type 0 where
  pub status : ℕ
  pub headers : HeaderMap
  pub body : Str

abbrev pub connect_method : Str
connect_method = codes "CONNECT"

abbrev pub options_method : Str
options_method = codes "OPTIONS"

abbrev pub http_2 : Str
http_2 = codes "HTTP/2.0"

abbrev pub host_header : Str
host_header = codes "host"
