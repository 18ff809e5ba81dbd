-- ===== src/Plugin/NetStorage/Size.antt =====
-- The sizes that a record starts from are those of the message heads as they go over the wire.
use bifrost_core.Prelude.{ℕ, ◌+◌, ◌%◌, ◌≡◌, ap, ◌∙◌, [], ◌∷◌, ◌++◌, arith, length, length-append}
use bifrost_core.Prelude.Text.{Str, codes}
use bifrost_core.Prelude.Words.{u64_mod, wrapping_add}
use bifrost_core.Http.{HeaderValue, HeaderMap, Request, Incoming, or_else}
use bifrost_core.Plugin.NetStorage.{add_headers, request_size_of, response_size_of}

abbrev crlf : Str
crlf = 13 ∷ 10 ∷ []

abbrev pub header_line : Str → HeaderValue → Str
header_line name value = name ++ (codes ": " ++ (value.bytes ++ crlf))

-- The header lines, then the empty line.
abbrev pub header_lines : HeaderMap → Str
header_lines [] = crlf
header_lines ((name, value) ∷ rest) = header_line name value ++ header_lines rest

-- `GET /path HTTP/1.1` and the headers; the query of the URI is not part of it.
abbrev pub request_head : Request → Str
request_head req =
    req.method
    ++ (codes " "
        ++ (req.uri.path ++ (codes " " ++ (req.version ++ (crlf ++ header_lines req.headers)))))

abbrev pub response_head : Incoming → Str
response_head resp =
    resp.version
    ++ (codes " "
        ++ (resp.status_text
            ++ (codes " "
                ++ (or_else resp.canonical_reason [] ++ (crlf ++ header_lines resp.headers)))))

length-header_line :
    (name : Str) (value : HeaderValue) (rest : Str)
    → length (header_line name value ++ rest)
      ≡ length name + 2 + (length value.bytes + 2) + length rest
length-header_line name value rest = omega (
  arith,
  length-append (header_line name value) rest,
  length-append name (codes ": " ++ (value.bytes ++ crlf)),
  length-append value.bytes crlf,
)

add_headers-mod :
    (x : ℕ) (headers : HeaderMap)
    → wrapping_add (add_headers (x % u64_mod) headers) 2
      ≡ (x + length (header_lines headers)) % u64_mod
unfolding add_headers wrapping_add
add_headers-mod x [] = omega arith
add_headers-mod x ((name, value) ∷ rest) =
    ap (λ n. (add_headers n rest + 2) % u64_mod) step
    ∙ add_headers-mod (x + (length name + 2) + (length value.bytes + 2)) rest
    ∙ omega (arith, length-header_line name value (header_lines rest))
  where
    step :
        wrapping_add (wrapping_add (x % u64_mod) (length name + 2)) (length value.bytes + 2)
        ≡ (x + (length name + 2) + (length value.bytes + 2)) % u64_mod
    step = omega arith

-- Three parts of the first line, each with what follows it.
length-first_line :
    (a b c rest : Str)
    → length (a ++ (codes " " ++ (b ++ (codes " " ++ (c ++ (crlf ++ rest))))))
      ≡ length a + 1 + (length b + 1) + (length c + 2) + length rest
length-first_line a b c rest = omega (
  arith,
  length-append a (codes " " ++ (b ++ (codes " " ++ (c ++ (crlf ++ rest))))),
  length-append b (codes " " ++ (c ++ (crlf ++ rest))),
  length-append c (crlf ++ rest),
)

head-mod :
    (a b c : Str) (headers : HeaderMap)
    → wrapping_add
        (add_headers
          (wrapping_add
            (wrapping_add (wrapping_add 0 (length a + 1)) (length b + 1))
            (length c + 2))
          headers)
        2
      ≡ length (a ++ (codes " " ++ (b ++ (codes " " ++ (c ++ (crlf ++ header_lines headers))))))
        % u64_mod
head-mod a b c headers =
    ap (λ n. wrapping_add (add_headers n headers) 2) start
    ∙ add_headers-mod (length a + 1 + (length b + 1) + (length c + 2)) headers
    ∙ omega (arith, length-first_line a b c (header_lines headers))
  where
    start :
        wrapping_add (wrapping_add (wrapping_add 0 (length a + 1)) (length b + 1)) (length c + 2)
        ≡ (length a + 1 + (length b + 1) + (length c + 2)) % u64_mod
    start = unfold wrapping_add in omega arith

-- The request size that a record starts from is the length of the request head as sent, without
-- the query, and the response size that `handle_response` stores is the length of the response
-- head; both modulo 2 ^ 64.
pub sizes_of_heads :
    (req : Request) (resp : Incoming)
    → (request_size_of req ≡ length (request_head req) % u64_mod)
      × (response_size_of resp ≡ length (response_head resp) % u64_mod)
unfolding request_size_of response_size_of
sizes_of_heads req resp = (
  head-mod req.method req.uri.path req.version req.headers,
  head-mod resp.version resp.status_text (or_else resp.canonical_reason []) resp.headers,
)
