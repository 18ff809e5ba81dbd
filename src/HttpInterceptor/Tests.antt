-- ===== src/HttpInterceptor/Tests.antt =====
-- Tests of src/http_interceptor.rs and the theorems at concrete inputs.
use bifrost_core.Prelude.{◌≡◌, refl, none, some, [], ◌∷◌, ◌++◌, arith}
use bifrost_core.Prelude.Exec.{ok, err, panic}
use bifrost_core.Prelude.Text.{Str, codes, str_eq, split, parse_u16}
use bifrost_core.Prelude.Table.{get_entry}
use bifrost_core.Http.{Uri, Request, header_text}
use bifrost_core.Store.{Store}
use bifrost_core.Global.{Global, at_time}
use bifrost_core.Plugin.BifrostServer
use bifrost_core.Plugin.Registry.{registered}
use bifrost_core.HttpInterceptor.{
  Network, recent, asked, request_at, dns_lookup, get_host, handle_http,
}
use bifrost_core.HttpInterceptor.Dns.{dns_lookup-remembers}
use bifrost_core.HttpInterceptor.Errors.{handle_http-unresolved}
use bifrost_core.Samples.{
  request_to, sample_network, sample_request, sample_serde, store_with, global_with,
}

abbrev network : Network
network = sample_network

abbrev store : Store
store = store_with 10 []

abbrev global : Global
global = global_with store

host_of : get_host sample_request ≡ codes "example.com"
unfolding get_host header_text str_eq
host_of = refl

-- A host that has no number after its first colon panics.
ipv6_panics : (dns_lookup network (codes "[::1]:443") global).0 ≡ panic
unfolding dns_lookup split parse_u16
ipv6_panics = refl

abbrev own_uri : Uri
own_uri = record {
  scheme = some (codes "http");
  authority = some (codes "localhost:8080");
  host = some (codes "localhost");
  port = some 8080;
  path = codes "/x";
  path_and_query = some (codes "/x");
  to_string = codes "http://localhost:8080/x";
}

abbrev own_network : Network
own_network = record network { parse_uri = λ s. some own_uri }

abbrev IsHostOf : Request → Uri → Str → Type 0
IsHostOf req uri host = BifrostServer.get_host (request_at req uri) ≡ ok host

abbrev later : Global → Global
later = at_time 200000000000

no_entry : recent 7 (get_entry (codes "example.com") []) ≡ none
unfolding get_entry
no_entry = refl

found : asked network (split b':' (codes "example.com")) ≡ ok (codes "93.184.216.34:443" ∷ [])
unfolding split parse_u16 str_eq
found = refl

dns_lookup-remembers_example :
    dns_lookup own_network
      (codes "example.com")
      (later (dns_lookup network (codes "example.com") global).1)
    ≡ (
      ok (codes "93.184.216.34:443" ∷ []),
      later (dns_lookup network (codes "example.com") global).1,
    )
dns_lookup-remembers_example =
    dns_lookup-remembers network own_network (codes "example.com") global 200000000000
      (codes "93.184.216.34:443" ∷ []) no_entry found (omega arith) (omega arith) (omega arith)

abbrev nowhere : Request
nowhere = request_to (codes "nowhere") (codes "/")

none_yet : recent 7 (get_entry (get_host nowhere) []) ≡ none
unfolding get_entry
none_yet = refl

not_found : asked network (split b':' (get_host nowhere)) ≡ err (codes "unknown")
unfolding split parse_u16 str_eq get_host header_text
not_found = refl

handle_http-unresolved_example : handle_http network (registered sample_serde) nowhere global ≡ (
  ok (record {
    status = 502;
    headers = [];
    body = codes "DNS Lookup Failed: [" ++ (get_host nowhere ++ codes "]");
  }),
  global,
)
handle_http-unresolved_example =
    handle_http-unresolved network (registered sample_serde) nowhere global (codes "unknown")
      none_yet not_found
