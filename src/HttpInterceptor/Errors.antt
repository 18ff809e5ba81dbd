-- ===== src/HttpInterceptor/Errors.antt =====
-- How src/http_interceptor.rs answers when something fails.
use bifrost_core.Prelude.{[], ◌≡◌, refl, none, List, ◌++◌}
use bifrost_core.Prelude.Exec.{ok, err}
use bifrost_core.Prelude.Text.{Str, codes, split}
use bifrost_core.Prelude.Table.{get_entry}
use bifrost_core.Http.{Request}
use bifrost_core.Global.{Global}
use bifrost_core.Plugin.{Plugin}
use bifrost_core.HttpInterceptor.Dns.{dns_lookup-fails}
use bifrost_core.HttpInterceptor.{Network, recent, seconds, asked, get_host, handle_http}

-- Where the host has no recent entry and its lookup fails, the answer is 502 with the host in its
-- body and nothing changes: no plugin runs, also where the request is for the proxy itself.
pub handle_http-unresolved :
    (network : Network) (plugins : List (Plugin Global)) (req : Request) (g : Global) (e : Str)
    → recent (seconds g) (get_entry (get_host req) g.dns_cache) ≡ none
    → asked network (split b':' (get_host req)) ≡ err e
    → handle_http network plugins req g ≡ (
      ok (record {
        status = 502;
        headers = [];
        body = codes "DNS Lookup Failed: [" ++ (get_host req ++ codes "]");
      }),
      g,
    )
unfolding handle_http
handle_http-unresolved network plugins req g e old fails =
    rw (dns_lookup-fails network (get_host req) e g old fails) refl
