-- ===== src/Samples.antt =====
-- Values that the tests share.
use bifrost_core.Prelude.{ℕ, true, false, if◌then◌else◌, none, some, List, [], ◌∷◌}
use bifrost_core.Prelude.Exec.{ok, err}
use bifrost_core.Prelude.Text.{Str, codes, str_eq}
use bifrost_core.Http.{Uri, Request, Incoming, of_text, host_header}
use bifrost_core.NetworkRecord.{NetworkRecord, sending}
use bifrost_core.Store.{Store, new_stats}
use bifrost_core.Global.{Global}
use bifrost_core.Plugin.Json.{null, Serde}
use bifrost_core.HttpInterceptor.{Network}
use bifrost_core.HttpsInterceptor.{CachedCert, Tls}

abbrev pub sample_uri : Uri
sample_uri = record {
  scheme = some (codes "http");
  authority = some (codes "example.com");
  host = some (codes "example.com");
  port = none;
  path = codes "/a";
  path_and_query = some (codes "/a?x=1");
  to_string = codes "http://example.com/a?x=1";
}

-- A request with the given host header, not in absolute form.
abbrev pub request_to : Str → Str → Request
request_to host path = record {
  method = codes "GET";
  uri = record {
    scheme = none;
    authority = none;
    host = none;
    port = none;
    path = path;
    path_and_query = some path;
    to_string = path;
  };
  version = codes "HTTP/1.1";
  headers = (host_header, of_text host) ∷ [];
  remote_addr = none;
  body = [];
}

abbrev pub sample_request : Request
sample_request = record {
  method = codes "GET";
  uri = sample_uri;
  version = codes "HTTP/1.1";
  headers = (host_header, of_text (codes "example.com")) ∷ [];
  remote_addr = some (codes "127.0.0.1:5000");
  body = [];
}

abbrev pub sample_response : Incoming
sample_response = record {
  version = codes "HTTP/1.1";
  status = 200;
  status_text = codes "200";
  canonical_reason = some (codes "OK");
  headers = (codes "server", of_text (codes "x")) ∷ [];
  body = [];
}

-- A record with the given id.
abbrev pub sample_record : ℕ → NetworkRecord
sample_record id = record {
  id = id;
  client_ip = codes "127.0.0.1";
  client_port = 5000;
  server_ip = codes "example.com";
  server_port = 80;
  host = codes "example.com";
  url = codes "http://example.com/a";
  path = codes "/a";
  protocol = codes "HTTP/1.1";
  method = codes "GET";
  request_headers = [];
  response_headers = [];
  request_body = none;
  response_body = none;
  request_size = 20;
  response_size = 0;
  start_time = 0;
  end_time = none;
  dns_duration = none;
  tcp_connect_duration = none;
  ttfb_duration = none;
  download_duration = none;
  status_code = none;
  status_message = none;
  state = sending;
}

abbrev pub store_with : ℕ → List NetworkRecord → Store
store_with max records = record {
  config = record {
    port = 8080;
    cert_path = codes "files/root.crt";
    key_path = codes "files/root.key";
    enable_https = false;
    enable_h2 = false;
    max_network_records = max;
  };
  network_records = records;
  traffic_stats = new_stats 0;
}

abbrev pub global_with : Store → Global
global_with s = record {
  context = some s;
  request_id_counter = 5;
  dns_cache = [];
  clock = 7000000000;
}

abbrev pub sample_serde : Serde
sample_serde = record { to_value = λ r. ok null; to_string = λ v. []; mega = λ n. [] }

abbrev pub sample_tls : Tls
sample_tls = record {
  sign = λ moment cert_path key_path cn domain. ok (cn, domain);
  with_single_cert = λ cert key. ok tt;
  connect = λ addr. true;
}

-- The certificate of `a.b` that is signed at the time of `global_with`.
abbrev pub sample_cert : CachedCert
sample_cert = record { cert = codes "a.b"; key = codes "a.b"; expiry = 3607000000000 }

abbrev pub sample_network : Network
sample_network = record {
  lookup_host = λ host port.
      if str_eq host (codes "example.com")
      then ok (codes "93.184.216.34:443" ∷ [])
      else err (codes "unknown");
  parse_uri = λ s. some sample_uri;
  parse_error = codes "invalid uri";
  request = λ req. ok sample_response;
  connect_async = λ req. err (codes "refused");
  elapsed = codes "1ms";
}
