-- ===== src/Main/Tests.antt =====
-- Tests of src/main.rs and the theorems at concrete inputs.
use bifrost_core.Prelude.{◌≡◌, refl, true, false, []}
use bifrost_core.Prelude.Exec.{ok, panic}
use bifrost_core.Prelude.Text.{codes, str_eq, split}
use bifrost_core.Http.{Request, connect_method}
use bifrost_core.Global.{Global, get_config, on_store, init, start, next_request_id}
use bifrost_core.Tunnel.{connect_request}
use bifrost_core.Store.{new_store}
use bifrost_core.HttpsInterceptor
use bifrost_core.HttpsInterceptor.{forward, host_of}
use bifrost_core.Main.{proxy_handler, handle_connect, Args, set_up}
use bifrost_core.Main.Errors.{due, proxy_handler-tunnels}
use bifrost_core.Samples.{sample_network, sample_tls, sample_uri, store_with, global_with}

abbrev global : Global
global = global_with (store_with 10 [])

abbrev connect : Request
connect = connect_request sample_uri

is_connect : str_eq connect_method connect_method ≡ true
unfolding str_eq
is_connect = refl

host_is : host_of (codes "example.com") ≡ codes "example.com"
unfolding host_of split
host_is = refl

abbrev args : Args
args = record { port = 9000; enable_https = false; enable_h2 = false; max_network_records = 0 }

-- After the set-up the server has its port; without it a CONNECT panics.
has_port :
    (get_config (set_up args (start 0)).1).0
    ≡ ok (record {
      port = 9000;
      cert_path = codes "files/root.crt";
      key_path = codes "files/root.key";
      enable_https = false;
      enable_h2 = false;
      max_network_records = 0;
    })
unfolding set_up init get_config on_store new_store
has_port = refl

not_set_up : (proxy_handler sample_network sample_tls [] connect (start 0, [])).0 ≡ panic
unfolding proxy_handler handle_connect HttpsInterceptor.handle_connect next_request_id get_config
    on_store str_eq
not_set_up = refl

proxy_handler-tunnels_example : proxy_handler sample_network sample_tls [] connect (global, []) ≡ (
  ok (due sample_tls.connect 5 connect.uri.authority),
  (record global { request_id_counter = 6 }, []),
)
proxy_handler-tunnels_example =
    proxy_handler-tunnels sample_network sample_tls [] connect (store_with 10 []) global [] refl
      is_connect refl
