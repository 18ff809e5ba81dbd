-- ===== src/Server/Tests.antt =====
-- Runs of the program, and the theorems at them.
use bifrost_core.Prelude.{
  ℕ, ◌+◌, ◌≤◌, ◌≡◌, refl, true, false, some, [], ◌∷◌, arith, All, length, ltb, ◌||◌,
}
use bifrost_core.Prelude.Exec.{ok}
use bifrost_core.Prelude.Text.{codes, str_eq, split}
use bifrost_core.Store.{Store}
use bifrost_core.Store.Window.{window}
use bifrost_core.Global.{get_config, next_request_id, init}
use bifrost_core.Store.{new_store}
use bifrost_core.Plugin.{upstream}
use bifrost_core.HttpsInterceptor
use bifrost_core.HttpsInterceptor.{CachedCert, get_or_generate_cert}
use bifrost_core.Prelude.Table.{get_entry, insert_entry}
use bifrost_core.HttpsInterceptor.Signing.{make_cert, explain, update, ask}
use bifrost_core.HttpsInterceptor.Signing.Samples.{ssl, law, accept_any, nowhere}
use bifrost_core.HttpsInterceptor.Signing.Served.{tls, IsCertified}
use bifrost_core.Server.Certificates.{Reach-IsCertified}
use bifrost_core.Tunnel.{
  Task, Loop, Event, read, received, start_loop, connect_request, handle_tunnel_proxy, run_task,
}
use bifrost_core.Main.{Args, set_up, proxy_handler}
use bifrost_core.Main.Bounds.{config_of}
use bifrost_core.Plugin.NetStorage.Pending.{IsPending}
use bifrost_core.Server.{
  Server, World, accept, begin, turn, Reach, here, next, started, accepted, replaced, begun,
  upgrading, tunnelling, turned, closes, tunnel_round, plugins,
}
use bifrost_core.Server.Launch.{Machine, cert_file, key_file, running, exited, launch}
use bifrost_core.Server.Invariant.{open_tunnels}
use bifrost_core.Server.Invariant.Reachable.{Reach-IsPending, Reach-balances}
use bifrost_core.Plugin.Manager
use bifrost_core.Plugin.Registry.{registered}
use bifrost_core.Plugin.TrafficStats.{handle_start}
use bifrost_core.Samples.{sample_network, sample_tls, sample_serde, sample_request, sample_uri}

abbrev world : World
world = record {
  network = sample_network;
  tls = sample_tls;
  serde = sample_serde;
  print_status = λ n. codes "200 OK";
}

abbrev args : Args
args = record { port = 9000; enable_https = false; enable_h2 = false; max_network_records = 2 }

abbrev task : Task
task = record { request_id = 0; host = codes "example.com" }

abbrev connected : Server
connected = accepted world (connect_request sample_uri) (started args 0)

connected_jobs : connected.jobs ≡ upgrading task ∷ []
unfolding proxy_handler str_eq HttpsInterceptor.handle_connect next_request_id get_config set_up
    init new_store handle_tunnel_proxy split
connected_jobs = refl

abbrev tunnel : Server
tunnel = replaced connected [] [] (begun world task true true connected.global)

abbrev loop : Loop
loop = start_loop [] 0 0

abbrev hello : Event
hello = record { time = 1; what = read upstream (received (codes "hi")) true }

tunnel_jobs : tunnel.jobs ≡ tunnelling task loop ∷ []
unfolding proxy_handler str_eq HttpsInterceptor.handle_connect next_request_id get_config set_up
    init new_store handle_tunnel_proxy split run_task Manager.handle_connect registered handle_start
tunnel_jobs = refl

abbrev closed : ℕ
closed = 0 + closes (tunnel_round (plugins world) task hello loop tunnel.global).0

abbrev talking : Server
talking = replaced tunnel [] [] (turned world task hello loop tunnel.global)

-- A CONNECT, the start of its tunnel, and data on it.
abbrev run : Reach world args 0 3 closed talking
run =
    next
      (next (next here (accept (connect_request sample_uri)))
        (begin [] [] task true true connected_jobs))
      (turn [] [] task loop hello tunnel_jobs)

-- Then a request that is forwarded.
abbrev later : Reach world args 0 4 (closed + 0) (accepted world sample_request talking)
later = next run (accept sample_request)

Reach-IsPending_example :
    (store : Store) × ((accepted world sample_request talking).global.context ≡ some store)
    × (store.config ≡ config_of args)
    × (length store.network_records ≤ window 2)
    × All IsPending store.network_records
Reach-IsPending_example = Reach-IsPending world args 0 (omega arith) later

Reach-balances_example :
    (store : Store) × (talking.global.context ≡ some store)
    × (store.traffic_stats.current_requests + closed ≡ store.traffic_stats.total_requests)
    × (length store.network_records + open_tunnels talking.jobs
        ≤ store.traffic_stats.current_requests)
Reach-balances_example = Reach-balances world args 0 (omega arith) run

abbrev machine : Machine
machine = record {
  exists = λ path. str_eq path cert_file || str_eq path key_file;
  readable = λ path. false;
  bind = λ port. ltb 1023 port;
}

comes_up : launch machine args 7 ≡ running (started args 7)
unfolding launch str_eq
comes_up = refl

unreadable : launch machine (record args { enable_https = true }) 7 ≡ exited 101
unfolding launch str_eq
unreadable = refl

-- With interception: the CONNECT makes a certificate, which is given again.
abbrev secure : World
secure = record world { tls = tls ssl law accept_any nowhere }

abbrev intercepting : Args
intercepting = record args { enable_https = true }

abbrev intercepted : Server
intercepted = accepted secure (connect_request sample_uri) (started intercepting 0)

abbrev given : CachedCert
given = record { cert = codes "der"; key = codes "rsa"; expiry = 3600000000000 }

got :
    (get_or_generate_cert secure.tls
      (codes "example.com")
      (intercepted.global, intercepted.certs)).0
    ≡ ok given
unfolding get_or_generate_cert get_entry proxy_handler str_eq HttpsInterceptor.handle_connect
    next_request_id get_config set_up init new_store make_cert explain update ask insert_entry split
got = refl

Reach-IsCertified_example :
    IsCertified ssl law accept_any nowhere
      (config_of intercepting)
      (codes "example.com")
      intercepted.global.clock
      given
Reach-IsCertified_example =
    Reach-IsCertified ssl law accept_any nowhere secure intercepting 0 refl (omega arith)
      (next here (accept (connect_request sample_uri))) (codes "example.com") given got
