-- ===== src/Lib.antt =====
-- Bifrost Core, an HTTP proxy: a model of its Rust sources and what is proved of it.
--
-- Parts and files. A function keeps the name that it has in the source.
--   Http.antt            the requests, URIs, headers and responses of hyper, as their accessors show
--                        them; what the library prints or parses is a field or an argument
--   NetworkRecord.antt   `RequestState` and `NetworkRecord` of src/plugin/net_storage.rs
--   Store.antt           src/store.rs: `Config`, `TrafficStatsData`, `Store`, the record window
--   Global.antt          the statics of src/store.rs, beside the machine's clock
--   Plugin.antt          src/plugin/mod.rs: the trait `Plugin`, as a record of handlers
--   Plugin/Manager.antt  src/plugin/mod.rs: the five loops of `PluginManager`
--   Plugin/Registry.antt src/plugin/mod.rs: `PluginManager::init`, and the plugins together
--   Plugin/NetStorage.antt, Plugin/TrafficStats.antt, Plugin/BifrostServer.antt
--                        the three plugins, in the order of registration: BifrostServer,
--                        TrafficStats, NetStorage
--   Plugin/Json.antt     the JSON values that the server plugin builds
--   Tunnel.antt          src/tunnel_interceptor.rs
--   HttpInterceptor.antt src/http_interceptor.rs, with the cache of names in Global.antt
--   Websocket.antt       src/websocket_interceptor.rs
--   HttpsInterceptor.antt src/https_interceptor.rs, with the signing, rustls and the network as `Tls`
--   HttpsInterceptor/Signing.antt
--                        the rest of `generate_cert`, which fills in `Tls` over the calls of openssl
--   Main.antt            src/main.rs: the dispatch of a request, and the set-up of the store
--   Server.antt          the running program: what src/main.rs accepts, the jobs that its handlers
--                        spawn, and the statistics task, as the steps `Step` and the states `Reach`
--   Server/Launch.antt   src/main.rs: the start, up to the accept loop
--   Server/Certificates.antt
--                        the certificate cache of src/https_interceptor.rs over the steps
--   */Effect.antt        what each handler does to the global state, for the invariant of `Reach`
--   Prelude.antt         shared names; Prelude/Exec.antt has the monad of the handlers
--   Samples.antt         values for the tests, which stand in modules named Tests
--
-- How the parts interact. A handler is an action `Exec S A`, a function from the state to an
-- outcome (a value, an error that `?` passes on, or a panic) and the new state, which is kept also
-- beside an error. The state of the program is `Global`: the store once it is initialised, the
-- counter of request ids, the cache of names, and the clock. `&mut` arguments are a part of the
-- state beside it. The manager calls its plugins in order; the tunnel and the HTTP interceptor call
-- the manager.
--
-- Numbers. Counters are 64-bit words: `wrapping_add` and `wrapping_sub` write the wrap-around out,
-- also for `usize`, as in a release build. Times are nanoseconds. Texts are lists of bytes.
--
-- Concurrency. A method of the store that holds its lock is one step. In `Step` a request, a round
-- of a tunnel's loop with its writes, and an access of the statistics task are one step each, and
-- the steps come in any order; handlers that overlap inside of a request are not modelled. The
-- statistics task is modelled twice more: as a whole round, and access by access against the
-- counting of requests. The tunnel's `select!` is a list of events that the environment chooses:
-- each has a time, what is read, and whether the write that follows succeeds; a write that fails is
-- taken to have sent nothing. The two tasks of a WebSocket are one list of what they meet, in the
-- order in which it happens; a message that a task has read and is still sending when the other
-- task ends is not in the list. A look-up in a cache and the entry that it adds are one step, as if no
-- other task filled the entry in between. The task of a WebSocket touches nothing that is shared
-- and is therefore no job of `Step`.
--
-- Bounds and fuel. Printing a number takes at most twenty digits, enough below 10 ^ 20, so for
-- every 64-bit number. No other function has fuel: all recur on a list. What is stated of `Reach`
-- holds for fewer than 2 ^ 64 steps, before any count of requests or ids wraps. The making of a
-- certificate is taken to happen in one moment.
--
-- Not modelled: sockets, the TLS session, the async runtime, the argument parser and logging; the
-- resolver, the HTTP client, openssl, rustls, serde_json, float formatting and the printing of a
-- status, which are parameters; the panic of `PluginManager::global` before `init`, since it is
-- called after that only; `HttpsInterceptor::build_502_error`, which nothing calls; src/error.rs,
-- which the program does not compile.
pub mod Prelude
pub mod Http
pub mod NetworkRecord
pub mod Store
mod Samples
pub mod Global
pub mod Plugin
pub mod Tunnel
pub mod Websocket
pub mod HttpInterceptor
pub mod HttpsInterceptor
pub mod Main
pub mod Server
