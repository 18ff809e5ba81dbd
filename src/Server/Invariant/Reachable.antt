-- ===== src/Server/Invariant/Reachable.antt =====
-- The invariant in every state that the program reaches.
use mathlib.Core.Path.{subst}
use bifrost_core.Prelude.{
  ℕ, ◌+◌, ◌<◌, ◌≤◌, ◌≡◌, refl, some, All, All-imp, length, List, ◌∷◌, ◌++◌, arith,
}
use bifrost_core.Prelude.Words.{u64_mod}
use bifrost_core.Global.{init, at_time}
use bifrost_core.Store.{Store, new_store, new_stats}
use bifrost_core.HttpInterceptor.Effect.{handle_http-Effect}
use bifrost_core.Main.{Args, set_up}
use bifrost_core.Main.Bounds.{config_of}
use bifrost_core.Store.Window.{window}
use bifrost_core.Plugin.NetStorage.Pending.{IsPending}
use bifrost_core.Main.Effect.{proxy_handler-IsServed}
use bifrost_core.Plugin.Registry.{registered}
use bifrost_core.HttpsInterceptor.{handshake}
use bifrost_core.Tunnel.{Task, Loop, Event}
use bifrost_core.Server.{
  Job, upgrading, tunnelling, decrypting, Server, World, Step, accept, shake, shaking, decrypt,
  hang_up, begin, turn, statistics, second, pass_time, Reach, here, next, started, tunnel_round,
  closes, replaced, turned,
}
use bifrost_core.Server.Invariant.{IsOlder, open_tunnels, IsGood, IsInvariant}
use bifrost_core.Server.Invariant.Stores.{IsSound-later}
use bifrost_core.Server.Invariant.Requests.{IsGood-effect, accept-IsInvariant, observe-IsGood}
use bifrost_core.Server.Invariant.Turns.{
  zero_more, shake-IsGood, IsGood-removed, begin-IsGood, turn-IsGood,
}

module _ (w : World) (args : Args) (n closed : ℕ) (small : n + 1 < u64_mod) (s : Server) where
  pub split_jobs :
      (jobs : List Job)
      → s.jobs ≡ jobs
      → IsInvariant args n closed s
      → IsGood args n closed jobs s.global
  split_jobs jobs e h = subst (λ js. IsGood args n closed js s.global) e h

  -- The clock is free.
  IsGood-later :
      (time : ℕ)
      → IsInvariant args n closed s
      → IsGood args (n + 1) closed s.jobs (at_time time s.global)
  IsGood-later time h = record {
    store = h.store;
    ready = h.ready;
    sound = IsSound-later args n closed s.jobs s.global.request_id_counter h.store h.sound;
  }

  turned-IsInvariant :
      (before after : List Job) (task : Task) (l : Loop) (e : Event)
      → s.jobs ≡ before ++ tunnelling task l ∷ after
      → IsInvariant args n closed s
      → IsInvariant args
          (n + 1)
          (closed + closes (tunnel_round (registered w.serde) task e l s.global).0)
          (replaced s before after (turned w task e l s.global))
  turned-IsInvariant before after task l e q h =
      let (g', done, good) =
        turn-IsGood args n closed small w.serde before after task l e s.global
          (split_jobs (before ++ tunnelling task l ∷ after) q h) in
      rw done good

  Step-IsInvariant :
      {k : ℕ} {t : Server}
      → Step w s k t
      → IsInvariant args n closed s
      → IsInvariant args (n + 1) (closed + k) t
  Step-IsInvariant (accept req) h = rw (zero_more closed) (
      accept-IsInvariant args n closed small s h.store s.global.request_id_counter _ h.sound (
        proxy_handler-IsServed h.store s.global.request_id_counter w.network w.tls w.serde req
          s.global s.certs (h.ready, refl)))
  Step-IsInvariant (shake before after host protocols upgraded accepted q) h =
      rw (zero_more closed) (
        shake-IsGood args n closed small w.serde before after host protocols
          (handshake upgraded accepted) s.global
          (split_jobs (before ++ shaking host protocols ∷ after) q h))
  Step-IsInvariant (decrypt before after host use_h2 req q) h = rw (zero_more closed) (
      IsGood-effect args n closed small s.jobs h.store s.global.request_id_counter _ h.sound (
        handle_http-Effect h.store s.global.request_id_counter w.network w.serde req s.global
          (h.ready, refl)))
  Step-IsInvariant (hang_up before after host use_h2 q) h = rw (zero_more closed) (
      IsGood-removed args n closed small w.serde before after (decrypting host use_h2) s.global refl
        (split_jobs (before ++ decrypting host use_h2 ∷ after) q h))
  Step-IsInvariant (begin before after task upgraded write_ok q) h = rw (zero_more closed) (
      begin-IsGood args n closed small w.serde before after w.network.parse_uri w.print_status task
        upgraded write_ok s.global.clock s.global
        (split_jobs (before ++ upgrading task ∷ after) q h))
  Step-IsInvariant (turn before after task l e q) h = turned-IsInvariant before after task l e q h
  Step-IsInvariant (statistics a rest q) h =
      rw (zero_more closed) (observe-IsGood args n closed small s.jobs a s.ticker s.global h)
  Step-IsInvariant (second q) h = rw (zero_more closed) (IsGood-later s.global.clock h)
  Step-IsInvariant (pass_time time) h = rw (zero_more closed) (IsGood-later time h)

started-IsInvariant : (args : Args) (clock : ℕ) → IsInvariant args 0 0 (started args clock)
unfolding set_up init new_store new_stats
started-IsInvariant args clock = record {
  store = _;
  ready = refl;
  sound = record {
    within = (refl, omega arith);
    older = tt;
    apart = tt;
    held = omega arith;
    balance = refl;
    few = omega arith;
    ids = omega arith;
  };
}

pub Reach-IsInvariant :
    (w : World) (args : Args) (clock : ℕ) {n closed : ℕ} {s : Server}
    → n < u64_mod
    → Reach w args clock n closed s
    → IsInvariant args n closed s
Reach-IsInvariant w args clock small here = started-IsInvariant args clock
Reach-IsInvariant w args clock small (next {n} {closed} {k} {s} r st) =
    Step-IsInvariant w args n closed small s st (Reach-IsInvariant w args clock (omega arith) r)

-- In every state that is reached in fewer than 2 ^ 64 steps, in which requests, rounds of tunnels,
-- accesses of the statistics task and settings of the clock come in any order: the store has the
-- configuration of the command line and no more records than its limit, or one where the limit is 0;
-- and each record is still as its request left it: in the state `Sending`, without a status, an end
-- time or a body.
pub Reach-IsPending :
    (w : World) (args : Args) (clock : ℕ) {n closed : ℕ} {s : Server}
    → n < u64_mod
    → Reach w args clock n closed s
    → (store : Store) × (s.global.context ≡ some store)
      × (store.config ≡ config_of args)
      × (length store.network_records ≤ window args.max_network_records)
      × All IsPending store.network_records
Reach-IsPending w args clock small r =
    let h = Reach-IsInvariant w args clock small r in
    let s = h.store in
    let (same, within) = h.sound.within in
    (
      s,
      h.ready,
      same,
      subst (λ c. length s.network_records ≤ window c.max_network_records) same within,
      All-imp (IsOlder _) IsPending s.network_records (λ r q. q.0) h.sound.older,
    )

-- In such a state only the tunnels that have ended are taken off the count of open requests: it
-- and they make up the count of all requests. It covers the tunnels that are open and, beside
-- them, every record: the requests of the records never end.
pub Reach-balances :
    (w : World) (args : Args) (clock : ℕ) {n closed : ℕ} {s : Server}
    → n < u64_mod
    → Reach w args clock n closed s
    → (store : Store) × (s.global.context ≡ some store)
      × (store.traffic_stats.current_requests + closed ≡ store.traffic_stats.total_requests)
      × (length store.network_records + open_tunnels s.jobs ≤ store.traffic_stats.current_requests)
Reach-balances w args clock small r =
    let h = Reach-IsInvariant w args clock small r in
    (h.store, h.ready, h.sound.balance, h.sound.held)
