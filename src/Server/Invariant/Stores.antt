-- ===== src/Server/Invariant/Stores.antt =====
-- Each change of the store keeps the invariant.
use bifrost_core.Prelude.{
  ℕ, ◌+◌, ◌<◌, ◌≡◌, ◌≢◌, List, [], ◌∷◌, ◌++◌, arith, All, All-append, All-imp,
}
use bifrost_core.Prelude.Words.{u64_mod, wrapping_add, wrapping_add-exact}
use bifrost_core.Http.{Request}
use bifrost_core.NetworkRecord.{NetworkRecord}
use bifrost_core.Store.{Store, evict}
use bifrost_core.Store.Bounds.{length-evict-le, length-evict-grows}
use bifrost_core.Plugin.NetStorage.Pending.{
  IsPending, pending_record, pending_record-IsPending, after_request_lem,
}
use bifrost_core.Plugin.NetStorage.Lifecycle.{after_request, All-evict}
use bifrost_core.Plugin.TrafficStats.{count_start}
use bifrost_core.Plugin.Registry.{counting}
use bifrost_core.Tunnel.{Task}
use bifrost_core.Main.{Args}
use bifrost_core.Server.{Job, upgrading, tunnelling, shaking, decrypting}
use bifrost_core.Server.Invariant.{IsOlder, IsApartFrom, IsApart, open_tunnels, IsSound}

open_tunnels-append :
    (js ks : List Job) → open_tunnels (js ++ ks) ≡ open_tunnels js + open_tunnels ks
open_tunnels-append [] ks = omega arith
open_tunnels-append (j ∷ js) ks = omega (arith, open_tunnels-append js ks)

IsOlder-next : (k : ℕ) (r : NetworkRecord) → IsOlder k r → IsOlder (k + 1) r
IsOlder-next k r h = (h.0, omega (arith, h.1))

IsApart-next : (rs : List NetworkRecord) (k : ℕ) (j : Job) → IsApart rs k j → IsApart rs (k + 1) j
IsApart-next rs k (upgrading task) h = (omega (arith, h.0), h.1)
IsApart-next rs k (tunnelling task l) h = (omega (arith, h.0), h.1)
IsApart-next rs k (shaking host protocols) h = tt
IsApart-next rs k (decrypting host use_h2) h = tt

-- A new record with the next id is apart from every tunnel.
module _ (m : ℕ) (rs : List NetworkRecord) (r : NetworkRecord) (k : ℕ) (new : r.id ≡ k) where
  apart-task :
      (task : Task) → IsApartFrom rs k task → IsApartFrom (evict m rs ++ r ∷ []) (k + 1) task
  apart-task task h = (
    omega (arith, h.0),
    All-append (λ x. x.id ≢ task.request_id) (evict m rs) (r ∷ [])
        (All-evict (λ x. x.id ≢ task.request_id) m rs (h.1)) (omega (arith, h.0, new), tt),
  )

  IsApart-added : (j : Job) → IsApart rs k j → IsApart (evict m rs ++ r ∷ []) (k + 1) j
  IsApart-added (upgrading task) h = apart-task task h
  IsApart-added (tunnelling task l) h = apart-task task h
  IsApart-added (shaking host protocols) h = tt
  IsApart-added (decrypting host use_h2) h = tt

  IsOlder-added : IsPending r → All (IsOlder k) rs → All (IsOlder (k + 1)) (evict m rs ++ r ∷ [])
  IsOlder-added p h =
      All-append (IsOlder (k + 1)) (evict m rs) (r ∷ [])
        (All-evict (IsOlder (k + 1)) m rs
          (All-imp (IsOlder k) (IsOlder (k + 1)) rs (IsOlder-next k) h))
        ((p, omega (arith, new)), tt)

module _ (args : Args) (n closed : ℕ) (jobs : List Job) (k : ℕ) (s : Store) where
  -- A step that changes nothing.
  pub IsSound-later : IsSound args n closed jobs k s → IsSound args (n + 1) closed jobs k s
  IsSound-later h = record {
    within = h.within;
    older = h.older;
    apart = h.apart;
    held = h.held;
    balance = h.balance;
    few = omega (arith, h.few);
    ids = omega (arith, h.ids);
  }

  -- An id is taken.
  pub IsSound-numbered :
      n + 1 < u64_mod
      → IsSound args n closed jobs k s
      → IsSound args (n + 1) closed jobs (wrapping_add k 1) s
  IsSound-numbered b h = rw (wrapping_add-exact k 1 (omega (arith, h.ids))) record {
    within = h.within;
    older = All-imp (IsOlder k) (IsOlder (k + 1)) s.network_records (IsOlder-next k) h.older;
    apart =
        All-imp (IsApart s.network_records k) (IsApart s.network_records (k + 1)) jobs
          (IsApart-next s.network_records k) h.apart;
    held = h.held;
    balance = h.balance;
    few = omega (arith, h.few);
    ids = omega (arith, h.ids);
  }

  pub IsSound-counted :
      (now : ℕ) (req : Request)
      → n + 1 < u64_mod
      → IsSound args n closed jobs k s
      → IsSound args
          (n + 1)
          closed
          jobs
          (wrapping_add k 1)
          (after_request now k req (counting count_start s))
  unfolding count_start
  IsSound-counted now req b h =
      let m = s.config.max_network_records in
      let rs = s.network_records in
      let r = pending_record now k req in
      let (pending, same) = pending_record-IsPending now k req in
      rw
        (
          after_request_lem now k req (counting count_start s)
              (All-imp (IsOlder k) (λ r. r.id ≢ k) rs (λ r q. omega (arith, q.1)) h.older),
          wrapping_add-exact k 1 (omega (arith, h.ids)),
          wrapping_add-exact s.traffic_stats.current_requests 1 (omega (arith, h.balance, h.few)),
          wrapping_add-exact s.traffic_stats.total_requests 1 (omega (arith, h.few)),
        )
        record {
          within = (h.within.0, length-evict-le m rs r (h.within.1));
          older = IsOlder-added m rs r k same pending h.older;
          apart =
              All-imp (IsApart rs k) (IsApart (evict m rs ++ r ∷ []) (k + 1)) jobs
                (IsApart-added m rs r k same) h.apart;
          held = omega (arith, h.held, length-evict-grows m rs r);
          balance = omega (arith, h.balance);
          few = omega (arith, h.few);
          ids = omega (arith, h.ids);
        }
