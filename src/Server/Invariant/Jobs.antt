-- ===== src/Server/Invariant/Jobs.antt =====
-- Each change of the jobs keeps the invariant.
use bifrost_core.Prelude.{
  ℕ, Bool, ◌+◌, ◌<◌, ◌≡◌, ◌≢◌, refl, List, [], ◌∷◌, ◌++◌, arith, All, All-append, All-imp,
  All-middle,
}
use bifrost_core.Prelude.Text.{Str}
use bifrost_core.Prelude.Words.{u64_mod, wrapping_add, wrapping_add-exact, wrapping_sub-exact}
use bifrost_core.Store.{Store, TrafficStatsData}
use bifrost_core.Plugin.{DataDirection, upstream, downstream}
use bifrost_core.Plugin.TrafficStats.{count_start, count_end, count_data}
use bifrost_core.Plugin.Registry.{counting}
use bifrost_core.Tunnel.{Task, Loop}
use bifrost_core.Main.{Args}
use bifrost_core.Server.{Job, upgrading, tunnelling, shaking, decrypting}
use bifrost_core.Server.Invariant.{IsOlder, IsApart, is_open, open_tunnels, IsSound}
use bifrost_core.Server.Invariant.Stores.{IsSound-numbered}

open_tunnels-append :
    (js ks : List Job) → open_tunnels (js ++ ks) ≡ open_tunnels js + open_tunnels ks
open_tunnels-append [] ks = omega arith
open_tunnels-append (j ∷ js) ks = omega (arith, open_tunnels-append js ks)

open_tunnels-middle :
    (before after : List Job) (j : Job)
    → open_tunnels (before ++ j ∷ after) ≡ is_open j + open_tunnels (before ++ after)
open_tunnels-middle before after j =
    omega (arith, open_tunnels-append before (j ∷ after), open_tunnels-append before after)

module _ (args : Args) (n closed k : ℕ) (s : Store) where
  -- A tunnel with the id that was next.
  pub IsSound-spawned :
      (jobs : List Job) (task : Task)
      → n + 1 < u64_mod
      → task.request_id ≡ k
      → IsSound args n closed jobs k s
      → IsSound args (n + 1) closed (upgrading task ∷ jobs) (wrapping_add k 1) s
  IsSound-spawned jobs task b e h =
      let later = IsSound-numbered args n closed jobs k s b h in
      let fresh : All (λ r. r.id ≢ task.request_id) s.network_records =
        All-imp (IsOlder k) (λ r. r.id ≢ task.request_id) s.network_records
          (λ r q. omega (arith, q.1, e)) h.older in
      record {
        within = later.within;
        older = later.older;
        apart =
            ((omega (arith, wrapping_add-exact k 1 (omega (arith, h.ids)), e), fresh), later.apart);
        held = omega (arith, later.held);
        balance = later.balance;
        few = later.few;
        ids = later.ids;
      }

  pub IsSound-shaking :
      (jobs : List Job) (host : Str) (protocols : List Str)
      → IsSound args n closed jobs k s
      → IsSound args n closed (shaking host protocols ∷ jobs) k s
  IsSound-shaking jobs host protocols h = record {
    within = h.within;
    older = h.older;
    apart = (tt, h.apart);
    held = omega (arith, h.held);
    balance = h.balance;
    few = h.few;
    ids = h.ids;
  }

  -- The other figures of the statistics are free.
  pub IsSound-figures :
      (jobs : List Job) (figures : TrafficStatsData)
      → figures.current_requests ≡ s.traffic_stats.current_requests
      → figures.total_requests ≡ s.traffic_stats.total_requests
      → IsSound args n closed jobs k s
      → IsSound args n closed jobs k (record s { traffic_stats = figures })
  IsSound-figures jobs figures e t h = record {
    within = h.within;
    older = h.older;
    apart = h.apart;
    held = rw e h.held;
    balance = rw (e, t) h.balance;
    few = rw t h.few;
    ids = h.ids;
  }

  pub IsSound-data :
      (jobs : List Job) (d : DataDirection) (size : ℕ)
      → IsSound args n closed jobs k s
      → IsSound args n closed jobs k (counting (count_data d size) s)
  unfolding count_data
  IsSound-data jobs upstream size h =
      IsSound-figures jobs (count_data upstream size s.traffic_stats) refl refl h
  IsSound-data jobs downstream size h =
      IsSound-figures jobs (count_data downstream size s.traffic_stats) refl refl h

  module _ (before after : List Job) where
    -- What the job that moves brings with it.
    pub IsApart-here :
        (j : Job) → IsSound args n closed (before ++ j ∷ after) k s → IsApart s.network_records k j
    IsApart-here j h = (All-middle (IsApart s.network_records k) before j after h.apart).0

    -- A job that is not an open tunnel ends.
    pub IsSound-removed :
        (j : Job)
        → is_open j ≡ 0
        → IsSound args n closed (before ++ j ∷ after) k s
        → IsSound args n closed (before ++ after) k s
    IsSound-removed j e h =
        let (_, (left, right)) = All-middle (IsApart s.network_records k) before j after h.apart in
        record {
          within = h.within;
          older = h.older;
          apart = All-append (IsApart s.network_records k) before after left right;
          held = omega (arith, h.held, open_tunnels-middle before after j, e);
          balance = h.balance;
          few = h.few;
          ids = h.ids;
        }

    -- A job that is not an open tunnel becomes a connection that is decrypted.
    pub IsSound-decrypting :
        (j : Job) (host : Str) (use_h2 : Bool)
        → is_open j ≡ 0
        → IsSound args n closed (before ++ j ∷ after) k s
        → IsSound args n closed (before ++ decrypting host use_h2 ∷ after) k s
    IsSound-decrypting j host use_h2 e h =
        let (_, (left, right)) = All-middle (IsApart s.network_records k) before j after h.apart in
        record {
          within = h.within;
          older = h.older;
          apart =
              All-append (IsApart s.network_records k) before (decrypting host use_h2 ∷ after) left
                (tt, right);
          held = omega (
            arith,
            h.held,
            open_tunnels-middle before after j,
            open_tunnels-middle before after (decrypting host use_h2),
            e,
          );
          balance = h.balance;
          few = h.few;
          ids = h.ids;
        }

    -- A tunnel begins, and is counted.
    pub IsSound-begun :
        (task : Task) (l : Loop)
        → n + 1 < u64_mod
        → IsSound args n closed (before ++ upgrading task ∷ after) k s
        → IsSound args
            (n + 1)
            closed
            (before ++ tunnelling task l ∷ after)
            k
            (counting count_start s)
    unfolding count_start
    IsSound-begun task l b h =
        let (own, (left, right)) =
          All-middle (IsApart s.network_records k) before (upgrading task) after h.apart in
        rw
          (
            wrapping_add-exact s.traffic_stats.current_requests 1 (omega (arith, h.balance, h.few)),
            wrapping_add-exact s.traffic_stats.total_requests 1 (omega (arith, h.few)),
          )
          record {
            within = h.within;
            older = h.older;
            apart =
                All-append (IsApart s.network_records k) before (tunnelling task l ∷ after) left
                  (own, right);
            held = omega (
              arith,
              h.held,
              open_tunnels-middle before after (upgrading task),
              open_tunnels-middle before after (tunnelling task l),
            );
            balance = omega (arith, h.balance);
            few = omega (arith, h.few);
            ids = omega (arith, h.ids);
          }

    -- The tunnel goes on.
    pub IsSound-kept :
        (task : Task) (l l' : Loop)
        → IsSound args n closed (before ++ tunnelling task l ∷ after) k s
        → IsSound args n closed (before ++ tunnelling task l' ∷ after) k s
    IsSound-kept task l l' h =
        let (own, (left, right)) =
          All-middle (IsApart s.network_records k) before (tunnelling task l) after h.apart in
        record {
          within = h.within;
          older = h.older;
          apart =
              All-append (IsApart s.network_records k) before (tunnelling task l' ∷ after) left
                (own, right);
          held = omega (
            arith,
            h.held,
            open_tunnels-middle before after (tunnelling task l),
            open_tunnels-middle before after (tunnelling task l'),
          );
          balance = h.balance;
          few = h.few;
          ids = h.ids;
        }

    -- A tunnel ends, and is no longer counted as open.
    pub IsSound-closed :
        (task : Task) (l : Loop)
        → n < u64_mod
        → IsSound args n closed (before ++ tunnelling task l ∷ after) k s
        → IsSound args n (closed + 1) (before ++ after) k (counting count_end s)
    unfolding count_end
    IsSound-closed task l b h =
        let n_open = s.traffic_stats.current_requests in
        let (_, (left, right)) =
          All-middle (IsApart s.network_records k) before (tunnelling task l) after h.apart in
        let middle = open_tunnels-middle before after (tunnelling task l) in
        rw
          (wrapping_sub-exact n_open 1 (omega (arith, h.held, middle))
            (omega (arith, h.balance, h.few)))
          record {
            within = h.within;
            older = h.older;
            apart = All-append (IsApart s.network_records k) before after left right;
            held = omega (arith, h.held, middle);
            balance = omega (arith, h.balance, h.held, middle);
            few = h.few;
            ids = h.ids;
          }
