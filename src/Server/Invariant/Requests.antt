-- ===== src/Server/Invariant/Requests.antt =====
-- A request, and an access of the statistics task, keeps the invariant.
use bifrost_core.Prelude.{ℕ, ◌+◌, ◌<◌, ◌≡◌, refl, some, List, ◌∷◌}
use bifrost_core.Prelude.Exec.{Outcome, ok, err, panic}
use bifrost_core.Prelude.Words.{u64_mod, wrapping_add}
use bifrost_core.Http.{Reply}
use bifrost_core.Store.{Store, TrafficStatsData}
use bifrost_core.Global.{Global}
use bifrost_core.Plugin.TrafficStats.{
  load_bytes_in, load_bytes_out, store_speed_in, store_speed_out, raise_max_in, raise_max_out,
  load_qps, store_qps, reset_requests, raise_max_qps, remember_bytes, Ticker, Action, act,
}
use bifrost_core.HttpInterceptor.Effect.{Effect, unseen, numbered, counted}
use bifrost_core.HttpsInterceptor.{CertCache, Work, nothing, intercept, forward}
use bifrost_core.Main.{Args}
use bifrost_core.Main.Effect.{IsServed}
use bifrost_core.Server.{Job, shaking, Server, served, observe}
use bifrost_core.Server.Invariant.{IsSound, IsGood, IsInvariant}
use bifrost_core.Server.Invariant.Stores.{IsSound-later, IsSound-numbered, IsSound-counted}
use bifrost_core.Server.Invariant.Jobs.{IsSound-spawned, IsSound-shaking, IsSound-figures}

-- The statistics task writes neither of the two counts.
act-counts :
    (a : Action) (t : Ticker) (s : TrafficStatsData)
    → ((act a (t, s)).1.current_requests ≡ s.current_requests)
      × ((act a (t, s)).1.total_requests ≡ s.total_requests)
unfolding act
act-counts load_bytes_in t s = (refl, refl)
act-counts load_bytes_out t s = (refl, refl)
act-counts store_speed_in t s = (refl, refl)
act-counts store_speed_out t s = (refl, refl)
act-counts raise_max_in t s = (refl, refl)
act-counts raise_max_out t s = (refl, refl)
act-counts load_qps t s = (refl, refl)
act-counts store_qps t s = (refl, refl)
act-counts reset_requests t s = (refl, refl)
act-counts raise_max_qps t s = (refl, refl)
act-counts remember_bytes t s = (refl, refl)

module _ (args : Args) (n closed : ℕ) (small : n + 1 < u64_mod) where
  IsGood-numbered :
      (jobs : List Job) (s : Store) (k : ℕ) (g : Global)
      → IsSound args n closed jobs k s
      → g.context ≡ some s
      → g.request_id_counter ≡ wrapping_add k 1
      → IsGood args (n + 1) closed jobs g
  IsGood-numbered jobs s k g h e c = record {
    store = s;
    ready = e;
    sound = rw c (IsSound-numbered args n closed jobs k s small h);
  }

  pub IsGood-effect :
      (jobs : List Job) (s : Store) (k : ℕ) (g : Global)
      → IsSound args n closed jobs k s
      → Effect s k g
      → IsGood args (n + 1) closed jobs g
  IsGood-effect jobs s k g h (unseen (e, c)) = record {
    store = s;
    ready = e;
    sound = rw c (IsSound-later args n closed jobs k s h);
  }
  IsGood-effect jobs s k g h (numbered (e, c)) = IsGood-numbered jobs s k g h e c
  IsGood-effect jobs s k g h (counted now req (e, c)) = record {
    store = _;
    ready = e;
    sound = rw c (IsSound-counted args n closed jobs k s now req small h);
  }

  pub accept-IsInvariant :
      (s : Server) (store : Store) (k : ℕ) (r : Outcome (Reply × Work) × (Global × CertCache))
      → IsSound args n closed s.jobs k store
      → IsServed store k r
      → IsInvariant args (n + 1) closed (served s r)
  accept-IsInvariant s store k (ok (reply, nothing), (g, certs)) h p =
      IsGood-effect s.jobs store k g h p
  accept-IsInvariant s store k (ok (reply, intercept host protocols), (g, certs)) h p =
      IsGood-effect (shaking host protocols ∷ s.jobs) store k g
        (IsSound-shaking args n closed k store s.jobs host protocols h) p
  accept-IsInvariant s store k (ok (reply, forward task), (g, certs)) h (id, (e, c)) = record {
    store = store;
    ready = e;
    sound = rw c (IsSound-spawned args n closed k store s.jobs task small id h);
  }
  accept-IsInvariant s store k (err e, (g, certs)) h p = IsGood-effect s.jobs store k g h p
  accept-IsInvariant s store k (panic, (g, certs)) h p = IsGood-effect s.jobs store k g h p

  pub observe-IsGood :
      (jobs : List Job) (a : Action) (t : Ticker) (g : Global)
      → IsGood args n closed jobs g
      → IsGood args (n + 1) closed jobs (observe a t g).1
  unfolding observe
  observe-IsGood jobs a t g h =
      let (current, total) = act-counts a t h.store.traffic_stats in
      rw h.ready record {
        store = _;
        ready = refl;
        sound = IsSound-later args n closed jobs g.request_id_counter _ (
            IsSound-figures args n closed g.request_id_counter h.store jobs
              (act a (t, h.store.traffic_stats)).1 current total h.sound);
      }
