-- ===== src/Server/Invariant/Turns.antt =====
-- What a job does keeps the invariant: a handshake, the start of a tunnel and each of its rounds.
use bifrost_core.Prelude.{
  ℕ, ◌+◌, ◌<◌, ◌≡◌, refl, ◌∙◌, Bool, true, false, Option, none, some, Option-cases, inl, inr, List,
  [], ◌∷◌, ◌++◌, arith, length,
}
use bifrost_core.Prelude.Exec.{ok, >>=-ok}
use bifrost_core.Prelude.Text.{Str, codes}
use bifrost_core.Prelude.Words.{u64_mod}
use bifrost_core.Http.{Request, Uri}
use bifrost_core.Store.{Store}
use bifrost_core.Store.Update.{update-absent}
use bifrost_core.Global.{Global}
use bifrost_core.Plugin.Json.{Serde}
use bifrost_core.Plugin.NetStorage.{record_data, record_close}
use bifrost_core.Plugin.NetStorage.Effects.{with_store}
use bifrost_core.Plugin.TrafficStats.{count_start, count_end, count_data}
use bifrost_core.Plugin.Registry.{
  registered, counting, handle_connect-registered, handle_connect_close-registered,
  handle_data-registered,
}
use bifrost_core.Tunnel.{
  run_loop, Event, Loop, Turn, going, stopped, Task, closing, on_happening, handle_tunnel,
  connect_request, run_task, start_loop,
}
use bifrost_core.Tunnel.Steps.{step, IsSteady, on_happening-step}
use bifrost_core.Main.{Args}
use bifrost_core.Server.{
  Job, upgrading, tunnelling, shaking, after_handshake, going_on, tunnel_round, after_turn, closes,
}
use bifrost_core.Server.Invariant.{is_open, IsGood}
use bifrost_core.Server.Invariant.Stores.{IsSound-later}
use bifrost_core.Server.Invariant.Jobs.{
  IsSound-decrypting, IsSound-data, IsApart-here, IsSound-removed, IsSound-begun, IsSound-kept,
  IsSound-closed,
}

pub zero_more : (n : ℕ) → n + 0 ≡ n
zero_more n = omega arith

module _ (args : Args) (n closed : ℕ) (small : n + 1 < u64_mod) where
  module _ (serde : Serde) (before after : List Job) where
    -- A tunnel that does not begin.
    pub IsGood-removed :
        (j : Job) (g : Global)
        → is_open j ≡ 0
        → IsGood args n closed (before ++ j ∷ after) g
        → IsGood args (n + 1) closed (before ++ after) g
    IsGood-removed j g e h = record {
      store = h.store;
      ready = h.ready;
      sound =
          IsSound-later args n closed (before ++ after) g.request_id_counter h.store
            (IsSound-removed args n closed g.request_id_counter h.store before after j e h.sound);
    }

    pub shake-IsGood :
        (host : Str) (protocols : List Str) (o : Option Bool) (g : Global)
        → IsGood args n closed (before ++ shaking host protocols ∷ after) g
        → IsGood args (n + 1) closed (before ++ (after_handshake host o ++ after)) g
    shake-IsGood host protocols none g h = IsGood-removed (shaking host protocols) g refl h
    shake-IsGood host protocols (some use_h2) g h = record {
      store = h.store;
      ready = h.ready;
      sound = IsSound-later args n closed _ g.request_id_counter h.store (
          IsSound-decrypting args n closed g.request_id_counter h.store before after
            (shaking host protocols) host use_h2 refl h.sound);
    }

    handle_tunnel-begins :
        (print_status : ℕ → Str) (write_ok : Bool) (now id : ℕ) (req : Request) (host : Str)
        (s : Store) (g : Global)
        → g.context ≡ some s
        → handle_tunnel (registered serde) id print_status write_ok [] now req host g ≡ (
          ok (going, start_loop (registered serde) id now),
          with_store g (counting count_start s),
        )
    unfolding handle_tunnel run_loop
    handle_tunnel-begins print_status write_ok now id req host s g ready =
        rw (handle_connect-registered serde id s g ready req) refl

    pub begin-IsGood :
        (parse_uri : Str → Option Uri) (print_status : ℕ → Str) (task : Task)
        (upgraded write_ok : Bool) (now : ℕ) (g : Global)
        → IsGood args n closed (before ++ upgrading task ∷ after) g
        → let (r, g') =
            run_task (registered serde) parse_uri print_status upgraded write_ok [] now task g in
          IsGood args (n + 1) closed (before ++ (going_on task r ++ after)) g'
    unfolding run_task
    begin-IsGood parse_uri print_status task false write_ok now g h =
        IsGood-removed (upgrading task) g refl h
    begin-IsGood parse_uri print_status task true write_ok now g h =
        elim (Option-cases (parse_uri (codes "https://" ++ task.host))) [
          | inl e ↦ rw e (IsGood-removed (upgrading task) g refl h)
          | inr (uri, e) ↦
              rw
                (
                  e,
                  handle_tunnel-begins print_status write_ok now task.request_id
                      (connect_request uri) task.host h.store g h.ready,
                )
                record {
                  store = counting count_start h.store;
                  ready = refl;
                  sound =
                      IsSound-begun args n closed g.request_id_counter h.store before after task
                        (start_loop (registered serde) task.request_id now) small h.sound;
                }
        ]

    module _ (task : Task) (l : Loop) where
      abbrev Held : Global → Type 0
      Held = IsGood args n closed (before ++ tunnelling task l ∷ after)

      -- Data handed to the plugins is counted only: there is no record of the tunnel.
      IsSteady-Held : IsSteady (registered serde) task.request_id Held
      IsSteady-Held = record {
        at = λ d chunk g h.
            let s = counting (count_data d (length chunk)) h.store in
            let (_, absent) =
              IsApart-here args n closed g.request_id_counter h.store before after
                (tunnelling task l) h.sound in
            (
              some tt,
              with_store g s,
              rw
                  (
                    handle_data-registered serde task.request_id h.store g h.ready d chunk,
                    update-absent task.request_id (record_data d chunk) s absent,
                  )
                  refl,
              record {
                store = s;
                ready = refl;
                sound =
                    IsSound-data args n closed g.request_id_counter h.store
                      (before ++ tunnelling task l ∷ after) d (length chunk) h.sound;
              },
            );
      }

      closing-IsGood :
          (t : Turn) (g : Global)
          → Held g
          → (g' : Global) × (closing (registered serde) task.request_id task.host t g ≡ (ok t, g'))
            × IsGood args
                (n + 1)
                (closed + closes (ok t))
                (before ++ (after_turn task (ok t) ++ after))
                g'
      closing-IsGood (going, l') g h = (
        g,
        refl,
        rw (zero_more closed) record {
          store = h.store;
          ready = h.ready;
          sound = IsSound-later args n closed _ g.request_id_counter h.store (
              IsSound-kept args n closed g.request_id_counter h.store before after task l l'
                h.sound);
        },
      )
      closing-IsGood (stopped, l') g h =
          let s = counting count_end h.store in
          let (_, absent) =
            IsApart-here args n closed g.request_id_counter h.store before after (tunnelling task l)
              h.sound in
          (
            with_store g s,
            rw
                (
                  handle_connect_close-registered serde task.request_id h.store g h.ready task.host,
                  update-absent task.request_id record_close s absent,
                )
                refl,
            record {
              store = s;
              ready = refl;
              sound = IsSound-later args n (closed + 1) (before ++ after) g.request_id_counter s (
                  IsSound-closed args n closed g.request_id_counter h.store before after task l
                    (omega (arith, small)) h.sound);
            },
          )

      pub turn-IsGood :
          (e : Event) (g : Global)
          → Held g
          → let t = step e.what e.time l in
            (g' : Global) × (tunnel_round (registered serde) task e l g ≡ (ok t, g'))
            × IsGood args
                (n + 1)
                (closed + closes (ok t))
                (before ++ (after_turn task (ok t) ++ after))
                g'
      unfolding tunnel_round
      turn-IsGood e g h =
          let (g', done, h') =
            on_happening-step (registered serde) task.request_id Held IsSteady-Held e.what e.time l
              g h in
          let (g'', ended, good) = closing-IsGood (step e.what e.time l) g' h' in
          (
            g'',
            >>=-ok (on_happening (registered serde) task.request_id e.what e.time l) _ done ∙ ended,
            good,
          )
