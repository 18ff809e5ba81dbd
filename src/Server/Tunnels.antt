-- ===== src/Server/Tunnels.antt =====
-- A tunnel that runs round by round does what `handle_tunnel` of src/tunnel_interceptor.rs does.
use bifrost_core.Prelude.{
  ℕ, Bool, true, false, ◌≡◌, refl, sym, ◌∙◌, Bool-cases, inl, inr, Option, none, some, List, [],
  ◌∷◌,
}
use bifrost_core.Prelude.Exec.{
  Exec, Outcome, ok, err, panic, attempt, continue, pure, ◌>>=◌, >>=_congr, >>=_assoc,
}
use bifrost_core.Prelude.Text.{Str}
use bifrost_core.Http.{Request}
use bifrost_core.Global.{Global}
use bifrost_core.Plugin.{Plugin, Verdict}
use bifrost_core.Plugin.Manager
use bifrost_core.Tunnel.{
  Event, Loop, Turn, going, stopped, Task, on_happening, continue_loop, run_loop, closing,
  handle_tunnel, after_verdict, start_loop,
}
use bifrost_core.Server.{tunnel_round}

module _ (plugins : List (Plugin Global)) (task : Task) where
  -- One round after the other, as the steps of the program run them.
  unfoldable pub rounds : List Event → Turn → Exec Global Turn
  rounds [] t = pure t
  rounds (e ∷ es) (going, l) = do t ← tunnel_round plugins task e l; rounds es t
  rounds (e ∷ es) (stopped, l) = pure (stopped, l)

  abbrev close : Turn → Exec Global Turn
  close = closing plugins task.request_id task.host

  stopped-rounds :
      (es : List Event) (l : Loop) (g : Global) → rounds es (stopped, l) g ≡ (ok (stopped, l), g)
  unfolding rounds
  stopped-rounds [] l g = refl
  stopped-rounds (e ∷ es) l g = refl

  close-stopped :
      (es : List Event) (l : Loop) (g : Global)
      → close (stopped, l) g ≡ (close (stopped, l) >>= rounds es) g
  close-stopped es l g =
      at (attempt (Manager.handle_connect_close plugins task.request_id task.host) g)
    where
      at :
          (r : Outcome (Option Bool) × Global)
          → continue r.0 (λ _. pure (stopped, l)) r.1
            ≡ (λ (q : Outcome Turn × Global). continue q.0 (rounds es) q.1)
                (continue r.0 (λ _. pure (stopped, l)) r.1)
      at (ok o, t) = sym (stopped-rounds es l t)
      at (err e, t) = refl
      at (panic, t) = refl

  round_by_round :
      (es : List Event)
      → ((l : Loop) (g : Global)
          → (run_loop plugins task.request_id es l >>= close) g ≡ rounds es (going, l) g)
      → (t : Turn) (g : Global)
      → (continue_loop t (run_loop plugins task.request_id es) >>= close) g
        ≡ (close t >>= rounds es) g
  round_by_round es rest (going, l) g = rest l g
  round_by_round es rest (stopped, l) g = close-stopped es l g

  loop-rounds :
      (es : List Event) (l : Loop) (g : Global)
      → (run_loop plugins task.request_id es l >>= close) g ≡ rounds es (going, l) g
  unfolding run_loop rounds tunnel_round
  loop-rounds [] l g = refl
  loop-rounds (e ∷ es) l g =
      let here = on_happening plugins task.request_id e.what e.time l in
      >>=_assoc here (λ t. continue_loop t (run_loop plugins task.request_id es)) close g
      ∙ >>=_congr here (round_by_round es (loop-rounds es)) g
      ∙ sym (>>=_assoc here close (rounds es) g)

  module _ (print_status : ℕ → Str) (write_ok : Bool) (es : List Event) (l : Loop) where
    abbrev verdict_of : List Event → Option Verdict → Exec Global Turn
    verdict_of es = after_verdict plugins task.request_id print_status write_ok es l

    verdict-rounds :
        (v : Option Verdict) (g : Global)
        → (verdict_of es v >>= close) g ≡ ((verdict_of [] v >>= close) >>= rounds es) g
    unfolding run_loop
    verdict-rounds none g = close-stopped es l g
    verdict-rounds (some (true, response)) g = loop-rounds es l g
    verdict-rounds (some (false, none)) g = close-stopped es l g
    verdict-rounds (some (false, some reply)) g = elim (Bool-cases write_ok) [
      | inl e ↦ rw e (close-stopped es _ g)
      | inr e ↦ rw e refl
    ]

  -- For any plugins, the handler of a tunnel over a list of events does what its start does,
  -- followed by the rounds of the program's steps, one for each event until the tunnel ends: the
  -- same outcome and the same state, panics included.
  pub handle_tunnel-rounds :
      (print_status : ℕ → Str) (write_ok : Bool) (es : List Event) (now : ℕ) (req : Request)
      (g : Global)
      → handle_tunnel plugins task.request_id print_status write_ok es now req task.host g
        ≡ (handle_tunnel plugins task.request_id print_status write_ok [] now req task.host
              >>= rounds es)
            g
  unfolding handle_tunnel
  handle_tunnel-rounds print_status write_ok es now req g =
      let connect = attempt (Manager.handle_connect plugins task.request_id req) in
      let l = start_loop plugins task.request_id now in
      >>=_congr connect (verdict-rounds print_status write_ok es l) g
      ∙ sym (
          >>=_assoc connect (λ v. verdict_of print_status write_ok es l [] v >>= close) (rounds es)
            g)
