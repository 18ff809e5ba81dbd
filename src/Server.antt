-- ===== src/Server.antt =====
-- The running program: the accept loop of src/main.rs, the connections and tunnels that the
-- handlers spawn, and the task of src/plugin/traffic_stats.rs, interleaved in any order. A request
-- and a round of a tunnel's loop are one step each; the statistics task is interleaved access by
-- access.
pub mod Invariant
pub mod Tunnels
pub mod Launch
pub mod Certificates
mod Tests
use bifrost_core.Prelude.{ℕ, ◌+◌, ◌≡◌, Bool, Option, none, some, List, [], ◌∷◌, ◌++◌}
use bifrost_core.Prelude.Exec.{Outcome, Exec, ok, err, panic, ◌>>=◌}
use bifrost_core.Prelude.Text.{Str}
use bifrost_core.Http.{Request, Reply}
use bifrost_core.Store.{Store, TrafficStatsData}
use bifrost_core.Global.{Global, start, at_time}
use bifrost_core.Plugin.{Plugin}
use bifrost_core.Plugin.Json.{Serde}
use bifrost_core.Plugin.Registry.{registered}
use bifrost_core.Plugin.TrafficStats.{Ticker, new_ticker, Action, round, act}
use bifrost_core.Tunnel.{Event, Loop, Turn, going, stopped, Task, on_happening, closing, run_task}
use bifrost_core.HttpInterceptor.{Network, handle_http}
use bifrost_core.HttpsInterceptor.{CertCache, Tls, Work, nothing, intercept, forward, handshake}
use bifrost_core.Main.{Args, set_up, proxy_handler}

-- A task that has been spawned and has not ended: a tunnel whose client is being upgraded, one
-- that forwards data, a connection before its TLS handshake, or one that is decrypted and served
-- by HTTP/2 or not.
pub data Job : Type 0 where
  upgrading : Task → Job
  tunnelling : Task → Loop → Job
  shaking : Str → List Str → Job
  decrypting : Str → Bool → Job

-- `ticker` and `round_left` are the variables of the statistics task and what it has yet to do in
-- its round.
pub record Server : Type 0 where
  pub global : Global
  pub certs : CertCache
  pub jobs : List Job
  pub ticker : Ticker
  pub round_left : List Action

-- What is outside the program.
pub record World : Type 0 where
  pub network : Network
  pub tls : Tls
  pub serde : Serde
  pub print_status : ℕ → Str

abbrev pub spawned : Outcome (Reply × Work) → List Job
spawned (ok (reply, nothing)) = []
spawned (ok (reply, intercept host protocols)) = shaking host protocols ∷ []
spawned (ok (reply, forward task)) = upgrading task ∷ []
spawned (err e) = []
spawned panic = []

-- A tunnel that goes on is still there.
abbrev pub going_on : Task → Outcome (Option Turn) → List Job
going_on task (ok (some (going, l))) = tunnelling task l ∷ []
going_on task (ok (some (stopped, l))) = []
going_on task (ok none) = []
going_on task (err e) = []
going_on task panic = []

abbrev pub after_turn : Task → Outcome Turn → List Job
after_turn task (ok (going, l)) = tunnelling task l ∷ []
after_turn task (ok (stopped, l)) = []
after_turn task (err e) = []
after_turn task panic = []

-- The tunnels whose end a round tells the plugins.
abbrev pub closes : Outcome Turn → ℕ
closes (ok (going, l)) = 0
closes (ok (stopped, l)) = 1
closes (err e) = 0
closes panic = 0

-- One round of a tunnel's loop, and its end if the round is the last.
unfoldable pub tunnel_round : List (Plugin Global) → Task → Event → Loop → Exec Global Turn
unfolding on_happening
tunnel_round plugins task e l = do
  turn ← on_happening plugins task.request_id e.what e.time l
  closing plugins task.request_id task.host turn

abbrev pub after_handshake : Str → Option Bool → List Job
after_handshake host none = []
after_handshake host (some use_h2) = decrypting host use_h2 ∷ []

abbrev on_context : Action → Ticker → Option Store → Ticker × Option Store
on_context a t none = (t, none)
on_context a t (some s) =
    let (t', stats) = act a (t, s.traffic_stats) in (t', some (record s { traffic_stats = stats }))

-- One access of the statistics task.
unfoldable pub observe : Action → Ticker → Global → Ticker × Global
unfolding act
observe a t g = let (t', context) = on_context a t g.context in (t', record g { context = context })

abbrev pub served : Server → Outcome (Reply × Work) × (Global × CertCache) → Server
served s (r, (g, certs)) = record s { global = g; certs = certs; jobs = spawned r ++ s.jobs }

-- The jobs before and after the one that moves stay; what it leaves takes its place.
abbrev pub replaced : Server → List Job → List Job → List Job × Global → Server
replaced s before after (left, g) = record s { global = g; jobs = before ++ (left ++ after) }

module _ (w : World) where
  abbrev pub plugins : List (Plugin Global)
  plugins = registered w.serde

  -- The client of a tunnel has been upgraded, or not.
  abbrev pub begun : Task → Bool → Bool → Global → List Job × Global
  begun task upgraded write_ok g =
      let (r, g') =
        run_task plugins w.network.parse_uri w.print_status upgraded write_ok [] g.clock task g in
      (going_on task r, g')

  abbrev pub turned : Task → Event → Loop → Global → List Job × Global
  turned task e l g = let (r, g') = tunnel_round plugins task e l g in (after_turn task r, g')

  abbrev pub accepted : Request → Server → Server
  accepted req s = served s (proxy_handler w.network w.tls plugins req (s.global, s.certs))

abbrev pub observed : Server → List Action → Ticker × Global → Server
observed s rest (t, g) = record s { global = g; ticker = t; round_left = rest }

-- A step, with the number of tunnels that end in it.
pub data Step (w : World) (s : Server) : ℕ → Server → Type 0 where
  -- A request on a connection to the proxy.
  accept : (req : Request) → Step w s 0 (accepted w req s)
  shake :
      (before after : List Job) (host : Str) (protocols : List Str) (upgraded : Bool)
      (accepted : Outcome (Option Str))
      → s.jobs ≡ before ++ shaking host protocols ∷ after
      → Step w s 0
          (replaced s before after (after_handshake host (handshake upgraded accepted), s.global))
  -- A request on a connection that is decrypted.
  decrypt :
      (before after : List Job) (host : Str) (use_h2 : Bool) (req : Request)
      → s.jobs ≡ before ++ decrypting host use_h2 ∷ after
      → Step w s 0 (record s { global = (handle_http w.network (plugins w) req s.global).1 })
  hang_up :
      (before after : List Job) (host : Str) (use_h2 : Bool)
      → s.jobs ≡ before ++ decrypting host use_h2 ∷ after
      → Step w s 0 (replaced s before after ([], s.global))
  begin :
      (before after : List Job) (task : Task) (upgraded write_ok : Bool)
      → s.jobs ≡ before ++ upgrading task ∷ after
      → Step w s 0 (replaced s before after (begun w task upgraded write_ok s.global))
  turn :
      (before after : List Job) (task : Task) (l : Loop) (e : Event)
      → s.jobs ≡ before ++ tunnelling task l ∷ after
      → Step w s
          (closes (tunnel_round (plugins w) task e l s.global).0)
          (replaced s before after (turned w task e l s.global))
  statistics :
      (a : Action) (rest : List Action)
      → s.round_left ≡ a ∷ rest
      → Step w s 0 (observed s rest (observe a s.ticker s.global))
  -- The second of sleep is over.
  second : s.round_left ≡ [] → Step w s 0 (record s { round_left = round })
  -- Time passes, or the clock is set.
  pass_time : (time : ℕ) → Step w s 0 (record s { global = at_time time s.global })

abbrev pub started : Args → ℕ → Server
started args clock = record {
  global = (set_up args (start clock)).1;
  certs = [];
  jobs = [];
  ticker = new_ticker;
  round_left = round;
}

-- States after a number of steps in which a number of tunnels have ended.
pub data Reach (w : World) (args : Args) (clock : ℕ) : ℕ → ℕ → Server → Type 0 where
  here : Reach w args clock 0 0 (started args clock)
  next :
      {n closed k : ℕ} {s t : Server}
      → Reach w args clock n closed s
      → Step w s k t
      → Reach w args clock (n + 1) (closed + k) t
