-- ===== src/Plugin.antt =====
-- src/plugin/mod.rs: the interface of a plugin. The manager and the three plugins are the modules
-- below. A handler is an action on the state that plugins share, of type `S`; what it is given by
-- `&mut` is a part of the state beside it.
pub mod Manager
pub mod NetStorage
pub mod TrafficStats
pub mod Json
pub mod BifrostServer
pub mod Registry
use bifrost_core.Prelude.{ℕ, Bool, Option}
use bifrost_core.Prelude.Exec.{Exec}
use bifrost_core.Prelude.Text.{Str}
use bifrost_core.Http.{Request, Incoming, Reply}

pub data DataDirection : Type 0 where
  upstream downstream : DataDirection

-- Whether to go on, and a response for the client.
abbrev pub Verdict : Type 0
Verdict = Bool × Option Reply

pub record Plugin (S : Type 0) : Type 0 where
  pub handle_request : ℕ → Exec (S × Request) Verdict
  pub handle_response : ℕ → Request → Exec (S × Incoming) Bool
  pub handle_connect : ℕ → Request → Exec S Verdict
  pub handle_connect_close : ℕ → Str → Exec S Bool
  pub handle_data : ℕ → DataDirection → Str → Exec S (Unit {0})
