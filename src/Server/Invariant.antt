-- ===== src/Server/Invariant.antt =====
-- What holds of the running program in every state that it reaches.
pub mod Stores
pub mod Jobs
pub mod Requests
pub mod Turns
pub mod Reachable
use bifrost_core.Prelude.{ℕ, ◌+◌, ◌<◌, ◌≤◌, ◌≡◌, ◌≢◌, some, List, [], ◌∷◌, ◌++◌, arith, All, length}
use bifrost_core.NetworkRecord.{NetworkRecord}
use bifrost_core.Store.{Store}
use bifrost_core.Store.Bounds.{IsWithin}
use bifrost_core.Global.{Global}
use bifrost_core.Plugin.NetStorage.Pending.{IsPending}
use bifrost_core.Tunnel.{Task}
use bifrost_core.Main.{Args}
use bifrost_core.Main.Bounds.{config_of}
use bifrost_core.Server.{Job, upgrading, tunnelling, shaking, decrypting, Server}

-- A record or a tunnel has an id that was given out before, and not to the other.
abbrev pub IsOlder : ℕ → NetworkRecord → Type 0
IsOlder counter r = IsPending r × (r.id < counter)

abbrev pub IsApartFrom : List NetworkRecord → ℕ → Task → Type 0
IsApartFrom rs counter task = (task.request_id < counter) × All (λ r. r.id ≢ task.request_id) rs

abbrev pub IsApart : List NetworkRecord → ℕ → Job → Type 0
IsApart rs counter (upgrading task) = IsApartFrom rs counter task
IsApart rs counter (tunnelling task l) = IsApartFrom rs counter task
IsApart rs counter (shaking host protocols) = Unit
IsApart rs counter (decrypting host use_h2) = Unit

-- The tunnels that have begun and not ended.
abbrev pub is_open : Job → ℕ
is_open (upgrading task) = 0
is_open (tunnelling task l) = 1
is_open (shaking host protocols) = 0
is_open (decrypting host use_h2) = 0

abbrev pub open_tunnels : List Job → ℕ
open_tunnels [] = 0
open_tunnels (j ∷ js) = is_open j + open_tunnels js

-- After `n` steps in which `closed` tunnels have ended, with these jobs and this next id.
pub record IsSound (args : Args) (n closed : ℕ) (jobs : List Job) (counter : ℕ) (s : Store)
    : Type 0 where
  pub within : IsWithin (config_of args) s
  pub older : All (IsOlder counter) s.network_records
  pub apart : All (IsApart s.network_records counter) jobs
  pub held : length s.network_records + open_tunnels jobs ≤ s.traffic_stats.current_requests
  pub balance : s.traffic_stats.current_requests + closed ≡ s.traffic_stats.total_requests
  pub few : s.traffic_stats.total_requests ≤ n
  pub ids : counter ≤ n

-- The same of the global state.
pub record IsGood (args : Args) (n closed : ℕ) (jobs : List Job) (g : Global) : Type 0 where
  pub store : Store
  pub ready : g.context ≡ some store
  pub sound : IsSound args n closed jobs g.request_id_counter store

abbrev pub IsInvariant : Args → ℕ → ℕ → Server → Type 0
IsInvariant args n closed s = IsGood args n closed s.jobs s.global
