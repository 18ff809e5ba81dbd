-- ===== src/NetworkRecord.antt =====
-- src/plugin/net_storage.rs: `RequestState` and `NetworkRecord`.
-- Times and durations are nanoseconds.
use bifrost_core.Prelude.{ℕ, Option, List}
use bifrost_core.Prelude.Text.{Str}

pub data RequestState : Type 0 where
  connecting sending receiving completed cancelled : RequestState

pub record NetworkRecord : Type 0 where
  pub id : ℕ
  pub client_ip : Str
  pub client_port : ℕ
  pub server_ip : Str
  pub server_port : ℕ
  pub host : Str
  pub url : Str
  pub path : Str
  pub protocol : Str
  pub method : Str
  pub request_headers : List (Str × Str)
  pub response_headers : List (Str × Str)
  pub request_body : Option Str
  pub response_body : Option Str
  pub request_size : ℕ
  pub response_size : ℕ
  pub start_time : ℕ
  pub end_time : Option ℕ
  pub dns_duration : Option ℕ
  pub tcp_connect_duration : Option ℕ
  pub ttfb_duration : Option ℕ
  pub download_duration : Option ℕ
  pub status_code : Option ℕ
  pub status_message : Option Str
  pub state : RequestState
