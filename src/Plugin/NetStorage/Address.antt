-- ===== src/Plugin/NetStorage/Address.antt =====
-- The client's address is read back from its printed form.
use bifrost_core.Prelude.{ℕ, ◌<◌, ◌≡◌, ◌≢◌, [], ◌∷◌, ◌++◌, arith, All}
use bifrost_core.Prelude.Text.{Str, show, rsplit_once-append, parse_u16-show, show-IsDigit, IsDigit}
use bifrost_core.Plugin.NetStorage.{client_of}

All-ne-colon : (s : Str) → All IsDigit s → All (λ c. c ≢ b':') s
All-ne-colon [] h = tt
All-ne-colon (c ∷ s) h = (omega arith, All-ne-colon s h.1)

-- From an address printed as `ip:port`, for any text `ip` (so also for a bracketed IPv6 address,
-- which has colons of its own) and any 16-bit port, the plugin takes that text and that port.
pub client_of-show :
    (ip : Str) (port : ℕ) → port < 65536 → client_of (ip ++ b':' ∷ show port) ≡ (ip, port)
unfolding client_of
client_of-show ip port h = rw (
  rsplit_once-append b':' ip (show port) (All-ne-colon (show port) (show-IsDigit port)),
  parse_u16-show port h,
  client_of,
)
