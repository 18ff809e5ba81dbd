-- ===== src/Plugin/BifrostServer/Host.antt =====
-- Which hosts the proxy takes for itself.
use bifrost_core.Prelude.{ℕ, ◌≡◌, refl, ◌↔◌, ◌⊎◌, inl, inr, Bool, true, false, ◌||◌, ◌++◌, arith}
use bifrost_core.Prelude.Text.{Str, codes, show, contains, contains_iff, IsInfix}
use bifrost_core.Plugin.BifrostServer.{is_bifrost_host}

or_iff : (a b : Bool) → ((a || b) ≡ true) ↔ ((a ≡ true) ⊎ (b ≡ true))
or_iff true b = (λ h. inl refl, λ h. refl)
or_iff false b = (λ h. inr h, λ h. ground arith)

contains_or_iff :
    (host a b : Str)
    → ((contains host a || contains host b) ≡ true) ↔ (IsInfix a host ⊎ IsInfix b host)
contains_or_iff host a b = (
  λ h. elim ((or_iff (contains host a) (contains host b)).0 h) [
    | inl e ↦ inl ((contains_iff host a).0 e)
    | inr e ↦ inr ((contains_iff host b).0 e)
  ],
  λ h. (or_iff (contains host a) (contains host b)).1 (elim h [
    | inl e ↦ inl ((contains_iff host a).1 e)
    | inr e ↦ inr ((contains_iff host b).1 e)
  ]),
)

-- The test accepts exactly the texts in which `127.0.0.1:port` or `localhost:port` stands
-- somewhere: at any place, and followed by anything.
pub is_bifrost_host_iff :
    (host : Str) (port : ℕ)
    → (is_bifrost_host host port ≡ true) ↔ (
        IsInfix (codes "127.0.0.1:" ++ show port) host
        ⊎ IsInfix (codes "localhost:" ++ show port) host)
unfolding is_bifrost_host
is_bifrost_host_iff host port =
    contains_or_iff host (codes "127.0.0.1:" ++ show port) (codes "localhost:" ++ show port)
