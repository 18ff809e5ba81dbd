-- ===== src/Websocket/Target.antt =====
-- The address that src/websocket_interceptor.rs connects to.
use bifrost_core.Prelude.{◌≡◌, refl, ap, false, some, [], ◌∷◌, ◌++◌, arith}
use bifrost_core.Prelude.Text.{Str, codes, contains, starts_with}
use bifrost_core.Http.{Request}
use bifrost_core.Websocket.{replace_from, target_uri}

replace_from-absent : (from to s : Str) → contains s from ≡ false → replace_from 0 from to s ≡ s
unfolding replace_from contains
replace_from-absent from to [] h = refl
replace_from-absent from to (a ∷ s) h = ground (arith, replace_from-absent from to s)

-- The target of a request whose URI has a scheme, printed `http` and then a text without another
-- `http`, is `ws` and then that text: `ws://` for `http://`, `wss://` for `https://`.
pub target_uri-scheme :
    (req : Request) (scheme rest : Str)
    → req.uri.scheme ≡ some scheme
    → req.uri.to_string ≡ codes "http" ++ rest
    → contains rest (codes "http") ≡ false
    → target_uri req ≡ codes "ws" ++ rest
unfolding target_uri replace_from starts_with
target_uri-scheme req scheme rest e p h =
    rw (e, p) (ap (λ r. codes "ws" ++ r) (replace_from-absent (codes "http") (codes "ws") rest h))
