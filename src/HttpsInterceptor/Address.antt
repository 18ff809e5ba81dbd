-- ===== src/HttpsInterceptor/Address.antt =====
-- The address and the host that src/https_interceptor.rs takes from the authority of a CONNECT.
use bifrost_core.Prelude.{◌≡◌, refl, ◌≢◌, false, [], ◌∷◌, ◌++◌, All, arith}
use bifrost_core.Prelude.Text.{Str, codes, contains, split, starts_with, contains_iff}
use bifrost_core.HttpsInterceptor.{address_of, host_of}

contains-absent : (host : Str) → All (λ c. c ≢ b':') host → contains host (codes ":") ≡ false
unfolding contains starts_with
contains-absent [] h = refl
contains-absent (c ∷ host) h = ground (arith, contains-absent host (h.1))

split-port :
    (host port : Str)
    → All (λ c. c ≢ b':') host
    → split b':' (host ++ b':' ∷ port) ≡ host ∷ split b':' port
unfolding split
split-port [] port h = refl
split-port (c ∷ host) port h = ground (arith, split-port host port (h.1))

split-bare : (host : Str) → All (λ c. c ≢ b':') host → split b':' host ≡ host ∷ []
unfolding split
split-bare [] h = refl
split-bare (c ∷ host) h = ground (arith, split-bare host (h.1))

-- For a host without a colon and any port text, the authority `host:port` is the address that is
-- connected to, and `host` alone gets the port 443; in both cases the certificate and the tunnel
-- are for `host`.
pub address_of-and_host_of :
    (host port : Str)
    → All (λ c. c ≢ b':') host
    → (address_of (host ++ b':' ∷ port) ≡ host ++ b':' ∷ port)
      × (host_of (host ++ b':' ∷ port) ≡ host)
      × (address_of host ≡ host ++ codes ":443")
      × (host_of host ≡ host)
unfolding address_of host_of
address_of-and_host_of host port h =
    let found = contains_iff (host ++ b':' ∷ port) (codes ":") in
    (
      rw (found.1 (host, port, refl)) refl,
      rw (split-port host port h) refl,
      rw (contains-absent host h) refl,
      rw (split-bare host h) refl,
    )
