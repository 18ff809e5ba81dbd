-- ===== src/HttpInterceptor/Dns.antt =====
-- The cache of names of src/http_interceptor.rs.
use bifrost_core.Prelude.{ℕ, ◌+◌, ◌<◌, ◌≤◌, ◌≡◌, refl, none, some, List, arith}
use bifrost_core.Prelude.Exec.{ok, err}
use bifrost_core.Prelude.Text.{Str, split}
use bifrost_core.Prelude.Table.{get_entry, insert_entry, get_entry-insert_entry}
use bifrost_core.Prelude.Words.{wrapping_sub, u64_mod}
use bifrost_core.Global.{Global, at_time}
use bifrost_core.HttpInterceptor.{Network, seconds, recent, cache_duration, asked, dns_lookup}

recent-soon :
    (now time : ℕ) (addrs : List Str)
    → now < u64_mod
    → time ≤ now
    → now < time + cache_duration
    → recent now (some (addrs, time)) ≡ some addrs
unfolding wrapping_sub
recent-soon now time addrs b l s = ground arith

-- An entry that is still recent answers, whatever the network would.
dns_lookup-hit :
    (network : Network) (host : Str) (g : Global) (addrs : List Str)
    → recent (seconds g) (get_entry host g.dns_cache) ≡ some addrs
    → dns_lookup network host g ≡ (ok addrs, g)
unfolding dns_lookup
dns_lookup-hit network host g addrs h = rw h refl

dns_lookup-miss :
    (network : Network) (host : Str) (g : Global) (addrs : List Str)
    → recent (seconds g) (get_entry host g.dns_cache) ≡ none
    → asked network (split b':' host) ≡ ok addrs
    → dns_lookup network host g
      ≡ (ok addrs, record g { dns_cache = insert_entry host (addrs, seconds g) g.dns_cache })
unfolding dns_lookup
dns_lookup-miss network host g addrs h a = rw (h, a) refl

pub dns_lookup-fails :
    (network : Network) (host e : Str) (g : Global)
    → recent (seconds g) (get_entry host g.dns_cache) ≡ none
    → asked network (split b':' host) ≡ err e
    → dns_lookup network host g ≡ (err e, g)
unfolding dns_lookup
dns_lookup-fails network host e g h a = rw (h, a) refl

-- A name that has no recent entry and that the network resolves is answered with the same
-- addresses for the next 300 seconds, by any network, and that answer changes nothing.
pub dns_lookup-remembers :
    (network other : Network) (host : Str) (g : Global) (time : ℕ) (addrs : List Str)
    → recent (seconds g) (get_entry host g.dns_cache) ≡ none
    → asked network (split b':' host) ≡ ok addrs
    → g.clock ≤ time
    → seconds (at_time time g) < seconds g + cache_duration
    → seconds (at_time time g) < u64_mod
    → let later = at_time time (dns_lookup network host g).1 in
      dns_lookup other host later ≡ (ok addrs, later)
dns_lookup-remembers network other host g time addrs old found l soon b =
    rw (dns_lookup-miss network host g addrs old found) (
      dns_lookup-hit other host
        (record g { dns_cache = insert_entry host (addrs, seconds g) g.dns_cache; clock = time })
        addrs
        (rw (get_entry-insert_entry host (addrs, seconds g) g.dns_cache)
          (recent-soon (seconds (at_time time g)) (seconds g) addrs b (omega arith) soon)))
