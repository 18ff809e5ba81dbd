-- ===== src/HttpInterceptor/Effect.antt =====
-- What src/http_interceptor.rs does to the global state, on every outcome.
use bifrost_core.Prelude.{ℕ, refl, Option, none, some, List}
use bifrost_core.Prelude.Exec.{Exec, Outcome, ok, err, panic, lift, attempt, ◌>>=◌}
use bifrost_core.Prelude.Preserving.{Preserves, Reaches, >>=-Reaches, if-Reaches}
use bifrost_core.Prelude.Table.{get_entry}
use bifrost_core.Prelude.Text.{Str, codes, split}
use bifrost_core.Prelude.Words.{wrapping_add}
use bifrost_core.Http.{Request, Reply}
use bifrost_core.Store.{Store}
use bifrost_core.Global.{Global, next_request_id}
use bifrost_core.Global.Preserving.{IsAt}
use bifrost_core.Plugin.Json.{Serde}
use bifrost_core.Plugin.NetStorage.Lifecycle.{after_request}
use bifrost_core.Plugin.TrafficStats.{count_start}
use bifrost_core.Plugin.Registry.{registered, counting}
use bifrost_core.Plugin.Registry.Effect.{Taken, kept, added, registered-Taken}
use bifrost_core.Websocket.{is_websocket_upgrade, handle_websocket}
use bifrost_core.HttpInterceptor.{
  Network, or_ask, remember, asked, recent, dns_lookup, http_request, handled, after_lookup,
  handle_http, get_host, build, with_plugins, uri_string, replied, plain, seconds,
}

-- From a store and a next id: nothing changes in the two, or the id is taken and nothing else
-- changes, or the id is taken and the request is counted and recorded under it. The cache of names
-- and the clock are free.
pub data Effect (s : Store) (n : ℕ) (g : Global) : Type 0 where
  unseen : IsAt s n g → Effect s n g
  numbered : IsAt s (wrapping_add n 1) g → Effect s n g
  counted :
      (now : ℕ) (req : Request)
      → IsAt (after_request now n req (counting count_start s)) (wrapping_add n 1) g
      → Effect s n g

module _ (s : Store) (n : ℕ) where
  of_Taken : (g : Global) → Taken n s (wrapping_add n 1) g → Effect s n g
  of_Taken g (kept p) = numbered p
  of_Taken g (added now req p) = counted now req p

  remember-IsAt : (host : Str) (r : Outcome (List Str)) → Preserves (IsAt s n) (remember host r)
  remember-IsAt host (ok addrs) g p = p
  remember-IsAt host (err e) g p = p
  remember-IsAt host panic g p = p

  replied-Effect : (o : Option Reply) (failure : Reply) → Preserves (Effect s n) (replied o failure)
  replied-Effect none failure g p = p
  replied-Effect (some reply) failure g p = p

  module _ (network : Network) where
    or_ask-IsAt :
        (host : Str) (o : Option (List Str)) → Preserves (IsAt s n) (or_ask network host o)
    or_ask-IsAt host (some addrs) = λ g p. p
    or_ask-IsAt host none = remember-IsAt host (asked network (split b':' host))

    dns_lookup-IsAt : (host : Str) → Preserves (IsAt s n) (dns_lookup network host)
    unfolding dns_lookup
    dns_lookup-IsAt host g = or_ask-IsAt host (recent (seconds g) (get_entry host g.dns_cache)) g

    module _ (serde : Serde) (req : Request) where
      sent-Effect :
          (r : Outcome Request) (g : Global)
          → IsAt s (wrapping_add n 1) g
          → Effect s n ((lift r >>= with_plugins network (registered serde) (get_host req) n) g).1
      sent-Effect (ok new_req) g p =
          of_Taken _ (registered-Taken serde n s (wrapping_add n 1) (g, new_req) p)
      sent-Effect (err e) g p = numbered p
      sent-Effect panic g p = numbered p

      http_request-Effect :
          Reaches (IsAt s n) (Effect s n) (http_request network (registered serde) req)
      unfolding http_request next_request_id
      http_request-Effect g (e, k) = rw k (
          sent-Effect (build network req (network.parse_uri (uri_string req)))
            (record g { request_id_counter = wrapping_add n 1 }) (e, refl))

      handled-Effect : Reaches (IsAt s n) (Effect s n) (handled network (registered serde) req)
      handled-Effect =
          if-Reaches (IsAt s n) (Effect s n) (is_websocket_upgrade req)
            (attempt upgraded >>= λ o. replied o (plain 400 (codes "WebSocket upgrade failed")))
            (attempt sent >>= λ o. replied o (plain 500 (codes "Internal Server Error")))
            (>>=-Reaches (IsAt s n) (IsAt s n) (Effect s n) (attempt upgraded)
              (λ o. replied o (plain 400 (codes "WebSocket upgrade failed"))) (λ g p. p)
              (λ g p. unseen p)
              (λ o g p.
                replied-Effect o (plain 400 (codes "WebSocket upgrade failed")) g (unseen p)))
            (>>=-Reaches (IsAt s n) (Effect s n) (Effect s n) (attempt sent)
              (λ o. replied o (plain 500 (codes "Internal Server Error"))) http_request-Effect
              (λ g p. p) (λ o. replied-Effect o (plain 500 (codes "Internal Server Error"))))
        where
          upgraded : Exec Global Reply
          upgraded = lift (handle_websocket network.parse_uri network.connect_async req)

          sent : Exec Global Reply
          sent = http_request network (registered serde) req

      after_lookup-Effect :
          (o : Option (List Str))
          → Reaches (IsAt s n) (Effect s n) (after_lookup network (registered serde) req o)
      after_lookup-Effect none = λ g p. unseen p
      after_lookup-Effect (some addrs) = handled-Effect

      pub handle_http-Effect :
          Reaches (IsAt s n) (Effect s n) (handle_http network (registered serde) req)
      unfolding handle_http
      handle_http-Effect =
          >>=-Reaches (IsAt s n) (IsAt s n) (Effect s n)
            (attempt (dns_lookup network (get_host req)))
            (after_lookup network (registered serde) req) (dns_lookup-IsAt (get_host req))
            (λ g p. unseen p) after_lookup-Effect
