-- ===== src/Global.antt =====
-- The statics that the handlers share: `GLOBAL_CONTEXT` and `REQUEST_ID_COUNTER` of src/store.rs,
-- beside the clock of the machine, in nanoseconds since the epoch. The environment moves the clock.
pub mod Laws
pub mod Preserving
mod Tests
use bifrost_core.Prelude.{ℕ, ◌/◌, Bool, Option, none, some, List, []}
use bifrost_core.Prelude.Exec.{Outcome, Exec, ok, panic, pure, ◌>>=◌}
use bifrost_core.Prelude.Text.{Str}
use bifrost_core.Prelude.Words.{wrapping_add}
use bifrost_core.Store.{Store, Config, new_store}

-- `DNS_CACHE` of src/http_interceptor.rs: printed addresses, and when they were looked up, in
-- seconds.
abbrev pub DnsCache : Type 0
DnsCache = List (Str × (List Str × ℕ))

pub record Global : Type 0 where
  pub context : Option Store
  pub request_id_counter : ℕ
  pub dns_cache : DnsCache
  pub clock : ℕ

abbrev pub start : ℕ → Global
start clock = record { context = none; request_id_counter = 0; dns_cache = []; clock = clock }

-- The same state at another time.
abbrev pub at_time : ℕ → Global → Global
at_time time g = record g { clock = time }

-- `OnceCell::set`, whose failure `let _ =` drops.
abbrev pub set_once {ℓ} : {A : Type ℓ} → Option A → A → Option A
set_once none a = some a
set_once (some old) a = some old

-- `Store::init`
unfoldable pub init : ℕ → Str → Str → Bool → Bool → Option ℕ → Exec Global (Unit {0})
init port cert_path key_path enable_https enable_h2 max_network_records g =
    let now = g.clock / 1000000000 in
    let fresh = new_store now port cert_path key_path enable_https enable_h2 max_network_records in
    (ok tt, record g { context = set_once g.context fresh })

abbrev apply_to :
    {A : Type 0} → (Store → Outcome A × Store) → Global → Option Store → Outcome A × Global
apply_to f g none = (panic, g)
apply_to f g (some s) = let (r, s') = f s in (r, record g { context = some s' })

-- A method call on `Store::global()`, which panics before `init`.
unfoldable pub on_store : {A : Type 0} → (Store → Outcome A × Store) → Exec Global A
on_store f g = apply_to f g g.context

-- `Store::global().get_config().await`
unfoldable pub get_config : Exec Global Config
unfolding on_store
get_config = on_store (λ s. (ok s.config, s))

-- `REQUEST_ID_COUNTER.fetch_add(1, Ordering::SeqCst)`
unfoldable pub next_request_id : Exec Global ℕ
unfolding wrapping_add
next_request_id g =
    (ok g.request_id_counter, record g { request_id_counter = wrapping_add g.request_id_counter 1 })
