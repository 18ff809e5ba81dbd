-- ===== src/HttpsInterceptor/Tests.antt =====
-- Tests of src/https_interceptor.rs and the theorems at concrete inputs.
use bifrost_core.Prelude.{◌≡◌, ◌≢◌, refl, [], ◌∷◌, All, arith}
use bifrost_core.Prelude.Exec.{ok}
use bifrost_core.Prelude.Table.{get_entry, insert_entry}
use bifrost_core.Prelude.Text.{Str, codes, str_eq, split}
use bifrost_core.Store.{Store}
use bifrost_core.Global.{Global, get_config, at_time, on_store}
use bifrost_core.HttpsInterceptor.{
  cn_value, generate_cert, get_or_generate_cert, address_of, host_of,
}
use bifrost_core.HttpsInterceptor.Address.{address_of-and_host_of}
use bifrost_core.HttpsInterceptor.Certs.{
  IsAnswer, get_or_generate_cert-IsAnswer, get_or_generate_cert-again,
}
use bifrost_core.Samples.{sample_tls, sample_cert, store_with, global_with}

abbrev store : Store
store = store_with 10 []

abbrev global : Global
global = global_with store

abbrev domain : Str
domain = codes "a.b"

-- An IPv6 authority is cut at its first colon.
ipv6_host : host_of (codes "[::1]:443") ≡ codes "["
unfolding host_of split
ipv6_host = refl

short_name : cn_value domain ≡ domain
unfolding cn_value
short_name = refl

generated :
    get_or_generate_cert sample_tls domain (global, [])
    ≡ (ok sample_cert, (global, (domain, sample_cert) ∷ []))
unfolding get_or_generate_cert generate_cert cn_value get_config on_store get_entry insert_entry
    str_eq
generated = refl

get_or_generate_cert-IsAnswer_example :
    IsAnswer sample_tls store.config domain global []
      (get_or_generate_cert sample_tls domain (global, []))
get_or_generate_cert-IsAnswer_example =
    get_or_generate_cert-IsAnswer sample_tls domain store global refl [] tt

get_or_generate_cert-again_example :
    get_or_generate_cert sample_tls domain
      (at_time 3000000000000 global, (domain, sample_cert) ∷ [])
    ≡ (ok sample_cert, (at_time 3000000000000 global, (domain, sample_cert) ∷ []))
get_or_generate_cert-again_example =
    get_or_generate_cert-again sample_tls sample_tls domain store global global []
      ((domain, sample_cert) ∷ []) sample_cert 3000000000000 refl tt generated (omega arith)

no_colon : All (λ c. c ≢ b':') domain
no_colon = (omega arith, (omega arith, (omega arith, tt)))

address_of-and_host_of_example :
    (address_of (codes "a.b:8443") ≡ codes "a.b:8443")
    × (host_of (codes "a.b:8443") ≡ codes "a.b")
    × (address_of (codes "a.b") ≡ codes "a.b:443")
    × (host_of (codes "a.b") ≡ codes "a.b")
address_of-and_host_of_example = address_of-and_host_of domain (codes "8443") no_colon
