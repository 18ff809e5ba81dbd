-- ===== src/Server/Certificates.antt =====
-- The certificates that the running program gives: src/main.rs with src/https_interceptor.rs.
use mathlib.Core.Path.{subst}
use bifrost_core.Prelude.{ℕ, ◌<◌, ◌≡◌, sym, Bool, arith}
use bifrost_core.Prelude.Exec.{Outcome, ok}
use bifrost_core.Prelude.Text.{Str}
use bifrost_core.Prelude.Words.{u64_mod}
use bifrost_core.Http.{Request}
use bifrost_core.HttpsInterceptor.{CachedCert, CertCache, get_or_generate_cert}
use bifrost_core.HttpsInterceptor.Certs.{AreIssued}
use bifrost_core.HttpsInterceptor.Signing.{OpenSsl}
use bifrost_core.HttpsInterceptor.Signing.Laws.{IsOpenSsl}
use bifrost_core.HttpsInterceptor.Signing.Served.{
  tls, IsCertified, get_or_generate_cert-IsCertified,
}
use bifrost_core.Main.{Args}
use bifrost_core.Main.Cache.{proxy_handler-AreIssued}
use bifrost_core.Main.Bounds.{config_of}
use bifrost_core.Server.{
  Server, World, Step, accept, shake, decrypt, hang_up, begin, turn, statistics, second, pass_time,
  Reach, here, next, accepted, plugins,
}
use bifrost_core.Server.Invariant.{IsInvariant}
use bifrost_core.Server.Invariant.Reachable.{Reach-IsInvariant}

module _ (w : World) (args : Args) where
  abbrev AreOurs : CertCache → Type 0
  AreOurs = AreIssued w.tls (config_of args)

  accept-AreIssued :
      (req : Request) (n closed : ℕ) (s : Server)
      → IsInvariant args n closed s
      → AreOurs s.certs
      → AreOurs (accepted w req s).certs
  accept-AreIssued req n closed s h good =
      let same = h.sound.within.0 in
      subst (λ c. AreIssued w.tls c (accepted w req s).certs) same
        (proxy_handler-AreIssued w.tls h.store w.network (plugins w) req s.global s.certs
          (h.ready, subst (λ c. AreIssued w.tls c s.certs) (sym same) good))

  Step-AreIssued :
      {n closed : ℕ} {s : Server} {k : ℕ} {t : Server}
      → Step w s k t
      → IsInvariant args n closed s
      → AreOurs s.certs
      → AreOurs t.certs
  Step-AreIssued {n} {closed} {s} (accept req) h good = accept-AreIssued req n closed s h good
  Step-AreIssued (shake before after host protocols upgraded result q) h good = good
  Step-AreIssued (decrypt before after host use_h2 req q) h good = good
  Step-AreIssued (hang_up before after host use_h2 q) h good = good
  Step-AreIssued (begin before after task upgraded write_ok q) h good = good
  Step-AreIssued (turn before after task l e q) h good = good
  Step-AreIssued (statistics a rest q) h good = good
  Step-AreIssued (second q) h good = good
  Step-AreIssued (pass_time time) h good = good

  -- The cache has certificates that were issued for their domain with the configured root only.
  pub Reach-AreIssued :
      {clock n closed : ℕ} {s : Server}
      → n < u64_mod
      → Reach w args clock n closed s
      → AreOurs s.certs
  Reach-AreIssued small here = tt
  Reach-AreIssued {clock} small (next {n} r st) =
      let less : n < u64_mod = omega arith in
      Step-AreIssued st (Reach-IsInvariant w args clock less r) (Reach-AreIssued less r)

module _ {Cert Key Name Time Extension : Type 0} (ssl : OpenSsl Cert Key Name Time Extension)
    (law : IsOpenSsl ssl) (with_single_cert : Str → Str → Outcome (Unit {0}))
    (connect : Str → Bool) where
  -- Where openssl does what it documents, in every state that the program reaches in fewer than
  -- 2 ^ 64 steps: a certificate that is given for a domain, new or from the cache, has a signature
  -- of the configured root key that is valid for all that it holds, names the root as its issuer and
  -- the first 64 bytes of the domain as its subject, is for the whole domain, comes with its own
  -- key, and has not reached its end.
  pub Reach-IsCertified :
      (w : World) (args : Args) (clock : ℕ) {n closed : ℕ} {s : Server}
      → w.tls ≡ tls ssl law with_single_cert connect
      → n < u64_mod
      → Reach w args clock n closed s
      → (domain : Str) (c : CachedCert)
      → (get_or_generate_cert w.tls domain (s.global, s.certs)).0 ≡ ok c
      → IsCertified ssl law with_single_cert connect (config_of args) domain s.global.clock c
  Reach-IsCertified w args clock {n} {closed} {s} e small r domain c got =
      let h = Reach-IsInvariant w args clock small r in
      let same = h.sound.within.0 in
      let good =
        subst (λ t. AreIssued t (config_of args) s.certs) e (Reach-AreIssued w args small r) in
      subst (λ config. IsCertified ssl law with_single_cert connect config domain s.global.clock c)
        same
        (get_or_generate_cert-IsCertified ssl law with_single_cert connect domain h.store s.global
          s.certs c h.ready
          (subst (λ c. AreIssued (tls ssl law with_single_cert connect) c s.certs) (sym same) good)
          (subst (λ t. (get_or_generate_cert t domain (s.global, s.certs)).0 ≡ ok c) e got))
