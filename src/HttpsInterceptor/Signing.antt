-- ===== src/HttpsInterceptor/Signing.antt =====
-- src/https_interceptor.rs: how `generate_cert` makes a certificate with openssl, whose calls are
-- `OpenSsl`. The builder, which its setters change, is the state.
pub mod Laws
mod Returns
pub mod Certificate
pub mod Served
pub mod Samples
mod Tests
use bifrost_core.Prelude.{ℕ, ◌≡◌, Bool, true, false, List, [], ◌∷◌, ◌++◌}
use bifrost_core.Prelude.Exec.{Outcome, Exec, ok, err, panic, pure, lift, ◌>>=◌, ◌>>◌}
use bifrost_core.Prelude.Text.{Str, codes, utf8}
use bifrost_core.HttpsInterceptor.{Tls}

-- The files and openssl. `Cert` are builders and certificates; a moment stands for what is drawn
-- at random and for the time.
pub record OpenSsl (Cert Key Name Time Extension : Type 0) : Type 0 where
  pub read : Str → Outcome Str
  pub from_pem : Str → Outcome Cert
  pub private_key_from_pem : Str → Outcome Key
  pub new_builder : Outcome Cert
  pub set_version : ℕ → Cert → Outcome Cert
  pub random : ℕ → ℕ
  pub from_u32 : ℕ → Outcome Str
  pub to_asn1_integer : Str → Outcome Str
  pub set_serial_number : Str → Cert → Outcome Cert
  pub days_from_now : ℕ → ℕ → Outcome Time
  pub set_not_before : Time → Cert → Outcome Cert
  pub set_not_after : Time → Cert → Outcome Cert
  pub new_name : Outcome Name
  pub append_entry_by_text : Str → Str → Name → Outcome Name
  pub build_name : Name → Name
  pub set_subject_name : Name → Cert → Outcome Cert
  pub subject_name : Cert → Name
  pub set_issuer_name : Name → Cert → Outcome Cert
  pub dns_extension : Str → Cert → Cert → Outcome Extension
  pub append_extension : Extension → Cert → Outcome Cert
  pub generate_rsa : ℕ → ℕ → Outcome Key
  pub from_rsa : Key → Outcome Key
  pub set_pubkey : Key → Cert → Outcome Cert
  pub sign : Key → Str → Cert → Outcome Cert
  pub build : Cert → Cert
  pub to_der : Cert → Outcome Str
  pub private_key_to_pkcs8 : Key → Outcome Str

-- `map_err(|e| format!("...: {}", e))`
abbrev pub map_err : {A : Type 0} → Str → Outcome A → Outcome A
map_err label (ok a) = ok a
map_err label (err e) = err (label ++ e)
map_err label panic = panic

unfoldable pub explain : {S A : Type 0} → Str → Outcome A → Exec S A
explain label r = lift (map_err label r)

unfoldable pub ask : {S A : Type 0} → Str → (S → Outcome A) → Exec S A
ask label f s = (map_err label (f s), s)

-- A call that changes the builder.
abbrev pub changed : {S : Type 0} → S → Outcome S → Outcome (Unit {0}) × S
changed s (ok t) = (ok tt, t)
changed s (err e) = (err e, s)
changed s panic = (panic, s)

unfoldable pub update : {S : Type 0} → Str → (S → Outcome S) → Exec S (Unit {0})
update label f s = changed s (map_err label (f s))

abbrev pub and_then : {A B : Type 0} → Outcome A → (A → Outcome B) → Outcome B
and_then (ok a) f = f a
and_then (err e) f = err e
and_then panic f = panic

module _ {Cert Key Name Time Extension : Type 0} (ssl : OpenSsl Cert Key Name Time Extension)
    (moment : ℕ) where
  unfoldable pub set_serial : Exec Cert (Unit {0})
  set_serial = do
    serial ←
        explain (utf8 "生成序列号失败: ") (and_then (ssl.from_u32 (ssl.random moment)) ssl.to_asn1_integer)
    update (utf8 "设置序列号失败: ") (ssl.set_serial_number serial)

  unfoldable pub set_validity : Exec Cert (Unit {0})
  set_validity = do
    not_before ← explain (utf8 "设置起始时间失败: ") (ssl.days_from_now moment 0)
    not_after ← explain (utf8 "设置过期时间失败: ") (ssl.days_from_now moment 365)
    update (utf8 "设置起始时间失败: ") (ssl.set_not_before not_before)
    update (utf8 "设置过期时间失败: ") (ssl.set_not_after not_after)

  unfoldable pub set_names : Cert → Str → Exec Cert (Unit {0})
  set_names root_cert cn = do
    name_builder ← explain (utf8 "创建名称构建器失败: ") ssl.new_name
    named ← explain (utf8 "设置通用名称失败: ") (ssl.append_entry_by_text (codes "CN") cn name_builder)
    update (utf8 "设置主体名称失败: ") (ssl.set_subject_name (ssl.build_name named))
    update (utf8 "设置颁发者名称失败: ") (ssl.set_issuer_name (ssl.subject_name root_cert))

  unfoldable pub add_san : Cert → Str → Exec Cert (Unit {0})
  add_san root_cert domain = do
    san ← ask (utf8 "创建SAN扩展失败: ") (ssl.dns_extension domain root_cert)
    update (utf8 "添加SAN扩展失败: ") (ssl.append_extension san)

  unfoldable pub set_key : Key → Exec Cert Key
  set_key root_key = do
    rsa ← explain (utf8 "生成RSA密钥对失败: ") (ssl.generate_rsa moment 2048)
    pkey ← explain (utf8 "创建密钥对失败: ") (ssl.from_rsa rsa)
    update (utf8 "设置公钥失败: ") (ssl.set_pubkey pkey)
    update (utf8 "签名证书失败: ") (ssl.sign root_key (codes "sha256"))
    pure pkey

  unfoldable pub fill : Cert → Key → Str → Str → Exec Cert (Str × Str)
  unfolding set_serial set_validity set_names add_san set_key
  fill root_cert root_key cn domain = do
    update (utf8 "设置证书版本失败: ") (ssl.set_version 2)
    set_serial
    set_validity
    set_names root_cert cn
    add_san root_cert domain
    pkey ← set_key root_key
    cert_der ← ask (utf8 "转换证书为DER格式失败: ") (λ builder. ssl.to_der (ssl.build builder))
    key_der ← explain (utf8 "转换私钥为PKCS8格式失败: ") (ssl.private_key_to_pkcs8 pkey)
    pure (cert_der, key_der)

  abbrev failed_path : Str → Str → Str
  failed_path what path = what ++ (path ++ codes ": ")

  unfoldable pub from_files : Str → Str → Str → Str → Exec (Unit {0}) (Str × Str)
  unfolding fill
  from_files cert_path key_path cn domain = do
    root_cert_data ← explain (failed_path (utf8 "无法读取证书文件 ") cert_path) (ssl.read cert_path)
    root_key_data ← explain (failed_path (utf8 "无法读取私钥文件 ") key_path) (ssl.read key_path)
    root_cert ← explain (utf8 "无法解析根证书: ") (ssl.from_pem root_cert_data)
    root_key ← explain (utf8 "无法解析根私钥: ") (ssl.private_key_from_pem root_key_data)
    builder ← explain (utf8 "创建证书构建器失败: ") ssl.new_builder
    lift (fill root_cert root_key cn domain builder).0

  unfoldable pub make_cert : Str → Str → Str → Str → Outcome (Str × Str)
  unfolding from_files
  make_cert cert_path key_path cn domain = (from_files cert_path key_path cn domain tt).0

-- The interceptor with certificates that openssl makes.
abbrev pub tls_of :
    {Cert Key Name Time Extension : Type 0}
    → OpenSsl Cert Key Name Time Extension
    → (Str → Str → Outcome (Unit {0}))
    → (Str → Bool)
    → Tls
tls_of ssl with_single_cert connect = record {
  sign = make_cert ssl;
  with_single_cert = with_single_cert;
  connect = connect;
}
