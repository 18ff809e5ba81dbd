-- ===== src/HttpsInterceptor/Signing/Tests.antt =====
-- A certificate that the sample openssl makes.
use bifrost_core.Prelude.{◌≡◌, refl}
use bifrost_core.Prelude.Exec.{ok}
use bifrost_core.Prelude.Text.{codes}
use bifrost_core.HttpsInterceptor.Signing.{make_cert, explain, update, ask}
use bifrost_core.HttpsInterceptor.Signing.Samples.{ssl}

made :
    make_cert ssl 5 (codes "c") (codes "k") (codes "a") (codes "a") ≡ ok (codes "der", codes "rsa")
unfolding make_cert explain update ask
made = refl
