-- ===== src/Server/Launch.antt =====
-- The start of `main` in src/main.rs, up to the accept loop.
use bifrost_core.Prelude.{ℕ, Bool, not, ◌&&◌, ◌||◌, if◌then◌else◌}
use bifrost_core.Prelude.Text.{Str, codes}
use bifrost_core.Main.{Args}
use bifrost_core.Server.{Server, started}

-- What the machine answers at the start: whether a file exists, whether it can be read, and
-- whether the port can be bound.
pub record Machine : Type 0 where
  pub exists : Str → Bool
  pub readable : Str → Bool
  pub bind : ℕ → Bool

-- The process has ended with a code, or it accepts connections.
pub data Launch : Type 0 where
  exited : ℕ → Launch
  running : Server → Launch

-- What a panic of `main` ends the process with.
abbrev panic_code : ℕ
panic_code = 101

abbrev pub cert_file : Str
cert_file = codes "files/root.crt"

abbrev pub key_file : Str
key_file = codes "files/root.key"

abbrev listen : Machine → Args → ℕ → Launch
listen machine args clock =
    if machine.bind args.port then running (started args clock) else exited panic_code

-- The contents of the two files are read for interception only, and not used.
unfoldable pub launch : Machine → Args → ℕ → Launch
launch machine args clock =
    if not (machine.exists cert_file) || not (machine.exists key_file)
    then exited 1
    else if args.enable_https && not (machine.readable cert_file && machine.readable key_file)
    then exited panic_code
    else listen machine args clock
