-- ===== src/Prelude/Text.antt =====
-- Rust strings as lists of bytes, with the operations of `str` that the program uses.
mod Defs
mod Laws
unfoldable pub use Defs.*
pub use Laws.*
