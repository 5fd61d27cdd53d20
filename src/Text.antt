-- ===== src/Text.antt =====
-- Go's strings as lists of bytes, and the functions of the package strings that the source calls.
-- White space and letter case are those of ASCII, which is what the kernel's files hold.
mod Defs
mod Laws
pub mod Scan
unfoldable pub use Defs.*
pub use Laws.*
