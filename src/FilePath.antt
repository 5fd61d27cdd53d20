-- ===== src/FilePath.antt =====
-- The package path/filepath on Linux, as far as the source uses it.
mod Defs
mod Laws
mod Parents
mod Split
unfoldable pub use Defs.*
pub use Laws.*
unfoldable pub use Parents.*
pub use Split.*
