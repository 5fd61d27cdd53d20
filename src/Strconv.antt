-- ===== src/Strconv.antt =====
-- The package strconv in base 10, as the source uses it. A result is a pair of the value and the
-- error, as in Go; with an error of the range the value is the nearest one that fits.
mod Defs
mod RoundTrip
pub use RoundTrip.*
unfoldable pub use Defs.*
