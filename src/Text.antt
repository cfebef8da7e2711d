-- ===== src/Text.antt =====
-- Go strings as lists of bytes: `==`, `strings.Split`, the prefix test by slicing, and the codes
-- of a literal.
mod Defs
mod Digits
unfoldable pub use Defs.*
unfoldable pub use Digits.*
