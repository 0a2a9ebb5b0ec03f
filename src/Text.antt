-- ===== src/Text.antt =====
-- Python's `str` as the list of its code points: equality, membership in a list, prefixes.
mod Equality
pub mod Order
unfoldable pub use Equality.*
