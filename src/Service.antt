-- ===== src/Service.antt =====
-- Service methods as actions that may raise, and the rules by which they keep an invariant.
mod Defs
mod Rules
mod Triples
unfoldable pub use Defs.*
pub use Rules.*
pub use Triples.*
