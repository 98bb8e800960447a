-- ===== src/Agreements/Invariant.antt =====
-- What holds of every stored agreement between two requests, and the rules by which the
-- repository's operations and the shared helpers keep it and only add to the audit log.
mod Base
mod Listing
mod Owner
mod Parties
mod Signing
mod Sweep
pub use Base.*
pub use Listing.*
pub use Owner.*
pub use Parties.*
pub use Signing.*
pub use Sweep.*
