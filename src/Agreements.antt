-- ===== src/Agreements.antt =====
-- The agreements module: an electronic agreement from its draft to its last signature.
pub mod Model
pub mod Eligibility
pub mod World
pub mod Notices
pub mod Percent
pub mod Access
pub mod Drafting
pub mod Parties
pub mod Handover
pub mod Steps
pub mod Closing
pub mod Signing
pub mod Queries
pub mod Listing
pub mod Invariant
pub mod Requests
pub mod Lookup
pub mod Turns
pub mod Gates
pub mod Completeness
pub mod Progress
pub mod Renewal
pub mod Expiry
pub mod Samples
