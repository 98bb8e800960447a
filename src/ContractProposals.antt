-- ===== src/ContractProposals.antt =====
-- The sections of a draft contract (minuta), of src/modules/contract_proposals and
-- src/modules/contract_sections.
pub mod Model
pub mod Titles
pub mod Sync
pub mod Templates
pub mod Order
pub mod Closing
pub mod Editing
pub mod Samples
