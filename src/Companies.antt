-- ===== src/Companies.antt =====
-- The companies module: the review of a company's compliance documents.
pub mod Compliance
pub mod Reviews
pub mod Samples
