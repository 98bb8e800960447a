-- ===== src/Conversations.antt =====
-- The conversations about an opportunity (src/modules/conversations).
pub mod Model
pub mod Wording
pub mod World
pub mod Notices
pub mod Responses
pub mod Access
pub mod Contact
pub mod Threads
pub mod Life
pub mod Quiet
pub mod Guards
pub mod Changes
pub mod Requests
pub mod Refinement
pub mod Renewal
pub mod Starting
pub mod Traffic
pub mod Story
pub mod Atomicity
pub mod Flags
pub mod Reading
pub mod Silence
mod Samples
