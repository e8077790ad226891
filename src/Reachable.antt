-- ===== src/Reachable.antt =====
-- The program as a whole: the worlds that it comes to, and the keys of the tables in them.
pub mod Sound
pub mod Changes
pub mod Deletes
pub mod Tables
pub mod Targets
pub mod UseCases
pub mod Syncs
pub mod Renewals
pub mod Handlers
pub mod Requests
pub mod Issue
pub mod Tests
