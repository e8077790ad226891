-- ===== src/Sqlite.antt =====
-- internal/adapter/sqlite: the repositories, one module for each table.
pub mod Columns
pub mod Fresh
pub mod Changes
pub mod Inserted
pub mod Replaced
pub mod Jobs
pub mod Certificates
pub mod Links
pub mod KongTargets
