-- ===== src/Web.antt =====
-- internal/web/handler.go: requests, answers, and what the handlers share.
pub mod Pages
pub mod Answer
pub mod Flash
pub mod Forms
pub mod Filters
pub mod Certificates
pub mod Actions
pub mod KongTargets
pub mod Jobs
pub mod Issue
pub mod Listed
pub mod Shown
pub mod Routes
pub mod Guarded
pub mod Tests
