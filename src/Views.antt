-- ===== src/Views.antt =====
-- What the pages show of the rows: the views of internal/usecase/certificate.go, kong_target.go and
-- job.go, and the texts of statuses.
pub mod Job
pub mod KongTarget
pub mod Certificate
pub mod Status
pub mod Found
