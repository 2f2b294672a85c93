-- ===== src/Episodes.antt =====
-- The episode pipeline (episodes), with the statements of the database that it relies on
-- (database/pipeline.go).
pub mod Outcome
pub mod Store
pub mod Jobs
pub mod Status
pub mod Reconcile
pub mod Serve
pub mod Life
pub mod Schedule
pub mod ContentRange
pub mod Resume
pub mod Housekeeping
mod Tests
