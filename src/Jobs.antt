-- ===== src/Jobs.antt =====
-- domain/jobs/job.go and repository/postgres/jobs.go: the background jobs.
pub mod Row
pub mod Queue
pub mod Tests
