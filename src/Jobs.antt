-- ===== src/Jobs.antt =====
-- src/jobs: what happens to a job once it is accepted.
pub mod Lifecycle
pub mod Technician
pub mod Links
mod Tests
