-- ===== src/Review.antt =====
-- src/jobs: the office's reviews of a request, its urgency and whether it is ready to be
-- assigned.
pub mod Urgency
pub mod Intake
mod Tests
