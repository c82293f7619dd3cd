-- ===== src/Dispatch.antt =====
-- src/jobs: which technician a job goes to.
pub mod Postal
pub mod Routing
pub mod Board
pub mod Assign
pub mod Unassign
mod Tests
