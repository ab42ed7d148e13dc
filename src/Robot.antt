-- ===== src/Robot.antt =====
-- internal/gitlab: the robot of the merge request workflow.
pub mod Branch
pub mod Requests
pub mod Sync
pub mod Project
pub mod Update
pub mod Fresh
pub mod Refresh
