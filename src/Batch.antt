-- ===== src/Batch.antt =====
-- The batch system: src/master/jobmgr.py with the rows of src/utils/model.py that it keeps, and
-- src/master/taskmgr.py.
pub mod Status
pub mod Job
pub mod Task
pub mod TaskNets
pub mod Placement
pub mod Desk
pub mod TaskReport
pub mod Scheduler
pub mod Intake
pub mod TaskMgr
pub mod JobMgr
mod Examples
mod TaskExamples
