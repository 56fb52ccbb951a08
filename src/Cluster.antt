-- ===== src/Cluster.antt =====
-- The virtual clusters of users: src/master/vclustermgr.py with the rows of src/utils/model.py that it
-- keeps.
pub mod Rows
pub mod Site
pub mod Action
pub mod Create
pub mod Mappings
pub mod Proxy
pub mod Life
pub mod Recover
pub mod Registry
pub mod Quiet
pub mod Shapes
pub mod Ends
pub mod Requests
pub mod Refine
pub mod Valid
pub mod Numbering
pub mod Runs
pub mod Alive
pub mod Promises
pub mod Recovery
pub mod Wiring
mod Examples
