-- ===== src/Net.antt =====
-- The private networks of src/master/network.py.
pub mod Address
pub mod Result
pub mod IntervalPool
pub mod EnumPool
pub mod UserPool
pub mod Store
pub mod Etcdlib
pub mod NetworkMgr
mod Examples
