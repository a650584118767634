-- ===== src/Proxy.antt =====
-- The routing proxy of src/proxy.
pub mod TidSql
pub mod Wire
pub mod Lookup
pub mod BackendPool
pub mod Session
