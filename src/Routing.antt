-- ===== src/Routing.antt =====
-- The in-process driver: classifying a statement, choosing its shard, fan-out and merging.
pub mod Parse
pub mod Cache
pub mod Merge
pub mod FanOut
pub mod Executor
pub mod LocalFanOut
pub mod LocalMerge
pub mod Local
