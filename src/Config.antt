-- ===== src/Config.antt =====
-- Configuration models and their loader (python/src/resp_bench/config).
pub mod Completion
pub mod Keyspace
pub mod Commands
pub mod Phase
pub mod Driver
pub mod Loader
pub mod Tests
