-- ===== src/Client.antt =====
-- The clients (python/src/resp_bench/client).
pub mod Recording
pub mod Factory
mod Measure
pub mod RedisPy
mod Glide
