-- ===== src/Engine.antt =====
-- The benchmark engine (python/src/resp_bench/engine/benchmark.py): its workers, and a phase as a
-- whole.
pub mod Worker
pub mod Phase
pub mod Setup
