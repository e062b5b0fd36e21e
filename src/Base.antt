-- ===== src/Base.antt =====
-- What the threads share: src/base.
pub mod TaskWorkerPool
