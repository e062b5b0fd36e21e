-- ===== src/Caches.antt =====
-- The caches of the process: include/LFU.h and include/cache.
pub mod Lfu
pub mod SessionCache
mod Tests
