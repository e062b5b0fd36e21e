-- ===== src/Net.antt =====
-- The network layer: net/Buffer.
pub mod EventLoop
pub mod Buffer
pub mod Connection
mod Tests
