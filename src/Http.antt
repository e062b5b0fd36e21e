-- ===== src/Http.antt =====
-- The HTTP layer: include/http and src/http.
pub mod Request
pub mod Context
pub mod Parser
pub mod Source
pub mod Response
pub mod Responder
pub mod StaticFile
mod Tests
