-- ===== src/Session.antt =====
-- HTTP sessions: include/session and src/session.
pub mod Value
pub mod Codec
pub mod Storage
pub mod Token
pub mod Manager
mod Tests
