-- ===== src/Http/StaticFile.antt =====
-- Static files: include/http/StaticFileHandler.h, src/http/StaticFileHandler.cpp and
-- include/http/StaticFileCache.h.
pub mod Range
pub mod Bounds
pub mod Plan
pub mod Paths
pub mod Mime
pub mod Answer
pub mod Reply
mod Tests
