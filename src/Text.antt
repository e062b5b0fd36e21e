-- ===== src/Text.antt =====
-- Byte strings (std::string) as lists of byte values, with the scans that the sources make over them.
mod Scans
mod Split
unfoldable pub use Scans.*
unfoldable pub use Split.*
