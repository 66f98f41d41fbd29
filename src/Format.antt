-- ===== src/Format.antt =====
-- lw/format: bytes as text.
pub mod Blobs
