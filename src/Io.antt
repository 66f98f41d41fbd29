-- ===== src/Io.antt =====
-- lw/io: reading from streams.
pub mod Reader
