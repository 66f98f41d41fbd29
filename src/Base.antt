-- ===== src/Base.antt =====
-- lw/base: the case-insensitive comparisons that key HTTP headers and match paths.
pub mod Chars
pub mod Views
pub mod Numbers
pub mod Strings
mod Tests
pub mod OrderedMap
