-- ===== src/Mime/Json.antt =====
-- lw/mime/json.cpp.
pub mod Escape
pub mod Formatter
pub mod Tokens
pub mod Parser
mod Tests
