-- ===== src/Mime.antt =====
-- lw/mime: JSON, out of the calls of a serializer and into the tokens of a deserializer.
pub mod Json
