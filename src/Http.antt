-- ===== src/Http.antt =====
-- sdk/http/HttpParser.cpp: a message of HTTP/1.1 from the bytes that have come so far.
pub mod Lines
pub mod Message
pub mod Split
pub mod Within
mod Tests
