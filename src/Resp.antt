-- ===== src/Resp.antt =====
-- The RESP parser: include/RESPParser.h and src/RESPParser.cpp.
pub mod Value
pub mod Parser
pub mod Context
pub mod Encode
pub mod Lines
pub mod Reading
pub mod RoundTrip
pub mod Progress
pub mod Split
mod Tests
