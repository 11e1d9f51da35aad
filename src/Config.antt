-- ===== src/Config.antt =====
-- The configuration: src/Config.cpp, and `RedisServer::Config` of include/RedisServer.h.
pub mod Trim
pub mod Values
pub mod Load
pub mod Words
pub mod Classes
mod Numbers
mod Lines
mod Items
pub mod Range
pub mod Print
pub mod RoundTrip
mod Tests
