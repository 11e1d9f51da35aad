-- ===== src/Server.antt =====
-- The server: include/RedisServer.h, src/RedisServer.cpp and the start in src/main.cpp.
pub mod State
pub mod Socket
pub mod Loop
pub mod Steps
mod Start
mod Bound
mod Stop
mod Limit
mod Reuse
mod Main
mod Tests
