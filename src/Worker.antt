-- ===== src/Worker.antt =====
-- The worker threads: include/ThreadPool.h and src/ThreadPool.cpp.
pub mod Send
pub mod Batch
pub mod Clients
pub mod Receive
pub mod Bursts
mod Answers
mod ReceiveTests
pub mod Balance
pub mod Affinity
pub mod Binding
pub mod Bound
pub mod Count
mod Tests
mod PoolTests
