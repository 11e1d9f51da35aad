-- ===== src/Store.antt =====
-- The sharded store: include/DataStore.h and src/DataStore.cpp.
pub mod Codec
pub mod State
pub mod Ops
pub mod Persist
pub mod Contents
pub mod Get
pub mod Reload
pub mod Restore
pub mod Placed
pub mod Load
pub mod Init
pub mod Restart
mod Life
mod Keeps
mod Durable
pub mod Threads
mod Holds
mod Written
mod Stale
pub mod Deleted
mod ThreadTests
mod Tests
