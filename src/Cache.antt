-- ===== src/Cache.antt =====
-- The sharded LRU cache: include/CachePolicy.h, include/AdaptiveCache.h, src/AdaptiveCache.cpp.
pub mod Policy
pub mod Items
pub mod State
pub mod Ops
pub mod Init
pub mod Manage
pub mod Valid
pub mod Laws
mod Linking
pub mod Put
pub mod Destroy
pub mod Clear
mod Tests
