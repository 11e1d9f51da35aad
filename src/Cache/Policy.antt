-- ===== src/Cache/Policy.antt =====
-- include/CachePolicy.h: the metrics of a cached item, and the LRU policy, which is the only one.
use redis_c.Prelude.{ℕ, ◌+◌, ◌%◌, ◌^◌, Bool, false, Bytes}
use redis_c.Prelude.Decimal.{ℤ, pos}
use redis_c.Pool.{Addr}

-- `CacheItem` with its `CacheItemMetrics`, at the address of its list node. Times are in
-- milliseconds.
pub record Item : Type 0 where
  pub addr : Addr
  pub key : Bytes
  pub value : Bytes
  pub last_access_time : ℕ
  pub access_count : ℕ

-- `CacheItemMetrics::record_access`; the count is a `uint32_t`.
unfoldable pub record_access : ℕ → Item → Item
record_access now item = record item {
  last_access_time = now;
  access_count = (item.access_count + 1) % 2 ^ 32;
}

-- `LRUPolicy::on_access`
unfoldable pub on_access : ℕ → Item → Item
unfolding record_access
on_access now item = record_access now item

-- `LRUPolicy::on_add`
unfoldable pub on_add : ℕ → Item → Item
unfolding record_access
on_add now item = record_access now item

-- `LRUPolicy::on_eviction`
unfoldable pub on_eviction : Item → Item
on_eviction item = item

-- `LRUPolicy::should_evict`
unfoldable pub should_evict : Item → Bool
should_evict item = false

-- `LRUPolicy::get_priority`
unfoldable pub get_priority : Item → ℕ
get_priority item = item.last_access_time

-- `LRUPolicy::get_size_adjustment`, in percent.
unfoldable pub get_size_adjustment : ℤ
get_size_adjustment = pos 0
