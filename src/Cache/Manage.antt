-- ===== src/Cache/Manage.antt =====
-- The management interface of `AdaptiveCache`: the policy, the adjustment thread, the statistics
-- and the destructor, in include/CachePolicy.h, include/AdaptiveCache.h and src/AdaptiveCache.cpp.
use redis_c.Prelude.{
  ℕ, zero, suc, ◌+◌, ◌%◌, ◌^◌, Bool, true, false, List, [], ◌∷◌, ◌==◌, if◌then◌else◌, Bytes, length,
}
use redis_c.Prelude.Decimal.{ℤ}
use redis_c.Prelude.Run.{Run, done, dangling, ◌>>=◌}
use redis_c.Prelude.Text.{text}
use redis_c.Cache.Policy.{Item}
use redis_c.Cache.State.{Shard, Cache}
use redis_c.Cache.Ops.{clear, adjust}

-- `CachePolicy::Type`
pub data PolicyType : Type 0 where
  lru : PolicyType

-- The policy object: `type()` and `name()` of `LRUPolicy`.
pub record PolicyObject : Type 0 where
  pub type : PolicyType
  pub name : Bytes

unfoldable pub create_cache_policy : PolicyType → PolicyObject
create_cache_policy t = record { type = lru; name = text "LRU" }

-- The adjustment thread as the other threads see it. `running` tells that it can be joined.
pub record Sizing : Type 0 where
  pub policy : PolicyObject
  pub enable_adaptive_sizing : Bool
  pub should_stop : Bool
  pub running : Bool

-- The part of the constructor for the policy and the thread.
unfoldable pub new_sizing : PolicyType → Bool → Sizing
unfolding create_cache_policy
new_sizing policy_type enable = record {
  policy = create_cache_policy policy_type;
  enable_adaptive_sizing = enable;
  should_stop = false;
  running = enable;
}

unfoldable pub set_policy : PolicyType → Sizing → Sizing
unfolding create_cache_policy
set_policy policy_type s = record s { policy = create_cache_policy policy_type }

-- `join` waits for the thread, which ends as `should_stop_` is set.
abbrev pub stopped : Sizing → Sizing
stopped s = record s { should_stop = true; running = false }

abbrev pub restarted : Sizing → Sizing
restarted s = if s.running then s else record s { should_stop = false; running = true }

unfoldable pub enable_adaptive_sizing : Bool → Sizing → Sizing
enable_adaptive_sizing true s =
    if s.enable_adaptive_sizing then s else restarted (record s { enable_adaptive_sizing = true })
enable_adaptive_sizing false s =
    if s.enable_adaptive_sizing then stopped (record s { enable_adaptive_sizing = false }) else s

-- `adjustment_thread_func`: what the thread reads of `should_stop_` and of
-- `enable_adaptive_sizing_` after each sleep. It also ends with the list.
unfoldable pub adjustment_rounds : (ℕ → ℤ → ℕ) → List (Bool × Bool) → Cache → Run Cache
adjustment_rounds scaled [] c = done c
adjustment_rounds scaled ((stop, enabled) ∷ rest) c =
    let go_on = adjust scaled enabled c >>= (λ c'. adjustment_rounds scaled rest c') in
    if stop then done c else go_on

-- `~AdaptiveCache`
unfoldable pub destroy : Sizing → Cache → Run (Sizing × Cache)
destroy s c = do c' ← clear c; done (stopped s, c')

-- `AdaptiveCache::Stats`, over the numbers of type `double`.
pub record CacheStats (D : Type 0) : Type 0 where
  pub size : ℕ
  pub capacity : ℕ
  pub hits : ℕ
  pub misses : ℕ
  pub hit_ratio : D
  pub policy_name : Bytes
  pub evictions : ℕ
  pub expirations : ℕ
  pub memory_usage : ℕ
  pub uptime : ℕ

-- The sizes of the items of a shard, with `sizeof(CacheItem)`.
unfoldable pub items_memory : ℕ → ℕ → List Item → ℕ
items_memory item_size approx_mem [] = approx_mem
items_memory item_size approx_mem (it ∷ rest) =
    items_memory item_size
      ((approx_mem + (length it.key + length it.value + item_size + 32)) % 2 ^ 64) rest

-- The loop of `get_stats`, with `n` shards left from shard `i` on.
unfoldable pub shards_memory : ℕ → (ℕ → Shard) → ℕ → ℕ → ℕ → Run ℕ
unfolding items_memory
shards_memory item_size shards zero i approx_mem = done approx_mem
shards_memory item_size shards (suc n) i approx_mem =
    if (shards i).locked
    then dangling
    else shards_memory item_size shards n (suc i)
        (items_memory item_size approx_mem (shards i).items)

module _ {D : Type 0} (zero_ratio : D) (divide : ℕ → ℕ → D) where
  -- `hit_ratio`; `divide` is the division of doubles.
  unfoldable pub hit_ratio : Cache → D
  hit_ratio c =
      let total = (c.hits + c.misses) % 2 ^ 64 in
      if total == 0 then zero_ratio else divide c.hits total

  -- `get_stats`, `uptime` seconds after the start.
  unfoldable pub get_stats : ℕ → ℕ → Sizing → Cache → Run (CacheStats D)
  unfolding hit_ratio shards_memory
  get_stats item_size uptime s c = do
    approx_mem ← shards_memory item_size c.shards c.shard_count 0 0
    done (record {
      size = c.size;
      capacity = c.capacity;
      hits = c.hits;
      misses = c.misses;
      hit_ratio = hit_ratio c;
      policy_name = s.policy.name;
      evictions = c.evictions;
      expirations = c.expirations;
      memory_usage = approx_mem;
      uptime = uptime;
    })
