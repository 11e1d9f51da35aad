-- ===== src/Cache/State.antt =====
-- The state of `AdaptiveCache` and the helpers of its methods: include/AdaptiveCache.h and
-- src/AdaptiveCache.cpp.
use redis_c.Prelude.{
  ℕ, suc, ◌+◌, ◌-◌, ◌%◌, ◌^◌, min, Bool, none, some, List, [], ◌∷◌, map, ltb, ◌==◌, if◌then◌else◌,
  Bytes, length, take,
}
use redis_c.Prelude.Assoc.{lookup, erase}
use redis_c.Prelude.Decimal.{ℤ, pos, negsuc}
use redis_c.Prelude.Run.{Run, done, dangling, ◌>>=◌}
use redis_c.Pool.{Addr, Pool, deallocate}
use redis_c.Cache.Policy.{Item, should_evict, get_priority}
use redis_c.Cache.Items.{get_node, erase_node}

-- What is not in the repository, or is computed in floating point: `XXH32(data, size, seed)`, the
-- test `size / capacity > cleanup_threshold_` and the product `capacity * cleanup_target_`.
pub record Env : Type 0 where
  pub xxh32 : ℕ → Bytes → ℕ
  pub over_threshold : ℕ → ℕ → Bool
  pub cleanup_size : ℕ → ℕ

-- `struct Shard`. The mutex is held or not; `item_map` leads to list nodes by their addresses.
pub record Shard : Type 0 where
  pub items : List Item
  pub item_map : List (Bytes × Addr)
  pub locked : Bool
  pub item_pool : Pool

-- The fields of `AdaptiveCache`. `next_node` numbers the list nodes that the allocator hands out.
pub record Cache : Type 0 where
  pub shard_count : ℕ
  pub shards : ℕ → Shard
  pub capacity : ℕ
  pub min_capacity : ℕ
  pub max_capacity : ℕ
  pub size : ℕ
  pub hits : ℕ
  pub misses : ℕ
  pub evictions : ℕ
  pub expirations : ℕ
  pub next_node : ℕ

-- `fetch_add(1)` on a `size_t`.
abbrev pub incr : ℕ → ℕ
incr n = (n + 1) % 2 ^ 64

-- `update_size_stats`
unfoldable pub update_size_stats : ℤ → Cache → Cache
update_size_stats (pos d) c = record c { size = (c.size + d) % 2 ^ 64 }
update_size_stats (negsuc d) c = record c { size = (c.size + 2 ^ 64 - suc d) % 2 ^ 64 }

abbrev pub update : (ℕ → Shard) → ℕ → Shard → ℕ → Shard
update shards i sh j = if i == j then sh else shards j

-- `*shards_[i] = sh`
abbrev pub set_shard : ℕ → Shard → Cache → Cache
set_shard i sh c = record c { shards = update c.shards i sh }

-- `get_shard_index`
unfoldable pub get_shard_index : Env → Cache → Bytes → ℕ
get_shard_index env c key = env.xxh32 0 key % c.shard_count

-- `deallocate_item`: the destructor, and the memory to the pool. `alive` are the nodes whose item
-- can still be destroyed; to destroy another is undefined.
unfoldable pub deallocate_item : Addr → List Item → Pool → Run Pool
unfolding get_node
deallocate_item a alive pool = elim (get_node a alive) [
  | none ↦ dangling
  | some it ↦ done (deallocate (some a) pool)
]

-- The common text of `remove`, `evict_items` and `cleanup_expired`: the node leaves the list,
-- which destroys it, and the map; then its item is given back.
unfoldable pub drop_item : Bytes → Addr → Shard → Run Shard
unfolding deallocate_item
drop_item key a sh = do
  pool ← deallocate_item a (erase_node a sh.items) sh.item_pool
  done (record sh {
    items = erase_node a sh.items;
    item_map = erase key sh.item_map;
    item_pool = pool;
  })

-- `calculate_items_to_evict`
unfoldable pub calculate_items_to_evict : Env → Cache → ℕ
calculate_items_to_evict env c =
    if ltb c.capacity c.size
    then c.size - c.capacity + 1
    else if env.over_threshold c.size c.capacity
    then if ltb (env.cleanup_size c.capacity) c.size
      then c.size - env.cleanup_size c.capacity
      else 1
    else 1

-- `std::numeric_limits<double>::max()`
abbrev pub double_max : ℕ
double_max = 2 ^ 1024 - 2 ^ 971

unfoldable pub candidate : Item → Bytes × ℕ
unfolding should_evict get_priority
candidate it = if should_evict it then (it.key, double_max) else (it.key, get_priority it)

-- `std::sort` by `a.second > b.second`.
unfoldable pub insert_sorted : Bytes × ℕ → List (Bytes × ℕ) → List (Bytes × ℕ)
insert_sorted x [] = x ∷ []
insert_sorted x (y ∷ l) = if ltb y.1 x.1 then x ∷ y ∷ l else y ∷ insert_sorted x l

unfoldable pub sort_candidates : List (Bytes × ℕ) → List (Bytes × ℕ)
unfolding insert_sorted
sort_candidates [] = []
sort_candidates (x ∷ l) = insert_sorted x (sort_candidates l)

-- The last loop of `evict_items`.
unfoldable pub evict_keys : List (Bytes × ℕ) → Cache → Shard → Run (Cache × Shard)
unfolding drop_item update_size_stats
evict_keys [] c sh = done (c, sh)
evict_keys ((key, _) ∷ rest) c sh = elim (lookup key sh.item_map) [
  | none ↦ evict_keys rest c sh
  | some a ↦
      let c' = update_size_stats (negsuc 0) c in
      drop_item key a sh >>= evict_keys rest (record c' { evictions = incr c'.evictions })
]

-- `evict_items`: it locks the shard's mutex, which is undefined for a thread that holds it.
unfoldable pub evict_items : ℕ → Cache → Shard → Run (Cache × Shard)
unfolding evict_keys sort_candidates candidate
evict_items count c sh =
    if count == 0
    then done (c, sh)
    else if sh.locked
    then dangling
    else let candidates = sort_candidates (map candidate sh.items) in
      evict_keys (take (min count (length candidates)) candidates) c sh

-- `expired_keys` of `cleanup_expired`.
unfoldable pub expired_keys : List Item → List Bytes
unfolding should_evict
expired_keys [] = []
expired_keys (it ∷ r) = let rest = expired_keys r in if should_evict it then it.key ∷ rest else rest

unfoldable pub expire_keys : List Bytes → Cache → Shard → Run (Cache × Shard)
unfolding drop_item update_size_stats
expire_keys [] c sh = done (c, sh)
expire_keys (key ∷ rest) c sh = elim (lookup key sh.item_map) [
  | none ↦ expire_keys rest c sh
  | some a ↦
      let c' = update_size_stats (negsuc 0) c in
      drop_item key a sh >>= expire_keys rest (record c' { expirations = incr c'.expirations })
]

-- `cleanup_expired`: it locks the shard's mutex too.
unfoldable pub cleanup_expired : Cache → Shard → Run (Cache × Shard)
unfolding expired_keys expire_keys
cleanup_expired c sh = if sh.locked then dangling else expire_keys (expired_keys sh.items) c sh
