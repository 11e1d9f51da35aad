-- ===== src/Store/State.antt =====
-- The state of `DataStore` and where it keeps a key: include/DataStore.h and src/DataStore.cpp.
use redis_c.Prelude.{
  ℕ, ◌%◌, ◌≡◌, refl, Bool, Option, none, some, List, arith, ◌==◌, if◌then◌else◌, Bytes, beq,
  beq_iff,
}
use redis_c.Prelude.Assoc.{lookup, lookup-insert, lookup-erase, insert, erase}
use redis_c.Cache.State.{Env, Cache}

-- `Bucket::SubMap::store`
abbrev pub SubMap : Type 0
SubMap = List (Bytes × Bytes)

-- `Bucket::SUB_MAPS_COUNT`
abbrev pub sub_maps_count : ℕ
sub_maps_count = 8

-- `shards i b s` is `shards_[i]->buckets[b]->sub_maps[s].store`.
pub record DataStore : Type 0 where
  pub cache : Cache
  pub shard_count : ℕ
  pub bucket_per_shard : ℕ
  pub enable_compression : Bool
  pub shards : ℕ → ℕ → ℕ → SubMap

-- `*submap = m` at three indices.
abbrev pub update_submap : ℕ → ℕ → ℕ → SubMap → (ℕ → ℕ → ℕ → SubMap) → ℕ → ℕ → ℕ → SubMap
update_submap i b s m shards i' b' s' =
    if i == i'
    then if b == b' then if s == s' then m else shards i' b' s' else shards i' b' s'
    else shards i' b' s'

-- `std_hash` is `std::hash<std::string>`.
module _ (env : Env) (std_hash : Bytes → ℕ) where
  -- `hash`
  unfoldable pub hash : Bytes → ℕ
  hash key = env.xxh32 0 key

  -- `get_shard_index`
  unfoldable pub shard_index : DataStore → Bytes → ℕ
  unfolding hash
  shard_index d key = hash key % d.shard_count

  unfoldable pub get_bucket_index : Bytes → ℕ → ℕ
  get_bucket_index key bucket_count = env.xxh32 66 key % bucket_count

  unfoldable pub get_submap_index : Bytes → ℕ
  get_submap_index key = std_hash key % sub_maps_count

  -- The common text of `set`, `get` and `del`: the submap of a key.
  unfoldable pub find_submap : DataStore → Bytes → SubMap
  unfolding shard_index get_bucket_index get_submap_index
  find_submap d key =
      d.shards (shard_index d key) (get_bucket_index key d.bucket_per_shard) (get_submap_index key)

  unfoldable pub set_submap : Bytes → SubMap → DataStore → DataStore
  unfolding shard_index get_bucket_index get_submap_index
  set_submap key m d = record d {
    shards =
        update_submap (shard_index d key) (get_bucket_index key d.bucket_per_shard)
          (get_submap_index key) m d.shards;
  }

  -- `submap.store[key] = value`, `submap.store.erase(key)` and `submap.store.find(key)`.
  unfoldable pub store_value : Bytes → Bytes → DataStore → DataStore
  unfolding find_submap set_submap
  store_value key value d = set_submap key (insert key value (find_submap d key)) d

  unfoldable pub erase_value : Bytes → DataStore → DataStore
  unfolding find_submap set_submap
  erase_value key d = set_submap key (erase key (find_submap d key)) d

  unfoldable pub stored : DataStore → Bytes → Option Bytes
  unfolding find_submap
  stored d key = lookup key (find_submap d key)

  -- The cache is no part of it.
  pub stored-cache :
      (d : DataStore) (c : Cache) (k : Bytes) → stored (record d { cache = c }) k ≡ stored d k
  unfolding stored find_submap shard_index
  stored-cache d c k = refl

  pub stored-store_value :
      (d : DataStore) (key value k : Bytes)
      → stored (store_value key value d) k ≡ (if beq key k then some value else stored d k)
  unfolding stored store_value find_submap set_submap shard_index
  stored-store_value d key value k =
      ground (arith, beq_iff key k, lookup-insert key k value (find_submap d key))

  pub stored-erase_value :
      (d : DataStore) (key k : Bytes)
      → stored (erase_value key d) k ≡ (if beq key k then none else stored d k)
  unfolding stored erase_value find_submap set_submap shard_index
  stored-erase_value d key k = ground (arith, beq_iff key k, lookup-erase key k (find_submap d key))
