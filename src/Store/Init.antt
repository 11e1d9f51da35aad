-- ===== src/Store/Init.antt =====
-- The constructor of `DataStore`: include/DataStore.h and src/DataStore.cpp.
use redis_c.Prelude.{
  ℕ, zero, suc, ◌^◌, ◌<◌, ◌≡◌, refl, ap, ◌∙◌, Bool, true, false, Option, none, [], arith, Bytes,
}
use redis_c.Prelude.Run.{Run, done, runtime_error, ◌>>=◌}
use redis_c.Prelude.Assoc.{lookup}
use redis_c.Cache.State.{Env, Cache}
use redis_c.Cache.Valid.{cached}
use redis_c.Cache.Init.{Options, new_cache, new_cache-IsValid}
use redis_c.Store.Codec.{Zlib}
use redis_c.Store.State.{DataStore, stored, find_submap}
use redis_c.Store.Persist.{load_shards, load_shard}
use redis_c.Store.Restore.{IsPlaced}
use redis_c.Store.Contents.{contents, IsCoherent, read}

-- `DataStore::Options`, the fields that decide what the store does.
pub record StoreOptions : Type 0 where
  pub shard_count : ℕ
  pub bucket_per_shard : ℕ
  pub enable_compression : Bool
  pub cache_shards : ℕ
  pub cache_size : ℕ
  pub memory_pool_block_size : ℕ

-- `DataStore::Options()`
abbrev pub default_options : StoreOptions
default_options = record {
  shard_count = 128;
  bucket_per_shard = 16;
  enable_compression = false;
  cache_shards = 32;
  cache_size = 200000;
  memory_pool_block_size = 4096;
}

-- `cache_options`; the bounds of the capacity are the defaults of `AdaptiveCache::Options`.
unfoldable pub cache_options : StoreOptions → Options
cache_options o = record {
  shard_count = o.cache_shards;
  initial_capacity = o.cache_size;
  min_capacity = 10000;
  max_capacity = 10000000;
  memory_pool_block_size = o.memory_pool_block_size;
}

-- The store before its files are read.
abbrev pub empty_store : StoreOptions → Cache → DataStore
empty_store o cache = record {
  cache = cache;
  shard_count = o.shard_count;
  bucket_per_shard = o.bucket_per_shard;
  enable_compression = o.enable_compression;
  shards = λ i b s. [];
}

-- `std::filesystem::create_directories`, which raises a `std::system_error`.
unfoldable pub create_directories : Bool → Run (Unit {0})
create_directories true = done tt
create_directories false = runtime_error

-- `DataStore(options)`; `directory` is whether the directory for the files can be made, and
-- `files i` is what `shard_i.dat` holds, if it can be opened.
unfoldable pub new_store :
    Env → (Bytes → ℕ) → Bool → Bool → ℕ → StoreOptions → (ℕ → Option Bytes) → Run DataStore
unfolding cache_options create_directories load_shards
new_store env std_hash memory directory item_size o files = do
  cache ← new_cache memory item_size (cache_options o)
  _ ← create_directories directory
  load_shards env std_hash o.shard_count 0 files (empty_store o cache)

module _ (env : Env) (std_hash : Bytes → ℕ) where
  pub load_shards-none :
      (n i : ℕ) (d : DataStore) → load_shards env std_hash n i (λ _. none) d ≡ done d
  unfolding load_shards load_shard
  load_shards-none zero i d = refl
  load_shards-none (suc n) i d = load_shards-none n (suc i) d

module _ (env : Env) (std_hash : Bytes → ℕ) (item_size : ℕ) (o : StoreOptions)
    (shards_pos : 0 < o.cache_shards) (fits : o.cache_size < 2 ^ 64)
    (buckets_pos : 0 < o.bucket_per_shard) where
  -- With memory, a directory for the files, options with some cache shard and some bucket, a cache
  -- size of 64 bits and no files, the new store is coherent and holds nothing; its keys are where the hashes put them,
  -- and its cache is empty, with the asked capacity.
  pub new_store-IsCoherent :
      (z : Zlib) (f : ℕ)
      → (d : DataStore) × (new_store env std_hash true true item_size o (λ _. none) ≡ done d)
        × IsCoherent env std_hash z f d
        × IsPlaced env std_hash d
        × (d.enable_compression ≡ o.enable_compression)
        × (d.cache.capacity ≡ o.cache_size)
        × (d.cache.size ≡ 0)
        × ((k : Bytes) → contents env std_hash z f d k ≡ done none)
        × ((k : Bytes) → cached env d.cache k ≡ none)
  unfolding new_store cache_options contents read stored find_submap lookup
  new_store-IsCoherent z f =
      let (cache, run, v, cap, size, nothing) =
        new_cache-IsValid env item_size (cache_options o) shards_pos fits in
      (
        empty_store o cache,
        ap
              (λ r. r >>= (λ cache.
                load_shards env std_hash o.shard_count 0 (λ _. none) (empty_store o cache)))
              run
            ∙ load_shards-none env std_hash o.shard_count 0 (empty_store o cache),
        record {
          cache = v;
          fresh = λ k w h. absurd (ground (arith, nothing k, h));
          readable = λ k. (none, refl);
        },
        record {
          maps = λ i b s. tt;
          small = λ i b s. tt;
          placed = λ i b s k w h. absurd (ground arith);
          positive = buckets_pos;
        },
        refl,
        cap,
        size,
        λ k. refl,
        nothing,
      )
