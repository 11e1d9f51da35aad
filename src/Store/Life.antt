-- ===== src/Store/Life.antt =====
-- What the sync thread and the destructor leave for the next start: `sync_routine`, `~DataStore`
-- and the constructor of src/DataStore.cpp.
use redis_c.Prelude.{ℕ, ◌^◌, ◌<◌, ◌≡◌, refl, ap, true, Option, List, [], ◌∷◌, ◌++◌, map, Bytes}
use redis_c.Prelude.Run.{done}
use redis_c.Cache.State.{Env}
use redis_c.Store.Codec.{Zlib}
use redis_c.Store.State.{DataStore}
use redis_c.Store.Persist.{SyncRound, syncing, sync_routine, shutdown, flush_shards, flush}
use redis_c.Store.Restore.{IsPlaced}
use redis_c.Store.Contents.{contents, IsCoherent}
use redis_c.Store.Init.{StoreOptions, new_store}
use redis_c.Store.Restart.{new_store-restart}

sync_routine-++ :
    (seen : List DataStore) (more : List SyncRound) (files : ℕ → Option Bytes)
    → sync_routine (map syncing seen ++ more) files
      ≡ sync_routine more (sync_routine (map syncing seen) files)
unfolding sync_routine
sync_routine-++ [] more files = refl
sync_routine-++ (d ∷ rest) more files = sync_routine-++ rest more (flush d files)

-- A start from the files makes a coherent store that holds for every key what `d` held.
unfoldable pub Restores :
    Env → (Bytes → ℕ) → Zlib → ℕ → ℕ → StoreOptions → DataStore → (ℕ → Option Bytes) → Type 0
Restores env std_hash z f item_size o d files =
    (d' : DataStore) × (new_store env std_hash true true item_size o files ≡ done d')
    × IsCoherent env std_hash z f d'
    × ((k : Bytes) → contents env std_hash z f d' k ≡ contents env std_hash z f d k)

pub sync_routine-restart :
    (env : Env) (std_hash : Bytes → ℕ) (z : Zlib) (f item_size : ℕ) (o : StoreOptions)
    (d : DataStore) (seen : List DataStore) (rounds : List SyncRound) (files : ℕ → Option Bytes)
    → 0 < o.cache_shards
    → o.cache_size < 2 ^ 64
    → 0 < o.shard_count
    → d.shard_count ≡ o.shard_count
    → d.enable_compression ≡ o.enable_compression
    → IsPlaced env std_hash d
    → IsCoherent env std_hash z f d
    → Restores env std_hash z f item_size o d
        (sync_routine (map syncing seen ++ syncing d ∷ []) files)
      × Restores env std_hash z f item_size o d (shutdown rounds d files)
unfolding Restores sync_routine shutdown
sync_routine-restart env std_hash z f item_size o d seen rounds files cs fits sc count comp v
      coherent =
    (
      rw (sync_routine-++ seen (syncing d ∷ []) files)
          (flushed (sync_routine (map syncing seen) files)),
      flushed (sync_routine rounds files),
    )
  where
    flushed : (old : ℕ → Option Bytes) → Restores env std_hash z f item_size o d (flush d old)
    flushed old =
        let e : flush d old ≡ flush_shards o.shard_count 0 d old =
          ap (λ n. flush_shards n 0 d old) count in
        rw e (new_store-restart env std_hash z f item_size o d old cs fits sc count comp v coherent)
