-- ===== src/Store/Persist.antt =====
-- The files of a `DataStore`: `persist_shard` and `load_shard` of src/DataStore.cpp.
use redis_c.Prelude.{
  ℕ, zero, suc, ◌+◌, ◌*◌, ◌/◌, ◌%◌, ◌^◌, ◌&&◌, Option, none, some, [], ◌∷◌, ◌++◌, leb, ◌==◌,
  if◌then◌else◌, List, Bytes, length, take, drop,
}
use redis_c.Prelude.Assoc.{insert}
use redis_c.Prelude.Run.{Run, done, endless, ◌>>=◌}
use redis_c.Cache.State.{Env}
use redis_c.Store.State.{
  DataStore, SubMap, sub_maps_count, update_submap, get_bucket_index, get_submap_index,
}

-- `file.write` of a `uint32_t`, on a little endian machine.
unfoldable pub write_u32 : ℕ → Bytes
write_u32 n =
    (n % 2 ^ 32) % 256
    ∷ (n % 2 ^ 32) / 256 % 256
    ∷ (n % 2 ^ 32) / 65536 % 256
    ∷ (n % 2 ^ 32) / 16777216
    ∷ []

-- `file.read` of a `uint32_t`, and what is left; `none` when the file ends before.
unfoldable pub read_u32 : Bytes → Option (ℕ × Bytes)
read_u32 (a ∷ b ∷ c ∷ d ∷ s) = some (a + 256 * b + 65536 * c + 16777216 * d, s)
read_u32 _ = none

-- The two sizes of a record.
unfoldable pub read_sizes : Bytes → Option (ℕ × ℕ × Bytes)
unfolding read_u32
read_sizes s = elim (read_u32 s) [
  | none ↦ none
  | some (key_size, s1) ↦ elim (read_u32 s1) [
    | none ↦ none
    | some (value_size, s2) ↦ some (key_size, value_size, s2)
  ]
]

-- The loop over a submap, whose order is not specified.
unfoldable pub persist_submap : SubMap → Bytes
unfolding write_u32
persist_submap [] = []
persist_submap ((key, value) ∷ rest) =
    write_u32 (length key)
    ++ write_u32 (length value)
    ++ take (length key % 2 ^ 32) key
    ++ take (length value % 2 ^ 32) value
    ++ persist_submap rest

-- The loop over the submaps of a bucket, with `n` left from `s` on, and that over the buckets.
unfoldable pub persist_submaps : (ℕ → SubMap) → ℕ → ℕ → Bytes
unfolding persist_submap
persist_submaps maps zero s = []
persist_submaps maps (suc n) s = persist_submap (maps s) ++ persist_submaps maps n (suc s)

unfoldable pub persist_buckets : (ℕ → ℕ → SubMap) → ℕ → ℕ → Bytes
unfolding persist_submaps
persist_buckets buckets zero b = []
persist_buckets buckets (suc n) b =
    persist_submaps (buckets b) sub_maps_count 0 ++ persist_buckets buckets n (suc b)

-- `persist_shard`: what the file holds afterwards.
unfoldable pub persist_shard : ℕ → DataStore → Bytes
unfolding persist_buckets
persist_shard i d = persist_buckets (d.shards i) d.bucket_per_shard 0

-- `std::string s(n, '\0')` and `file.read(&s[0], n)`: where the file ends before, NULs remain.
unfoldable pub fill : ℕ → Bytes → Bytes
fill zero s = []
fill (suc n) [] = 0 ∷ fill n []
fill (suc n) (c ∷ s) = c ∷ fill n s

module _ (env : Env) (std_hash : Bytes → ℕ) where
  -- `shards_[i]->buckets[…]->sub_maps[…].store[key] = value`
  unfoldable pub place : ℕ → Bytes → Bytes → DataStore → DataStore
  unfolding get_bucket_index get_submap_index
  place i key value d =
      let b = get_bucket_index env std_hash key d.bucket_per_shard in
      let s = get_submap_index env std_hash key in
      record d { shards = update_submap i b s (insert key value (d.shards i b s)) d.shards }

  -- A round of `while (file)` of `load_shard` behind the sizes, with the next round.
  unfoldable pub load_record :
      (Bytes → DataStore → Run DataStore) → ℕ → DataStore → Option (ℕ × ℕ × Bytes) → Run DataStore
  unfolding fill place
  load_record again i d none = done d
  load_record again i d (some (key_size, value_size, file2)) =
      let file3 = drop key_size file2 in
      let d' = place i (fill key_size file2) (fill value_size file3) d in
      let next = again (drop value_size file3) d' in
      if leb key_size (length file2) && leb value_size (length file3) then next else done d'

  unfoldable pub load_loop : ℕ → ℕ → Bytes → DataStore → Run DataStore
  unfolding read_sizes load_record
  load_loop zero i file d = endless
  load_loop (suc f) i file d = load_record (load_loop f i) i d (read_sizes file)

  -- `load_shard`; `none` when the file cannot be opened.
  unfoldable pub load_shard : ℕ → Option Bytes → DataStore → Run DataStore
  unfolding load_loop
  load_shard i none d = done d
  load_shard i (some file) d = load_loop (suc (length file)) i file d

  -- The loop of the constructor, with `n` shards left from shard `i` on.
  unfoldable pub load_shards : ℕ → ℕ → (ℕ → Option Bytes) → DataStore → Run DataStore
  unfolding load_shard
  load_shards zero i files d = done d
  load_shards (suc n) i files d = load_shard i (files i) d >>= load_shards n (suc i) files

-- The loop of `flush`: the files of the `n` shards from shard `i` on are written.
unfoldable pub flush_shards : ℕ → ℕ → DataStore → (ℕ → Option Bytes) → ℕ → Option Bytes
unfolding persist_shard
flush_shards zero i d files = files
flush_shards (suc n) i d files =
    flush_shards n (suc i) d (λ j. if i == j then some (persist_shard i d) else files j)

-- `flush`, and the loop of a round of `sync_routine`.
abbrev pub flush : DataStore → (ℕ → Option Bytes) → ℕ → Option Bytes
flush d files = flush_shards d.shard_count 0 d files

-- A round of the sync thread: `should_stop_` is set before or behind the sleep, or the shards are
-- written as the thread finds them.
pub data SyncRound : Type 0 where
  stopping : SyncRound
  syncing : DataStore → SyncRound

-- `sync_routine`, up to where the list ends: what it has made of the files.
unfoldable pub sync_routine : List SyncRound → (ℕ → Option Bytes) → ℕ → Option Bytes
unfolding flush_shards
sync_routine [] files = files
sync_routine (stopping ∷ rest) files = files
sync_routine (syncing d ∷ rest) files = sync_routine rest (flush d files)

-- `~DataStore`: the sync thread ends with the rounds it still does, then the store is written.
unfoldable pub shutdown : List SyncRound → DataStore → (ℕ → Option Bytes) → ℕ → Option Bytes
unfolding sync_routine
shutdown rounds d files = flush d (sync_routine rounds files)
