-- ===== src/Store/ThreadTests.antt =====
-- Threads on a concrete store.
use redis_c.Prelude.{
  ◌≡◌, refl, true, false, none, some, [], ◌∷◌, arith, inl, inr, if◌then◌else◌, Bytes, beq,
  Bool-cases, ap, ◌∙◌,
}
use redis_c.Prelude.Text.{text}
use redis_c.Prelude.Assoc.{lookup}
use redis_c.Prelude.Run.{done}
use redis_c.Cache.State.{Shard, Cache}
use redis_c.Cache.Items.{addr_of, get_node, value_of}
use redis_c.Cache.Ops.{put, get}
use redis_c.Cache.Laws.{Sets, get-Sets}
use redis_c.Cache.Put.{put-Sets}
use redis_c.Store.Codec.{decode-encode}
use redis_c.Cache.Valid.{IsValid, cached, items_in}
use redis_c.Store.State.{DataStore, stored, find_submap, store_value}
use redis_c.Store.Contents.{contents, IsCoherent, read, contents-store_value}
use redis_c.Store.Threads.{
  Threads, idle, storing, Step, begin_set, Reach, here, next, moved, with_cache,
}
use redis_c.Store.Written.{IsWritten, IsFresh, Reach-IsWritten}
use redis_c.Store.Stale.{IsStale, del-IsStale}
use redis_c.Demo.{
  demo_env, demo_hash, demo_zlib, demo_law, demo_pool, demo_pool-HasBlocks, demo_encode,
}

abbrev empty : Shard
empty = record { items = []; item_map = []; locked = false; item_pool = demo_pool }

abbrev empty_cache : Cache
empty_cache = record {
  shard_count = 1;
  shards = λ i. empty;
  capacity = 5;
  min_capacity = 1;
  max_capacity = 100;
  size = 0;
  hits = 0;
  misses = 0;
  evictions = 0;
  expirations = 0;
  next_node = 1;
}

empty_cache-IsValid : IsValid empty_cache
unfolding addr_of get_node lookup items_in
empty_cache-IsValid = record {
  shard = λ i. record {
    distinct = tt;
    index = λ k. refl;
    unlocked = refl;
    unused = λ m le. refl;
    pool = demo_pool-HasBlocks;
  };
  counted = refl;
  bounded = omega arith;
  fits = omega arith;
  positive = omega arith;
}

abbrev bare : DataStore
bare = record {
  cache = empty_cache;
  shard_count = 2;
  bucket_per_shard = 3;
  enable_compression = true;
  shards = λ i b s. [];
}

abbrev threads : DataStore → Threads
threads d = record { store = d; pending = λ t. idle; written = [] }

threads-IsFresh : IsFresh demo_env demo_hash (threads bare)
unfolding cached value_of stored find_submap lookup
threads-IsFresh = record {
  cache = empty_cache-IsValid;
  uncached = λ k. refl;
  unstored = λ k. refl;
  at_rest = λ t. refl;
}

uncached : (k : Bytes) → cached demo_env empty_cache k ≡ none
unfolding cached value_of
uncached k = refl

filled :
    (c : Cache) × (put demo_env true 0 (text "k") (text "v") empty_cache ≡ done c)
    × Sets demo_env empty_cache c (text "k") (some (text "v")) 1
filled =
    put-Sets demo_env empty_cache 0 (text "k") (text "v") empty_cache-IsValid (λ e. omega arith)

abbrev after_put : Threads
after_put =
    record (moved 0 (storing (text "k") (120 ∷ text "v")) (with_cache filled.0 (threads bare))
      (threads bare)) { written = (text "k", text "v") ∷ [] }

one-Step : Step demo_env demo_hash demo_zlib 9 (threads bare) after_put
one-Step =
    begin_set 0 0 (text "k") (text "v") (120 ∷ text "v") filled.0 refl (omega arith)
      (demo_encode (text "v") (omega arith)) filled.1

answered :
    (c : Cache) × (get demo_env 1 (text "k") after_put.store.cache ≡ done (c, some (text "v")))
answered =
    let (c, run, size, s) = get-Sets demo_env filled.0 filled.2.valid (text "k") 1 in
    (c, run ∙ ap (λ o. done (c, o)) (filled.2.holds (text "k") ∙ same_key))
  where
    same_key :
        (if beq (text "k") (text "k")
          then some (text "v")
          else cached demo_env empty_cache (text "k"))
        ≡ some (text "v")
    same_key = unfold beq in refl

Reach-IsWritten_example : IsWritten (text "k") (text "v") ((text "k", text "v") ∷ [])
Reach-IsWritten_example =
    Reach-IsWritten demo_env demo_hash demo_zlib demo_law 9 (threads bare) after_put 1 1 (text "k")
      (text "v") answered.0 threads-IsFresh (next here one-Step) (inr answered.1)

-- The key is in a submap, and the cache is empty.
abbrev lone : DataStore
lone = store_value demo_env demo_hash (text "k") (120 ∷ text "v") bare

bare-contents : (k : Bytes) → contents demo_env demo_hash demo_zlib 9 bare k ≡ done none
unfolding contents read stored find_submap lookup
bare-contents k = refl

lone-contents :
    (k : Bytes)
    → contents demo_env demo_hash demo_zlib 9 lone k ≡ (
        if beq (text "k") k
        then done (some (text "v"))
        else contents demo_env demo_hash demo_zlib 9 bare k)
lone-contents k =
    contents-store_value demo_env demo_hash demo_zlib 9 bare (text "k") (120 ∷ text "v") (text "v")
      k
      (decode-encode demo_zlib demo_law 9 true (text "v") (120 ∷ text "v")
        (demo_encode (text "v") (omega arith)) (omega arith))

lone-IsCoherent : IsCoherent demo_env demo_hash demo_zlib 9 lone
unfolding store_value cached value_of
lone-IsCoherent = record {
  cache = empty_cache-IsValid;
  fresh = λ k v e. absurd (ground (arith, e));
  readable = λ k. elim (Bool-cases (beq (text "k") k)) [
    | inl same ↦ (some (text "v"), lone-contents k ∙ rw same refl)
    | inr other_key ↦ (none, lone-contents k ∙ rw other_key (bare-contents k))
  ];
}

del-IsStale_example :
    (τ : Threads) × Reach demo_env demo_hash demo_zlib 9 (threads lone) τ
    × IsStale demo_env demo_hash (text "k") (text "v") τ
unfolding store_value beq cached value_of
del-IsStale_example =
    del-IsStale demo_env demo_hash demo_zlib 9 (threads lone) (text "k") (text "v") lone-IsCoherent
      (λ t. refl) (lone-contents (text "k")) refl (omega arith)
