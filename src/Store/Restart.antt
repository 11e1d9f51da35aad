-- ===== src/Store/Restart.antt =====
-- A store that is started again from its files: `flush` and the constructor of src/DataStore.cpp.
use redis_c.Prelude.{
  Option, ℕ, zero, suc, ◌+◌, ◌%◌, ◌^◌, ◌≤◌, ◌<◌, ◌≡◌, refl, ap, ◌∙◌, sym, true, false, some, [],
  ◌∷◌, arith, ◌==◌, Bytes, dec_lt,
}
use redis_c.Prelude.Assoc.{lookup}
use redis_c.Prelude.Run.{done, ◌>>=◌}
use redis_c.Cache.State.{Env}
use redis_c.Cache.Valid.{cached}
use redis_c.Cache.Init.{new_cache-IsValid}
use redis_c.Store.Codec.{Zlib}
use redis_c.Store.State.{
  DataStore, SubMap, get_bucket_index, get_submap_index, shard_index, stored, find_submap, hash,
}
use redis_c.Store.Persist.{persist_shard, place, load_shard, load_shards, flush_shards}
use redis_c.Store.Reload.{place_all}
use redis_c.Store.Restore.{
  IsPlaced, stored_in, records, load_shard-persist_shard, stored_in-restored,
}
use redis_c.Store.Contents.{contents, read, IsCoherent}
use redis_c.Store.Init.{StoreOptions, cache_options, empty_store, new_store}

module _ (env : Env) (std_hash : Bytes → ℕ) where
  -- Loading a shard touches no other shard and no other field.
  record SameBut (i : ℕ) (d d' : DataStore) : Type 0 where
    shards : (j b s : ℕ) → (j ≡ i → ⊥) → d'.shards j b s ≡ d.shards j b s
    cache : d'.cache ≡ d.cache
    shard_count : d'.shard_count ≡ d.shard_count
    bucket_per_shard : d'.bucket_per_shard ≡ d.bucket_per_shard
    compression : d'.enable_compression ≡ d.enable_compression

  place-SameBut :
      (i : ℕ) (key value : Bytes) (d : DataStore) → SameBut i d (place env std_hash i key value d)
  unfolding place
  place-SameBut i key value d = record {
    shards = λ j b s h. let e : (i == j) ≡ false = ground (arith, h) in rw e refl;
    cache = refl;
    shard_count = refl;
    bucket_per_shard = refl;
    compression = refl;
  }

  SameBut-trans : (i : ℕ) (a b c : DataStore) → SameBut i a b → SameBut i b c → SameBut i a c
  SameBut-trans i a b c p q = record {
    shards = λ j m s h. q.shards j m s h ∙ p.shards j m s h;
    cache = q.cache ∙ p.cache;
    shard_count = q.shard_count ∙ p.shard_count;
    bucket_per_shard = q.bucket_per_shard ∙ p.bucket_per_shard;
    compression = q.compression ∙ p.compression;
  }

  place_all-SameBut :
      (i : ℕ) (l : SubMap) (d : DataStore) → SameBut i d (place_all env std_hash i l d)
  place_all-SameBut i [] d = record {
    shards = λ j b s h. refl;
    cache = refl;
    shard_count = refl;
    bucket_per_shard = refl;
    compression = refl;
  }
  place_all-SameBut i ((key, value) ∷ rest) d =
      let d1 = place env std_hash i key value d in
      SameBut-trans i d d1 (place_all env std_hash i rest d1) (place-SameBut i key value d)
        (place_all-SameBut i rest d1)

  stored_in-same :
      (j : ℕ) (k : Bytes) (d d' : DataStore)
      → ((b s : ℕ) → d.shards j b s ≡ d'.shards j b s)
      → d.bucket_per_shard ≡ d'.bucket_per_shard
      → stored_in env std_hash j d k ≡ stored_in env std_hash j d' k
  stored_in-same j k d d' h e =
      ap
        (λ n.
          lookup k
            (d.shards j (get_bucket_index env std_hash k n) (get_submap_index env std_hash k)))
        e
      ∙ ap (lookup k) (
          h (get_bucket_index env std_hash k d'.bucket_per_shard) (get_submap_index env std_hash k))

  -- The loop of the constructor over the files that `flush` wrote, from shard `i` on.
  load_shards-restored :
      (d : DataStore) (v : IsPlaced env std_hash d) (files : ℕ → Option Bytes) (n i : ℕ)
      (d0 : DataStore)
      → ((j : ℕ) → i ≤ j → j < i + n → files j ≡ some (persist_shard j d))
      → ((j b s : ℕ) → i ≤ j → d0.shards j b s ≡ [])
      → (d' : DataStore) × (load_shards env std_hash n i files d0 ≡ done d')
        × ((j b s : ℕ) → j < i → d'.shards j b s ≡ d0.shards j b s)
        × ((j : ℕ) (k : Bytes)
            → i ≤ j
            → j < i + n
            → stored_in env std_hash j d' k ≡ stored_in env std_hash j d k)
        × (d'.cache ≡ d0.cache)
        × (d'.shard_count ≡ d0.shard_count)
        × (d'.enable_compression ≡ d0.enable_compression)
        × (d'.bucket_per_shard ≡ d0.bucket_per_shard)
  unfolding load_shards lookup
  load_shards-restored d v files zero i d0 written empty =
      (d0, refl, λ j b s h. refl, λ j k le lt. absurd (omega arith), refl, refl, refl, refl)
  load_shards-restored d v files (suc n) i d0 written empty =
      let d1 = place_all env std_hash i (records env std_hash d v i d0) d0 in
      let same = place_all-SameBut i (records env std_hash d v i d0) d0 in
      let (d', run, before, after, cache, count, compression, buckets) =
        load_shards-restored d v files n (suc i) d1
          (λ j le lt. written j (omega arith) (omega arith))
          (λ j b s le. same.shards j b s (λ e. omega (arith, e)) ∙ empty j b s (omega arith)) in
      (
        d',
        ap (λ r. r >>= load_shards env std_hash n (suc i) files)
              (ap (λ file. load_shard env std_hash i file d0)
                  (written i (omega arith) (omega arith))
                ∙ load_shard-persist_shard env std_hash d v i d0)
            ∙ run,
        λ j b s lt. before j b s (omega arith) ∙ same.shards j b s (λ e. omega (arith, e)),
        λ j k le lt. elim (dec_lt i j) [
          | yes gt ↦ after j k gt (omega arith)
          | no ge ↦
              let e : j ≡ i = omega arith in
              rw e (
                stored_in-same i k d' d1 (λ b s. before i b s (omega arith)) buckets
                ∙ stored_in-restored env std_hash d v i d0
                    (λ k'. ap (lookup k') (empty i _ _ (omega arith))) k)
        ],
        cache ∙ same.cache,
        count ∙ same.shard_count,
        compression ∙ same.compression,
        buckets ∙ same.bucket_per_shard,
      )

  flush_shards_before :
      (d : DataStore) (n i j : ℕ) (files : ℕ → Option Bytes)
      → j < i
      → flush_shards n i d files j ≡ files j
  unfolding flush_shards
  flush_shards_before d zero i j files lt = refl
  flush_shards_before d (suc n) i j files lt =
      let e : (i == j) ≡ false = ground arith in
      flush_shards_before d n (suc i) j _ (omega arith) ∙ rw e refl

  flush_shards-written :
      (d : DataStore) (n i : ℕ) (files : ℕ → Option Bytes) (j : ℕ)
      → i ≤ j
      → j < i + n
      → flush_shards n i d files j ≡ some (persist_shard j d)
  unfolding flush_shards
  flush_shards-written d zero i files j le lt = absurd (omega arith)
  flush_shards-written d (suc n) i files j le lt = elim (dec_lt i j) [
    | yes gt ↦ flush_shards-written d n (suc i) _ j gt (omega arith)
    | no ge ↦
        let same : i ≡ j = omega arith in
        let e : (j == j) ≡ true = ground arith in
        rw same (flush_shards_before d n (suc j) j _ (omega arith) ∙ rw e refl)
  ]

  contents-same :
      (z : Zlib) (f n : ℕ) (d d' : DataStore)
      → 0 < n
      → d.shard_count ≡ n
      → d'.shard_count ≡ n
      → d'.enable_compression ≡ d.enable_compression
      → ((j : ℕ) (k : Bytes) → j < n → stored_in env std_hash j d' k ≡ stored_in env std_hash j d k)
      → (k : Bytes) → contents env std_hash z f d' k ≡ contents env std_hash z f d k
  unfolding contents stored find_submap shard_index hash
  contents-same z f n d d' some_shard count count' compression h k =
      let same : stored env std_hash d' k ≡ stored env std_hash d k =
        ap (λ m. stored_in env std_hash (env.xxh32 0 k % m) d' k) count'
        ∙ h (env.xxh32 0 k % n) k (omega arith)
        ∙ ap (λ m. stored_in env std_hash (env.xxh32 0 k % m) d k) (sym count) in
      λ i. read env std_hash z f (compression i) (same i)

  -- A coherent store whose keys are where the hashes put them is written to its files, over
  -- whatever they hold. A store that is then started from them with memory, with the same number
  -- of shards, which is not 0, the same setting for compression and a cache with shards and a
  -- capacity of 64 bits, is coherent and holds for every key what the first one held.
  pub new_store-restart :
      (z : Zlib) (f item_size : ℕ) (o : StoreOptions) (d : DataStore) (files : ℕ → Option Bytes)
      → 0 < o.cache_shards
      → o.cache_size < 2 ^ 64
      → 0 < o.shard_count
      → d.shard_count ≡ o.shard_count
      → d.enable_compression ≡ o.enable_compression
      → IsPlaced env std_hash d
      → IsCoherent env std_hash z f d
      → (d' : DataStore) × (new_store env std_hash true true item_size o
            (flush_shards o.shard_count 0 d files)
          ≡ done d')
        × IsCoherent env std_hash z f d'
        × ((k : Bytes) → contents env std_hash z f d' k ≡ contents env std_hash z f d k)
  unfolding new_store cache_options
  new_store-restart z f item_size o d files cs fits sc same_count same_compression v coherent =
      let (cache, run, cv, cap, size, nothing) =
        new_cache-IsValid env item_size (cache_options o) cs fits in
      let (d', loaded, before, after, ecache, ecount, ecomp, ebuckets) =
        load_shards-restored d v (flush_shards o.shard_count 0 d files) o.shard_count 0
          (empty_store o cache) (flush_shards-written d o.shard_count 0 files) (λ j b s le. refl) in
      let same : (k : Bytes) → contents env std_hash z f d' k ≡ contents env std_hash z f d k =
        contents-same z f o.shard_count d d' sc same_count ecount (ecomp ∙ sym same_compression)
          (λ j k lt. after j k (omega arith) (omega arith)) in
      (
        d',
        ap
              (λ r. r >>= (λ cache.
                load_shards env std_hash o.shard_count 0 (flush_shards o.shard_count 0 d files)
                  (empty_store o cache)))
              run
            ∙ loaded,
        record {
          cache = rw ecache cv;
          fresh = λ k w h. absurd (ground (arith, nothing k, ap (λ c. cached env c k) ecache, h));
          readable = λ k. let (r, e) = coherent.readable k in (r, same k ∙ e);
        },
        same,
      )
