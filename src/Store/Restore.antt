-- ===== src/Store/Restore.antt =====
-- A shard is restored from its file: `persist_shard` and `load_shard` of src/DataStore.cpp.
use redis_c.Prelude.{
  ℕ, zero, suc, ◌+◌, ◌<◌, ◌≡◌, refl, ap, ◌∙◌, sym, ◌&&◌, Option, none, some, [], ◌∷◌, ◌++◌, arith,
  leb, ltb, ◌==◌, if◌then◌else◌, Bytes, beq, beq_iff, length, Option-cases, inl, inr,
}
use redis_c.Prelude.Assoc.{lookup, lookup-insert}
use redis_c.Prelude.Run.{done}
use redis_c.Cache.State.{Env}
use redis_c.Store.State.{
  DataStore, SubMap, sub_maps_count, get_bucket_index, get_submap_index, shard_index,
}
use redis_c.Store.Persist.{persist_shard, persist_submap, place, load_loop, load_shard}
use redis_c.Store.Reload.{
  AllSmall, submap_records, bucket_records, persist_buckets_lem, place_all, load_loop-records,
}

module _ (env : Env) (std_hash : Bytes → ℕ) where
  -- The value of a key in shard `i`, where the hashes put it.
  abbrev pub stored_in : ℕ → DataStore → Bytes → Option Bytes
  stored_in i d k = lookup k (
      d.shards i (get_bucket_index env std_hash k d.bucket_per_shard)
        (get_submap_index env std_hash k))

  stored_in-place :
      (i : ℕ) (key value k : Bytes) (d : DataStore)
      → stored_in i (place env std_hash i key value d) k
        ≡ (if beq key k then some value else stored_in i d k)
  unfolding place
  stored_in-place i key value k d = ground (
    arith,
    beq_iff key k,
    lookup-insert key k value (
        d.shards i (get_bucket_index env std_hash key d.bucket_per_shard)
          (get_submap_index env std_hash key)),
  )

-- Of several values of a key the last one.
abbrev last_of : Bytes → SubMap → Option Bytes
last_of k [] = none
last_of k ((key, value) ∷ rest) = elim (last_of k rest) [
  | none ↦ if beq key k then some value else none
  | some w ↦ some w
]

abbrev or_else : Option Bytes → Option Bytes → Option Bytes
or_else none y = y
or_else (some x) y = some x

or_else-none : (x : Option Bytes) → or_else x none ≡ x
or_else-none none = refl
or_else-none (some x) = refl

last_of-append :
    (k : Bytes) (l m : SubMap) → last_of k (l ++ m) ≡ or_else (last_of k m) (last_of k l)
last_of-append k [] m = sym (or_else-none (last_of k m))
last_of-append k ((key, value) ∷ l) m = ground (arith, last_of-append k l m)

-- A map has one value for a key.
abbrev pub IsMap : SubMap → Type 0
IsMap [] = Unit
IsMap ((key, value) ∷ rest) = (lookup key rest ≡ none) × IsMap rest

last_of-lookup : (k : Bytes) (l : SubMap) → IsMap l → last_of k l ≡ lookup k l
unfolding lookup
last_of-lookup k [] h = refl
last_of-lookup k ((key, value) ∷ rest) h =
    ground (arith, h.0, last_of-lookup k rest h.1, beq_iff key k)

module _ (env : Env) (std_hash : Bytes → ℕ) where
  stored_in-place_all :
      (i : ℕ) (l : SubMap) (k : Bytes) (d : DataStore)
      → stored_in env std_hash i (place_all env std_hash i l d) k
        ≡ or_else (last_of k l) (stored_in env std_hash i d k)
  stored_in-place_all i [] k d = refl
  stored_in-place_all i ((key, value) ∷ rest) k d =
      stored_in-place_all i rest k (place env std_hash i key value d)
      ∙ ground (arith, stored_in-place env std_hash i key value k d)

  -- The submaps of a store: no key twice, sizes that a file can hold, and each key where the
  -- hashes put it.
  pub record IsPlaced (d : DataStore) : Type 0 where
    pub maps : (i b s : ℕ) → IsMap (d.shards i b s)
    pub small : (i b s : ℕ) → AllSmall (d.shards i b s)
    pub placed :
        (i b s : ℕ) (k v : Bytes)
        → lookup k (d.shards i b s) ≡ some v
        → (i ≡ shard_index env std_hash d k)
          × (b ≡ get_bucket_index env std_hash k d.bucket_per_shard)
          × (s ≡ get_submap_index env std_hash k)
    pub positive : 0 < d.bucket_per_shard

  module _ (d : DataStore) (v : IsPlaced d) (i : ℕ) (k : Bytes) where
    abbrev bucket : ℕ
    bucket = get_bucket_index env std_hash k d.bucket_per_shard

    abbrev submap : ℕ
    submap = get_submap_index env std_hash k

    lookup-placed :
        (b s : ℕ)
        → lookup k (d.shards i b s)
          ≡ (if (b == bucket) && (s == submap) then stored_in env std_hash i d k else none)
    lookup-placed b s = elim (Option-cases (lookup k (d.shards i b s))) [
      | inl e ↦ ground (arith, e)
      | inr (w, e) ↦ let (i', b', s') = v.placed i b s k w e in ground (arith, e, b', s')
    ]

    last_of-submap_records :
        (b n s : ℕ)
        → last_of k (submap_records (d.shards i b) n s) ≡ (
            if (b == bucket) && (leb s submap && ltb submap (s + n))
            then stored_in env std_hash i d k
            else none)
    last_of-submap_records b zero s = ground arith
    last_of-submap_records b (suc n) s =
        last_of-append k (d.shards i b s) (submap_records (d.shards i b) n (suc s))
        ∙ ground (
          arith,
          last_of-submap_records b n (suc s),
          last_of-lookup k (d.shards i b s) (v.maps i b s),
          lookup-placed b s,
        )

    submap-lt : submap < sub_maps_count
    unfolding get_submap_index
    submap-lt = omega arith

    bucket-lt : bucket < d.bucket_per_shard
    unfolding get_bucket_index
    bucket-lt = omega (arith, v.positive)

    last_of-bucket_records :
        (n b : ℕ)
        → last_of k (bucket_records (d.shards i) n b)
          ≡ (if leb b bucket && ltb bucket (b + n) then stored_in env std_hash i d k else none)
    last_of-bucket_records zero b = ground arith
    last_of-bucket_records (suc n) b =
        last_of-append k (submap_records (d.shards i b) sub_maps_count 0)
          (bucket_records (d.shards i) n (suc b))
        ∙ ground (
          arith,
          last_of-bucket_records n (suc b),
          last_of-submap_records b sub_maps_count 0,
          submap-lt,
        )

    last_of-shard :
        last_of k (bucket_records (d.shards i) d.bucket_per_shard 0) ≡ stored_in env std_hash i d k
    last_of-shard = ground (arith, last_of-bucket_records d.bucket_per_shard 0, bucket-lt)

  AllSmall-append : (l m : SubMap) → AllSmall l → AllSmall m → AllSmall (l ++ m)
  AllSmall-append [] m hl hm = hm
  AllSmall-append (p ∷ l) m (k, v, hl) hm = (k, v, AllSmall-append l m hl hm)

  submap_records-AllSmall :
      (maps : ℕ → SubMap) (n s : ℕ)
      → ((s : ℕ) → AllSmall (maps s))
      → AllSmall (submap_records maps n s)
  submap_records-AllSmall maps zero s h = tt
  submap_records-AllSmall maps (suc n) s h =
      AllSmall-append (maps s) (submap_records maps n (suc s)) (h s)
        (submap_records-AllSmall maps n (suc s) h)

  bucket_records-AllSmall :
      (buckets : ℕ → ℕ → SubMap) (n b : ℕ)
      → ((b s : ℕ) → AllSmall (buckets b s))
      → AllSmall (bucket_records buckets n b)
  bucket_records-AllSmall buckets zero b h = tt
  bucket_records-AllSmall buckets (suc n) b h =
      AllSmall-append (submap_records (buckets b) sub_maps_count 0)
        (bucket_records buckets n (suc b))
        (submap_records-AllSmall (buckets b) sub_maps_count 0 (h b))
        (bucket_records-AllSmall buckets n (suc b) h)

  module _ (d : DataStore) (v : IsPlaced d) (i : ℕ) (d0 : DataStore) where
    abbrev pub records : SubMap
    records = bucket_records (d.shards i) d.bucket_per_shard 0

    pub load_shard-persist_shard :
        load_shard env std_hash i (some (persist_shard i d)) d0
        ≡ done (place_all env std_hash i records d0)
    unfolding load_shard persist_shard
    load_shard-persist_shard =
        ap (λ file. load_loop env std_hash (suc (length file)) i file d0)
          (persist_buckets_lem (d.shards i) d.bucket_per_shard 0)
        ∙ load_loop-records env std_hash (suc (length (persist_submap records))) i records d0
            (bucket_records-AllSmall (d.shards i) d.bucket_per_shard 0 (v.small i)) (omega arith)

    pub stored_in-restored :
        ((k : Bytes) → stored_in env std_hash i d0 k ≡ none)
        → (k : Bytes)
        → stored_in env std_hash i (place_all env std_hash i records d0) k
          ≡ stored_in env std_hash i d k
    stored_in-restored empty k =
        stored_in-place_all i records k d0 ∙ ground (arith, empty k, last_of-shard d v i k)

  -- Where the keys of a store are where the hashes put them, a shard that is written to its file
  -- and loaded into a store without keys in that shard has every key again, with its value, and
  -- no other.
  pub load-persist :
      (d d0 : DataStore) (i : ℕ)
      → IsPlaced d
      → ((k : Bytes) → stored_in env std_hash i d0 k ≡ none)
      → (d' : DataStore) × (load_shard env std_hash i (some (persist_shard i d)) d0 ≡ done d')
        × ((k : Bytes) → stored_in env std_hash i d' k ≡ stored_in env std_hash i d k)
  load-persist d d0 i v empty = (
    place_all env std_hash i (records d v i d0) d0,
    load_shard-persist_shard d v i d0,
    stored_in-restored d v i d0 empty,
  )
