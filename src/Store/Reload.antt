-- ===== src/Store/Reload.antt =====
-- What `persist_shard` writes, `load_shard` reads back.
use redis_c.Prelude.{
  ℕ, zero, suc, ◌+◌, ◌*◌, ◌/◌, ◌%◌, ◌^◌, ◌<◌, ◌≡◌, refl, ap, ◌∙◌, sym, true, some, [], ◌∷◌, ◌++◌,
  arith, leb, Bytes, length, take, append_assoc, length-append, drop-append,
}
use redis_c.Prelude.Run.{Run, done}
use redis_c.Cache.State.{Env}
use redis_c.Store.State.{DataStore, SubMap, sub_maps_count}
use redis_c.Store.Persist.{
  write_u32, read_sizes, persist_submap, persist_submaps, persist_buckets, fill, place, load_record,
  load_loop,
}

-- Keys and values whose sizes a `uint32_t` holds.
abbrev pub AllSmall : SubMap → Type 0
AllSmall [] = Unit
AllSmall ((key, value) ∷ rest) = (length key < 2 ^ 32) × (length value < 2 ^ 32) × AllSmall rest

read_sizes-write_u32 :
    (a b : ℕ) (s : Bytes)
    → a < 2 ^ 32
    → b < 2 ^ 32
    → read_sizes (write_u32 a ++ write_u32 b ++ s) ≡ some (a, b, s)
unfolding read_sizes write_u32
read_sizes-write_u32 a b s ha hb =
    let value : (n : ℕ)
        → n < 2 ^ 32
        → (n % 2 ^ 32) % 256
            + 256 * ((n % 2 ^ 32) / 256 % 256)
            + 65536 * ((n % 2 ^ 32) / 65536 % 256)
            + 16777216 * ((n % 2 ^ 32) / 16777216)
          ≡ n =
      λ n h. omega arith in
    λ i. some (value a ha i, value b hb i, s)

take_all : (xs : Bytes) → length xs < 2 ^ 32 → take (length xs % 2 ^ 32) xs ≡ xs
take_all xs h = let e : length xs % 2 ^ 32 ≡ length xs = omega arith in rw e (whole xs)
  where
    whole : (xs : Bytes) → take (length xs) xs ≡ xs
    whole [] = refl
    whole (x ∷ xs) = ap (◌∷◌ x) (whole xs)

fill-append : (xs ys : Bytes) → fill (length xs) (xs ++ ys) ≡ xs
unfolding fill
fill-append [] ys = refl
fill-append (x ∷ xs) ys = ap (◌∷◌ x) (fill-append xs ys)

abbrev record_bytes : Bytes → Bytes → Bytes
record_bytes key value =
    write_u32 (length key)
    ++ write_u32 (length value)
    ++ take (length key % 2 ^ 32) key
    ++ take (length value % 2 ^ 32) value

-- A file is the bytes of its records, one behind the other.
persist_submap-append :
    (l m : SubMap) → persist_submap (l ++ m) ≡ persist_submap l ++ persist_submap m
unfolding persist_submap
persist_submap-append [] m = refl
persist_submap-append ((key, value) ∷ l) m =
    ap (◌++◌ (record_bytes key value)) (persist_submap-append l m)
    ∙ sym (append_assoc (record_bytes key value) (persist_submap l) (persist_submap m))

-- The records of the submaps of a bucket, and of the buckets of a shard, in the file's order.
abbrev pub submap_records : (ℕ → SubMap) → ℕ → ℕ → SubMap
submap_records maps zero s = []
submap_records maps (suc n) s = maps s ++ submap_records maps n (suc s)

abbrev pub bucket_records : (ℕ → ℕ → SubMap) → ℕ → ℕ → SubMap
bucket_records buckets zero b = []
bucket_records buckets (suc n) b =
    submap_records (buckets b) sub_maps_count 0 ++ bucket_records buckets n (suc b)

persist_submaps_lem :
    (maps : ℕ → SubMap) (n s : ℕ)
    → persist_submaps maps n s ≡ persist_submap (submap_records maps n s)
unfolding persist_submaps persist_submap
persist_submaps_lem maps zero s = refl
persist_submaps_lem maps (suc n) s =
    ap (◌++◌ (persist_submap (maps s))) (persist_submaps_lem maps n (suc s))
    ∙ sym (persist_submap-append (maps s) (submap_records maps n (suc s)))

pub persist_buckets_lem :
    (buckets : ℕ → ℕ → SubMap) (n b : ℕ)
    → persist_buckets buckets n b ≡ persist_submap (bucket_records buckets n b)
unfolding persist_buckets persist_submap
persist_buckets_lem buckets zero b = refl
persist_buckets_lem buckets (suc n) b =
    let first = submap_records (buckets b) sub_maps_count 0 in
    (λ i.
      persist_submaps_lem (buckets b) sub_maps_count 0 i ++ persist_buckets_lem buckets n (suc b) i)
    ∙ sym (persist_submap-append first (bucket_records buckets n (suc b)))

module _ (env : Env) (std_hash : Bytes → ℕ) where
  abbrev pub place_all : ℕ → SubMap → DataStore → DataStore
  place_all i [] d = d
  place_all i ((key, value) ∷ rest) d = place_all i rest (place env std_hash i key value d)

  load_record-found :
      (again : Bytes → DataStore → Run DataStore) (i : ℕ) (d : DataStore) (key value rest : Bytes)
      → load_record env std_hash again i d (some (length key, length value, key ++ (value ++ rest)))
        ≡ again rest (place env std_hash i key value d)
  unfolding load_record
  load_record-found again i d key value rest =
      let all : leb (length key) (length (key ++ (value ++ rest))) ≡ true =
        ground (arith, length-append key (value ++ rest)) in
      let all' : leb (length value) (length (value ++ rest)) ≡ true =
        ground (arith, length-append value rest) in
      rw (fill-append key (value ++ rest), drop-append key (value ++ rest), all)
        (rw (all', fill-append value rest, drop-append value rest) refl)

  pub load_loop-records :
      (f i : ℕ) (l : SubMap) (d : DataStore)
      → AllSmall l
      → length (persist_submap l) < f
      → load_loop env std_hash f i (persist_submap l) d ≡ done (place_all i l d)
  unfolding load_loop persist_submap
  load_loop-records zero i l d small h = absurd (omega arith)
  load_loop-records (suc f) i [] d small h = unfold read_sizes load_record in refl
  load_loop-records (suc f) i ((key, value) ∷ rest) d (sk, sv, small) h =
      let tail = persist_submap rest in
      let shape : persist_submap ((key, value) ∷ rest)
          ≡ write_u32 (length key) ++ write_u32 (length value) ++ (key ++ (value ++ tail)) =
        (λ j.
          write_u32 (length key)
          ++ write_u32 (length value)
          ++ take_all key sk j
          ++ take_all value sv j
          ++ tail)
        ∙ ap (λ t. write_u32 (length key) ++ write_u32 (length value) ++ t)
            (append_assoc key value tail) in
      ap (λ file. load_record env std_hash (load_loop env std_hash f i) i d (read_sizes file)) shape
      ∙ ap (load_record env std_hash (load_loop env std_hash f i) i d)
          (read_sizes-write_u32 (length key) (length value) (key ++ (value ++ tail)) sk sv)
      ∙ load_record-found (load_loop env std_hash f i) i d key value tail
      ∙ load_loop-records f i rest (place env std_hash i key value d) small (
          omega (
            arith,
            h,
            ap (length {A = ℕ}) shape,
            length-append key (value ++ tail),
            length-append value tail,
          ))
