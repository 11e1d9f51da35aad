-- ===== src/Demo.antt =====
-- Small concrete inputs that the tests share: hashes, a codec, a pool, a cache and a store.
use redis_c.Prelude.{beq_iff, ◌%◌, Bool, ◌≢◌}
use redis_c.Config.Trim.{is_blank, is_line_space}
use redis_c.Config.Words.{all}
use redis_c.Config.Classes.{is_plain}
use redis_c.Config.Load.{new_config}
use redis_c.Config.Range.{IsInRange}
use redis_c.Prelude.{
  ℕ, suc, ◌+◌, ◌^◌, zero, ◌≤◌, ◌<◌, ◌≡◌, refl, ap, true, false, Option, none, some, [], ◌∷◌, ◌++◌,
  arith, leb, if◌then◌else◌, Bytes, beq, length, take, drop, Bool-cases, inl, inr, ◌⊎◌, ◌∙◌,
}
use redis_c.Prelude.Assoc.{lookup}
use redis_c.Pool.{Pool, block, node, addr_eq}
use redis_c.Pool.Own.{HasBlocks}
use redis_c.Cache.Policy.{Item}
use redis_c.Cache.Items.{get_node, addr_of, value_of}
use redis_c.Cache.State.{Env, Shard, Cache}
use redis_c.Cache.Valid.{IsValid, items_in, cached}
use redis_c.Prelude.Run.{done, ◌>>=◌}
use redis_c.Store.Codec.{
  Zlib, ZlibLaw, stream_end, other, encode, decode, decode-encode, IsCoded, take_u32,
}
use redis_c.Store.State.{DataStore, stored, find_submap, store_value, stored-store_value}
use redis_c.Commands.Serves.{Serves}
use redis_c.Store.Contents.{IsCoherent, contents, read}

abbrev pub demo_env : Env
demo_env = record {
  xxh32 = λ seed key. seed + length key;
  over_threshold = λ size capacity. false;
  cleanup_size = λ capacity. capacity;
}

abbrev pub demo_hash : Bytes → ℕ
demo_hash = length

-- The format keeps the bytes, behind a first one.
abbrev pub demo_inflate_init : Bytes → Option Bytes
demo_inflate_init [] = none
demo_inflate_init (c ∷ s) = some s

abbrev pub demo_zlib : Zlib
demo_zlib = record {
  Stream = Bytes;
  inflate_init = demo_inflate_init;
  inflate = λ room s.
      if leb (length s) room then (stream_end, s, []) else (other, take room s, drop room s);
  deflate_init = true;
  deflate = λ v room. if leb (suc (length v)) room then some (120 ∷ v) else none;
}

take-drop-length :
    (n : ℕ) (s : Bytes) → n < length s → (s ≡ take n s ++ drop n s) × (length (take n s) ≡ n)
take-drop-length n [] h = absurd (omega arith)
take-drop-length zero (c ∷ s) h = (refl, refl)
take-drop-length (suc n) (c ∷ s) h =
    let (e, l) = take-drop-length n s (omega arith) in (ap (◌∷◌ c) e, omega (arith, l))

demo_deflated :
    (v : Bytes) (room : ℕ) (data_ : Bytes)
    → demo_zlib.deflate v room ≡ some data_
    → (0 < length data_) × (s : Bytes) × (demo_inflate_init data_ ≡ some s) × (s ≡ v)
demo_deflated v room data_ h =
    let e : (120 ∷ v) ≡ data_ = ground arith in rw (← e) (omega arith, v, refl, refl)

demo_inflated :
    (room : ℕ) (s v : Bytes)
    → s ≡ v
    → 0 < room
    → ((s' : Bytes) × (demo_zlib.inflate room s ≡ (stream_end, v, s')))
      ⊎ ((out : Bytes) × (rest : Bytes) × (s' : Bytes) × (demo_zlib.inflate room s
            ≡ (other, out, s'))
          × (v ≡ out ++ rest)
          × (0 < length out)
          × (length out ≤ room)
          × (s' ≡ rest))
demo_inflated room s v y pos = rw (← y) (elim (Bool-cases (leb (length s) room)) [
  | inl small ↦ inl ([], rw small refl)
  | inr large ↦
      let (split, size) = take-drop-length room s (ground arith) in
      inr (
        take room s,
        drop room s,
        drop room s,
        rw large refl,
        split,
        omega (arith, size),
        omega (arith, size),
        refl,
      )
])

pub demo_law : ZlibLaw demo_zlib
demo_law = record {
  Yields = λ s v. s ≡ v;
  deflated_yields = demo_deflated;
  inflate_yields = demo_inflated;
}

-- A pool of one chunk with two blocks: the first is handed out.
abbrev pub demo_pool : Pool
demo_pool = record {
  block_size = 4096;
  blocks_per_chunk = 2;
  next_free = some (block 0 1);
  allocated_blocks = 1;
  allocated_chunks = 1;
  links = λ a. if addr_eq a (block 0 0) then some (block 0 1) else none;
}

pub demo_pool-HasBlocks : HasBlocks demo_pool
demo_pool-HasBlocks = record {
  first = tt;
  linked = λ c i. elim (Bool-cases (addr_eq (block c i) (block 0 0))) [
    | inl e ↦ rw e tt
    | inr e ↦ rw e tt
  ];
}

-- A shard that holds one key.
abbrev pub demo_item : Bytes → Bytes → Item
demo_item key value = record {
  addr = node 0;
  key = key;
  value = value;
  last_access_time = 7;
  access_count = 0;
}

abbrev pub demo_shard : Bytes → Bytes → Shard
demo_shard key value = record {
  items = demo_item key value ∷ [];
  item_map = (key, node 0) ∷ [];
  locked = false;
  item_pool = demo_pool;
}

-- A cache of one shard that holds one key.
abbrev pub demo_cache : ℕ → Bytes → Bytes → Cache
demo_cache capacity key value = record {
  shard_count = 1;
  shards = λ i. demo_shard key value;
  capacity = capacity;
  min_capacity = 1;
  max_capacity = 100;
  size = 1;
  hits = 0;
  misses = 0;
  evictions = 0;
  expirations = 0;
  next_node = 1;
}

pub demo_cache-IsValid :
    (capacity : ℕ) (key value : Bytes)
    → 0 < capacity
    → capacity < 2 ^ 64
    → IsValid (demo_cache capacity key value)
unfolding addr_of get_node lookup items_in addr_eq
demo_cache-IsValid capacity key value pos fits = record {
  shard = λ i. record {
    distinct = (refl, refl, tt);
    index = λ k. refl;
    unlocked = refl;
    unused = λ m le. ground arith;
    pool = demo_pool-HasBlocks;
  };
  counted = refl;
  bounded = omega arith;
  fits = fits;
  positive = omega arith;
}

-- A compressed store with the same key, before and behind the write.
abbrev pub demo_empty : ℕ → Bytes → Bytes → DataStore
demo_empty capacity key value = record {
  cache = demo_cache capacity key value;
  shard_count = 2;
  bucket_per_shard = 3;
  enable_compression = true;
  shards = λ i b s. [];
}

abbrev pub demo_store : ℕ → Bytes → Bytes → DataStore
demo_store capacity key value =
    store_value demo_env demo_hash key (120 ∷ value) (demo_empty capacity key value)

pub demo_encode :
    (value : Bytes) → length value < 2 ^ 31 → encode demo_zlib true value ≡ done (120 ∷ value)
unfolding encode
demo_encode value h =
    let size : (length value + 128) % 2 ^ 32 ≡ length value + 128 = omega arith in
    let room : leb (suc (length value)) (length value + 128) ≡ true = ground arith in
    rw (take_u32 value h, size, room) refl

module _ (f capacity : ℕ) (key value : Bytes) (h : IsCoded f value (120 ∷ value)) where
  demo_decode : decode demo_zlib f true (120 ∷ value) ≡ done value
  demo_decode =
      decode-encode demo_zlib demo_law f true value (120 ∷ value) (demo_encode value h.1) h

  pub demo_contents :
      (k : Bytes)
      → contents demo_env demo_hash demo_zlib f (demo_store capacity key value) k
        ≡ done (if beq key k then some value else none)
  unfolding contents read store_value
  demo_contents k = elim (Bool-cases (beq key k)) [
    | inl same ↦
        ap (read demo_env demo_hash demo_zlib f true) (
          stored-store_value demo_env demo_hash (demo_empty capacity key value) key (120 ∷ value) k)
        ∙ rw same (ap (λ r. r >>= (λ v. done (some v))) demo_decode)
    | inr different ↦
        ap (read demo_env demo_hash demo_zlib f true) (
          stored-store_value demo_env demo_hash (demo_empty capacity key value) key (120 ∷ value) k)
        ∙ rw different (unfold stored find_submap lookup in refl)
  ]

  pub demo_store-IsCoherent :
      0 < capacity
      → capacity < 2 ^ 64
      → IsCoherent demo_env demo_hash demo_zlib f (demo_store capacity key value)
  unfolding store_value cached value_of
  demo_store-IsCoherent pos fits = record {
    cache = demo_cache-IsValid capacity key value pos fits;
    fresh = λ k v e. demo_contents k ∙ ap done e;
    readable = λ k. (_, demo_contents k);
  }

-- What the store holds, as a map.
abbrev pub demo_map : Bytes → Bytes → Bytes → Option Bytes
demo_map key value k = if beq key k then some value else none

pub demo_Serves :
    (average : ℕ → ℕ → Bytes) (deletable : Bytes → Bool) (f capacity n : ℕ) (key value : Bytes)
    → IsCoded f value (120 ∷ value)
    → deletable key ≡ false
    → suc n ≤ capacity
    → capacity < 2 ^ 64
    → Serves demo_env demo_hash demo_zlib demo_law f average true deletable
        (demo_map key value)
        n
        (demo_store capacity key value)
unfolding store_value cached value_of
demo_Serves average deletable f capacity n key value h used room fits = record {
  coherent = demo_store-IsCoherent f capacity key value h (omega arith) fits;
  setting = refl;
  holds = demo_contents f capacity key value h;
  room = omega arith;
  apart = λ k h. elim (Bool-cases (beq key k)) [
    | inl same ↦ absurd (ground (arith, ap deletable ((beq_iff key k).0 same), used, h))
    | inr different ↦ rw different refl
  ];
}

-- The default configuration can be written to a file.
pub new_config-plain : all is_plain new_config.host ≡ true
unfolding all is_plain is_line_space is_blank new_config
new_config-plain = refl

pub host_not_empty : new_config.host ≢ []
unfolding new_config
host_not_empty = λ e. ground arith

pub new_config-IsInRange : IsInRange new_config
unfolding new_config
new_config-IsInRange = (
  omega arith,
  omega arith,
  omega arith,
  omega arith,
  omega arith,
  omega arith,
  omega arith,
  omega arith,
)
