-- ===== src/Cache/Init.antt =====
-- The constructor of `AdaptiveCache`: include/AdaptiveCache.h and src/AdaptiveCache.cpp.
use redis_c.Prelude.{
  ℕ, zero, suc, ◌^◌, ◌%◌, ◌<◌, ◌≡◌, refl, ap, ◌∙◌, Bool, true, false, none, some, [], arith, ◌==◌,
  if◌then◌else◌, Bytes, Bool-cases, inl, inr,
}
use redis_c.Prelude.Assoc.{lookup}
use redis_c.Prelude.Run.{Run, done, bad_alloc, ◌>>=◌}
use redis_c.Pool.{Pool, object_pool}
use redis_c.Pool.Own.{HasBlocks, init-HasBlocks}
use redis_c.Cache.Items.{get_node, addr_of, value_of}
use redis_c.Cache.State.{Env, Shard, Cache, update}
use redis_c.Cache.Valid.{ShardIsValid, IsValid, items_in, cached}

-- The options that the constructor reads and the cache keeps.
pub record Options : Type 0 where
  pub shard_count : ℕ
  pub initial_capacity : ℕ
  pub min_capacity : ℕ
  pub max_capacity : ℕ
  pub memory_pool_block_size : ℕ

-- `Shard(pool_block_size)`
abbrev pub empty_shard : Pool → Shard
empty_shard p = record { items = []; item_map = []; locked = false; item_pool = p }

-- A place of the vector that holds no shard yet.
abbrev null_shard : ℕ → Shard
null_shard i = empty_shard (record {
  block_size = 0;
  blocks_per_chunk = 0;
  next_free = none;
  allocated_blocks = 0;
  allocated_chunks = 0;
  links = λ _. none;
})

-- The loop that makes the shards, with `n` left from shard `i` on; `item_size` is
-- `sizeof(CacheItem)`.
unfoldable pub init_shards : Bool → ℕ → ℕ → ℕ → ℕ → (ℕ → Shard) → Run (ℕ → Shard)
unfolding object_pool
init_shards memory item_size block_size zero i shards = done shards
init_shards memory item_size block_size (suc n) i shards =
    elim (object_pool memory item_size block_size) [
      | none ↦ bad_alloc
      | some p ↦ init_shards memory item_size block_size n (suc i) (update shards i (empty_shard p))
    ]

-- `AdaptiveCache(options)`
unfoldable pub new_cache : Bool → ℕ → Options → Run Cache
unfolding init_shards
new_cache memory item_size o = do
  shards ← init_shards memory item_size o.memory_pool_block_size o.shard_count 0 null_shard
  done (record {
    shard_count = o.shard_count;
    shards = shards;
    capacity = o.initial_capacity;
    min_capacity = o.min_capacity;
    max_capacity = o.max_capacity;
    size = 0;
    hits = 0;
    misses = 0;
    evictions = 0;
    expirations = 0;
    next_node = 0;
  })

object_pool_total :
    (item_size block_size : ℕ)
    → (p : Pool) × (object_pool true item_size block_size ≡ some p) × HasBlocks p
unfolding object_pool
object_pool_total item_size block_size =
    init-HasBlocks (if block_size == 0 then item_size else block_size) 16

abbrev AllEmpty : (ℕ → Shard) → Type 0
AllEmpty shards = (j : ℕ) → (p : Pool) × (shards j ≡ empty_shard p) × HasBlocks p

init_shards_total :
    (item_size block_size n i : ℕ) (shards : ℕ → Shard)
    → AllEmpty shards
    → (shards' : ℕ → Shard) × (init_shards true item_size block_size n i shards ≡ done shards')
      × AllEmpty shards'
unfolding init_shards
init_shards_total item_size block_size zero i shards h = (shards, refl, h)
init_shards_total item_size block_size (suc n) i shards h =
    let (p, found, own) = object_pool_total item_size block_size in
    let (shards', run, h') =
      init_shards_total item_size block_size n (suc i) (update shards i (empty_shard p))
        (λ j. elim (Bool-cases (i == j)) [ inl e ↦ rw e (p, refl, own) | inr e ↦ rw e (h j) ]) in
    (shards', rw (init_shards, found) run, h')

items_in-AllEmpty : (n : ℕ) (shards : ℕ → Shard) → AllEmpty shards → items_in n shards ≡ 0
unfolding items_in
items_in-AllEmpty zero shards h = refl
items_in-AllEmpty (suc n) shards h =
    let (p, e, own) = h n in rw e (omega (arith, items_in-AllEmpty n shards h))

empty_shard-IsValid : (p : Pool) → HasBlocks p → ShardIsValid 0 (empty_shard p)
unfolding addr_of get_node lookup
empty_shard-IsValid p own = record {
  distinct = tt;
  index = λ k. refl;
  unlocked = refl;
  unused = λ m le. refl;
  pool = own;
}

-- With memory, the constructor gives a valid cache of the asked capacity that holds nothing.
pub new_cache-IsValid :
    (env : Env) (item_size : ℕ) (o : Options)
    → 0 < o.shard_count
    → o.initial_capacity < 2 ^ 64
    → (c : Cache) × (new_cache true item_size o ≡ done c)
      × IsValid c
      × (c.capacity ≡ o.initial_capacity)
      × (c.size ≡ 0)
      × ((k : Bytes) → cached env c k ≡ none)
unfolding new_cache cached
new_cache-IsValid env item_size o pos fits =
    let (shards, run, h) =
      init_shards_total item_size o.memory_pool_block_size o.shard_count 0 null_shard
        (λ j. ((null_shard j).item_pool, refl, record { first = tt; linked = λ c i. tt })) in
    (
      _,
      ap
          (λ r. r >>= (λ shards. done (record {
            shard_count = o.shard_count;
            shards = shards;
            capacity = o.initial_capacity;
            min_capacity = o.min_capacity;
            max_capacity = o.max_capacity;
            size = 0;
            hits = 0;
            misses = 0;
            evictions = 0;
            expirations = 0;
            next_node = 0;
          })))
          run,
      record {
        shard = λ i. let (p, e, own) = h i in rw e (empty_shard-IsValid p own);
        counted = rw (items_in-AllEmpty o.shard_count shards h) refl;
        bounded = omega arith;
        fits = fits;
        positive = pos;
      },
      refl,
      refl,
      λ k.
          let (p, e, own) = h (env.xxh32 0 k % o.shard_count) in
          ap (λ (sh : Shard). value_of k sh.items) e ∙ unfold value_of in refl,
    )
