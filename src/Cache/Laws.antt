-- ===== src/Cache/Laws.antt =====
-- What `get` and `remove` do to what the cache holds.
use redis_c.Prelude.{
  ℕ, ◌≤◌, ◌+◌, ◌≡◌, refl, ap, ◌∙◌, Bool, true, false, Option, none, some, arith, if◌then◌else◌,
  Bytes, beq, beq_iff, Option-cases, inl, inr,
}
use redis_c.Prelude.Assoc.{lookup}
use redis_c.Pool.{Addr}
use redis_c.Cache.Policy.{Item, on_access}
use redis_c.Cache.Items.{get_node, get_node-addr_of, value_of-none, modify_node, splice_front}
use redis_c.Prelude.Run.{done, dangling}
use redis_c.Cache.State.{update, Env, Shard, Cache, incr, set_shard, get_shard_index}
use redis_c.Cache.Ops.{get_hit, get_found, get, remove_found, remove}
use redis_c.Cache.Valid.{
  items_in, items_in-update, update-IsValid, get_shard_index-lt, length-touched, ShardIsValid,
  IsValid, cached, touched, drop_item_dangling, touched-IsValid, value_of-touched, cached-set_shard,
}

-- The outcome of an operation on one key: it returns, keeps the invariant, and changes what the
-- cache holds for that key alone, to `x`. It has `grown` more items at most.
pub record Sets (env : Env) (c c' : Cache) (key : Bytes) (x : Option Bytes) (grown : ℕ)
    : Type 0 where
  pub valid : IsValid c'
  pub capacity : c'.capacity ≡ c.capacity
  pub size : c'.size ≤ c.size + grown
  pub holds : (k : Bytes) → cached env c' k ≡ (if beq key k then x else cached env c k)

abbrev pub is_some {ℓ} : {A : Type ℓ} → Option A → Bool
is_some none = false
is_some (some _) = true

pub if-false {ℓ} : {A : Type ℓ} {b : Bool} (x : A) {y : A} → b ≡ false → (if b then x else y) ≡ y
if-false x e = rw e

module _ (env : Env) (c : Cache) (v : IsValid c) (key : Bytes) where
  abbrev pub i : ℕ
  i = get_shard_index env c key

  pub unlocked : (c.shards i).locked ≡ false
  unlocked = (v.shard i).unlocked

  abbrev pub home : Shard
  home = c.shards i

  -- The map is asked, and the list answers.
  pub cached-none : lookup key home.item_map ≡ none → cached env c key ≡ none
  unfolding cached
  cached-none e = value_of-none key home.items (rw (← (v.shard i).index key) e)

  pub cached-some :
      (a : Addr)
      → lookup key home.item_map ≡ some a
      → (it : Item) × (get_node a home.items ≡ some it) × (cached env c key ≡ some it.value)
  unfolding cached
  cached-some a e =
      let s : ShardIsValid c.next_node home = v.shard i in
      let (it, found, k, at, val) =
        get_node-addr_of key a home.items s.distinct (rw (← s.index key) e) in
      (it, found, val)

  -- On a valid cache, `remove` of a key that the cache does not hold changes nothing, and of one
  -- that it holds is undefined: it uses the item of the node that it has erased.
  pub remove_lem :
      remove env key c ≡ (if is_some (cached env c key) then dangling else done (c, false))
  unfolding remove remove_found
  remove_lem = elim (Option-cases (lookup key home.item_map)) [
    | inl e ↦
        if-false dangling unlocked ∙ ap (remove_found env key c i home) e ∙ rw (cached-none e) refl
    | inr (a, e) ↦
        let (it, found, val) = cached-some a e in
        if-false dangling unlocked
        ∙ ap (remove_found env key c i home) e
        ∙ rw (drop_item_dangling c.next_node home (v.shard i) key a e, val) refl
  ]

  pub remove-absent : cached env c key ≡ none → remove env key c ≡ done (c, false)
  remove-absent e = remove_lem ∙ rw e refl

  pub remove-held : (w : Bytes) → cached env c key ≡ some w → remove env key c ≡ dangling
  remove-held w e = remove_lem ∙ rw e refl

  pub absent-Sets : cached env c key ≡ none → Sets env c c key none 0
  absent-Sets e = record {
    valid = v;
    capacity = refl;
    size = omega arith;
    holds = λ k. ground (arith, e, beq_iff key k);
  }

  -- A node of the home shard is changed and moved to the front; the counters of hits and misses
  -- may change too.
  module _ (hits misses : ℕ) (a : Addr) (e : lookup key home.item_map ≡ some a) (f : Item → Item)
      (same_key : (x : Item) → (f x).key ≡ x.key)
      (same_addr : (x : Item) → (f x).addr ≡ x.addr) where
    abbrev touched_home : Shard
    touched_home = touched c.next_node home (v.shard i) key a e f same_key same_addr

    touched_count :
        items_in c.shard_count (update c.shards i touched_home) ≡ items_in c.shard_count c.shards
    touched_count = omega (
      arith,
      items_in-update c.shard_count i c.shards touched_home (get_shard_index-lt env c key v),
      length-touched c.next_node home (v.shard i) key a e f same_key same_addr,
    )

    pub touched_cache-IsValid :
        IsValid (record (set_shard i touched_home c) { hits = hits; misses = misses })
    touched_cache-IsValid = record {
      shard =
          update-IsValid c.next_node i c.shards touched_home v.shard
            (touched-IsValid c.next_node home (v.shard i) key a e f same_key same_addr);
      counted = omega (arith, touched_count, v.counted);
      bounded = v.bounded;
      fits = v.fits;
      positive = v.positive;
    }

  get_found-hit :
      (now : ℕ) (a : Addr) (it : Item)
      → get_node a home.items ≡ some it
      → get_found env now c i home (some a)
        ≡ done (
          record (set_shard i
              (record home { items = splice_front a (modify_node a (on_access now) home.items) })
              c) { hits = incr c.hits },
          some it.value,
        )
  unfolding get_found
  get_found-hit now a it found = ap (get_hit env now a c i home) found

  -- On a valid cache, `get` returns what the cache holds for the key. The cache stays valid, with
  -- the same size, and what it holds does not change.
  pub get-Sets :
      (now : ℕ)
      → (c' : Cache) × (get env now key c ≡ done (c', cached env c key))
        × (c'.size ≡ c.size)
        × Sets env c c' key (cached env c key) 0
  unfolding get cached on_access
  get-Sets now = elim (Option-cases (lookup key home.item_map)) [
    | inl e ↦ (
      record c { misses = incr c.misses },
      if-false dangling unlocked ∙ ap (get_found env now c i home) e ∙ rw (cached-none e),
      refl,
      record {
        valid = record {
          shard = v.shard;
          counted = v.counted;
          bounded = v.bounded;
          fits = v.fits;
          positive = v.positive;
        };
        capacity = refl;
        size = omega arith;
        holds = λ k. ground (arith, beq_iff key k);
      },
    )
    | inr (a, e) ↦
        let (it, found, val) = cached-some a e in
        let s = v.shard i in
        let sh : Shard =
          touched c.next_node home s key a e (on_access now) (λ x. refl) (λ x. refl) in
        (
          record (set_shard i sh c) { hits = incr c.hits },
          if-false dangling unlocked
              ∙ ap (get_found env now c i home) e
              ∙ get_found-hit now a it found
              ∙ rw val,
          refl,
          record {
            valid =
                touched_cache-IsValid (incr c.hits) c.misses a e (on_access now) (λ x. refl)
                  (λ x. refl);
            capacity = refl;
            size = omega arith;
            holds = λ k.
                cached-set_shard env c key sh (cached env c key)
                  (λ k'.
                    value_of-touched c.next_node home s key a e (on_access now) (λ x. refl)
                      (λ x. refl) it.value k' (λ x same. cc (found, same))
                    ∙ rw val)
                  k;
          },
        )
  ]
