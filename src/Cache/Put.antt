-- ===== src/Cache/Put.antt =====
-- What `put` does to what the cache holds.
use redis_c.Prelude.{
  ◌+◌, ℕ, suc, ◌≤◌, ◌<◌, ◌≡◌, ◌≢◌, refl, ap, ◌∙◌, Bool, true, false, none, some, arith, Bytes,
  Option-cases, inl, inr,
}
use redis_c.Prelude.Assoc.{lookup}
use redis_c.Pool.{Addr, block, Pool, allocate}
use redis_c.Pool.Own.{HasBlocks, allocate-HasBlocks}
use redis_c.Cache.Policy.{Item, on_access}
use redis_c.Prelude.Run.{done, dangling}
use redis_c.Cache.State.{
  update, update_size_stats, Env, Shard, Cache, set_shard, get_shard_index,
  calculate_items_to_evict,
}
use redis_c.Cache.Ops.{
  put_existing, make_room, link_new_item, construct_item, put_new, put_absent, put_found, put,
}
use redis_c.Cache.Laws.{
  touched_cache-IsValid, Sets, if-false, i, home, unlocked, cached-none, cached-some,
}
use redis_c.Cache.Valid.{
  items_in, items_in-update, update-IsValid, get_shard_index-lt, ShardIsValid, IsValid, cached,
  value_of-touched, cached-set_shard,
}
use redis_c.Cache.Linking.{
  link_new_item-IsValid, value_of-link_new_item, clean_up_lem, ShardIsValid-weaken,
}

module _ (env : Env) (c : Cache) (now : ℕ) (key value : Bytes) where
  make_room_lem : (sh : Shard) → c.size < c.capacity → make_room env c sh ≡ done (c, sh)
  unfolding make_room
  make_room_lem sh room = ground arith

  put_new_lem :
      (b j : ℕ) (pool : Pool) (sh : Shard)
      → allocate true sh.item_pool ≡ some (block b j, pool)
      → put_new env true now key value c sh
        ≡ done (link_new_item env now key value (block b j) pool c sh)
  unfolding put_new construct_item
  put_new_lem b j pool sh e = rw (e, put_new)

  abbrev released : Shard → Shard
  released sh = record sh { locked = false }

  put_absent-room :
      (sh : Shard)
      → HasBlocks sh.item_pool
      → c.size < c.capacity
      → (a : Addr) × (pool : Pool) × (put_absent env true now key value c sh
          ≡ done (link_new_item env now key value a pool c (released sh)))
        × HasBlocks pool
  unfolding put_absent link_new_item
  put_absent-room sh own room =
      let (b, j, pool, e, own') = allocate-HasBlocks sh.item_pool own in
      (
        block b j,
        pool,
        rw (make_room_lem (record sh { locked = true }) room) (
            rw (put_new_lem b j pool (record sh { locked = true }) e) (
              clean_up_lem env (link_new_item env now key value (block b j) pool c (released sh)).0
                _ refl)),
        own',
      )

  evicts_something : calculate_items_to_evict env c ≢ 0
  unfolding calculate_items_to_evict
  evicts_something = ground arith

  make_room_dangling :
      (sh : Shard) → c.capacity ≤ c.size → make_room env c (record sh { locked = true }) ≡ dangling
  unfolding make_room
  make_room_dangling sh full = ground (arith, evicts_something)

  put_absent_dangling :
      (memory : Bool) (sh : Shard)
      → c.capacity ≤ c.size
      → put_absent env memory now key value c sh ≡ dangling
  unfolding put_absent
  put_absent_dangling memory sh full = rw (make_room_dangling sh full)

  module _ (v : IsValid c) where
    put_found-existing :
        (a : Addr)
        → lookup key (home env c v key).item_map ≡ some a
        → Sets env c
            (set_shard (i env c v key) (put_existing env now value a (home env c v key)) c)
            key
            (some value)
            1
    unfolding put_existing on_access
    put_found-existing a e =
        let s = v.shard (get_shard_index env c key) in
        let f : Item → Item = λ it. on_access now (record it { value = value }) in
        record {
          valid = touched_cache-IsValid env c v key c.hits c.misses a e f (λ x. refl) (λ x. refl);
          capacity = refl;
          size = omega arith;
          holds = cached-set_shard env c key _ (some value) λ k.
              value_of-touched c.next_node _ s key a e f (λ x. refl) (λ x. refl) value k
                (λ x same. refl);
        }

    -- The shard of the key with the new item in front, in a cache with room.
    module _ (a : Addr) (pool : Pool) (own : HasBlocks pool)
        (absent : lookup key (home env c v key).item_map ≡ none) (room : c.size < c.capacity) where
      abbrev new_home : Shard
      new_home = (link_new_item env now key value a pool c (released (home env c v key))).1

      abbrev new_cache : Cache
      new_cache =
          set_shard (i env c v key) new_home
            (link_new_item env now key value a pool c (released (home env c v key))).0

      home-IsValid : ShardIsValid c.next_node (released (home env c v key))
      home-IsValid =
          let s = v.shard (get_shard_index env c key) in
          record {
            distinct = s.distinct;
            index = s.index;
            unlocked = refl;
            unused = s.unused;
            pool = s.pool;
          }

      new_count :
          items_in c.shard_count (update c.shards (get_shard_index env c key) new_home)
          ≡ items_in c.shard_count c.shards + 1
      unfolding link_new_item
      new_count = omega (
        arith,
        items_in-update c.shard_count (get_shard_index env c key) c.shards new_home
            (get_shard_index-lt env c key v),
      )

      new_cache-Sets : Sets env c new_cache key (some value) 1
      unfolding link_new_item update_size_stats cached
      new_cache-Sets = record {
        valid = record {
          shard =
              update-IsValid (suc c.next_node) (get_shard_index env c key) c.shards new_home
                (λ j. ShardIsValid-weaken c.next_node (c.shards j) (v.shard j))
                (link_new_item-IsValid env now key value a pool c (released (home env c v key))
                  home-IsValid absent own);
          counted = omega (arith, new_count, v.counted, v.fits);
          bounded = omega (arith, v.fits);
          fits = v.fits;
          positive = v.positive;
        };
        capacity = refl;
        size = omega (arith, v.fits);
        holds = cached-set_shard env c key new_home (some value) (
            value_of-link_new_item env now key value a pool c (released (home env c v key))
              home-IsValid absent);
      }

    put_found_absent :
        lookup key (home env c v key).item_map ≡ none
        → c.size < c.capacity
        → (c' : Cache) × (put_found env true now key value c (i env c v key) (home env c v key) none
            ≡ done c')
          × Sets env c c' key (some value) 1
    unfolding put_found
    put_found_absent absent room =
        let s = v.shard (get_shard_index env c key) in
        let (a, pool, e, own) = put_absent-room (home env c v key) s.pool room in
        (new_cache a pool own absent room, rw e, new_cache-Sets a pool own absent room)

    -- On a valid cache that is below its capacity, or holds the key, and while there is memory,
    -- `put` returns and the cache holds the value for the key. The cache stays valid, with one
    -- item more at most, and what it holds for other keys does not change.
    pub put-Sets :
        (cached env c key ≡ none → c.size < c.capacity)
        → (c' : Cache) × (put env true now key value c ≡ done c') × Sets env c c' key (some value) 1
    unfolding put put_found
    put-Sets room = elim (Option-cases (lookup key (home env c v key).item_map)) [
      | inl e ↦
          let (c', run, sets) = put_found_absent e (room (cached-none env c v key e)) in
          (
            c',
            if-false dangling (unlocked env c v key)
                ∙ ap (put_found env true now key value c (i env c v key) (home env c v key)) e
                ∙ run,
            sets,
          )
      | inr (a, e) ↦ (
        _,
        if-false dangling (unlocked env c v key)
            ∙ ap (put_found env true now key value c (i env c v key) (home env c v key)) e,
        put_found-existing a e,
      )
    ]

    absent_in_map : cached env c key ≡ none → lookup key (home env c v key).item_map ≡ none
    absent_in_map absent = elim (Option-cases (lookup key (home env c v key).item_map)) [
      | inl e ↦ e
      | inr (a, e) ↦ let (it, found, val) = cached-some env c v key a e in absurd (cc (absent, val))
    ]

    -- On a valid cache at its capacity, `put` of a key that is not held is undefined: it locks a
    -- mutex that the thread holds itself.
    pub put_dangling :
        (memory : Bool)
        → cached env c key ≡ none
        → c.capacity ≤ c.size
        → put env memory now key value c ≡ dangling
    unfolding put put_found
    put_dangling memory absent full =
        if-false dangling (unlocked env c v key)
        ∙ ap (put_found env memory now key value c (i env c v key) (home env c v key))
            (absent_in_map absent)
        ∙ rw (put_absent_dangling memory (home env c v key) full)
