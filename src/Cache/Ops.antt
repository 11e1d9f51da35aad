-- ===== src/Cache/Ops.antt =====
-- The methods of `AdaptiveCache`: src/AdaptiveCache.cpp. `now` is what the clock shows.
use redis_c.Prelude.{
  ℕ, zero, suc, ◌+◌, ◌-◌, ◌/◌, min, max, Bool, true, false, ◌&&◌, Option, none, some, List, [], ◌∷◌,
  ltb, leb, ◌==◌, if◌then◌else◌, Bytes,
}
use redis_c.Prelude.Assoc.{lookup, insert}
use redis_c.Prelude.Decimal.{ℤ, pos, negsuc}
use redis_c.Pool.{Addr, block, node, Pool, allocate}
use redis_c.Cache.Policy.{Item, on_access, should_evict, get_size_adjustment}
use redis_c.Cache.Items.{get_node, modify_node, splice_front, erase_node}
use redis_c.Prelude.Run.{Run, done, bad_alloc, dangling, ◌>>=◌}
use redis_c.Cache.State.{
  Env, Shard, Cache, incr, update_size_stats, set_shard, get_shard_index, deallocate_item,
  drop_item, calculate_items_to_evict, evict_items, cleanup_expired,
}

module _ (env : Env) where
  -- The branch of `put` for a key that is there.
  unfoldable pub put_existing : ℕ → Bytes → Addr → Shard → Shard
  unfolding on_access modify_node splice_front
  put_existing now value a sh = record sh {
    items =
        splice_front a (modify_node a (λ it. on_access now (record it { value = value })) sh.items);
  }

  -- `if (size() >= capacity_)` of `put`, with the shard's mutex held.
  unfoldable pub make_room : Cache → Shard → Run (Cache × Shard)
  unfolding calculate_items_to_evict evict_items
  make_room c sh =
      if leb c.capacity c.size
      then evict_items (calculate_items_to_evict env c) c sh
      else done (c, sh)

  -- A new item: an object of the pool at `a`, and its copy at the front of the list.
  unfoldable pub link_new_item : ℕ → Bytes → Bytes → Addr → Pool → Cache → Shard → Cache × Shard
  unfolding update_size_stats
  link_new_item now key value a pool c sh =
      let new_item : Item = record {
        addr = a;
        key = key;
        value = value;
        last_access_time = now;
        access_count = 0;
      } in
      let iter = node c.next_node in
      let c' = update_size_stats (pos 1) c in
      (
        record c' { next_node = suc c'.next_node },
        record sh {
          items = record new_item { addr = iter } ∷ sh.items;
          item_map = insert key iter sh.item_map;
          item_pool = pool;
        },
      )

  -- The object is made at the address that the pool gives. Where that is a list node, its memory
  -- was given to the pool by someone who does not own it, and to write there is undefined.
  unfoldable pub construct_item :
      ℕ → Bytes → Bytes → Addr → Pool → Cache → Shard → Run (Cache × Shard)
  unfolding link_new_item
  construct_item now key value (block b i) pool c sh =
      done (link_new_item now key value (block b i) pool c sh)
  construct_item now key value (node m) pool c sh = dangling

  unfoldable pub put_new : Bool → ℕ → Bytes → Bytes → Cache → Shard → Run (Cache × Shard)
  unfolding allocate construct_item
  put_new memory now key value c sh = elim (allocate memory sh.item_pool) [
    | none ↦ bad_alloc
    | some (a, pool) ↦ construct_item now key value a pool c sh
  ]

  -- The end of `put`, after the mutex is released.
  unfoldable pub clean_up : Cache → Shard → Run (Cache × Shard)
  unfolding cleanup_expired
  clean_up c sh =
      if env.over_threshold c.size c.capacity then cleanup_expired c sh else done (c, sh)

  unfoldable pub put_absent : Bool → ℕ → Bytes → Bytes → Cache → Shard → Run (Cache × Shard)
  unfolding make_room put_new clean_up
  put_absent memory now key value c sh = do
    (c', sh') ← make_room c (record sh { locked = true })
    (c'', sh'') ← put_new memory now key value c' sh'
    clean_up c'' (record sh'' { locked = false })

  -- `put` with the answer of the map.
  unfoldable pub put_found : Bool → ℕ → Bytes → Bytes → Cache → ℕ → Shard → Option Addr → Run Cache
  unfolding put_existing put_absent
  put_found memory now key value c i sh (some a) =
      done (set_shard i (put_existing now value a sh) c)
  put_found memory now key value c i sh none = do
    (c', sh') ← put_absent memory now key value c sh
    done (set_shard i sh' c')

  -- `put`
  unfoldable pub put : Bool → ℕ → Bytes → Bytes → Cache → Run Cache
  unfolding get_shard_index put_found
  put memory now key value c =
      let i = get_shard_index env c key in
      let sh = c.shards i in
      if sh.locked then dangling else put_found memory now key value c i sh (lookup key sh.item_map)

  -- `get` at its node. A hit is moved to the front. Had the policy expired the item, `remove`
  -- would lock `policy_mutex_`, which `get` holds, again.
  unfoldable pub get_hit : ℕ → Addr → Cache → ℕ → Shard → Option Item → Run (Cache × Option Bytes)
  unfolding should_evict on_access modify_node splice_front
  get_hit now a c i sh none = dangling
  get_hit now a c i sh (some it) =
      if should_evict it
      then dangling
      else let items = splice_front a (modify_node a (on_access now) sh.items) in
        done (
          record (set_shard i (record sh { items = items }) c) { hits = incr c.hits },
          some it.value,
        )

  unfoldable pub get_found : ℕ → Cache → ℕ → Shard → Option Addr → Run (Cache × Option Bytes)
  unfolding get_node get_hit
  get_found now c i sh none = done (record c { misses = incr c.misses }, none)
  get_found now c i sh (some a) = get_hit now a c i sh (get_node a sh.items)

  unfoldable pub get : ℕ → Bytes → Cache → Run (Cache × Option Bytes)
  unfolding get_shard_index get_found
  get now key c =
      let i = get_shard_index env c key in
      let sh = c.shards i in
      if sh.locked then dangling else get_found now c i sh (lookup key sh.item_map)

  unfoldable pub contains : Bytes → Cache → Run Bool
  unfolding get_shard_index
  contains key c =
      let sh = c.shards (get_shard_index env c key) in
      if sh.locked
      then dangling
      else done (elim (lookup key sh.item_map) [ none ↦ false | some _ ↦ true ])

  unfoldable pub remove_found : Bytes → Cache → ℕ → Shard → Option Addr → Run (Cache × Bool)
  unfolding drop_item update_size_stats
  remove_found key c i sh none = done (c, false)
  remove_found key c i sh (some a) = do
    sh' ← drop_item key a sh
    done (update_size_stats (negsuc 0) (set_shard i sh' c), true)

  -- `remove`
  unfoldable pub remove : Bytes → Cache → Run (Cache × Bool)
  unfolding get_shard_index remove_found
  remove key c =
      let i = get_shard_index env c key in
      let sh = c.shards i in
      if sh.locked then dangling else remove_found key c i sh (lookup key sh.item_map)

-- The first loop of `clear` for a shard: the items are given back while their nodes stay in the
-- list. `alive` are the nodes whose items are not destroyed yet; also the pool.
unfoldable pub release_items : List Item → List Item → Pool → Run (List Item × Pool)
unfolding deallocate_item
release_items [] alive pool = done (alive, pool)
release_items (it ∷ rest) alive pool = do
  pool' ← deallocate_item it.addr alive pool
  release_items rest (erase_node it.addr alive) pool'

-- `items.clear()` destroys the item of every node.
unfoldable pub clear_items : List Item → List Item → Run (Unit {0})
unfolding get_node
clear_items [] alive = done tt
clear_items (it ∷ rest) alive = elim (get_node it.addr alive) [
  | none ↦ dangling
  | some _ ↦ clear_items rest (erase_node it.addr alive)
]

-- `clear`, the part for one shard.
unfoldable pub clear_shard : Shard → Run Shard
unfolding release_items clear_items
clear_shard sh = do
  (alive, pool) ← release_items sh.items sh.items sh.item_pool
  _ ← clear_items sh.items alive
  done (record sh { items = []; item_map = []; item_pool = pool })

-- The loop of `clear`, with `n` shards left from shard `i` on.
unfoldable pub clear_from : ℕ → ℕ → Cache → Run Cache
unfolding clear_shard
clear_from zero i c = done c
clear_from (suc n) i c =
    let sh = c.shards i in
    let rest = clear_shard sh >>= (λ sh'. clear_from n (suc i) (set_shard i sh' c)) in
    if sh.locked then dangling else rest

unfoldable pub clear : Cache → Run Cache
unfolding clear_from
clear c = do c' ← clear_from c.shard_count 0 c; done (record c' { size = 0 })

-- The loop of `set_capacity`, with `n` shards left from shard `i` on.
unfoldable pub evict_from : ℕ → ℕ → ℕ → ℕ → Cache → Run Cache
unfolding evict_items
evict_from zero i per_shard items_to_evict c = done c
evict_from (suc n) i per_shard items_to_evict c =
    let rest = do
      (c', sh) ← evict_items (min per_shard items_to_evict) c (c.shards i)
      evict_from n (suc i) per_shard (items_to_evict - min per_shard items_to_evict)
          (set_shard i sh c')
    in if items_to_evict == 0 then done c else rest

-- `set_capacity`
unfoldable pub clamp_capacity : Cache → ℕ → ℕ
clamp_capacity c new_capacity = max c.min_capacity (min c.max_capacity new_capacity)

unfoldable pub set_capacity : ℕ → Cache → Run Cache
unfolding clamp_capacity evict_from
set_capacity requested c =
    let new_capacity = clamp_capacity c requested in
    let c' = record c { capacity = new_capacity } in
    if ltb new_capacity c.capacity && ltb new_capacity c.size
    then evict_from c.shard_count 0 ((c.size - new_capacity) / c.shard_count + 1)
        (c.size - new_capacity) c'
    else done c'

-- A round of `adjustment_thread_func`; `scaled capacity percent` is the product in `double`.
unfoldable pub adjust : (ℕ → ℤ → ℕ) → Bool → Cache → Run Cache
unfolding get_size_adjustment set_capacity
adjust scaled enabled c =
    let next = set_capacity (clamp_capacity c (scaled c.capacity get_size_adjustment)) c in
    if enabled
    then elim get_size_adjustment [
      | pos d ↦
          if d == 0
          then done c
          else if clamp_capacity c (scaled c.capacity get_size_adjustment) == c.capacity
          then done c
          else next
      | negsuc d ↦
          if clamp_capacity c (scaled c.capacity get_size_adjustment) == c.capacity
          then done c
          else next
    ]
    else done c
