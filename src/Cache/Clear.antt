-- ===== src/Cache/Clear.antt =====
-- Items that `clear` of src/AdaptiveCache.cpp destroys twice.
use redis_c.Prelude.{
  ℕ, zero, suc, ◌+◌, ◌≤◌, ◌<◌, ◌≡◌, refl, sym, ap, ◌∙◌, true, false, none, some, List, [], ◌∷◌,
  arith, length, ◌==◌, Option-cases, inl, inr, dec_lt,
}
use mathlib.Core.Path.{subst}
use redis_c.Prelude.Assoc.{lookup}
use redis_c.Prelude.Run.{Run, done, blocked, bad_alloc, dangling, runtime_error, endless, ◌>>=◌}
use redis_c.Pool.{Addr, Pool, deallocate, addr_eq}
use redis_c.Pool.Free.{addr_eq_iff}
use redis_c.Cache.Policy.{Item}
use redis_c.Cache.Items.{IsDistinct, addr_of, get_node, erase_node}
use redis_c.Cache.State.{Shard, Cache, update, set_shard, deallocate_item}
use redis_c.Cache.Ops.{release_items, clear_items, clear_shard, clear_from, clear}
use redis_c.Cache.Valid.{ShardIsValid, IsValid, items_in, update-IsValid}
use redis_c.Cache.Laws.{if-false}

get_node-erase_none :
    (a b : Addr) (l : List Item) → get_node a l ≡ none → get_node a (erase_node b l) ≡ none
unfolding get_node erase_node
get_node-erase_none a b [] h = refl
get_node-erase_none a b (it ∷ l) h = ground (arith, h, get_node-erase_none a b l)

-- What is destroyed stays so.
abbrev IsGone : Addr → Run (List Item × Pool) → Type 0
IsGone a (done (alive, pool)) = get_node a alive ≡ none
IsGone a dangling = Unit
IsGone a _ = ⊥

release_items-IsGone :
    (items alive : List Item) (pool : Pool) (a : Addr)
    → get_node a alive ≡ none
    → IsGone a (release_items items alive pool)
unfolding release_items deallocate_item
release_items-IsGone [] alive pool a h = h
release_items-IsGone (it ∷ rest) alive pool a h = elim (Option-cases (get_node it.addr alive)) [
  | inl e ↦
      let run : release_items (it ∷ rest) alive pool ≡ dangling = rw (e, deallocate_item) refl in
      subst (IsGone a) (sym run) tt
  | inr (x, e) ↦
      let alive' = erase_node it.addr alive in
      let pool' = deallocate (some it.addr) pool in
      let run : release_items (it ∷ rest) alive pool ≡ release_items rest alive' pool' =
        rw (e, deallocate_item) refl in
      subst (IsGone a) (sym run)
        (release_items-IsGone rest alive' pool' a (get_node-erase_none a it.addr alive h))
]

-- The first item of a shard is destroyed by the loop of `clear`, and again by `items.clear()`.
clear_shard_dangling :
    (n : ℕ) (sh : Shard) → ShardIsValid n sh → 0 < length sh.items → clear_shard sh ≡ dangling
unfolding clear_shard release_items deallocate_item clear_items get_node erase_node
clear_shard_dangling n sh v h = go sh.items v.distinct h
  where
    after :
        (it : Item) (rest : List Item) (r : Run (List Item × Pool))
        → IsGone it.addr r
        → (r >>= (λ (alive, pool).
            clear_items (it ∷ rest) alive
            >>= (λ _. done (record sh { items = []; item_map = []; item_pool = pool }))))
          ≡ dangling
    after it rest (done (alive, pool)) gone = rw (gone, clear_items) refl
    after it rest (blocked) gone = absurd gone
    after it rest (bad_alloc) gone = absurd gone
    after it rest (dangling) gone = refl
    after it rest (runtime_error) gone = absurd gone
    after it rest (endless) gone = absurd gone

    go :
        (items : List Item)
        → IsDistinct items
        → 0 < length items
        → clear_shard (record sh { items = items }) ≡ dangling
    go [] d h = absurd (omega arith)
    go (it ∷ rest) d h =
        let same : addr_eq it.addr it.addr ≡ true = ground (arith, addr_eq_iff it.addr it.addr) in
        rw (same, deallocate_item)
          (after it rest (release_items rest rest (deallocate (some it.addr) sh.item_pool))
            (release_items-IsGone rest rest (deallocate (some it.addr) sh.item_pool) it.addr d.1))

clear_shard_empty :
    (n : ℕ) (sh : Shard)
    → ShardIsValid n sh
    → length sh.items ≡ 0
    → (sh' : Shard) × (clear_shard sh ≡ done sh') × ShardIsValid n sh'
unfolding clear_shard release_items clear_items lookup addr_of get_node
clear_shard_empty n sh v h = go sh.items h
  where
    go :
        (items : List Item)
        → length items ≡ 0
        → (sh' : Shard) × (clear_shard (record sh { items = items }) ≡ done sh')
          × ShardIsValid n sh'
    go [] h = (
      record sh { items = []; item_map = [] },
      refl,
      record {
        distinct = tt;
        index = λ k. refl;
        unlocked = v.unlocked;
        unused = λ m le. refl;
        pool = v.pool;
      },
    )
    go (it ∷ rest) h = absurd (omega (arith, h))

clear_from_dangling :
    (n i j : ℕ) (c : Cache)
    → ((k : ℕ) → ShardIsValid c.next_node (c.shards k))
    → i ≤ j
    → j < i + n
    → 0 < length (c.shards j).items
    → clear_from n i c ≡ dangling
unfolding clear_from
clear_from_dangling zero i j c v le lt h = absurd (omega arith)
clear_from_dangling (suc n) i j c v le lt h =
    if-false dangling (v i).unlocked ∙ elim (dec_lt 0 (length (c.shards i).items)) [
      | yes some_item ↦
          ap (λ r. r >>= (λ sh'. clear_from n (suc i) (set_shard i sh' c)))
            (clear_shard_dangling c.next_node (c.shards i) (v i) some_item)
      | no none_there ↦
          let (sh', run, v') =
            clear_shard_empty c.next_node (c.shards i) (v i) (omega (arith, none_there)) in
          let above : i < j = above_empty (dec_lt i j) none_there in
          let other : (i == j) ≡ false = ground (arith, above) in
          let kept : length (update c.shards i sh' j).items ≡ length (c.shards j).items =
            rw other refl in
          ap (λ r. r >>= (λ sh'. clear_from n (suc i) (set_shard i sh' c))) run
          ∙ clear_from_dangling n (suc i) j (set_shard i sh' c)
              (update-IsValid c.next_node i c.shards sh' v v') above (omega (arith, lt))
              (omega (arith, kept, h))
    ]
  where
    above_empty : Dec (i < j) → (0 < length (c.shards i).items → ⊥) → i < j
    above_empty (yes lt) empty = lt
    above_empty (no ge) empty = let e : i ≡ j = omega (arith, ge, le) in absurd (empty (rw e h))

some_shard :
    (n : ℕ) (shards : ℕ → Shard)
    → 0 < items_in n shards
    → (j : ℕ) × (j < n) × (0 < length (shards j).items)
unfolding items_in
some_shard zero shards h = absurd (omega arith)
some_shard (suc n) shards h = elim (dec_lt 0 (length (shards n).items)) [
  | yes there ↦ (n, omega arith, there)
  | no none_there ↦
      let (j, lt, there) = some_shard n shards (omega (arith, h, none_there)) in
      (j, omega (arith, lt), there)
]

-- `clear` of a valid cache that holds something is undefined: each item is destroyed twice.
pub clear_dangling : (c : Cache) → IsValid c → 0 < c.size → clear c ≡ dangling
unfolding clear
clear_dangling c v some_item =
    let (j, lt, there) = some_shard c.shard_count c.shards (omega (arith, v.counted, some_item)) in
    ap (λ (r : Run Cache). r >>= (λ (y : Cache). done (record y { size = 0 })))
      (clear_from_dangling c.shard_count 0 j c v.shard (omega arith) (omega (arith, lt)) there)
