-- ===== src/Cache/Valid.antt =====
-- The invariant of the cache: the map and the list of a shard agree.
use redis_c.Prelude.{
  ℕ, zero, suc, ◌+◌, ◌^◌, ◌≤◌, ◌<◌, ◌≡◌, refl, sym, ◌∙◌, none, some, Option, arith, ◌==◌,
  if◌then◌else◌, Bytes, beq, beq_iff, length, Bool-cases, inl, inr, dec_lt, false,
}
use redis_c.Prelude.Assoc.{lookup}
use redis_c.Prelude.Run.{dangling}
use redis_c.Pool.{Addr, node}
use redis_c.Pool.Own.{HasBlocks}
use redis_c.Pool.Free.{addr_eq_iff}
use redis_c.Cache.Policy.{Item}
use redis_c.Cache.Items.{
  erase_node, length-splice_front, length-modify_node, get_node, modify_node, splice_front, addr_of,
  value_of, IsDistinct, get_node-addr_of, get_node-erase_node, value_of-splice_front,
  addr_of-splice_front, splice_front-IsDistinct, addr_of-modify_node, get_node-modify_node,
  modify_node-IsDistinct, value_of-modify_node,
}
use redis_c.Cache.State.{
  update, Env, Shard, Cache, set_shard, get_shard_index, drop_item, deallocate_item,
}

-- A shard at rest: list nodes are distinct, the map leads each key to its node and knows no other
-- key, the mutex is free, no node has a number that is still to be handed out, and the pool has
-- blocks of its own only.
pub record ShardIsValid (n : ℕ) (sh : Shard) : Type 0 where
  pub distinct : IsDistinct sh.items
  pub index : (k : Bytes) → lookup k sh.item_map ≡ addr_of k sh.items
  pub unlocked : sh.locked ≡ false
  pub unused : (m : ℕ) → n ≤ m → get_node (node m) sh.items ≡ none
  pub pool : HasBlocks sh.item_pool

-- The number of items in the first `n` shards.
unfoldable pub items_in : ℕ → (ℕ → Shard) → ℕ
items_in zero shards = 0
items_in (suc n) shards = length (shards n).items + items_in n shards

-- The cache at rest: its shards are, `size_` counts the items, and stays within the capacity.
pub record IsValid (c : Cache) : Type 0 where
  pub shard : (i : ℕ) → ShardIsValid c.next_node (c.shards i)
  pub counted : c.size ≡ items_in c.shard_count c.shards
  pub bounded : c.size ≤ c.capacity
  pub fits : c.capacity < 2 ^ 64
  pub positive : 0 < c.shard_count

items_in_other :
    (n i : ℕ) (shards : ℕ → Shard) (sh : Shard)
    → n ≤ i
    → items_in n (update shards i sh) ≡ items_in n shards
unfolding items_in
items_in_other zero i shards sh h = refl
items_in_other (suc n) i shards sh h = ground (arith, items_in_other n i shards sh (omega arith))

pub items_in-update :
    (n i : ℕ) (shards : ℕ → Shard) (sh : Shard)
    → i < n
    → items_in n (update shards i sh) + length (shards i).items
      ≡ items_in n shards + length sh.items
unfolding items_in
items_in-update zero i shards sh h = elim h [ ]
items_in-update (suc n) i shards sh h = elim (dec_lt i n) [
  | yes lt ↦ ground (arith, items_in-update n i shards sh lt)
  | no ge ↦
      let e : i ≡ n = omega arith in
      rw e (ground (arith, items_in_other n n shards sh (omega arith)))
]

-- What the cache holds for a key.
unfoldable pub cached : Env → Cache → Bytes → Option Bytes
unfolding get_shard_index
cached env c k = value_of k (c.shards (get_shard_index env c k)).items

module _ (n : ℕ) (sh : Shard) (v : ShardIsValid n sh) (key : Bytes) (a : Addr)
    (h : lookup key sh.item_map ≡ some a) where
  at : addr_of key sh.items ≡ some a
  at = rw (← v.index key) h

  -- The node that leaves the list is destroyed, and then once more.
  pub drop_item_dangling : drop_item key a sh ≡ dangling
  unfolding drop_item deallocate_item
  drop_item_dangling =
      let gone : get_node a (erase_node a sh.items) ≡ none =
        ground (arith, get_node-erase_node key a a sh.items v.distinct, addr_eq_iff a a) in
      rw (gone, deallocate_item)

  -- A change of the node, which then moves to the front.
  module _ (f : Item → Item) (same_key : (x : Item) → (f x).key ≡ x.key)
      (same_addr : (x : Item) → (f x).addr ≡ x.addr) where
    abbrev pub touched : Shard
    touched = record sh { items = splice_front a (modify_node a f sh.items) }

    modified : IsDistinct (modify_node a f sh.items)
    modified = modify_node-IsDistinct f same_key same_addr a sh.items v.distinct

    at_modified : addr_of key (modify_node a f sh.items) ≡ some a
    at_modified = addr_of-modify_node f same_key same_addr a key sh.items ∙ at

    get_node_front : (m : ℕ) → n ≤ m → get_node (node m) touched.items ≡ none
    unfolding splice_front get_node
    get_node_front m le =
        let l = modify_node a f sh.items in
        let none' : get_node (node m) l ≡ none =
          get_node-modify_node f same_key same_addr a (node m) sh.items (v.unused m le) in
        let (it, found, k, at', val) = get_node-addr_of key a l modified at_modified in
        rw (found, splice_front)
          (ground (
            arith,
            get_node-erase_node key a (node m) l modified,
            addr_eq_iff a (node m),
            addr_eq_iff it.addr (node m),
          ))

    pub touched-IsValid : ShardIsValid n touched
    touched-IsValid = record {
      distinct = splice_front-IsDistinct key a _ modified at_modified;
      index = λ k.
          v.index k
          ∙ sym (
              addr_of-splice_front key a _ modified at_modified k
              ∙ addr_of-modify_node f same_key same_addr a k sh.items);
      unlocked = v.unlocked;
      unused = get_node_front;
      pool = v.pool;
    }

    pub length-touched : length touched.items ≡ length sh.items
    length-touched =
        length-splice_front key a (modify_node a f sh.items) modified at_modified
        ∙ length-modify_node f same_key same_addr a sh.items

    pub value_of-touched :
        (w k : Bytes)
        → ((x : Item) → get_node a sh.items ≡ some x → (f x).value ≡ w)
        → value_of k touched.items ≡ (if beq key k then some w else value_of k sh.items)
    value_of-touched w k new =
        value_of-splice_front key a _ modified at_modified k
        ∙ value_of-modify_node f same_key same_addr a key k w sh.items new v.distinct at

-- Another shard takes the place of one.
pub update-IsValid :
    (n i : ℕ) (shards : ℕ → Shard) (sh : Shard)
    → ((j : ℕ) → ShardIsValid n (shards j))
    → ShardIsValid n sh
    → (j : ℕ) → ShardIsValid n (update shards i sh j)
update-IsValid n i shards sh v s j = elim (Bool-cases (i == j)) [
  | inl e ↦ rw e s
  | inr e ↦ rw e (v j)
]

pub get_shard_index-lt :
    (env : Env) (c : Cache) (k : Bytes) → IsValid c → get_shard_index env c k < c.shard_count
unfolding get_shard_index
get_shard_index-lt env c k v = omega (arith, v.positive)

pub cached-set_shard :
    (env : Env) (c : Cache) (key : Bytes) (sh : Shard) (x : Option Bytes)
    → ((k : Bytes)
        → value_of k sh.items
          ≡ (if beq key k then x else value_of k (c.shards (get_shard_index env c key)).items))
    → (k : Bytes)
    → cached env (set_shard (get_shard_index env c key) sh c) k
      ≡ (if beq key k then x else cached env c k)
unfolding cached
cached-set_shard env c key sh x h k = ground (arith, h k, beq_iff key k)
