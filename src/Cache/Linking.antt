-- ===== src/Cache/Linking.antt =====
-- The steps of `AdaptiveCache::put` of src/AdaptiveCache.cpp that link a new item.
use redis_c.Prelude.{
  ℕ, suc, ◌≡◌, refl, ap, ◌∙◌, false, none, some, List, [], ◌∷◌, arith, if◌then◌else◌, Bytes, beq,
  Bool-cases, inl, inr,
}
use redis_c.Prelude.Assoc.{lookup, lookup-insert}
use redis_c.Pool.{Addr, node, Pool}
use redis_c.Pool.Own.{HasBlocks}
use redis_c.Pool.Free.{addr_eq_iff}
use redis_c.Cache.Policy.{Item}
use redis_c.Cache.Items.{get_node, addr_of, value_of}
use redis_c.Prelude.Run.{done, dangling}
use redis_c.Cache.State.{Env, Shard, Cache, expired_keys, expire_keys}
use redis_c.Cache.Ops.{link_new_item, clean_up}
use redis_c.Cache.Laws.{if-false}
use redis_c.Cache.Valid.{ShardIsValid}

-- The LRU policy expires nothing.
expired_keys-nil : (l : List Item) → expired_keys l ≡ []
unfolding expired_keys
expired_keys-nil [] = refl
expired_keys-nil (it ∷ r) = expired_keys-nil r

pub clean_up_lem :
    (env : Env) (c : Cache) (sh : Shard) → sh.locked ≡ false → clean_up env c sh ≡ done (c, sh)
unfolding clean_up expire_keys
clean_up_lem env c sh h = elim (Bool-cases (env.over_threshold c.size c.capacity)) [
  | inl e ↦ rw e (if-false dangling h ∙ ap (λ l. expire_keys l c sh) (expired_keys-nil sh.items))
  | inr e ↦ rw e
]

-- A key that is not there goes to the front, at a node with a new number.
module _ (env : Env) (now : ℕ) (key value : Bytes) (a : Addr) (pool : Pool) (c : Cache) (sh : Shard)
    (s : ShardIsValid c.next_node sh) (absent : lookup key sh.item_map ≡ none) where
  abbrev linked : Cache × Shard
  linked = link_new_item env now key value a pool c sh

  pub link_new_item-IsValid : HasBlocks pool → ShardIsValid (suc c.next_node) linked.1
  unfolding link_new_item get_node addr_of
  link_new_item-IsValid own = record {
    distinct = (rw (← s.index key) absent, s.unused c.next_node (omega arith), s.distinct);
    index = λ k. ground (arith, lookup-insert key k (node c.next_node) sh.item_map, s.index k);
    unlocked = s.unlocked;
    unused =
        λ m le. ground (arith, addr_eq_iff (node c.next_node) (node m), s.unused m (omega arith));
    pool = own;
  }

  pub value_of-link_new_item :
      (k : Bytes)
      → value_of k linked.1.items ≡ (if beq key k then some value else value_of k sh.items)
  unfolding link_new_item value_of
  value_of-link_new_item k = refl

pub ShardIsValid-weaken : (n : ℕ) (sh : Shard) → ShardIsValid n sh → ShardIsValid (suc n) sh
ShardIsValid-weaken n sh s = record {
  distinct = s.distinct;
  index = s.index;
  unlocked = s.unlocked;
  unused = λ m le. s.unused m (omega arith);
  pool = s.pool;
}
