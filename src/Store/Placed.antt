-- ===== src/Store/Placed.antt =====
-- Every operation on a `DataStore` leaves each key where the hashes put it.
use redis_c.Prelude.{
  ℕ, ◌^◌, ◌<◌, refl, [], ◌∷◌, arith, ◌==◌, Bytes, beq, beq_iff, length, Bool-cases, inl, inr,
}
use redis_c.Prelude.Assoc.{lookup, lookup-insert, lookup-erase, insert, erase}
use redis_c.Cache.State.{Env}
use redis_c.Store.State.{
  DataStore, SubMap, get_bucket_index, get_submap_index, shard_index, store_value, erase_value,
  find_submap, set_submap,
}
use redis_c.Store.Reload.{AllSmall}
use redis_c.Store.Restore.{IsMap, IsPlaced}

insert-IsMap : (k v : Bytes) (m : SubMap) → IsMap m → IsMap (insert k v m)
unfolding lookup insert
insert-IsMap k v [] h = (refl, tt)
insert-IsMap k v ((j, w) ∷ m) h = elim (Bool-cases (beq j k)) [
  | inl e ↦ rw e (ground (arith, h.0, beq_iff j k, e), h.1)
  | inr e ↦ rw e (
    ground (arith, h.0, e, beq_iff j k, beq_iff k j, lookup-insert k j v m),
    insert-IsMap k v m h.1,
  )
]

erase-IsMap : (k : Bytes) (m : SubMap) → IsMap m → IsMap (erase k m)
unfolding erase
erase-IsMap k [] h = tt
erase-IsMap k ((j, w) ∷ m) h = elim (Bool-cases (beq j k)) [
  | inl e ↦ rw e (erase-IsMap k m h.1)
  | inr e ↦ rw e (ground (arith, h.0, e, lookup-erase k j m), erase-IsMap k m h.1)
]

insert-AllSmall :
    (k v : Bytes) (m : SubMap)
    → length k < 2 ^ 32
    → length v < 2 ^ 32
    → AllSmall m
    → AllSmall (insert k v m)
unfolding insert
insert-AllSmall k v [] hk hv h = (hk, hv, tt)
insert-AllSmall k v ((j, w) ∷ m) hk hv (hj, hw, h) = elim (Bool-cases (beq j k)) [
  | inl e ↦ rw e (hk, hv, h)
  | inr e ↦ rw e (hj, hw, insert-AllSmall k v m hk hv h)
]

erase-AllSmall : (k : Bytes) (m : SubMap) → AllSmall m → AllSmall (erase k m)
unfolding erase
erase-AllSmall k [] h = tt
erase-AllSmall k ((j, w) ∷ m) (hj, hw, h) = elim (Bool-cases (beq j k)) [
  | inl e ↦ rw e (erase-AllSmall k m h)
  | inr e ↦ rw e (hj, hw, erase-AllSmall k m h)
]

module _ (env : Env) (std_hash : Bytes → ℕ) (d : DataStore) (v : IsPlaced env std_hash d)
    (key : Bytes) where
  -- A property of the submaps is kept when the new submap has it.
  set_submap-each :
      (P : SubMap → Type 0) (m : SubMap)
      → P m
      → ((i b s : ℕ) → P (d.shards i b s))
      → (i b s : ℕ) → P ((set_submap env std_hash key m d).shards i b s)
  unfolding set_submap
  set_submap-each P m new old i b s = elim (Bool-cases (shard_index env std_hash d key == i)) [
    | inr e ↦ rw e (old i b s)
    | inl e ↦ rw e (elim (Bool-cases (get_bucket_index env std_hash key d.bucket_per_shard == b)) [
      | inr e' ↦ rw e' (old i b s)
      | inl e' ↦ rw e' (elim (Bool-cases (get_submap_index env std_hash key == s)) [
        | inr e'' ↦ rw e'' (old i b s)
        | inl e'' ↦ rw e'' new
      ])
    ])
  ]

  -- Where every key of a store stands where the hashes put it, once, with sizes that a file can
  -- hold, it does after a key and a value of such sizes are written.
  pub store_value-IsPlaced :
      (value : Bytes)
      → length key < 2 ^ 32
      → length value < 2 ^ 32
      → IsPlaced env std_hash (store_value env std_hash key value d)
  unfolding store_value find_submap set_submap shard_index
  store_value-IsPlaced value hk hv =
      let m = find_submap env std_hash d key in
      record {
        maps =
            set_submap-each IsMap (insert key value m) (insert-IsMap key value m (v.maps _ _ _))
              v.maps;
        small =
            set_submap-each AllSmall (insert key value m)
              (insert-AllSmall key value m hk hv (v.small _ _ _)) v.small;
        placed = λ i b s k w h.
            ground (arith, beq_iff key k, lookup-insert key k value m, v.placed i b s k w, h);
        positive = v.positive;
      }

  -- Erasing a key keeps every key where the hashes put it, once, with sizes that a file can hold.
  pub erase_value-IsPlaced : IsPlaced env std_hash (erase_value env std_hash key d)
  unfolding erase_value find_submap set_submap shard_index
  erase_value-IsPlaced =
      let m = find_submap env std_hash d key in
      record {
        maps = set_submap-each IsMap (erase key m) (erase-IsMap key m (v.maps _ _ _)) v.maps;
        small =
            set_submap-each AllSmall (erase key m) (erase-AllSmall key m (v.small _ _ _)) v.small;
        placed = λ i b s k w h.
            ground (arith, beq_iff key k, lookup-erase key k m, v.placed i b s k w, h);
        positive = v.positive;
      }
