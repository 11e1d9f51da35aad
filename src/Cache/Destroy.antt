-- ===== src/Cache/Destroy.antt =====
-- Items that `evict_items` of src/AdaptiveCache.cpp destroys twice.
use redis_c.Prelude.{
  ℕ, zero, suc, ◌<◌, min, ◌≡◌, refl, ap, ◌∙◌, true, false, some, List, [], ◌∷◌, map, arith, Bytes,
  length, take, ltb, ◌==◌, beq, beq_iff, if◌then◌else◌, Bool-cases, inl, inr,
}
use redis_c.Prelude.Assoc.{lookup}
use redis_c.Prelude.Run.{dangling}
use redis_c.Pool.{Addr}
use redis_c.Cache.Policy.{Item}
use redis_c.Cache.Items.{addr_of}
use redis_c.Cache.State.{
  Shard, Cache, candidate, insert_sorted, sort_candidates, evict_keys, evict_items,
}
use redis_c.Cache.Valid.{ShardIsValid, drop_item_dangling}
use redis_c.Cache.Laws.{if-false}

-- Candidates whose keys the list has.
abbrev AllHeld : List Item → List (Bytes × ℕ) → Type 0
AllHeld items [] = Unit
AllHeld items ((key, p) ∷ l) = ((a : Addr) × (addr_of key items ≡ some a)) × AllHeld items l

insert_sorted-AllHeld :
    (items : List Item) (x : Bytes × ℕ) (l : List (Bytes × ℕ))
    → AllHeld items (x ∷ l)
    → AllHeld items (insert_sorted x l)
unfolding insert_sorted
insert_sorted-AllHeld items x [] h = h
insert_sorted-AllHeld items x (y ∷ l) h = elim (Bool-cases (ltb y.1 x.1)) [
  | inl first ↦ rw first h
  | inr later ↦ rw later (h.1.0, insert_sorted-AllHeld items x l (h.0, h.1.1))
]

sort_candidates-AllHeld :
    (items : List Item) (l : List (Bytes × ℕ)) → AllHeld items l → AllHeld items (sort_candidates l)
unfolding sort_candidates
sort_candidates-AllHeld items [] h = tt
sort_candidates-AllHeld items (x ∷ l) h =
    insert_sorted-AllHeld items x (sort_candidates l) (h.0, sort_candidates-AllHeld items l h.1)

AllHeld-cons :
    (it : Item) (items : List Item) (l : List (Bytes × ℕ))
    → AllHeld items l
    → AllHeld (it ∷ items) l
unfolding addr_of
AllHeld-cons it items [] h = tt
AllHeld-cons it items ((key, p) ∷ l) ((a, e), h) = (
  elim (Bool-cases (beq it.key key)) [
    | inl same ↦ (it.addr, rw same refl)
    | inr other ↦ (a, rw other e)
  ],
  AllHeld-cons it items l h,
)

candidates-AllHeld : (items : List Item) → AllHeld items (map candidate items)
unfolding candidate addr_of
candidates-AllHeld [] = tt
candidates-AllHeld (it ∷ items) =
    ((it.addr, own), AllHeld-cons it items (map candidate items) (candidates-AllHeld items))
  where
    same_key : beq it.key it.key ≡ true
    same_key = ground (arith, beq_iff it.key it.key)

    own : (if beq it.key it.key then some it.addr else addr_of it.key items) ≡ some it.addr
    own = rw same_key refl

length-insert_sorted :
    (x : Bytes × ℕ) (l : List (Bytes × ℕ)) → length (insert_sorted x l) ≡ suc (length l)
unfolding insert_sorted
length-insert_sorted x [] = refl
length-insert_sorted x (y ∷ l) = ground (arith, length-insert_sorted x l)

length-sort_candidates : (l : List (Bytes × ℕ)) → length (sort_candidates l) ≡ length l
unfolding sort_candidates
length-sort_candidates [] = refl
length-sort_candidates (x ∷ l) =
    length-insert_sorted x (sort_candidates l) ∙ ap (λ m. suc m) (length-sort_candidates l)

some_candidate :
    (items : List Item) → 0 < length items → 0 < length (sort_candidates (map candidate items))
some_candidate [] h = absurd (omega (arith, h))
some_candidate (it ∷ items) h = omega (arith, length-sort_candidates (map candidate (it ∷ items)))

evict_first :
    (n k : ℕ) (c : Cache) (sh : Shard)
    → ShardIsValid n sh
    → (l : List (Bytes × ℕ)) → AllHeld sh.items l
    → 0 < length l
    → evict_keys (take (min (suc k) (length l)) l) c sh ≡ dangling
unfolding evict_keys
evict_first n k c sh v [] h some_item = absurd (omega arith)
evict_first n k c sh v ((key, p) ∷ l) ((a, e), h) some_item =
    let found : lookup key sh.item_map ≡ some a = v.index key ∙ e in
    let counts : min (suc k) (suc (length l)) ≡ suc (min k (length l)) = omega arith in
    ap (λ m. evict_keys (take m ((key, p) ∷ l)) c sh) counts
    ∙ rw (found, evict_keys) (rw (drop_item_dangling n sh v key a found) refl)

-- Where a shard at rest has an item, `evict_items` of any number is undefined.
pub evict_items_dangling :
    (n count : ℕ) (c : Cache) (sh : Shard)
    → ShardIsValid n sh
    → 0 < count
    → 0 < length sh.items
    → evict_items count c sh ≡ dangling
unfolding evict_items
evict_items_dangling n zero c sh v positive some_item = absurd (omega arith)
evict_items_dangling n (suc k) c sh v positive some_item =
    let nonzero : (suc k == 0) ≡ false = ground arith in
    rw nonzero (
      if-false dangling v.unlocked
      ∙ evict_first n k c sh v (sort_candidates (map candidate sh.items))
          (sort_candidates-AllHeld sh.items (map candidate sh.items) (candidates-AllHeld sh.items))
          (some_candidate sh.items some_item))
