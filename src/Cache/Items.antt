-- ===== src/Cache/Items.antt =====
-- `Shard::items`, a `std::list` whose nodes are named by their addresses.
use redis_c.Prelude.{
  ◌+◌, ◌≡◌, refl, Option, none, some, List, [], ◌∷◌, arith, if◌then◌else◌, Bytes, beq, beq_iff,
  length, Bool-cases, inl, inr,
}
use redis_c.Pool.{Addr, addr_eq}
use redis_c.Pool.Free.{addr_eq_iff}
use redis_c.Cache.Policy.{Item}

-- The node at an address (`*it`).
unfoldable pub get_node : Addr → List Item → Option Item
get_node a [] = none
get_node a (it ∷ r) = if addr_eq it.addr a then some it else get_node a r

-- `items.erase(it)`
unfoldable pub erase_node : Addr → List Item → List Item
erase_node a [] = []
erase_node a (it ∷ r) = if addr_eq it.addr a then r else it ∷ erase_node a r

-- A change of the node in place.
unfoldable pub modify_node : Addr → (Item → Item) → List Item → List Item
modify_node a f [] = []
modify_node a f (it ∷ r) = if addr_eq it.addr a then f it ∷ r else it ∷ modify_node a f r

-- `items.splice(items.begin(), items, it)`
unfoldable pub splice_front : Addr → List Item → List Item
unfolding get_node erase_node
splice_front a items = elim (get_node a items) [ none ↦ items | some it ↦ it ∷ erase_node a items ]

-- Where a key stands, and its value: the views that the laws are about.
unfoldable pub addr_of : Bytes → List Item → Option Addr
addr_of k [] = none
addr_of k (it ∷ r) = if beq it.key k then some it.addr else addr_of k r

unfoldable pub value_of : Bytes → List Item → Option Bytes
value_of k [] = none
value_of k (it ∷ r) = if beq it.key k then some it.value else value_of k r

-- No two nodes have one key or one address.
abbrev pub IsDistinct : List Item → Type 0
IsDistinct [] = Unit
IsDistinct (it ∷ r) = (addr_of it.key r ≡ none) × (get_node it.addr r ≡ none) × IsDistinct r

-- A key's address leads to a node with that key.
pub get_node-addr_of :
    (k : Bytes) (a : Addr) (l : List Item)
    → IsDistinct l
    → addr_of k l ≡ some a
    → (it : Item) × (get_node a l ≡ some it)
      × (it.key ≡ k)
      × (it.addr ≡ a)
      × (value_of k l ≡ some it.value)
unfolding addr_of get_node value_of
get_node-addr_of k a [] d h = cc
get_node-addr_of k a (it ∷ r) d h = elim (Bool-cases (beq it.key k)) [
  | inl same ↦ (
    it,
    ground (arith, addr_eq_iff it.addr a),
    (beq_iff it.key k).0 same,
    ground arith,
    ground arith,
  )
  | inr other ↦
      let (x, found, key, at, v) = get_node-addr_of k a r d.2 (ground arith) in
      (x, ground (arith, addr_eq_iff it.addr a), key, at, ground arith)
]

-- An address and a value are there for the same keys.
pub value_of-none : (k : Bytes) (l : List Item) → addr_of k l ≡ none → value_of k l ≡ none
unfolding addr_of value_of
value_of-none k [] h = refl
value_of-none k (it ∷ r) h = ground (arith, value_of-none k r)

module _ (k : Bytes) (a : Addr) where
  pub addr_of-erase_node :
      (j : Bytes) (l : List Item)
      → IsDistinct l
      → addr_of k l ≡ some a
      → addr_of j (erase_node a l) ≡ (if beq k j then none else addr_of j l)
  unfolding addr_of get_node erase_node
  addr_of-erase_node j [] d h = cc
  addr_of-erase_node j (it ∷ r) d h = ground (
    arith,
    addr_eq_iff it.addr a,
    beq_iff it.key k,
    beq_iff it.key j,
    beq_iff k j,
    addr_of-erase_node j r d.2,
    get_node-addr_of k a r d.2,
  )

  pub value_of-erase_node :
      (j : Bytes) (l : List Item)
      → IsDistinct l
      → addr_of k l ≡ some a
      → value_of j (erase_node a l) ≡ (if beq k j then none else value_of j l)
  unfolding addr_of value_of get_node erase_node
  value_of-erase_node j [] d h = cc
  value_of-erase_node j (it ∷ r) d h = ground (
    arith,
    addr_eq_iff it.addr a,
    beq_iff it.key k,
    beq_iff it.key j,
    beq_iff k j,
    value_of-erase_node j r d.2,
    get_node-addr_of k a r d.2,
    value_of-none j r,
  )

  pub length-erase_node :
      (l : List Item) → IsDistinct l → addr_of k l ≡ some a → length (erase_node a l) + 1 ≡ length l
  unfolding addr_of get_node erase_node
  length-erase_node [] d h = cc
  length-erase_node (it ∷ r) d h = ground (
    arith,
    addr_eq_iff it.addr a,
    beq_iff it.key k,
    length-erase_node r d.2,
    get_node-addr_of k a r d.2,
  )

  pub get_node-erase_node :
      (b : Addr) (l : List Item)
      → IsDistinct l
      → get_node b (erase_node a l) ≡ (if addr_eq a b then none else get_node b l)
  unfolding get_node erase_node
  get_node-erase_node b [] d = ground arith
  get_node-erase_node b (it ∷ r) d = ground (
    arith,
    addr_eq_iff it.addr a,
    addr_eq_iff it.addr b,
    addr_eq_iff a b,
    get_node-erase_node b r d.2,
  )

  pub erase_node-IsDistinct :
      (l : List Item) → IsDistinct l → addr_of k l ≡ some a → IsDistinct (erase_node a l)
  unfolding addr_of get_node erase_node
  erase_node-IsDistinct [] d h = tt
  erase_node-IsDistinct (it ∷ r) d h = elim (Bool-cases (addr_eq it.addr a)) [
    | inl same ↦ rw same d.2
    | inr other ↦
        let h' : addr_of k r ≡ some a = ground (arith, addr_eq_iff it.addr a) in
        rw other (
          ground (arith, addr_of-erase_node it.key r d.2 h', beq_iff k it.key),
          ground (arith, get_node-erase_node it.addr r d.2),
          erase_node-IsDistinct r d.2 h',
        )
  ]

  -- Moving a node to the front changes the order alone.
  module _ (l : List Item) (d : IsDistinct l) (h : addr_of k l ≡ some a) where
    pub value_of-splice_front : (j : Bytes) → value_of j (splice_front a l) ≡ value_of j l
    unfolding splice_front value_of
    value_of-splice_front j =
        let (it, found, key, at, v) = get_node-addr_of k a l d h in
        rw (found, splice_front)
          (ground (arith, value_of-erase_node j l d h, beq_iff it.key j, beq_iff k j))

    pub addr_of-splice_front : (j : Bytes) → addr_of j (splice_front a l) ≡ addr_of j l
    unfolding splice_front addr_of
    addr_of-splice_front j =
        let (it, found, key, at, v) = get_node-addr_of k a l d h in
        rw (found, splice_front)
          (ground (arith, addr_of-erase_node j l d h, beq_iff it.key j, beq_iff k j))

    pub length-splice_front : length (splice_front a l) ≡ length l
    unfolding splice_front
    length-splice_front =
        let (it, found, key, at, v) = get_node-addr_of k a l d h in
        rw (found, splice_front) (omega (arith, length-erase_node l d h))

    pub splice_front-IsDistinct : IsDistinct (splice_front a l)
    unfolding splice_front
    splice_front-IsDistinct =
        let (it, found, key, at, v) = get_node-addr_of k a l d h in
        rw (found, splice_front)
          (
            ground (arith, addr_of-erase_node it.key l d h, beq_iff k it.key),
            ground (arith, get_node-erase_node it.addr l d, addr_eq_iff a it.addr),
            erase_node-IsDistinct l d h,
          )

-- A change that keeps each node's key and address.
module _ (f : Item → Item) (same_key : (x : Item) → (f x).key ≡ x.key)
    (same_addr : (x : Item) → (f x).addr ≡ x.addr) (a : Addr) where
  pub addr_of-modify_node :
      (j : Bytes) (l : List Item) → addr_of j (modify_node a f l) ≡ addr_of j l
  unfolding addr_of modify_node
  addr_of-modify_node j [] = refl
  addr_of-modify_node j (it ∷ r) =
      ground (arith, same_key it, same_addr it, addr_of-modify_node j r)

  pub get_node-modify_node :
      (b : Addr) (l : List Item) → get_node b l ≡ none → get_node b (modify_node a f l) ≡ none
  unfolding get_node modify_node
  get_node-modify_node b [] h = refl
  get_node-modify_node b (it ∷ r) h =
      ground (arith, same_key it, same_addr it, get_node-modify_node b r)

  pub modify_node-IsDistinct : (l : List Item) → IsDistinct l → IsDistinct (modify_node a f l)
  unfolding modify_node
  modify_node-IsDistinct [] d = tt
  modify_node-IsDistinct (it ∷ r) d = elim (Bool-cases (addr_eq it.addr a)) [
    | inl same ↦ rw same (rw (same_key it, same_addr it) d)
    | inr other ↦ rw other (
      rw addr_of-modify_node d.0,
      get_node-modify_node it.addr r d.1,
      modify_node-IsDistinct r d.2,
    )
  ]

  pub length-modify_node : (l : List Item) → length (modify_node a f l) ≡ length l
  unfolding modify_node
  length-modify_node [] = refl
  length-modify_node (it ∷ r) = ground (arith, length-modify_node r)

  -- The value of the key that stands at the address becomes `v`, if the change says so.
  pub value_of-modify_node :
      (k j v : Bytes) (l : List Item)
      → ((x : Item) → get_node a l ≡ some x → (f x).value ≡ v)
      → IsDistinct l
      → addr_of k l ≡ some a
      → value_of j (modify_node a f l) ≡ (if beq k j then some v else value_of j l)
  unfolding addr_of value_of get_node modify_node
  value_of-modify_node k j v [] new d h = cc
  value_of-modify_node k j v (it ∷ r) new d h = elim (Bool-cases (addr_eq it.addr a)) [
    | inl same ↦ rw same (
        ground (
          arith,
          addr_eq_iff it.addr a,
          beq_iff it.key k,
          beq_iff it.key j,
          beq_iff k j,
          same_key it,
          new it (rw same refl),
          get_node-addr_of k a r d.2,
        ))
    | inr other ↦ rw other (
        ground (
          arith,
          addr_eq_iff it.addr a,
          beq_iff it.key k,
          beq_iff it.key j,
          beq_iff k j,
          value_of-modify_node k j v r (λ x e. new x (rw other e)) d.2,
        ))
  ]
