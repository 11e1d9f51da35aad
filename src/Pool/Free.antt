-- ===== src/Pool/Free.antt =====
-- The free list that runs through the blocks, and what writing to a block does to it.
use mathlib.Core.List.{Mem, mem-cons_self, mem-cons_of_mem}
use redis_c.Prelude.{
  ℕ, zero, suc, ◌+◌, ◌≤◌, ◌<◌, ◌≡◌, ◌≢◌, ◌↔◌, ◌⊎◌, refl, ap, true, Option, none, some, List, [],
  ◌∷◌, ◌++◌, arith, length, dec_lt,
}
use redis_c.Pool.{Addr, block, node, addr_eq, write, link_blocks}

-- `l` is the list that starts at `head` and goes on by the blocks' first words.
abbrev pub FreeList : (Addr → Option Addr) → Option Addr → List Addr → Type 0
FreeList links head [] = head ≡ none
FreeList links head (a ∷ l) = (head ≡ some a) × FreeList links (links a) l

pub addr_eq_iff : (a b : Addr) → (addr_eq a b ≡ true) ↔ (a ≡ b)
unfolding addr_eq
addr_eq_iff (block c i) (block d j) = ground arith
addr_eq_iff (node n) (node m) = ground arith
addr_eq_iff (block c i) (node m) = ground arith
addr_eq_iff (node n) (block d j) = ground arith

pub write_ne :
    (links : Addr → Option Addr) (a b : Addr) (v : Option Addr)
    → a ≢ b
    → write links a v b ≡ links b
write_ne links a b v h = ground (arith, addr_eq_iff a b)

pub write_self : (links : Addr → Option Addr) (a : Addr) (v : Option Addr) → write links a v a ≡ v
write_self links a v = rw ((addr_eq_iff a a).1 refl)

-- The list depends on the words of its own blocks alone.
pub FreeList-agree :
    (links links' : Addr → Option Addr) (head : Option Addr) (l : List Addr)
    → ((a : Addr) → Mem a l → links' a ≡ links a)
    → FreeList links head l
    → FreeList links' head l
FreeList-agree links links' head [] same h = h
FreeList-agree links links' head (a ∷ l) same h = (
  h.0,
  rw (same a mem-cons_self)
      (FreeList-agree links links' (links a) l (λ b m. same b (mem-cons_of_mem a m)) h.1),
)

-- The blocks `i`, `i + 1`, … of chunk `c`.
abbrev pub blocks : ℕ → ℕ → ℕ → List Addr
blocks c i zero = []
blocks c i (suc n) = block c i ∷ blocks c (suc i) n

pub length-blocks : (c i n : ℕ) → length (blocks c i n) ≡ n
length-blocks c i zero = refl
length-blocks c i (suc n) = ap suc (length-blocks c (suc i) n)

abbrev pub IsOutside : ℕ → ℕ → ℕ → Addr → Type 0
IsOutside c i n (block d j) = (c ≢ d) ⊎ ((j < i) ⊎ (i + n ≤ j))
IsOutside c i n (node m) = Unit

pub link_blocks_outside :
    (n c i : ℕ) (links : Addr → Option Addr) (a : Addr)
    → IsOutside c i n a
    → link_blocks n c i links a ≡ links a
unfolding link_blocks addr_eq
link_blocks_outside zero c i links a h = refl
link_blocks_outside (suc n) c i links (block d j) h = ground (
  arith,
  link_blocks_outside n c (suc i) (write links (block c i) (some (block c (suc i)))) (block d j),
)
link_blocks_outside (suc n) c i links (node m) h = ground (
  arith,
  link_blocks_outside n c (suc i) (write links (block c i) (some (block c (suc i)))) (node m),
)

pub link_blocks_inside :
    (n c i : ℕ) (links : Addr → Option Addr) (j : ℕ)
    → i ≤ j
    → j < i + n
    → link_blocks n c i links (block c j) ≡ some (block c (suc j))
unfolding link_blocks addr_eq
link_blocks_inside zero c i links j h k = absurd (omega arith)
link_blocks_inside (suc n) c i links j h k =
    let links' = write links (block c i) (some (block c (suc i))) in
    elim (dec_lt i j) [
      | yes lt ↦ link_blocks_inside n c (suc i) links' j lt (omega arith)
      | no ge ↦
          let e : i ≡ j = omega arith in
          ground (arith, link_blocks_outside n c (suc i) links' (block c j))
    ]

-- A chain of blocks of one chunk, in front of an old list.
pub FreeList-blocks :
    (n c i : ℕ) (links : Addr → Option Addr) (head : Option Addr) (old : List Addr)
    → ((j : ℕ) → i ≤ j → j < i + n → links (block c j) ≡ some (block c (suc j)))
    → links (block c (i + n)) ≡ head
    → FreeList links head old
    → FreeList links (some (block c i)) (blocks c i (suc n) ++ old)
FreeList-blocks zero c i links head old inner last rest =
    let e : i + 0 ≡ i = omega arith in
    let last' : links (block c i) ≡ head = rw (← e) last in (refl, rw last' rest)
FreeList-blocks (suc n) c i links head old inner last rest =
    let e : i + suc n ≡ suc i + n = omega arith in
    (
      refl,
      rw (inner i (omega arith) (omega arith)) (
          FreeList-blocks n c (suc i) links head old (λ j h k. inner j (omega arith) (omega arith))
            (rw e at last) rest),
    )
