-- ===== src/Pool/Own.antt =====
-- A pool that hands out its own blocks only: src/MemoryPool.cpp and include/MemoryPool.h.
use redis_c.Prelude.{
  ℕ, zero, suc, ◌+◌, ◌-◌, ◌/◌, ◌≡◌, refl, true, Option, none, some, Bool-cases, inl, inr,
}
use redis_c.Pool.{
  Addr, block, node, write, Pool, link_blocks, allocate_chunks, allocate, addr_eq, init, prealloc,
  calculate_blocks_per_chunk,
}

-- No list node, or nothing.
abbrev pub IsBlock : Option Addr → Type 0
IsBlock none = Unit
IsBlock (some (block c i)) = Unit
IsBlock (some (node m)) = ⊥

-- The free list cannot lead to a list node.
pub record HasBlocks (p : Pool) : Type 0 where
  pub first : IsBlock p.next_free
  pub linked : (c i : ℕ) → IsBlock (p.links (block c i))

write-IsBlock :
    (links : Addr → Option Addr) (a : Addr) (v : Option Addr)
    → IsBlock v
    → ((c i : ℕ) → IsBlock (links (block c i)))
    → (c i : ℕ) → IsBlock (write links a v (block c i))
write-IsBlock links a v new old c i = elim (Bool-cases (addr_eq a (block c i))) [
  | inl e ↦ rw e new
  | inr e ↦ rw e (old c i)
]

link_blocks-IsBlock :
    (n c i : ℕ) (links : Addr → Option Addr)
    → ((d j : ℕ) → IsBlock (links (block d j)))
    → (d j : ℕ) → IsBlock (link_blocks n c i links (block d j))
unfolding link_blocks
link_blocks-IsBlock zero c i links h = h
link_blocks-IsBlock (suc n) c i links h =
    link_blocks-IsBlock n c (suc i) (write links (block c i) (some (block c (suc i))))
      (write-IsBlock links (block c i) (some (block c (suc i))) tt h)

-- The pool with one more chunk.
abbrev grown : Pool → Pool
grown p =
    let c = p.allocated_chunks in
    record p {
      next_free = some (block c 0);
      allocated_chunks = suc c;
      links =
          write (link_blocks (p.blocks_per_chunk - 1) c 0 p.links)
            (block c (p.blocks_per_chunk - 1)) p.next_free;
    }

grown-HasBlocks : (p : Pool) → HasBlocks p → HasBlocks (grown p)
grown-HasBlocks p v =
    let c = p.allocated_chunks in
    let links = link_blocks (p.blocks_per_chunk - 1) c 0 p.links in
    record {
      first = tt;
      linked =
          write-IsBlock links (block c (p.blocks_per_chunk - 1)) p.next_free v.first
            (link_blocks-IsBlock (p.blocks_per_chunk - 1) c 0 p.links v.linked);
    }

allocate_chunks-HasBlocks :
    (n : ℕ) (p : Pool)
    → HasBlocks p
    → (p' : Pool) × (allocate_chunks true n p ≡ some p') × HasBlocks p'
unfolding allocate_chunks
allocate_chunks-HasBlocks zero p v = (p, refl, v)
allocate_chunks-HasBlocks (suc n) p v = allocate_chunks-HasBlocks n (grown p) (grown-HasBlocks p v)

-- With memory, so is the pool that the constructor makes.
pub init-HasBlocks :
    (block_size n : ℕ) → (p : Pool) × (init true block_size n ≡ some p) × HasBlocks p
unfolding init prealloc
init-HasBlocks block_size n =
    let per_chunk = calculate_blocks_per_chunk block_size in
    allocate_chunks-HasBlocks ((n + per_chunk - 1) / per_chunk)
      (record {
        block_size = block_size;
        blocks_per_chunk = per_chunk;
        next_free = none;
        allocated_blocks = 0;
        allocated_chunks = 0;
        links = λ _. none;
      })
      (record { first = tt; linked = λ c i. tt })

-- With memory, such a pool hands out a block, and stays as it is.
pub allocate-HasBlocks :
    (p : Pool)
    → HasBlocks p
    → (c : ℕ) × (i : ℕ) × (p' : Pool) × (allocate true p ≡ some (block c i, p')) × HasBlocks p'
unfolding allocate
allocate-HasBlocks p v = go p.next_free v.first refl
  where
    go :
        (head : Option Addr)
        → IsBlock head
        → p.next_free ≡ head
        → (c : ℕ) × (i : ℕ) × (p' : Pool) × (allocate true p ≡ some (block c i, p')) × HasBlocks p'
    go none h e =
        let c = p.allocated_chunks in
        let w = grown-HasBlocks p v in
        (
          c,
          0,
          record (grown p) {
            next_free = (grown p).links (block c 0);
            allocated_blocks = p.allocated_blocks + 1;
          },
          rw e refl,
          record { first = w.linked c 0; linked = w.linked },
        )
    go (some (block c i)) h e = (
      c,
      i,
      record p { next_free = p.links (block c i); allocated_blocks = p.allocated_blocks + 1 },
      rw e refl,
      record { first = v.linked c i; linked = v.linked },
    )
    go (some (node m)) h e = absurd h
