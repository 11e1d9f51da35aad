-- ===== src/Pool.antt =====
-- The memory pool: `MemoryBlockPool` and `MemoryPool` of include/MemoryPool.h and
-- src/MemoryPool.cpp. The free blocks form a list that runs through the blocks themselves.
pub mod Free
pub mod Blocks
pub mod Own
mod Tests
use redis_c.Prelude.{
  ℕ, zero, suc, ◌+◌, ◌-◌, ◌/◌, Bool, true, false, ◌&&◌, Option, none, some, leb, ◌==◌,
  if◌then◌else◌,
}

-- Where memory stands: block `i` of a chunk of a pool, or a node that another allocator handed out.
pub data Addr : Type 0 where
  block : ℕ → ℕ → Addr
  node : ℕ → Addr

unfoldable pub addr_eq : Addr → Addr → Bool
addr_eq (block c i) (block d j) = (c == d) && (i == j)
addr_eq (node n) (node m) = n == m
addr_eq (block c i) (node m) = false
addr_eq (node n) (block d j) = false

-- `*reinterpret_cast<void**>(a) = v`, on the first words of the blocks.
abbrev pub write : (Addr → Option Addr) → Addr → Option Addr → Addr → Option Addr
write links a v b = if addr_eq a b then v else links b

-- The fields of `MemoryBlockPool`; `none` is `nullptr`. `allocated_chunks` is the size of
-- `allocated_chunks_`, and numbers the next chunk; `links` is the first word of each block.
pub record Pool : Type 0 where
  pub block_size : ℕ
  pub blocks_per_chunk : ℕ
  pub next_free : Option Addr
  pub allocated_blocks : ℕ
  pub allocated_chunks : ℕ
  pub links : Addr → Option Addr

unfoldable pub calculate_blocks_per_chunk : ℕ → ℕ
calculate_blocks_per_chunk block_size =
    if leb block_size 32
    then 512
    else if leb block_size 64
    then 256
    else if leb block_size 128
    then 128
    else if leb block_size 256
    then 64
    else if leb block_size 512
    then 32
    else if leb block_size 1024
    then 16
    else if leb block_size 2048
    then 8
    else if leb block_size 4096
    then 4
    else 1

-- The loop of `allocate_chunk`, with `n` rounds left: each block is linked to the next one.
unfoldable pub link_blocks : ℕ → ℕ → ℕ → (Addr → Option Addr) → Addr → Option Addr
link_blocks zero c i links = links
link_blocks (suc n) c i links =
    link_blocks n c (suc i) (write links (block c i) (some (block c (suc i))))

-- `allocate_chunk`; the flag is whether `aligned_alloc` returned memory, `none` is
-- `std::bad_alloc`.
unfoldable pub allocate_chunk : Bool → Pool → Option Pool
unfolding link_blocks addr_eq
allocate_chunk false p = none
allocate_chunk true p =
    let c = p.allocated_chunks in
    let links = link_blocks (p.blocks_per_chunk - 1) c 0 p.links in
    some (record p {
      next_free = some (block c 0);
      allocated_chunks = suc c;
      links = write links (block c (p.blocks_per_chunk - 1)) p.next_free;
    })

-- The end of `allocate`: the head of the free list is taken; `none` is `std::bad_alloc`.
unfoldable pub take_block : Pool → Option Addr → Option (Addr × Pool)
take_block p none = none
take_block p (some b) =
    some (b, record p { next_free = p.links b; allocated_blocks = p.allocated_blocks + 1 })

unfoldable pub refill : Bool → Pool → Option Addr → Option Pool
unfolding allocate_chunk
refill memory p none = allocate_chunk memory p
refill memory p (some b) = some p

unfoldable pub take_from : Option Pool → Option (Addr × Pool)
unfolding take_block
take_from none = none
take_from (some p) = take_block p p.next_free

unfoldable pub allocate : Bool → Pool → Option (Addr × Pool)
unfolding refill take_from
allocate memory p = take_from (refill memory p p.next_free)

unfoldable pub deallocate : Option Addr → Pool → Pool
unfolding addr_eq
deallocate none p = p
deallocate (some b) p = record p {
  links = write p.links b p.next_free;
  next_free = some b;
  allocated_blocks = p.allocated_blocks - 1;
}

unfoldable pub clear : Pool → Pool
clear p = record p { allocated_chunks = 0; next_free = none; allocated_blocks = 0 }

-- The loop of `prealloc`.
unfoldable pub allocate_chunks : Bool → ℕ → Pool → Option Pool
unfolding allocate_chunk
allocate_chunks memory zero p = some p
allocate_chunks memory (suc n) p = elim (allocate_chunk memory p) [
  | none ↦ none
  | some p' ↦ allocate_chunks memory n p'
]

unfoldable pub prealloc : Bool → ℕ → Pool → Option Pool
unfolding allocate_chunks
prealloc memory num_blocks p =
    allocate_chunks memory ((num_blocks + p.blocks_per_chunk - 1) / p.blocks_per_chunk) p

-- `MemoryBlockPool(block_size, initial_blocks)`
unfoldable pub init : Bool → ℕ → ℕ → Option Pool
unfolding calculate_blocks_per_chunk prealloc
init memory block_size initial_blocks = prealloc memory initial_blocks (record {
  block_size = block_size;
  blocks_per_chunk = calculate_blocks_per_chunk block_size;
  next_free = none;
  allocated_blocks = 0;
  allocated_chunks = 0;
  links = λ _. none;
})

-- `MemoryPool<T>(block_size)`: 0 stands for `sizeof(T)`, 16 blocks are the default.
unfoldable pub object_pool : Bool → ℕ → ℕ → Option Pool
unfolding init
object_pool memory size_of block_size =
    init memory (if block_size == 0 then size_of else block_size) 16
