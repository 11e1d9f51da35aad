-- ===== src/Pool/Blocks.antt =====
-- No two objects share a block.
use mathlib.Core.List.{Mem, Nodup, Nodup-cons, Perm, perm_middle, mem-cons, mem-append}
use mathlib.Core.List.Perm
use mathlib.Core.Logic.Or
use mathlib.Core.HLevel.{⊥_prop}
use native.Mathlib.Bridge.{le_prop}
use redis_c.Prelude.{
  ℕ, zero, suc, ◌+◌, ◌-◌, ◌*◌, ◌<◌, ◌≡◌, ◌≢◌, inl, refl, ap, ◌∙◌, true, none, some, List, [], ◌∷◌,
  ◌++◌, append_assoc, arith, length, length-append,
}
use redis_c.Pool.{
  Addr, block, node, write, Pool, link_blocks, allocate_chunk, refill, take_block, take_from,
  allocate, deallocate,
}
use redis_c.Pool.Free.{
  FreeList, FreeList-agree, FreeList-blocks, write_ne, write_self, blocks, length-blocks,
  link_blocks_outside, link_blocks_inside,
}

-- The address is a block of one of the pool's first `n` chunks.
abbrev pub IsOwned : ℕ → Addr → Type 0
IsOwned n (block c i) = c < n
IsOwned n (node m) = ⊥

-- `live` are the blocks that are handed out: with the free ones they are all the blocks there
-- are, each once.
pub record IsValid (p : Pool) (live : List Addr) : Type 0 where
  pub free : List Addr
  pub chain : FreeList p.links p.next_free free
  pub distinct : Nodup (free ++ live)
  pub owned : (a : Addr) → Mem a (free ++ live) → IsOwned p.allocated_chunks a
  pub counted : p.allocated_blocks ≡ length live
  pub total : length free + length live ≡ p.allocated_chunks * p.blocks_per_chunk
  pub positive : 0 < p.blocks_per_chunk

not-mem-head : {a : Addr} {l : List Addr} → Nodup (a ∷ l) → ¬ Mem a l
not-mem-head d = (Nodup-cons.0 d).0

ne_of_mem : {a b : Addr} {l : List Addr} → Nodup (a ∷ l) → Mem b l → a ≢ b
ne_of_mem d m e = not-mem-head d (rw e m)

mem_append_left : {a : Addr} (xs ys : List Addr) → Mem a xs → Mem a (xs ++ ys)
mem_append_left xs ys m = mem-append.1 (Or.inl m)

mem_append_right : {a : Addr} (xs ys : List Addr) → Mem a ys → Mem a (xs ++ ys)
mem_append_right xs ys m = mem-append.1 (Or.inr m)

module _ (live : List Addr) where
  -- The head of the free list is handed out.
  record Taken (a : Addr) (p' : Pool) : Type 0 where
    unused : ¬ Mem a live
    valid : IsValid p' (a ∷ live)

  take_block-IsValid :
      (p : Pool) (a : Addr) (rest : List Addr) (v : IsValid p live)
      → v.free ≡ a ∷ rest
      → (p' : Pool) × (take_block p p.next_free ≡ some (a, p')) × Taken a p'
  unfolding take_block
  take_block-IsValid p a rest v e =
      let chain : FreeList p.links p.next_free (a ∷ rest) = rw e at v.chain in
      let distinct : Nodup (a ∷ (rest ++ live)) = rw e at v.distinct in
      let same : Perm (rest ++ a ∷ live) (a ∷ (rest ++ live)) = perm_middle rest live in
      (
        record p { next_free = p.links a; allocated_blocks = p.allocated_blocks + 1 },
        rw (chain.0, take_block),
        record {
          unused = λ m. not-mem-head distinct (mem_append_right rest live m);
          valid = record {
            free = rest;
            chain = chain.1;
            distinct = Perm.nodup (Perm.symm same) distinct;
            owned = λ b m. v.owned b (rw e (Perm.subset same b m));
            counted = omega (arith, v.counted);
            total = omega (arith, v.total, ap (length {A = Addr}) e);
            positive = v.positive;
          };
        },
      )

-- Of a chunk that is new: no block of it is owned yet.
module _ (c : ℕ) (l : List Addr) (old : (a : Addr) → Mem a l → IsOwned c a) where
  IsOwned-new : (n i : ℕ) (a : Addr) → Mem a (blocks c i n ++ l) → IsOwned (suc c) a
  IsOwned-new zero i (block d j) m = let h : d < c = old (block d j) m in omega arith
  IsOwned-new zero i (node k) m = old (node k) m
  IsOwned-new (suc n) i (block d j) m =
      Or.elim le_prop (mem-cons.0 m) (λ e. grind arith) (IsOwned-new n (suc i) (block d j))
  IsOwned-new (suc n) i (node k) m =
      Or.elim ⊥_prop (mem-cons.0 m) (λ e. cc) (IsOwned-new n (suc i) (node k))

  not-mem-new : (n i j : ℕ) → j < i → ¬ Mem (block c j) (blocks c i n ++ l)
  not-mem-new zero i j h m = let k : c < c = old (block c j) m in omega arith
  not-mem-new (suc n) i j h m =
      Or.elim ⊥_prop (mem-cons.0 m) (λ e. ground arith) (not-mem-new n (suc i) j (omega arith))

  Nodup-new : (n i : ℕ) → Nodup l → Nodup (blocks c i n ++ l)
  Nodup-new zero i d = d
  Nodup-new (suc n) i d =
      Nodup-cons.1 (not-mem-new n (suc i) i (omega arith), Nodup-new n (suc i) d)

module _ (p : Pool) (live : List Addr) where
  -- A new chunk in front of a valid free list.
  record Grown (p' : Pool) : Type 0 where
    valid : IsValid p' live
    first : Addr
    rest : List Addr
    not_empty : valid.free ≡ first ∷ rest

  chunk_link_old :
      (v : IsValid p live) (n : ℕ) (a : Addr)
      → Mem a v.free
      → write
          (link_blocks n p.allocated_chunks 0 p.links)
          (block p.allocated_chunks n)
          p.next_free
          a
        ≡ p.links a
  chunk_link_old v n (block d j) m =
      let h : d < p.allocated_chunks = v.owned (block d j) (mem_append_left v.free live m) in
      write_ne (link_blocks n p.allocated_chunks 0 p.links) (block p.allocated_chunks n) (block d j)
        p.next_free (λ e. ground arith)
      ∙ link_blocks_outside n p.allocated_chunks 0 p.links (block d j) (inl (omega arith))
  chunk_link_old v n (node k) m = absurd (v.owned (node k) (mem_append_left v.free live m))

  chunk_link_inner :
      (n j : ℕ)
      → j < n
      → write
          (link_blocks n p.allocated_chunks 0 p.links)
          (block p.allocated_chunks n)
          p.next_free
          (block p.allocated_chunks j)
        ≡ some (block p.allocated_chunks (suc j))
  chunk_link_inner n j h =
      write_ne (link_blocks n p.allocated_chunks 0 p.links) (block p.allocated_chunks n)
        (block p.allocated_chunks j) p.next_free (λ e. ground arith)
      ∙ link_blocks_inside n p.allocated_chunks 0 p.links j (omega arith) (omega arith)

  allocate_chunk-IsValid :
      (v : IsValid p live) → (p' : Pool) × (allocate_chunk true p ≡ some p') × Grown p'
  unfolding allocate_chunk
  allocate_chunk-IsValid v =
      let n = p.blocks_per_chunk - 1 in
      let c = p.allocated_chunks in
      let e : 0 + n ≡ n = omega arith in
      (
        _,
        refl,
        record {
          valid = record {
            free = blocks c 0 (suc n) ++ v.free;
            chain =
                FreeList-blocks n c 0 _ p.next_free v.free
                  (λ j h k. chunk_link_inner n j (omega arith))
                  (rw e (write_self (link_blocks n c 0 p.links) (block c n) p.next_free))
                  (FreeList-agree p.links _ p.next_free v.free (chunk_link_old v n) v.chain);
            distinct = rw append_assoc (Nodup-new c (v.free ++ live) v.owned (suc n) 0 v.distinct);
            owned =
                λ a m. IsOwned-new c (v.free ++ live) v.owned (suc n) 0 a (rw append_assoc at m);
            counted = v.counted;
            total = omega (
              arith,
              v.total,
              length-append (blocks c 0 (suc n)) v.free,
              length-blocks c 0 (suc n),
            );
            positive = v.positive;
          };
          first = block c 0;
          rest = blocks c 1 n ++ v.free;
          not_empty = refl;
        },
      )

module _ (p : Pool) (live : List Addr) where
  refill-some : (a : Addr) → p.next_free ≡ some a → refill true p p.next_free ≡ some p
  unfolding refill
  refill-some a e = rw e

  refill-none : p.next_free ≡ none → refill true p p.next_free ≡ allocate_chunk true p
  unfolding refill
  refill-none e = rw e

  allocate_from_list :
      (l : List Addr) (v : IsValid p live)
      → v.free ≡ l
      → (a : Addr) × (p' : Pool) × (allocate true p ≡ some (a, p')) × Taken live a p'
  unfolding allocate
  allocate_from_list (a ∷ rest) v e =
      let chain : FreeList p.links p.next_free (a ∷ rest) = rw e at v.chain in
      let (p', taken, t) = take_block-IsValid live p a rest v e in
      (a, p', ap take_from (refill-some a chain.0) ∙ taken, t)
  allocate_from_list [] v e =
      let chain : FreeList p.links p.next_free [] = rw e at v.chain in
      let (p', grown, g) = allocate_chunk-IsValid p live v in
      let (q, taken, t) = take_block-IsValid live p' g.first g.rest g.valid g.not_empty in
      (g.first, q, ap take_from (refill-none chain ∙ grown) ∙ taken, t)

  -- While the system has memory, a pool never fails: it hands out a block that is not in use, and
  -- its bookkeeping stays valid with that block counted as handed out. The free list and the
  -- blocks in use are together all blocks of the chunks, each once.
  pub allocate-IsValid :
      IsValid p live
      → (a : Addr) × (p' : Pool) × (allocate true p ≡ some (a, p'))
        × (¬ Mem a live)
        × IsValid p' (a ∷ live)
  allocate-IsValid v =
      let (a, p', run, t) = allocate_from_list v.free v refl in (a, p', run, t.unused, t.valid)

-- A pool keeps its bookkeeping when it frees a block that is handed out: the block is free
-- again, the others stay handed out, and the count of handed-out blocks falls by one.
pub deallocate-IsValid :
    (p : Pool) (pre post : List Addr) (a : Addr)
    → IsValid p (pre ++ a ∷ post)
    → IsValid (deallocate (some a) p) (pre ++ post)
unfolding deallocate
deallocate-IsValid p pre post a v = record {
  free = a ∷ v.free;
  chain = (
    refl,
    rw write_self (
        FreeList-agree p.links _ p.next_free v.free
          (λ b m.
            write_ne p.links a b p.next_free
              (ne_of_mem distinct (mem_append_left v.free (pre ++ post) m)))
          v.chain),
  );
  distinct = distinct;
  owned = λ b m. v.owned b (Perm.subset (Perm.symm same) b m);
  counted = omega (arith, v.counted, length-append pre (a ∷ post), length-append pre post);
  total = omega (arith, v.total, length-append pre (a ∷ post), length-append pre post);
  positive = v.positive;
}
  where
    same : Perm (v.free ++ (pre ++ a ∷ post)) (a ∷ (v.free ++ (pre ++ post)))
    same = rw (← append_assoc, ← append_assoc) (perm_middle (v.free ++ pre) post)

    distinct : Nodup (a ∷ (v.free ++ (pre ++ post)))
    distinct = Perm.nodup same v.distinct
