-- ===== src/Pool/Tests.antt =====
-- Runs of the memory pool.
use mathlib.Core.List.{Mem, Nodup-nil, Nodup-cons, mem-cons, not-mem-nil}
use mathlib.Core.Logic.Or
use mathlib.Core.HLevel.{⊥_prop}
use native.Mathlib.Bridge.{le_prop}
use redis_c.Prelude.{◌≡◌, refl, true, some, [], ◌∷◌, arith}
use redis_c.Pool.{Addr, block, node, addr_eq, Pool, allocate, deallocate}
use redis_c.Pool.Blocks.{IsValid, IsOwned, allocate-IsValid, deallocate-IsValid}
use redis_c.Demo.{demo_pool}

demo-IsOwned : (a : Addr) → Mem a (block 0 1 ∷ block 0 0 ∷ []) → IsOwned 1 a
demo-IsOwned (block c i) m =
    Or.elim le_prop (mem-cons.0 m) (λ e. ground arith)
      (λ m'. Or.elim le_prop (mem-cons.0 m') (λ e. ground arith) (λ z. absurd (not-mem-nil z)))
demo-IsOwned (node k) m =
    Or.elim ⊥_prop (mem-cons.0 m) (λ e. cc)
      (λ m'. Or.elim ⊥_prop (mem-cons.0 m') (λ e. cc) (λ z. absurd (not-mem-nil z)))

demo_pool-IsValid : IsValid demo_pool (block 0 0 ∷ [])
unfolding addr_eq
demo_pool-IsValid = record {
  free = block 0 1 ∷ [];
  chain = (refl, refl);
  distinct = Nodup-cons.1 (
    (λ m. Or.elim ⊥_prop (mem-cons.0 m) (λ e. ground arith) (λ z. absurd (not-mem-nil z))),
    Nodup-cons.1 ((λ m. absurd (not-mem-nil m)), Nodup-nil),
  );
  owned = demo-IsOwned;
  counted = refl;
  total = refl;
  positive = omega arith;
}

allocate-IsValid_example :
    (a : Addr) × (p' : Pool) × (allocate true demo_pool ≡ some (a, p'))
    × (¬ Mem a (block 0 0 ∷ []))
    × IsValid p' (a ∷ block 0 0 ∷ [])
allocate-IsValid_example = allocate-IsValid demo_pool (block 0 0 ∷ []) demo_pool-IsValid

deallocate-IsValid_example : IsValid (deallocate (some (block 0 0)) demo_pool) []
deallocate-IsValid_example = deallocate-IsValid demo_pool [] [] (block 0 0) demo_pool-IsValid
