-- ===== src/Worker/Bound.antt =====
-- Where the threads of a started pool run: src/ThreadPool.cpp and include/ThreadAffinity.h.
use redis_c.Prelude.{
  ℕ, zero, suc, ◌+◌, ◌<◌, ◌≡◌, refl, ap, ◌∙◌, Bool, true, false, Option, none, some, List, [], ◌∷◌,
  arith, ◌==◌, get_elem?, Bool-cases, inl, inr,
}
use redis_c.Prelude.Decimal.{ℤ, pos, negsuc}
use redis_c.Worker.Binding.{
  ThreadTable, CpuSet, cpu_set, cpu_setsize, set_bits, set_bits-cpu_set,
  get_current_thread_affinity, bind_thread_to_cpu, set_thread_priority, start_worker, start_workers,
  enter_loop, enter_as, enter_loops, put_at,
}

module _ (accepts : CpuSet → Bool) (schedules : ℕ → ℕ → Bool) where
  start_worker-other :
      (w v : ℕ) (cpu_id : ℤ) (t : ThreadTable)
      → (w ≡ v → ⊥)
      → (start_worker accepts schedules w cpu_id t).affinity v ≡ t.affinity v
  unfolding start_worker bind_thread_to_cpu
  start_worker-other w v (pos c) t h =
      let other : (w == v) ≡ false = ground (arith, h) in ground (arith, other)
  start_worker-other w v (negsuc n) t h = refl

  start_workers-before :
      (cpu_ids : List ℤ) (w v : ℕ) (t : ThreadTable)
      → v < w
      → (start_workers accepts schedules w cpu_ids t).affinity v ≡ t.affinity v
  unfolding start_workers
  start_workers-before [] w v t h = refl
  start_workers-before (c ∷ rest) w v t h =
      start_workers-before rest (suc w) v _ (omega arith)
      ∙ start_worker-other w v c t (λ e. omega (arith, e))

  bind_thread_to_cpu-own :
      (w c : ℕ) (t : ThreadTable)
      → accepts (cpu_set (pos c)) ≡ true
      → (bind_thread_to_cpu accepts schedules w (pos c) t).1.affinity w ≡ cpu_set (pos c)
  unfolding bind_thread_to_cpu
  bind_thread_to_cpu-own w c t accepted =
      let own : (w == w) ≡ true = ground arith in rw (accepted, own) refl

  -- Whether the system accepts or not.
  bind_thread_to_cpu-keeps :
      (w v c x : ℕ) (t : ThreadTable)
      → (w ≡ v → x ≡ c)
      → t.affinity v ≡ cpu_set (pos c)
      → (bind_thread_to_cpu accepts schedules w (pos x) t).1.affinity v ≡ cpu_set (pos c)
  unfolding bind_thread_to_cpu
  bind_thread_to_cpu-keeps w v c x t same bound = elim (Bool-cases (accepts (cpu_set (pos x)))) [
    | inr refused ↦ rw refused bound
    | inl accepted ↦ elim (Bool-cases (w == v)) [
      | inl own ↦ rw (accepted, own) (ap (λ y. cpu_set (pos y)) (same (ground (arith, own))))
      | inr other ↦ rw (accepted, other) bound
    ]
  ]

  set_thread_priority-affinity :
      (policy priority w : ℕ) (t : ThreadTable)
      → (set_thread_priority accepts schedules policy priority w t).1.affinity ≡ t.affinity
  unfolding set_thread_priority
  set_thread_priority-affinity policy priority w t = elim (Bool-cases (schedules policy priority)) [
    | inl done ↦ rw done refl
    | inr refused ↦ rw refused refl
  ]

  -- Each worker is bound to its processor, which the system accepts.
  pub start_workers-affinity :
      (cpu_ids : List ℤ) (w k c : ℕ) (t : ThreadTable)
      → get_elem? cpu_ids k ≡ some (pos c)
      → accepts (cpu_set (pos c)) ≡ true
      → (start_workers accepts schedules w cpu_ids t).affinity (w + k) ≡ cpu_set (pos c)
  unfolding start_workers start_worker bind_thread_to_cpu
  start_workers-affinity [] w k c t at accepted = absurd (ground (arith, at))
  start_workers-affinity (negsuc n ∷ rest) w zero c t at accepted = absurd (ground (arith, at))
  start_workers-affinity (pos x ∷ rest) w zero c t at accepted =
      let e : x ≡ c = ground (arith, at) in
      let first : w + 0 ≡ w = omega arith in
      rw (first, e)
        (start_workers-before rest (suc w) w _ (omega arith)
          ∙ bind_thread_to_cpu-own w c (record t { running = put_at w true t.running }) accepted)
  start_workers-affinity (x ∷ rest) w (suc k) c t at accepted =
      let e : w + suc k ≡ suc w + k = omega arith in
      rw e (start_workers-affinity rest (suc w) k c _ at accepted)

  enter_loop-affinity :
      (w v c : ℕ) (cpu_id : ℤ) (t : ThreadTable)
      → (w ≡ v → cpu_id ≡ pos c)
      → t.affinity v ≡ cpu_set (pos c)
      → (enter_loop accepts schedules w cpu_id t).affinity v ≡ cpu_set (pos c)
  unfolding enter_loop
  enter_loop-affinity w v c (negsuc n) t same bound = bound
  enter_loop-affinity w v c (pos x) t same bound =
      ap (λ f. f v) (set_thread_priority-affinity 0 0 w _)
      ∙ bind_thread_to_cpu-keeps w v c x t (λ e. ground (arith, same e)) bound

  enter_as-affinity :
      (w v c : ℕ) (o : Option ℤ) (t : ThreadTable)
      → (w ≡ v → o ≡ some (pos c))
      → t.affinity v ≡ cpu_set (pos c)
      → (enter_as accepts schedules w o t).affinity v ≡ cpu_set (pos c)
  unfolding enter_as
  enter_as-affinity w v c none t same bound = bound
  enter_as-affinity w v c (some cpu_id) t same bound =
      enter_loop-affinity w v c cpu_id t (λ e. ground (arith, same e)) bound

  -- The threads that enter their loops stay where they are bound.
  pub enter_loops-affinity :
      (cpu_ids : List ℤ) (entering : List ℕ) (v c : ℕ) (t : ThreadTable)
      → get_elem? cpu_ids v ≡ some (pos c)
      → t.affinity v ≡ cpu_set (pos c)
      → (enter_loops accepts schedules cpu_ids entering t).affinity v ≡ cpu_set (pos c)
  unfolding enter_loops
  enter_loops-affinity cpu_ids [] v c t at bound = bound
  enter_loops-affinity cpu_ids (w ∷ rest) v c t at bound =
      enter_loops-affinity cpu_ids rest v c _ at
        (enter_as-affinity w v c (get_elem? cpu_ids w) t (λ e. ap (get_elem? cpu_ids) e ∙ at) bound)

  -- A started worker whose processor the system accepts has it alone, however the threads of the
  -- pool enter their loops.
  pub start_workers-bound :
      (cpu_ids : List ℤ) (entering : List ℕ) (v c : ℕ) (t : ThreadTable)
      → get_elem? cpu_ids v ≡ some (pos c)
      → c < cpu_setsize
      → accepts (cpu_set (pos c)) ≡ true
      → get_current_thread_affinity true v (
          enter_loops accepts schedules cpu_ids entering
            (start_workers accepts schedules 0 cpu_ids t))
        ≡ c ∷ []
  unfolding get_current_thread_affinity
  start_workers-bound cpu_ids entering v c t at small accepted =
      let zero_add : v ≡ 0 + v = omega arith in
      ap (set_bits cpu_setsize 0) (
        enter_loops-affinity cpu_ids entering v c (start_workers accepts schedules 0 cpu_ids t) at (
          ap (start_workers accepts schedules 0 cpu_ids t).affinity zero_add
          ∙ start_workers-affinity cpu_ids 0 v c t at accepted))
      ∙ set_bits-cpu_set c cpu_setsize 0 (omega arith) (omega arith) small
