-- ===== src/Worker/Binding.antt =====
-- The binding of threads to processors: `bind_thread_to_cpu`, `get_current_thread_affinity` and
-- `set_thread_priority` of include/ThreadAffinity.h, `WorkerThread::start`, `set_cpu_affinity`
-- and the start of `worker_loop`, `ThreadPool::start` and `enable_cpu_affinity` of
-- src/ThreadPool.cpp.
use redis_c.Prelude.{
  ℕ, zero, suc, ◌+◌, ◌≤◌, ◌<◌, ◌≡◌, refl, Bool, true, false, Option, none, some, List, [], ◌∷◌,
  arith, ltb, ◌==◌, ◌&&◌, if◌then◌else◌, get_elem?, dec_lt,
}
use redis_c.Prelude.Decimal.{ℤ, pos, negsuc}
use redis_c.Worker.Affinity.{PoolOptions}

-- `CPU_SETSIZE`
abbrev pub cpu_setsize : ℕ
cpu_setsize = 1024

-- `cpu_set_t`, of which only the bits below `cpu_setsize` are there.
abbrev pub CpuSet : Type 0
CpuSet = ℕ → Bool

-- `CPU_ZERO(&cpuset)` and `CPU_SET(cpu_id, &cpuset)`, which does nothing out of range.
unfoldable pub cpu_set : ℤ → CpuSet
cpu_set (pos cpu_id) i = ltb i cpu_setsize && (cpu_id == i)
cpu_set (negsuc n) i = false

-- What the system keeps of the workers' threads, worker by worker: whether the thread runs, its
-- processors, its scheduling.
pub record ThreadTable : Type 0 where
  pub running : ℕ → Bool
  pub affinity : ℕ → CpuSet
  pub scheduling : ℕ → ℕ × ℕ

-- `for (int i = 0; i < CPU_SETSIZE; i++) if (CPU_ISSET(i, &cpuset)) cpus.push_back(i)`, with `n`
-- left from `i` on.
unfoldable pub set_bits : ℕ → ℕ → CpuSet → List ℕ
set_bits zero i cpuset = []
set_bits (suc n) i cpuset =
    let rest = set_bits n (suc i) cpuset in if cpuset i then i ∷ rest else rest

-- `get_current_thread_affinity` in the thread of worker `w`; the flag is whether
-- `pthread_getaffinity_np` succeeds.
unfoldable pub get_current_thread_affinity : Bool → ℕ → ThreadTable → List ℕ
unfolding set_bits
get_current_thread_affinity known w t = if known then set_bits cpu_setsize 0 (t.affinity w) else []

abbrev pub put_at {ℓ} : {A : Type ℓ} → ℕ → A → (ℕ → A) → ℕ → A
put_at w x f v = if w == v then x else f v

-- `accepts` is whether `pthread_setaffinity_np` takes a set of processors, `schedules` whether
-- `pthread_setschedparam` takes a policy and a priority.
module _ (accepts : CpuSet → Bool) (schedules : ℕ → ℕ → Bool) where
  -- `bind_thread_to_cpu` for the thread of worker `w`, and `bind_current_thread_to_cpu` in it.
  unfoldable pub bind_thread_to_cpu : ℕ → ℤ → ThreadTable → Bool × ThreadTable
  unfolding cpu_set
  bind_thread_to_cpu w cpu_id t =
      let cpuset = cpu_set cpu_id in
      if accepts cpuset
      then (true, record t { affinity = put_at w cpuset t.affinity })
      else (false, t)

  unfoldable pub set_thread_priority : ℕ → ℕ → ℕ → ThreadTable → Bool × ThreadTable
  set_thread_priority policy priority w t =
      if schedules policy priority
      then (true, record t { scheduling = put_at w (policy, priority) t.scheduling })
      else (false, t)

  -- `WorkerThread::start` of worker `w`.
  unfoldable pub start_worker : ℕ → ℤ → ThreadTable → ThreadTable
  unfolding bind_thread_to_cpu
  start_worker w (pos cpu_id) t =
      (bind_thread_to_cpu w (pos cpu_id) (record t { running = put_at w true t.running })).1
  start_worker w (negsuc n) t = record t { running = put_at w true t.running }

  -- What `worker_loop` of worker `w` does first.
  unfoldable pub enter_loop : ℕ → ℤ → ThreadTable → ThreadTable
  unfolding bind_thread_to_cpu set_thread_priority
  enter_loop w (pos cpu_id) t =
      (set_thread_priority 0 0 w (bind_thread_to_cpu w (pos cpu_id) t).1).1
  enter_loop w (negsuc n) t = t

  -- `ThreadPool::start`: the loop over the workers from `w` on, by their processors.
  unfoldable pub start_workers : ℕ → List ℤ → ThreadTable → ThreadTable
  unfolding start_worker
  start_workers w [] t = t
  start_workers w (cpu_id ∷ rest) t = start_workers (suc w) rest (start_worker w cpu_id t)

  unfoldable pub enter_as : ℕ → Option ℤ → ThreadTable → ThreadTable
  unfolding enter_loop
  enter_as w none t = t
  enter_as w (some cpu_id) t = enter_loop w cpu_id t

  -- The threads of the workers of the list enter their loops, in its order.
  unfoldable pub enter_loops : List ℤ → List ℕ → ThreadTable → ThreadTable
  unfolding enter_as
  enter_loops cpu_ids [] t = t
  enter_loops cpu_ids (w ∷ rest) t = enter_loops cpu_ids rest (enter_as w (get_elem? cpu_ids w) t)

-- `WorkerThread::set_cpu_affinity` of worker `w`, on the list of the workers' `cpu_id_`.
unfoldable pub set_cpu_affinity : ℕ → ℤ → List ℤ → List ℤ
set_cpu_affinity w cpu_id [] = []
set_cpu_affinity zero cpu_id (c ∷ rest) = cpu_id ∷ rest
set_cpu_affinity (suc w) cpu_id (c ∷ rest) = c ∷ set_cpu_affinity w cpu_id rest

-- `ThreadPool::enable_cpu_affinity`
unfoldable pub enable_cpu_affinity : Bool → PoolOptions → PoolOptions
enable_cpu_affinity enable o = record o { enable_cpu_affinity = enable }

set_bits-above : (cpu_id n i : ℕ) → cpu_id < i → set_bits n i (cpu_set (pos cpu_id)) ≡ []
unfolding set_bits cpu_set
set_bits-above cpu_id zero i h = refl
set_bits-above cpu_id (suc n) i h =
    let other : (cpu_id == i) ≡ false = ground arith in
    ground (arith, other, set_bits-above cpu_id n (suc i) (omega arith))

pub set_bits-cpu_set :
    (cpu_id n i : ℕ)
    → i ≤ cpu_id
    → cpu_id < i + n
    → cpu_id < cpu_setsize
    → set_bits n i (cpu_set (pos cpu_id)) ≡ cpu_id ∷ []
unfolding set_bits cpu_set
set_bits-cpu_set cpu_id zero i h h' small = absurd (omega arith)
set_bits-cpu_set cpu_id (suc n) i h h' small = elim (dec_lt i cpu_id) [
  | yes before ↦
      let other : (cpu_id == i) ≡ false = ground arith in
      ground (arith, other, set_bits-cpu_set cpu_id n (suc i) before (omega arith) small)
  | no at ↦
      let e : i ≡ cpu_id = omega arith in
      let bit : (cpu_id == i) ≡ true = ground arith in
      let there : ltb i cpu_setsize ≡ true = ground arith in
      ground (arith, e, bit, there, set_bits-above cpu_id n (suc i) (omega arith))
]
