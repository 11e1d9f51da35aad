-- ===== src/Server/Bound.antt =====
-- Where the workers of the server's pool run: the constructor of `RedisServer`, `ThreadPool` and
-- `ThreadPool::start` of src/RedisServer.cpp and src/ThreadPool.cpp.
use redis_c.Prelude.{ℕ, ◌%◌, ◌≤◌, ◌<◌, ◌≡◌, ap, Bool, true, List, [], ◌∷◌, arith}
use redis_c.Prelude.Decimal.{ℤ, pos}
use redis_c.Prelude.Run.{done, ◌>>=◌}
use redis_c.Worker.Affinity.{
  initialize_cpu_assignment, calculate_optimal_cpu_assignment, as_ints,
  as_ints-calculate_optimal_cpu_assignment,
}
use redis_c.Worker.Binding.{
  ThreadTable, CpuSet, cpu_set, cpu_setsize, get_current_thread_affinity, start_workers,
  enter_loops,
}
use redis_c.Worker.Bound.{start_workers-bound}
use redis_c.Worker.Clients.{ThreadPool}
use redis_c.Server.State.{new_pool, pool_with, pool_of, pool_options}
use redis_c.Server.Start.{new_workers-AllIdle}

-- With the options of the server, an epoll instance for each worker and between 1 and 1024
-- processors, to each of which the system lets a thread be bound, the pool is made. Once it is
-- started, and the threads of the list `entering` have entered their loops in its order, the
-- thread of each worker `w` is on one processor alone, `w % cpu_count`.
pub new_pool-bound :
    (accepts : CpuSet → Bool) (schedules : ℕ → ℕ → Bool) (epoll : ℕ → Bool)
    (cpu_count worker_count : ℕ) (t : ThreadTable) (entering : List ℕ) (w : ℕ)
    → ((i : ℕ) → epoll i ≡ true)
    → 0 < cpu_count
    → cpu_count ≤ cpu_setsize
    → ((c : ℕ) → c < cpu_count → accepts (cpu_set (pos c)) ≡ true)
    → w < worker_count
    → (pool : ThreadPool) × (cpu_ids : List ℤ) × (new_pool cpu_count epoll pool_options worker_count
        ≡ done (pool, cpu_ids))
      × (get_current_thread_affinity true w (
            enter_loops accepts schedules cpu_ids entering
              (start_workers accepts schedules 0 cpu_ids t))
          ≡ w % cpu_count ∷ [])
unfolding new_pool pool_with initialize_cpu_assignment
new_pool-bound accepts schedules epoll cpu_count worker_count t entering w works known few accepted
      h =
    let cpus = as_ints (calculate_optimal_cpu_assignment cpu_count worker_count) in
    let (size, at) = as_ints-calculate_optimal_cpu_assignment cpu_count worker_count known in
    let (ws, run, idle, n) =
      new_workers-AllIdle epoll works cpus worker_count 0 (omega (arith, size)) in
    (
      record { workers = ws; client_to_worker = [] },
      cpus,
      ap (λ r. r >>= (λ made. done (pool_of made))) run,
      start_workers-bound accepts schedules cpus entering w (w % cpu_count) t (at w h) (omega arith)
          (accepted (w % cpu_count) (omega arith)),
    )
