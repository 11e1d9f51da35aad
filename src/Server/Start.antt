-- ===== src/Server/Start.antt =====
-- What the constructors of `RedisServer` and `ThreadPool` make: src/RedisServer.cpp and
-- src/ThreadPool.cpp.
use redis_c.Prelude.{
  ℕ, zero, suc, ◌+◌, ◌*◌, ◌%◌, ◌^◌, ◌<◌, ◌≡◌, refl, sym, ap, ◌∙◌, Bool, true, false, none, List, [],
  ◌∷◌, arith, Bytes, length, drop, drop_of_length-le,
}
use redis_c.Prelude.Decimal.{ℤ}
use redis_c.Prelude.Run.{done, ◌>>=◌}
use redis_c.Cache.State.{Env}
use redis_c.Store.Codec.{Zlib}
use redis_c.Store.Contents.{contents, IsCoherent}
use redis_c.Store.Init.{new_store-IsCoherent}
use redis_c.Worker.Affinity.{initialize_cpu_assignment-length}
use redis_c.Worker.Clients.{WorkerThread, ThreadPool}
use redis_c.Config.Load.{Config}
use redis_c.Server.State.{
  RedisServer, cpu_at, assigned_cpu, new_worker, new_workers, pool_of, pool_with, new_pool,
  store_options, pool_options, server_of, new_server,
}
use redis_c.Server.Limit.{AllIdle}

cpu_at-drop :
    (cpus : List ℤ) (i : ℕ)
    → i < length cpus
    → (c : ℤ) × (cpu_at cpus i ≡ done c) × (drop i cpus ≡ c ∷ drop (suc i) cpus)
cpu_at-drop [] i h = absurd (omega arith)
cpu_at-drop (c ∷ cpus) zero h = (c, refl, refl)
cpu_at-drop (c ∷ cpus) (suc i) h = cpu_at-drop cpus i (omega arith)

module _ (epoll : ℕ → Bool) (works : (i : ℕ) → epoll i ≡ true) where
  -- Each worker gets its processor; none has a client.
  pub new_workers-AllIdle :
      (cpus : List ℤ) (n i : ℕ)
      → length cpus ≡ n + i
      → (ws : List WorkerThread) × (new_workers epoll true cpus n i ≡ done (ws, drop i cpus))
        × AllIdle ws
        × (length ws ≡ n)
  unfolding new_workers new_worker assigned_cpu
  new_workers-AllIdle cpus zero i h =
      ([], ap (λ l. done ([], l)) (sym (drop_of_length-le i cpus (omega (arith, h)))), tt, refl)
  new_workers-AllIdle cpus (suc n) i h =
      let (c, at, split) = cpu_at-drop cpus i (omega (arith, h)) in
      let (ws, run, idle, size) = new_workers-AllIdle cpus n (suc i) (omega (arith, h)) in
      (
        record { clients = []; client_count = 0; processed_commands = 0 } ∷ ws,
        rw (at, works i, run, split) refl,
        (refl, refl, idle),
        omega (arith, size),
      )

  new_pool-AllIdle :
      (cpu_count worker_count : ℕ)
      → 0 < cpu_count
      → (pool : ThreadPool) × (cpu_ids : List ℤ) × (new_pool cpu_count epoll pool_options
            worker_count
          ≡ done (pool, cpu_ids))
        × AllIdle pool.workers
        × (length pool.workers ≡ worker_count)
  unfolding new_pool pool_with
  new_pool-AllIdle cpu_count worker_count known =
      let (cpus, e, size) =
        initialize_cpu_assignment-length cpu_count pool_options worker_count known in
      let (ws, run, idle, n) = new_workers-AllIdle cpus worker_count 0 (omega (arith, size)) in
      (
        record { workers = ws; client_to_worker = [] },
        cpus,
        ap (pool_with epoll true worker_count) e
            ∙ ap (λ r. r >>= (λ made. done (pool_of made))) run,
        idle,
        n,
      )

-- What a new server is: its workers are as many as asked, without clients, and its store is
-- coherent and holds nothing.
pub record IsReady (env : Env) (std_hash : Bytes → ℕ) (z : Zlib) (f : ℕ) (config : Config)
    (s : RedisServer) : Type 0 where
  pub config_kept : s.config ≡ config
  pub not_running : s.running ≡ false
  pub not_started : s.started ≡ false
  pub no_socket : s.server_fd ≡ none
  pub idle : AllIdle s.worker_pool.workers
  pub workers : length s.worker_pool.workers ≡ config.worker_threads
  pub coherent : IsCoherent env std_hash z f s.store
  pub capacity : s.store.cache.capacity ≡ config.cache_size_mb * 1000 % 2 ^ 64
  pub nothing : (k : Bytes) → contents env std_hash z f s.store k ≡ done none

-- With memory, a directory for the files, a known number of processors, an epoll instance for
-- each worker and no files, every configuration with some shard makes a server: it has the
-- configured workers, all without clients and not started, and a coherent store that holds
-- nothing, with `cache_size_mb * 1000` entries for its cache.
pub new_server-IsReady :
    (env : Env) (std_hash : Bytes → ℕ) (z : Zlib) (f item_size cpu_count : ℕ) (epoll : ℕ → Bool)
    (config : Config)
    → ((i : ℕ) → epoll i ≡ true)
    → 0 < cpu_count
    → 0 < config.shard_count
    → (s : RedisServer) × (new_server env std_hash true true item_size cpu_count epoll
          (λ _. none)
          config
        ≡ done s)
      × IsReady env std_hash z f config s
unfolding new_server store_options
new_server-IsReady env std_hash z f item_size cpu_count epoll config works known shards =
    let (d, made, coherent, placed, setting, capacity, size, nothing, uncached) =
      new_store-IsCoherent env std_hash item_size (store_options config) shards (omega arith)
        (omega arith) z f in
    let (pool, cpu_ids, run, idle, n) =
      new_pool-AllIdle epoll works cpu_count config.worker_threads known in
    (
      server_of config d (pool, cpu_ids),
      ap
            (λ r. r >>= (λ store.
              new_pool cpu_count epoll pool_options config.worker_threads
              >>= (λ made. done (server_of config store made))))
            made
          ∙ ap (λ r. r >>= (λ made. done (server_of config d made))) run,
      record {
        config_kept = refl;
        not_running = refl;
        not_started = refl;
        no_socket = refl;
        idle = idle;
        workers = n;
        coherent = coherent;
        capacity = capacity;
        nothing = nothing;
      },
    )
