-- ===== src/Server/State.antt =====
-- The fields of `RedisServer`, its constructor, and the constructor of `ThreadPool`:
-- include/RedisServer.h, src/RedisServer.cpp and src/ThreadPool.cpp.
use redis_c.Prelude.{
  ℕ, zero, suc, ◌*◌, ◌%◌, ◌^◌, Bool, true, false, Option, none, some, List, [], ◌∷◌, Bytes,
}
use redis_c.Prelude.Decimal.{ℤ, negsuc}
use redis_c.Prelude.Run.{Run, done, dangling, runtime_error, ◌>>=◌}
use redis_c.Cache.State.{Env}
use redis_c.Store.State.{DataStore}
use redis_c.Store.Init.{StoreOptions, new_store}
use redis_c.Worker.Affinity.{PoolOptions, initialize_cpu_assignment}
use redis_c.Worker.Clients.{WorkerThread, ThreadPool}
use redis_c.Config.Load.{Config}

-- `WorkerThread(worker_id, handler, cpu_id)`; the flag is whether `epoll_create1` succeeded.
unfoldable pub new_worker : Bool → Run WorkerThread
new_worker false = runtime_error
new_worker true = done (record { clients = []; client_count = 0; processed_commands = 0 })

-- `cpu_assignments_[i]`
abbrev pub cpu_at : List ℤ → ℕ → Run ℤ
cpu_at [] i = dangling
cpu_at (c ∷ rest) zero = done c
cpu_at (c ∷ rest) (suc i) = cpu_at rest i

unfoldable pub assigned_cpu : Bool → List ℤ → ℕ → Run ℤ
assigned_cpu true cpus i = cpu_at cpus i
assigned_cpu false cpus i = done (negsuc 0)

-- The loop of the constructor of `ThreadPool`, with `n` workers left from worker `i` on: the
-- workers and their processors. `epoll i` is whether worker `i` gets its epoll instance.
unfoldable pub new_workers : (ℕ → Bool) → Bool → List ℤ → ℕ → ℕ → Run (List WorkerThread × List ℤ)
unfolding new_worker assigned_cpu
new_workers epoll affinity cpus zero i = done ([], [])
new_workers epoll affinity cpus (suc n) i = do
  cpu_id ← assigned_cpu affinity cpus i
  worker ← new_worker (epoll i)
  (workers, cpu_ids) ← new_workers epoll affinity cpus n (suc i)
  done (worker ∷ workers, cpu_id ∷ cpu_ids)

abbrev pub pool_of : List WorkerThread × List ℤ → ThreadPool × List ℤ
pool_of (workers, cpu_ids) = (record { workers = workers; client_to_worker = [] }, cpu_ids)

-- The body of the constructor, over `cpu_assignments_`.
unfoldable pub pool_with : (ℕ → Bool) → Bool → ℕ → Option (List ℤ) → Run (ThreadPool × List ℤ)
unfolding new_workers
pool_with epoll affinity worker_count none = dangling
pool_with epoll affinity worker_count (some cpus) = do
  made ← new_workers epoll affinity cpus worker_count 0
  done (pool_of made)

-- `ThreadPool(worker_count, handler, options)`
unfoldable pub new_pool : ℕ → (ℕ → Bool) → PoolOptions → ℕ → Run (ThreadPool × List ℤ)
unfolding pool_with
new_pool cpu_count epoll options worker_count =
    pool_with epoll options.enable_cpu_affinity worker_count
      (initialize_cpu_assignment cpu_count options worker_count)

-- The fields of `RedisServer` that decide what it does; `server_fd_` is -1 where `server_fd` is
-- `none`. `started` is whether the workers have threads to join. `closed` lists the descriptors
-- that were given to `close`, the last first.
pub record RedisServer : Type 0 where
  pub config : Config
  pub server_fd : Option ℕ
  pub running : Bool
  pub started : Bool
  pub store : DataStore
  pub worker_pool : ThreadPool
  pub cpu_ids : List ℤ
  pub total_connections : ℕ
  pub closed : List ℕ

-- `ds_options`
unfoldable pub store_options : Config → StoreOptions
store_options config = record {
  shard_count = config.shard_count;
  bucket_per_shard = 16;
  enable_compression = config.enable_compression;
  cache_shards = config.shard_count;
  cache_size = config.cache_size_mb * 1000 % 2 ^ 64;
  memory_pool_block_size = 4096;
}

abbrev pub pool_options : PoolOptions
pool_options = record {
  enable_cpu_affinity = true;
  auto_detect_topology = true;
  custom_cpu_assignment = [];
}

abbrev pub server_of : Config → DataStore → ThreadPool × List ℤ → RedisServer
server_of config store (pool, cpu_ids) = record {
  config = config;
  server_fd = none;
  running = false;
  started = false;
  store = store;
  worker_pool = pool;
  cpu_ids = cpu_ids;
  total_connections = 0;
  closed = [];
}

-- `RedisServer(config)`
unfoldable pub new_server :
    Env
    → (Bytes → ℕ)
    → Bool
    → Bool
    → ℕ
    → ℕ
    → (ℕ → Bool)
    → (ℕ → Option Bytes)
    → Config
    → Run RedisServer
unfolding store_options
new_server env std_hash memory directory item_size cpu_count epoll files config = do
  store ← new_store env std_hash memory directory item_size (store_options config) files
  made ← new_pool cpu_count epoll pool_options config.worker_threads
  done (server_of config store made)
