-- ===== src/Server/Loop.antt =====
-- `run`, `setup_server_socket`, `accept_loop`, `stop` and `get_stats` of src/RedisServer.cpp,
-- `WorkerThread::stop`, `ThreadPool::stop` and `get_stats` of src/ThreadPool.cpp, and what
-- src/main.cpp makes of an exception.
use redis_c.Prelude.{
  ℕ, suc, not, ◌&&◌, ◌+◌, ◌%◌, ◌^◌, Bool, true, false, Option, none, some, List, [], ◌∷◌, ◌++◌, map,
  leb, ltb, if◌then◌else◌,
}
use redis_c.Prelude.Decimal.{ℤ}
use redis_c.Prelude.Run.{Run, done, blocked, dangling, endless, ◌>>=◌}
use redis_c.Worker.Clients.{WorkerThread, ThreadPool, assign_client, total_clients, total_commands}
use redis_c.Server.State.{RedisServer}

-- What the socket calls answer: the descriptor of `socket`, and whether `bind` and `listen` work.
pub record SocketCalls : Type 0 where
  pub socket : Option ℕ
  pub bind : Bool
  pub listen : Bool

-- `close(fd)`
abbrev pub close_fd : ℕ → RedisServer → RedisServer
close_fd fd s = record s { closed = fd ∷ s.closed }

-- A method that may raise, with the state that it leaves when it does.
pub data Attempt : Type 0 where
  succeeded raised : RedisServer → Attempt

unfoldable pub bind_and_listen : Bool → Bool → ℕ → RedisServer → Attempt
bind_and_listen false listen fd s = raised (close_fd fd s)
bind_and_listen true false fd s = raised (close_fd fd s)
bind_and_listen true true fd s = succeeded s

-- `RedisServer::setup_server_socket`
unfoldable pub setup_server_socket : SocketCalls → RedisServer → Attempt
unfolding bind_and_listen
setup_server_socket calls s = elim calls.socket [
  | none ↦ raised (record s { server_fd = none })
  | some fd ↦ bind_and_listen calls.bind calls.listen fd (record s { server_fd = some fd })
]

-- One round of `accept_loop`: the loop is left as `running_` is cleared; `accept` is interrupted,
-- or would block; it fails; it gives a descriptor, which epoll takes or not.
pub data Round : Type 0 where
  stopping interrupted failed : Round
  accepted : Bool → ℕ → Round

-- `add_client` closes a descriptor that epoll refuses.
unfoldable pub assigned : Bool → ℕ → RedisServer → Option ThreadPool → Run RedisServer
assigned added fd s none = dangling
assigned added fd s (some pool) = done (record s {
  worker_pool = pool;
  total_connections = (s.total_connections + 1) % 2 ^ 64;
  closed = if added then s.closed else fd ∷ s.closed;
})

-- The body behind `accept`, for the descriptor of a client.
unfoldable pub accept_client : Bool → ℕ → RedisServer → Run RedisServer
unfolding assigned
accept_client added fd s =
    if leb s.config.max_connections (total_clients s.worker_pool.workers)
    then done (close_fd fd s)
    else assigned added fd s (assign_client added fd s.worker_pool)

-- The loop, with what the rounds meet; it still runs as the list ends.
unfoldable pub accept_rounds : List Round → RedisServer → Run RedisServer
unfolding accept_client
accept_rounds [] s = endless
accept_rounds (stopping ∷ rest) s = done s
accept_rounds (interrupted ∷ rest) s = accept_rounds rest s
accept_rounds (failed ∷ rest) s = done s
accept_rounds (accepted added fd ∷ rest) s = do s' ← accept_client added fd s; accept_rounds rest s'

-- `RedisServer::accept_loop`
unfoldable pub accept_loop : List Round → RedisServer → Run RedisServer
unfolding accept_rounds
accept_loop rounds s = elim s.server_fd [ none ↦ done s | some fd ↦ accept_rounds rounds s ]

-- The part of `RedisServer::run` behind the set-up of the socket; the workers are started, and the
-- accept thread is joined.
unfoldable pub run_accepting : List Round → Attempt → Run Attempt
unfolding accept_loop
run_accepting rounds (raised s) = done (raised (record s { running = false }))
run_accepting rounds (succeeded s) = do
  s' ← accept_loop rounds (record s { running = true; started = true })
  done (succeeded s')

-- `RedisServer::run`
unfoldable pub run : SocketCalls → List Round → RedisServer → Run Attempt
unfolding setup_server_socket run_accepting
run calls rounds s = run_accepting rounds (setup_server_socket calls s)

-- The descriptors that `WorkerThread::stop` closes, worker by worker.
unfoldable pub open_clients : List WorkerThread → List ℕ
open_clients [] = []
open_clients (w ∷ rest) = w.clients ++ open_clients rest

-- `WorkerThread::stop`, which leaves `client_count_`: `joinable` is whether the worker has a thread,
-- and `ends` whether that thread ends once `running_` is cleared.
unfoldable pub stop_worker : Bool → Bool → WorkerThread → Run WorkerThread
stop_worker joinable ends w =
    if joinable && not ends then blocked else done (record w { clients = [] })

-- `ThreadPool::stop`: the loop over the workers from worker `i` on.
unfoldable pub stop_workers : Bool → (ℕ → Bool) → ℕ → List WorkerThread → Run (List WorkerThread)
unfolding stop_worker
stop_workers joinable ends i [] = done []
stop_workers joinable ends i (w ∷ rest) = do
  w' ← stop_worker joinable (ends i) w
  rest' ← stop_workers joinable ends (suc i) rest
  done (w' ∷ rest')

abbrev pub close_all : List ℕ → List ℕ → List ℕ
close_all [] closed = closed
close_all (fd ∷ rest) closed = close_all rest (fd ∷ closed)

abbrev pub close_socket : Option ℕ → List ℕ → List ℕ
close_socket none closed = closed
close_socket (some fd) closed = fd ∷ closed

-- `RedisServer::stop`; `ends i` is whether the thread of worker `i` ends.
unfoldable pub stop : (ℕ → Bool) → RedisServer → Run RedisServer
unfolding open_clients stop_workers
stop ends s = do
  workers ← stop_workers s.started ends 0 s.worker_pool.workers
  done (record s {
    running = false;
    started = false;
    worker_pool = record s.worker_pool { workers = workers };
    server_fd = none;
    closed = close_socket s.server_fd (close_all (open_clients s.worker_pool.workers) s.closed);
  })

-- The exit code of `main`, and the server behind the destructor of `g_server`.
unfoldable pub exit : (ℕ → Bool) → Attempt → Run (ℕ × RedisServer)
unfolding stop
exit ends (succeeded s) = do s' ← stop ends s; done (0, s')
exit ends (raised s) = do s' ← stop ends s; done (1, s')

-- `ThreadPool::Stats`
pub record PoolStats : Type 0 where
  pub total_clients : ℕ
  pub total_commands : ℕ
  pub worker_clients : List ℕ
  pub worker_commands : List ℕ
  pub worker_cpu_assignments : List ℤ

-- `ThreadPool::get_stats`
unfoldable pub get_pool_stats : ThreadPool → List ℤ → PoolStats
get_pool_stats pool cpu_ids = record {
  total_clients = total_clients pool.workers;
  total_commands = total_commands pool.workers;
  worker_clients = map (λ (w : WorkerThread). w.client_count) pool.workers;
  worker_commands = map (λ (w : WorkerThread). w.processed_commands) pool.workers;
  worker_cpu_assignments = cpu_ids;
}

-- `RedisServer::Stats`, over the numbers of type `double`.
pub record Stats (D : Type 0) : Type 0 where
  pub total_connections : ℕ
  pub total_commands : ℕ
  pub current_connections : ℕ
  pub commands_per_second : D
  pub uptime : ℕ

-- `RedisServer::get_stats`, `uptime` seconds after the start; `divide` is the division of doubles.
unfoldable pub get_stats : {D : Type 0} → D → (ℕ → ℕ → D) → ℕ → RedisServer → Stats D
unfolding get_pool_stats
get_stats none_yet divide uptime s =
    let pool_stats = get_pool_stats s.worker_pool s.cpu_ids in
    record {
      total_connections = s.total_connections;
      total_commands = pool_stats.total_commands;
      current_connections = pool_stats.total_clients;
      commands_per_second =
          if ltb 0 uptime then divide pool_stats.total_commands uptime else none_yet;
      uptime = uptime;
    }
