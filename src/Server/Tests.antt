-- ===== src/Server/Tests.antt =====
-- The server on concrete inputs.
use redis_c.Prelude.{
  ℕ, Bool, ◌||◌, ◌≤◌, ◌<◌, ◌≡◌, refl, true, false, none, some, List, [], ◌∷◌, arith,
}
use redis_c.Prelude.Decimal.{ℤ, pos}
use redis_c.Prelude.Run.{done}
use redis_c.Demo.{
  demo_env, demo_hash, demo_zlib, demo_store, new_config-IsInRange, new_config-plain,
  host_not_empty,
}
use redis_c.Config.Print.{print_config}
use redis_c.Server.Main.{main, exit_code, main-print_config}
use redis_c.Config.Load.{new_config}
use redis_c.Worker.Clients.{
  WorkerThread, ThreadPool, has_client, total_clients, assign_client, add_client, find_best,
  insert_worker,
}
use redis_c.Worker.Binding.{
  ThreadTable, CpuSet, cpu_set, get_current_thread_affinity, start_workers, enter_loops,
}
use redis_c.Worker.Count.{IsCounted}
use redis_c.Server.State.{RedisServer, new_server, new_pool, pool_options}
use redis_c.Server.Loop.{
  raised, interrupted, failed, accepted, accept_rounds, accept_client, assigned, run, exit,
  open_clients,
}
use redis_c.Server.Steps.{System, Step, accept_step, Reach, here, next}
use redis_c.Server.Start.{IsReady, new_server-IsReady}
use redis_c.Server.Bound.{new_pool-bound}
use redis_c.Server.Stop.{exit-bind_and_listen}
use redis_c.Server.Limit.{clients_of, Reach-max_connections}
use redis_c.Server.Reuse.{before, IsLost, reuse-IsLost}

abbrev demo_worker : List ℕ → ℕ → WorkerThread
demo_worker clients n = record { clients = clients; client_count = n; processed_commands = 0 }

abbrev demo_server : List WorkerThread → RedisServer
demo_server workers = record {
  config = record new_config { max_connections = 2 };
  server_fd = some 3;
  running = true;
  started = true;
  store = demo_store 4 [] [];
  worker_pool = record { workers = workers; client_to_worker = [] };
  cpu_ids = [];
  total_connections = 0;
  closed = [];
}

abbrev two_workers : List WorkerThread
two_workers = demo_worker [] 0 ∷ demo_worker [] 0 ∷ []

abbrev with_client : RedisServer
with_client = record (demo_server (demo_worker (7 ∷ []) 1 ∷ demo_worker [] 0 ∷ [])) {
  worker_pool = record {
    workers = demo_worker (7 ∷ []) 1 ∷ demo_worker [] 0 ∷ [];
    client_to_worker = (7, 0) ∷ [];
  };
  total_connections = 1;
}

first_client : accept_client true 7 (demo_server two_workers) ≡ done with_client
unfolding accept_client assigned assign_client add_client find_best insert_worker total_clients
    has_client
first_client = refl

-- The third client is turned away.
third_client :
    (s : RedisServer) × (accept_rounds
        (accepted true 7 ∷ interrupted ∷ accepted true 8 ∷ accepted true 9 ∷ failed ∷ [])
        (demo_server two_workers)
      ≡ done s)
    × (s.closed ≡ 9 ∷ [])
    × (s.total_connections ≡ 2)
unfolding accept_rounds assign_client add_client find_best insert_worker total_clients has_client
third_client = (_, refl, refl, refl)

abbrev demo_system : RedisServer → List ℕ → System
demo_system s opened = record { server = s; opened = opened; removing = λ i. none }

new_server-IsReady_example :
    (s : RedisServer) × (new_server demo_env demo_hash true true 8 4
        (λ _. true)
        (λ _. none)
        new_config
      ≡ done s)
    × IsReady demo_env demo_hash demo_zlib 3 new_config s
new_server-IsReady_example =
    new_server-IsReady demo_env demo_hash demo_zlib 3 8 4 (λ _. true) new_config (λ i. refl)
      (omega arith) some_shard
  where
    some_shard : 0 < new_config.shard_count
    some_shard = unfold new_config in omega arith

-- The workers are not started yet.
abbrev waiting : RedisServer
waiting = record (demo_server two_workers) { server_fd = none; running = false; started = false }

exit-bind_and_listen_example :
    (t : RedisServer) × (u : RedisServer) × (run
        (record { socket = some 3; bind = true; listen = false })
        []
        waiting
      ≡ done (raised t))
    × (t.running ≡ false)
    × (exit (λ i. true) (raised t) ≡ done (1, u))
    × (u.closed ≡ 3 ∷ 3 ∷ [])
unfolding open_clients
exit-bind_and_listen_example =
    exit-bind_and_listen (λ i. true) 3 true false [] waiting refl refl refl

one-Step : Step (demo_system (demo_server two_workers) []) (demo_system with_client (7 ∷ []))
unfolding total_clients has_client
one-Step = accept_step true 7 with_client refl first_client

Reach-max_connections_example :
    (total_clients with_client.worker_pool.workers ≤ 2)
    × (clients_of with_client.worker_pool.workers ≤ 2)
Reach-max_connections_example =
    Reach-max_connections (demo_system (demo_server two_workers) [])
      (demo_system with_client (7 ∷ [])) (omega arith) (refl, refl, (refl, refl, tt))
      (next here one-Step)

demo_worker-IsCounted : IsCounted (demo_worker (7 ∷ []) 1)
unfolding has_client
demo_worker-IsCounted = record { distinct = (refl, tt); counted = refl; fits = omega arith }

reuse-IsLost_example :
    (t : System) × Reach (before 7 (demo_worker (7 ∷ []) 1) (demo_server []) (7 ∷ [])) t
    × IsLost 7 t
unfolding has_client total_clients
reuse-IsLost_example =
    reuse-IsLost 7 (demo_worker (7 ∷ []) 1) (demo_server []) (7 ∷ []) demo_worker-IsCounted refl
      refl

abbrev unbound : ThreadTable
unbound = record { running = λ w. false; affinity = λ w i. true; scheduling = λ w. (0, 0) }

-- Four processors.
abbrev takes : CpuSet → Bool
takes cpuset = cpuset 0 || cpuset 1 || cpuset 2 || cpuset 3

takes_each : (c : ℕ) → c < 4 → takes (cpu_set (pos c)) ≡ true
unfolding cpu_set
takes_each c h = ground arith

new_pool-bound_example :
    (pool : ThreadPool) × (cpu_ids : List ℤ) × (new_pool 4 (λ i. true) pool_options 6
      ≡ done (pool, cpu_ids))
    × (get_current_thread_affinity true 5 (
          enter_loops takes
            (λ p n. true)
            cpu_ids
            (5 ∷ 0 ∷ [])
            (start_workers takes (λ p n. true) 0 cpu_ids unbound))
        ≡ 1 ∷ [])
new_pool-bound_example =
    new_pool-bound takes (λ p n. true) (λ i. true) 4 6 unbound (5 ∷ 0 ∷ []) 5 (λ i. refl)
      (omega arith) (omega arith) takes_each (omega arith)

main-print_config_example :
    (s : RedisServer) × (main demo_env demo_hash true true 64 8
        (λ i. true)
        (λ i. true)
        (λ _. none)
        (record { socket = some 3; bind = true; listen = true })
        (accepted true 7 ∷ interrupted ∷ accepted true 8 ∷ failed ∷ [])
        (some (print_config new_config))
      ≡ done (exit_code true, some s))
    × (s.config ≡ new_config)
    × (s.running ≡ false)
    × (open_clients s.worker_pool.workers ≡ [])
main-print_config_example =
    main-print_config demo_env demo_hash demo_zlib 64 8 (λ i. true) (λ i. true)
      (record { socket = some 3; bind = true; listen = true })
      (accepted true 7 ∷ interrupted ∷ accepted true 8 ∷ failed ∷ []) new_config
      new_config-IsInRange new_config-plain host_not_empty some_shard some_worker (omega arith)
      (λ i. refl) (λ i. refl) tt
  where
    some_shard : 0 < new_config.shard_count
    some_shard = unfold new_config in omega arith

    some_worker : 0 < new_config.worker_threads
    some_worker = unfold new_config in omega arith
