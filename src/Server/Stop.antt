-- ===== src/Server/Stop.antt =====
-- How the server ends, and how a failed start ends: src/RedisServer.cpp and src/main.cpp.
use redis_c.Prelude.{
  ℕ, suc, ◌∙◌, not, ◌≡◌, refl, ap, Bool, true, false, ◌&&◌, none, some, List, [], ◌∷◌, arith,
}
use redis_c.Prelude.Run.{done, ◌>>=◌}
use redis_c.Worker.Clients.{WorkerThread}
use redis_c.Server.State.{RedisServer}
use redis_c.Server.Loop.{
  raised, bind_and_listen, setup_server_socket, Round, run_accepting, run, open_clients,
  stop_worker, stop_workers, close_all, close_socket, stop, exit,
}

-- The threads that are there end: each worker is stopped, and no client is left.
pub stop_workers-stopped :
    (joinable : Bool) (ends : ℕ → Bool)
    → ((i : ℕ) → (joinable && not (ends i)) ≡ false)
    → (i : ℕ) (ws : List WorkerThread)
    → (ws' : List WorkerThread) × (stop_workers joinable ends i ws ≡ done ws')
      × (open_clients ws' ≡ [])
unfolding stop_workers stop_worker open_clients
stop_workers-stopped joinable ends over i [] = ([], refl, refl)
stop_workers-stopped joinable ends over i (w ∷ ws) =
    let (ws', run, e) = stop_workers-stopped joinable ends over (suc i) ws in
    (record w { clients = [] } ∷ ws', rw (over i, run) refl, e)

-- Where the workers have no thread, or all their threads end, `stop` ends.
pub stop_total :
    (ends : ℕ → Bool) (s : RedisServer)
    → ((i : ℕ) → (s.started && not (ends i)) ≡ false)
    → (t : RedisServer) × (stop ends s ≡ done t)
      × (t.config ≡ s.config)
      × (t.running ≡ false)
      × (open_clients t.worker_pool.workers ≡ [])
      × (t.closed
          ≡ close_socket s.server_fd (close_all (open_clients s.worker_pool.workers) s.closed))
unfolding stop
stop_total ends s over =
    let (ws, run, e) = stop_workers-stopped s.started ends over 0 s.worker_pool.workers in
    (
      record s {
        running = false;
        started = false;
        worker_pool = record s.worker_pool { workers = ws };
        server_fd = none;
        closed = close_socket s.server_fd (close_all (open_clients s.worker_pool.workers) s.closed);
      },
      rw run refl,
      refl,
      refl,
      e,
      refl,
    )

abbrev failed_server : ℕ → RedisServer → RedisServer
failed_server fd s = record s { server_fd = some fd; running = false; closed = fd ∷ s.closed }

-- Where `bind` or `listen` fails and the workers have not been started, `run` raises and serves
-- nobody, the exit code is 1, and the destructor closes the descriptor of the socket, which
-- `setup_server_socket` has closed, again.
pub exit-bind_and_listen :
    (ends : ℕ → Bool) (fd : ℕ) (bind listen : Bool) (rounds : List Round) (s : RedisServer)
    → (bind && listen) ≡ false
    → s.started ≡ false
    → open_clients s.worker_pool.workers ≡ []
    → (t : RedisServer) × (u : RedisServer) × (run
          (record { socket = some fd; bind = bind; listen = listen })
          rounds
          s
        ≡ done (raised t))
      × (t.running ≡ false)
      × (exit ends (raised t) ≡ done (1, u))
      × (u.closed ≡ fd ∷ fd ∷ s.closed)
unfolding run run_accepting setup_server_socket bind_and_listen exit
exit-bind_and_listen ends fd bind listen rounds s h idle e = go bind listen h
  where
    over : (i : ℕ) → ((failed_server fd s).started && not (ends i)) ≡ false
    over i = rw idle refl

    go :
        (bind listen : Bool)
        → (bind && listen) ≡ false
        → (t : RedisServer) × (u : RedisServer) × (run
              (record { socket = some fd; bind = bind; listen = listen })
              rounds
              s
            ≡ done (raised t))
          × (t.running ≡ false)
          × (exit ends (raised t) ≡ done (1, u))
          × (u.closed ≡ fd ∷ fd ∷ s.closed)
    go false listen h =
        let (u, run', c, r, o, closed) = stop_total ends (failed_server fd s) over in
        (
          failed_server fd s,
          u,
          refl,
          refl,
          ap (λ r. r >>= (λ s'. done (1, s'))) run',
          closed ∙ rw e refl,
        )
    go true false h =
        let (u, run', c, r, o, closed) = stop_total ends (failed_server fd s) over in
        (
          failed_server fd s,
          u,
          refl,
          refl,
          ap (λ r. r >>= (λ s'. done (1, s'))) run',
          closed ∙ rw e refl,
        )
    go true true h = absurd (ground arith)
