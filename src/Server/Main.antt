-- ===== src/Server/Main.antt =====
-- `main` of src/main.cpp, from the configuration file to the exit code.
use redis_c.Prelude.{
  ℕ, zero, suc, ◌<◌, ◌≡◌, ◌≢◌, refl, ap, ◌∙◌, Bool, true, false, not, ◌&&◌, Option, none, some,
  List, [], ◌∷◌, arith, Bytes, length, leb, if◌then◌else◌, Bool-cases, inl, inr,
}
use redis_c.Prelude.Run.{Run, done, blocked, bad_alloc, dangling, runtime_error, endless, ◌>>=◌}
use redis_c.Cache.State.{Env}
use redis_c.Store.Codec.{Zlib}
use redis_c.Worker.Clients.{WorkerThread, assign_client, modify_worker, total_clients}
use redis_c.Config.Classes.{is_plain}
use redis_c.Config.Words.{all}
use redis_c.Config.Load.{Config, load_from_file}
use redis_c.Config.Range.{IsInRange}
use redis_c.Config.Print.{print_config}
use redis_c.Config.RoundTrip.{load_from_file-print_config}
use redis_c.Server.State.{RedisServer, new_server}
use redis_c.Server.Loop.{
  succeeded, raised, SocketCalls, close_fd, Round, stopping, interrupted, failed, accepted,
  assigned, accept_client, accept_rounds, accept_loop, setup_server_socket, bind_and_listen,
  run_accepting, run, open_clients, stop, exit,
}
use redis_c.Server.Stop.{stop_total}
use redis_c.Server.Start.{new_server-IsReady}

-- The body of `main` behind the constructor of the server: the exit code, and the server behind
-- its destructor if it was made.
unfoldable pub served :
    (ℕ → Bool) → SocketCalls → List Round → Run RedisServer → Run (ℕ × Option RedisServer)
unfolding run exit
served ends calls rounds (done s) = do
  a ← run calls rounds s
  (code, s') ← exit ends a
  done (code, some s')
served ends calls rounds bad_alloc = done (1, none)
served ends calls rounds runtime_error = done (1, none)
served ends calls rounds blocked = blocked
served ends calls rounds dangling = dangling
served ends calls rounds endless = endless

-- `main`; `ends i` is whether the thread of worker `i` ends, `config_file` is what the
-- configuration file holds, if it opens, and `hardware` what `hardware_concurrency` tells.
unfoldable pub main :
    Env
    → (Bytes → ℕ)
    → Bool
    → Bool
    → ℕ
    → ℕ
    → (ℕ → Bool)
    → (ℕ → Bool)
    → (ℕ → Option Bytes)
    → SocketCalls
    → List Round
    → Option Bytes
    → Run (ℕ × Option RedisServer)
unfolding served
main env std_hash memory directory item_size hardware epoll ends files calls rounds config_file =
    served ends calls rounds (
      new_server env std_hash memory directory item_size hardware epoll files
        (load_from_file hardware config_file))

-- From `s` to `t` the configuration is kept and workers are there.
record Runs (s t : RedisServer) : Type 0 where
  same_config : t.config ≡ s.config
  workers : 0 < length t.worker_pool.workers

modify_worker-some :
    (k : ℕ) (g : WorkerThread → WorkerThread) (ws : List WorkerThread)
    → 0 < length ws
    → 0 < length (modify_worker k g ws)
modify_worker-some k g [] h = h
modify_worker-some zero g (w ∷ ws) h = omega arith
modify_worker-some (suc k) g (w ∷ ws) h = omega arith

assigned_total :
    (added : Bool) (fd : ℕ) (s : RedisServer)
    → 0 < length s.worker_pool.workers
    → (t : RedisServer) × (assigned added fd s (assign_client added fd s.worker_pool) ≡ done t)
      × Runs s t
unfolding assigned assign_client
assigned_total added fd s h = go s.worker_pool.workers h
  where
    go :
        (ws : List WorkerThread)
        → 0 < length ws
        → (t : RedisServer) × (assigned added fd s (
              assign_client added fd
                (record { workers = ws; client_to_worker = s.worker_pool.client_to_worker }))
            ≡ done t)
          × Runs s t
    go [] h = absurd (omega (arith, h))
    go (w ∷ ws) h =
        (_, refl, record { same_config = refl; workers = modify_worker-some _ _ (w ∷ ws) h })

accept_client_total :
    (added : Bool) (fd : ℕ) (s : RedisServer)
    → 0 < length s.worker_pool.workers
    → (t : RedisServer) × (accept_client added fd s ≡ done t) × Runs s t
unfolding accept_client
accept_client_total added fd s h =
    elim (Bool-cases (leb s.config.max_connections (total_clients s.worker_pool.workers))) [
      | inl full ↦ (close_fd fd s, rw full refl, record { same_config = refl; workers = h })
      | inr room ↦ let (t, run, v) = assigned_total added fd s h in (t, rw room run, v)
    ]

-- A round of the list leaves the loop.
abbrev pub IsLeft : List Round → Type 0
IsLeft [] = ⊥
IsLeft (stopping ∷ rest) = Unit
IsLeft (failed ∷ rest) = Unit
IsLeft (interrupted ∷ rest) = IsLeft rest
IsLeft (accepted added fd ∷ rest) = IsLeft rest

-- The accept loop comes to the round that leaves it, where there are workers.
accept_rounds_total :
    (rounds : List Round) (s : RedisServer)
    → IsLeft rounds
    → 0 < length s.worker_pool.workers
    → (t : RedisServer) × (accept_rounds rounds s ≡ done t) × Runs s t
unfolding accept_rounds
accept_rounds_total [] s left h = absurd left
accept_rounds_total (stopping ∷ rest) s left h =
    (s, refl, record { same_config = refl; workers = h })
accept_rounds_total (failed ∷ rest) s left h = (s, refl, record { same_config = refl; workers = h })
accept_rounds_total (interrupted ∷ rest) s left h = accept_rounds_total rest s left h
accept_rounds_total (accepted added fd ∷ rest) s left h =
    let (s', one, v) = accept_client_total added fd s h in
    let (t, more, v') = accept_rounds_total rest s' left v.workers in
    (t, rw one more, record { same_config = v'.same_config ∙ v.same_config; workers = v'.workers })

-- Whether the calls set the socket up.
abbrev pub sets_up : SocketCalls → Bool
sets_up calls = elim calls.socket [ none ↦ false | some fd ↦ calls.bind && calls.listen ]

-- What `run` leaves of a server: it is as it was but for what the accept loop did.
run_total :
    (calls : SocketCalls) (rounds : List Round) (s : RedisServer)
    → IsLeft rounds
    → 0 < length s.worker_pool.workers
    → (t : RedisServer) × (run calls rounds s
        ≡ done (if sets_up calls then succeeded t else raised t))
      × (t.config ≡ s.config)
unfolding run run_accepting setup_server_socket bind_and_listen accept_loop
run_total calls rounds s left h = go calls.socket calls.bind calls.listen
  where
    go :
        (socket : Option ℕ) (bind listen : Bool)
        → (t : RedisServer) × (run
              (record { socket = socket; bind = bind; listen = listen })
              rounds
              s
            ≡ done (
                if sets_up (record { socket = socket; bind = bind; listen = listen })
                then succeeded t
                else raised t))
          × (t.config ≡ s.config)
    go none bind listen = (_, refl, refl)
    go (some fd) false listen = (_, refl, refl)
    go (some fd) true false = (_, refl, refl)
    go (some fd) true true =
        let (t, run', v) =
          accept_rounds_total rounds
            (record s { server_fd = some fd; running = true; started = true }) left h in
        (t, ap (λ r. r >>= (λ x. done (succeeded x))) run', v.same_config)

-- The exit code of a server that was set up, or not.
abbrev pub exit_code : Bool → ℕ
exit_code b = if b then 0 else 1

exit_lem :
    (ends : ℕ → Bool) (b : Bool) (t : RedisServer)
    → exit ends (if b then succeeded t else raised t)
      ≡ (stop ends t >>= (λ s'. done (exit_code b, s')))
unfolding exit
exit_lem ends true t = refl
exit_lem ends false t = refl

pub main-print_config :
    (env : Env) (std_hash : Bytes → ℕ) (z : Zlib) (item_size hardware : ℕ) (epoll ends : ℕ → Bool)
    (calls : SocketCalls) (rounds : List Round) (c : Config)
    → IsInRange c
    → all is_plain c.host ≡ true
    → c.host ≢ []
    → 0 < c.shard_count
    → 0 < c.worker_threads
    → 0 < hardware
    → ((i : ℕ) → epoll i ≡ true)
    → ((i : ℕ) → ends i ≡ true)
    → IsLeft rounds
    → (s : RedisServer) × (main env std_hash true true item_size hardware epoll ends
          (λ _. none)
          calls
          rounds
          (some (print_config c))
        ≡ done (exit_code (sets_up calls), some s))
      × (s.config ≡ c)
      × (s.running ≡ false)
      × (open_clients s.worker_pool.workers ≡ [])
unfolding main served
main-print_config env std_hash z item_size hardware epoll ends calls rounds c fits plain not_empty
      shards workers known works over left =
    let (s, made, ready) =
      new_server-IsReady env std_hash z 1 item_size hardware epoll c works known shards in
    let (t, ran, same) = run_total calls rounds s left (omega (arith, workers, ready.workers)) in
    let (u, stopped, kept, idle, nobody, closed) =
      stop_total ends t (λ i. no_wait t.started (ends i) (over i)) in
    (
      u,
      ap
            (λ c'.
              served ends calls rounds
                (new_server env std_hash true true item_size hardware epoll (λ _. none) c'))
            (load_from_file-print_config hardware c fits plain not_empty)
          ∙ ap (served ends calls rounds) made
          ∙ ap (λ r. r >>= (λ a. exit ends a >>= (λ (code, s'). done (code, some s')))) ran
          ∙ ap (λ r. r >>= (λ (code, s'). done (code, some s'))) (exit_lem ends (sets_up calls) t)
          ∙ ap
              (λ r.
                r
                >>= (λ s'. done (exit_code (sets_up calls), s'))
                >>= (λ (code, s'). done (code, some s')))
              stopped,
      kept ∙ same ∙ ready.config_kept,
      idle,
      nobody,
    )
  where
    no_wait : (b e : Bool) → e ≡ true → (b && not e) ≡ false
    no_wait true e h = rw h refl
    no_wait false e h = refl
