-- ===== src/Server/Steps.antt =====
-- The accept thread and the worker threads side by side: `accept_loop` of src/RedisServer.cpp,
-- and `remove_client` of src/ThreadPool.cpp in its two parts, `close` and the erasing from
-- `clients_`.
use redis_c.Prelude.{
  ℕ, ◌+◌, ◌%◌, ◌^◌, ◌≡◌, Bool, false, ◌&&◌, not, leb, Option, none, some, List, ◌∷◌, ◌==◌,
  if◌then◌else◌,
}
use redis_c.Prelude.Run.{done}
use redis_c.Worker.Clients.{
  WorkerThread, has_client, erase_client, remove_client, modify_worker, total_clients,
}
use redis_c.Server.State.{RedisServer}
use redis_c.Server.Loop.{accept_client}

-- The server, the open descriptors of clients, and for each worker the descriptor that its
-- `remove_client` has closed and not erased yet.
pub record System : Type 0 where
  pub server : RedisServer
  pub opened : List ℕ
  pub removing : ℕ → Option ℕ

abbrev pub set_at : ℕ → Option ℕ → (ℕ → Option ℕ) → ℕ → Option ℕ
set_at i o f j = if i == j then o else f j

-- `close(client_fd)` in `WorkerThread::remove_client` of worker `i`.
unfoldable pub begin_remove : ℕ → ℕ → System → System
begin_remove i fd s = record s {
  server = record s.server { closed = fd ∷ s.server.closed };
  opened = erase_client fd s.opened;
  removing = set_at i (some fd) s.removing;
}

-- Worker `i` erases the descriptor.
unfoldable pub end_remove : ℕ → ℕ → System → System
end_remove i fd s = record s {
  server = record s.server {
    worker_pool = record s.server.worker_pool {
      workers = modify_worker i (remove_client fd) s.server.worker_pool.workers;
    };
  };
  removing = set_at i none s.removing;
}

-- Worker `i` counts the commands of a batch.
unfoldable pub count_commands : ℕ → ℕ → System → System
count_commands i n s = record s {
  server = record s.server {
    worker_pool = record s.server.worker_pool {
      workers =
          modify_worker i
            (λ (w : WorkerThread). record w {
              processed_commands = (w.processed_commands + n) % 2 ^ 64;
            })
            s.server.worker_pool.workers;
    };
  };
}

-- Whether a worker gets the descriptor, which stays open then.
abbrev pub is_taken : Bool → RedisServer → Bool
is_taken added s = added && not (leb s.config.max_connections (total_clients s.worker_pool.workers))

-- What `accept` gives is no open descriptor. A worker may begin to remove any descriptor: it takes
-- the code's steps, which remove a descriptor of the worker, and more.
pub data Step (s : System) : System → Type 0 where
  accept_step :
      (added : Bool) (fd : ℕ) (server : RedisServer)
      → has_client fd s.opened ≡ false
      → accept_client added fd s.server ≡ done server
      → Step s (record s {
        server = server;
        opened = if is_taken added s.server then fd ∷ s.opened else s.opened;
      })
  begin_step : (i fd : ℕ) → s.removing i ≡ none → Step s (begin_remove i fd s)
  end_step : (i fd : ℕ) → s.removing i ≡ some fd → Step s (end_remove i fd s)
  command_step : (i n : ℕ) → Step s (count_commands i n s)

-- Any number of steps of the threads, in any order.
pub data Reach (s : System) : System → Type 0 where
  here : Reach s s
  next : {t u : System} → Reach s t → Step t u → Reach s u
