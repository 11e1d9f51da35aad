-- ===== src/Server/Reuse.antt =====
-- A descriptor that is given out again between the two parts of `WorkerThread::remove_client` of
-- src/ThreadPool.cpp.
use redis_c.Prelude.{
  ℕ, suc, ◌+◌, ◌-◌, ◌%◌, ◌^◌, ◌≡◌, refl, ap, true, false, none, List, [], ◌∷◌, arith, leb,
  if◌then◌else◌, length,
}
use mathlib.Core.Path.{subst}
use redis_c.Prelude.Run.{done}
use redis_c.Worker.Clients.{
  WorkerThread, has_client, erase_client, add_client, remove_client, total_clients, find_best,
  assign_client, insert_worker,
}
use redis_c.Worker.Count.{IsCounted, erased, length-erase_client}
use redis_c.Server.State.{RedisServer}
use redis_c.Server.Loop.{accept_client, assigned}
use redis_c.Server.Steps.{
  System, is_taken, begin_remove, end_remove, Step, accept_step, begin_step, end_step, Reach, here,
  next,
}

-- A client that is open, in no worker's table, and counted.
pub record IsLost (fd : ℕ) (t : System) : Type 0 where
  pub worker : WorkerThread
  pub workers : t.server.worker_pool.workers ≡ worker ∷ []
  pub opened : has_client fd t.opened ≡ true
  pub absent : has_client fd worker.clients ≡ false
  pub overcounted : worker.client_count ≡ suc (length worker.clients)
  pub settled : t.removing 0 ≡ none

module _ (fd : ℕ) (w : WorkerThread) (r : RedisServer) (opened : List ℕ) where
  abbrev pub single : RedisServer
  single = record r { worker_pool = record r.worker_pool { workers = w ∷ [] } }

  abbrev pub before : System
  before = record { server = single; opened = opened; removing = λ i. none }

  abbrev reused : RedisServer
  reused = record single {
    worker_pool = record {
      workers = add_client true fd w ∷ [];
      client_to_worker = insert_worker fd 0 r.worker_pool.client_to_worker;
    };
    total_connections = (r.total_connections + 1) % 2 ^ 64;
    closed = fd ∷ r.closed;
  }

  accept_reused :
      leb r.config.max_connections (total_clients (w ∷ [])) ≡ false
      → accept_client true fd (begin_remove 0 fd before).server ≡ done reused
  unfolding accept_client assigned assign_client find_best begin_remove
  accept_reused room = rw room refl

  taken :
      leb r.config.max_connections (total_clients (w ∷ [])) ≡ false
      → (if is_taken true (begin_remove 0 fd before).server
          then fd ∷ erase_client fd opened
          else erase_client fd opened)
        ≡ fd ∷ erase_client fd opened
  unfolding begin_remove
  taken room = rw room refl

  abbrev forgotten : WorkerThread
  forgotten = record w { clients = erase_client fd w.clients }

  forget :
      IsCounted w
      → has_client fd w.clients ≡ true
      → remove_client fd (add_client true fd w) ≡ forgotten
  unfolding add_client remove_client
  forget v there =
      let count : ((w.client_count + 1) % 2 ^ 64 + 2 ^ 64 - 1) % 2 ^ 64 ≡ w.client_count =
        grind (arith, v.counted, v.fits) in
      rw there (rw there (ap (λ c. record forgotten { client_count = c }) count))

  -- With one worker that has room and counts its clients rightly, any client of it can be lost:
  -- the worker closes its descriptor, the accept thread gets the same number for a new client and
  -- gives it to the worker, and the worker erases the number. The new client's descriptor stays
  -- open and watched, but the worker does not know it, and counts one client more.
  pub reuse-IsLost :
      IsCounted w
      → has_client fd w.clients ≡ true
      → leb r.config.max_connections (total_clients (w ∷ [])) ≡ false
      → (t : System) × Reach before t × IsLost fd t
  unfolding begin_remove end_remove has_client
  reuse-IsLost v there room =
      let first = begin_remove 0 fd before in
      let closing : Step before first = begin_step 0 fd refl in
      let second : System = record first { server = reused; opened = fd ∷ first.opened } in
      let again : Step first second =
        subst (λ (o : List ℕ). Step first (record first { server = reused; opened = o }))
          (taken room) (accept_step true fd reused (erased fd opened) (accept_reused room)) in
      (
        end_remove 0 fd second,
        next (next (next here closing) again) (end_step 0 fd refl),
        record {
          worker = forgotten;
          workers = ap (λ x. x ∷ []) (forget v there);
          opened = ground arith;
          absent = erased fd w.clients;
          overcounted = omega (arith, v.counted, length-erase_client fd w.clients v.distinct there);
          settled = refl;
        },
      )
