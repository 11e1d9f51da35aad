-- ===== src/Server/Limit.antt =====
-- The number of connections, whatever the threads do: `accept_loop` of src/RedisServer.cpp.
use redis_c.Prelude.{
  ℕ, zero, suc, ◌+◌, ◌%◌, ◌^◌, ◌≤◌, ◌<◌, ◌≡◌, refl, sym, ap, Bool, true, false, Option, none, some,
  List, [], ◌∷◌, arith, leb, length, Bool-cases, inl, inr,
}
use mathlib.Core.Path.{subst}
use redis_c.Prelude.Run.{Run, done}
use redis_c.Worker.Clients.{
  WorkerThread, ThreadPool, has_client, erase_client, add_client, remove_client, modify_worker,
  total_clients, find_best, assign_client,
}
use redis_c.Server.State.{RedisServer}
use redis_c.Server.Loop.{accept_client, assigned}
use redis_c.Server.Steps.{
  System, begin_remove, end_remove, count_commands, Step, accept_step, begin_step, end_step,
  command_step, Reach, here, next,
}

-- The sum of the counts, and of the numbers of clients.
abbrev load : List WorkerThread → ℕ
load [] = 0
load (w ∷ rest) = w.client_count + load rest

abbrev pub clients_of : List WorkerThread → ℕ
clients_of [] = 0
clients_of (w ∷ rest) = length w.clients + clients_of rest

-- No worker counts too few.
abbrev AllCover : List WorkerThread → Type 0
AllCover [] = Unit
AllCover (w ∷ rest) = (length w.clients ≤ w.client_count) × AllCover rest

record IsLimited (limit : ℕ) (ws : List WorkerThread) : Type 0 where
  cover : AllCover ws
  within : load ws ≤ limit

total_clients-load : (ws : List WorkerThread) → load ws < 2 ^ 64 → total_clients ws ≡ load ws
unfolding total_clients
total_clients-load [] h = refl
total_clients-load (w ∷ ws) h = grind (arith, total_clients-load ws (omega arith))

clients_of-le : (ws : List WorkerThread) → AllCover ws → clients_of ws ≤ load ws
clients_of-le [] h = omega arith
clients_of-le (w ∷ ws) h = omega (arith, h.0, clients_of-le ws h.1)

length-erase_client-le : (fd : ℕ) (l : List ℕ) → length (erase_client fd l) ≤ length l
unfolding erase_client
length-erase_client-le fd [] = omega arith
length-erase_client-le fd (c ∷ l) = ground (arith, length-erase_client-le fd l)

length-erase_client-lt :
    (fd : ℕ) (l : List ℕ) → has_client fd l ≡ true → length (erase_client fd l) < length l
unfolding erase_client has_client
length-erase_client-lt fd [] h = absurd (ground arith)
length-erase_client-lt fd (c ∷ l) h =
    ground (arith, length-erase_client-lt fd l, length-erase_client-le fd l)

module _ (f : WorkerThread → WorkerThread) (extra : ℕ)
    (covers : (w : WorkerThread)
      → length w.clients ≤ w.client_count
      → w.client_count + extra < 2 ^ 64
      → (length (f w).clients ≤ (f w).client_count)
        × ((f w).client_count ≤ w.client_count + extra)) where
  modify_worker-IsLimited :
      (i : ℕ) (ws : List WorkerThread)
      → AllCover ws
      → load ws + extra < 2 ^ 64
      → AllCover (modify_worker i f ws) × (load (modify_worker i f ws) ≤ load ws + extra)
  modify_worker-IsLimited i [] h b = (tt, omega arith)
  modify_worker-IsLimited zero (w ∷ ws) h b =
      let (c, l) = covers w h.0 (omega arith) in ((c, h.1), omega (arith, l))
  modify_worker-IsLimited (suc i) (w ∷ ws) h b =
      let (c, l) = modify_worker-IsLimited i ws h.1 (omega arith) in ((h.0, c), omega (arith, l))

add_client-covers :
    (added : Bool) (fd : ℕ) (w : WorkerThread)
    → length w.clients ≤ w.client_count
    → w.client_count + 1 < 2 ^ 64
    → (length (add_client added fd w).clients ≤ (add_client added fd w).client_count)
      × ((add_client added fd w).client_count ≤ w.client_count + 1)
unfolding add_client
add_client-covers false fd w h b = (h, omega arith)
add_client-covers true fd w h b = elim (Bool-cases (has_client fd w.clients)) [
  | inl e ↦ rw e (omega arith, omega arith)
  | inr e ↦ rw e (omega arith, omega arith)
]

remove_client-covers :
    (fd : ℕ) (w : WorkerThread)
    → length w.clients ≤ w.client_count
    → w.client_count + 0 < 2 ^ 64
    → (length (remove_client fd w).clients ≤ (remove_client fd w).client_count)
      × ((remove_client fd w).client_count ≤ w.client_count + 0)
unfolding remove_client
remove_client-covers fd w h b = elim (Bool-cases (has_client fd w.clients)) [
  | inl e ↦
      let less = length-erase_client-lt fd w.clients e in
      rw e (omega (arith, less), omega (arith, less))
  | inr e ↦ rw e (h, omega arith)
]

workers_or : Option ThreadPool → List WorkerThread
workers_or none = []
workers_or (some p) = p.workers

assigned-workers_of :
    (added : Bool) (fd : ℕ) (ws : List WorkerThread) (m : List (ℕ × ℕ)) (q : ThreadPool)
    → assign_client added fd (record { workers = ws; client_to_worker = m }) ≡ some q
    → (k : ℕ) × (q.workers ≡ modify_worker k (add_client added fd) ws)
unfolding assign_client workers_or
assigned-workers_of added fd [] m q h = absurd (ground arith)
assigned-workers_of added fd (w ∷ rest) m q h =
    (find_best 1 0 w.client_count rest, sym (ap workers_or h))

-- The limit of the server's configuration, kept.
abbrev IsAt : ℕ → RedisServer → Type 0
IsAt limit s = (s.config.max_connections ≡ limit) × IsLimited limit s.worker_pool.workers

abbrev IsAtRun : ℕ → Run RedisServer → Type 0
IsAtRun limit (done t) = IsAt limit t
IsAtRun limit _ = Unit

module _ (limit : ℕ) (fits : limit < 2 ^ 64) where
  assigned-IsAt :
      (added : Bool) (fd : ℕ) (s : RedisServer) (o : Option ThreadPool)
      → assign_client added fd s.worker_pool ≡ o
      → load s.worker_pool.workers + 1 ≤ limit
      → IsAt limit s
      → IsAtRun limit (assigned added fd s o)
  unfolding assigned
  assigned-IsAt added fd s none e b h = tt
  assigned-IsAt added fd s (some q) e b h =
      let (k, same) =
        assigned-workers_of added fd s.worker_pool.workers s.worker_pool.client_to_worker q e in
      let (c, l) =
        modify_worker-IsLimited (add_client added fd) 1 (add_client-covers added fd) k
          s.worker_pool.workers h.1.cover (omega arith) in
      (h.0, rw same (record { cover = c; within = omega (arith, l) }))

  accept_client-IsAt :
      (added : Bool) (fd : ℕ) (s : RedisServer)
      → IsAt limit s
      → IsAtRun limit (accept_client added fd s)
  unfolding accept_client
  accept_client-IsAt added fd s h =
      let total = total_clients-load s.worker_pool.workers (omega (arith, h.1.within)) in
      elim (Bool-cases (leb s.config.max_connections (total_clients s.worker_pool.workers))) [
        | inl full ↦ rw full h
        | inr room ↦ rw room (
            assigned-IsAt added fd s (assign_client added fd s.worker_pool) refl
              (ground (arith, total, h.0)) h)
      ]

  removed-IsAt :
      (i fd : ℕ) (s : System) → IsAt limit s.server → IsAt limit (end_remove i fd s).server
  unfolding end_remove
  removed-IsAt i fd s h =
      let (c, l) =
        modify_worker-IsLimited (remove_client fd) 0 (remove_client-covers fd) i
          s.server.worker_pool.workers h.1.cover (omega (arith, h.1.within)) in
      (h.0, record { cover = c; within = omega (arith, l, h.1.within) })

  counted-IsAt :
      (i n : ℕ) (s : System) → IsAt limit s.server → IsAt limit (count_commands i n s).server
  unfolding count_commands
  counted-IsAt i n s h =
      let (c, l) =
        modify_worker-IsLimited
          (λ (w : WorkerThread). record w {
            processed_commands = (w.processed_commands + n) % 2 ^ 64;
          })
          0 (λ w le b. (le, omega arith)) i s.server.worker_pool.workers h.1.cover
          (omega (arith, h.1.within)) in
      (h.0, record { cover = c; within = omega (arith, l, h.1.within) })

  Step-IsAt : (s t : System) → Step s t → IsAt limit s.server → IsAt limit t.server
  unfolding begin_remove
  Step-IsAt s t (accept_step added fd server unused run) h =
      subst (IsAtRun limit) run (accept_client-IsAt added fd s.server h)
  Step-IsAt s t (begin_step i fd idle) h = h
  Step-IsAt s t (end_step i fd closed) h = removed-IsAt i fd s h
  Step-IsAt s t (command_step i n) h = counted-IsAt i n s h

  Reach-IsAt : (s t : System) → Reach s t → IsAt limit s.server → IsAt limit t.server
  Reach-IsAt s t here h = h
  Reach-IsAt s t (next {t = u} run step) h = Step-IsAt u t step (Reach-IsAt s u run h)

-- A worker without clients.
abbrev pub AllIdle : List WorkerThread → Type 0
AllIdle [] = Unit
AllIdle (w ∷ rest) = (w.clients ≡ []) × (w.client_count ≡ 0) × AllIdle rest

AllIdle-IsLimited : (limit : ℕ) (ws : List WorkerThread) → AllIdle ws → IsLimited limit ws
AllIdle-IsLimited limit [] h = record { cover = tt; within = omega arith }
AllIdle-IsLimited limit (w ∷ ws) (e, z, h) =
    let rest = AllIdle-IsLimited limit ws h in
    record { cover = (rw e (omega arith), rest.cover); within = omega (arith, z, rest.within) }

-- From workers without clients on, whatever steps the accept thread and the workers take, in
-- whatever order, also where a descriptor that a worker has closed and not yet erased is given
-- out again, the counted clients, and the clients that the workers hold, never are more than
-- `max_connections`, where that fits 64 bits.
pub Reach-max_connections :
    (s t : System)
    → s.server.config.max_connections < 2 ^ 64
    → AllIdle s.server.worker_pool.workers
    → Reach s t
    → (total_clients t.server.worker_pool.workers ≤ s.server.config.max_connections)
      × (clients_of t.server.worker_pool.workers ≤ s.server.config.max_connections)
Reach-max_connections s t fits idle run =
    let limit = s.server.config.max_connections in
    let (same, limited) =
      Reach-IsAt limit fits s t run
        (refl, AllIdle-IsLimited limit s.server.worker_pool.workers idle) in
    let ws = t.server.worker_pool.workers in
    (
      omega (arith, total_clients-load ws (omega (arith, limited.within)), limited.within),
      omega (arith, clients_of-le ws limited.cover, limited.within),
    )
