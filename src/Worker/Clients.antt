-- ===== src/Worker/Clients.antt =====
-- The clients of the workers, and the choice of a worker for a client: `add_client` and
-- `remove_client` of `WorkerThread`, `assign_client`, `remove_client` and `get_stats` of
-- `ThreadPool`, in src/ThreadPool.cpp.
use redis_c.Prelude.{
  ℕ, zero, suc, ◌+◌, ◌-◌, ◌%◌, ◌^◌, Bool, true, false, ◌||◌, Option, none, some, List, [], ◌∷◌, ltb,
  ◌==◌, if◌then◌else◌,
}

-- The fields of `WorkerThread` that these methods use; `clients` are the keys of `clients_`.
pub record WorkerThread : Type 0 where
  pub clients : List ℕ
  pub client_count : ℕ
  pub processed_commands : ℕ

unfoldable pub has_client : ℕ → List ℕ → Bool
has_client fd [] = false
has_client fd (c ∷ rest) = (c == fd) || has_client fd rest

unfoldable pub erase_client : ℕ → List ℕ → List ℕ
erase_client fd [] = []
erase_client fd (c ∷ rest) = let tail = erase_client fd rest in if c == fd then tail else c ∷ tail

-- `WorkerThread::add_client`; the flag is whether `epoll_ctl` accepted the descriptor. A key that
-- is there keeps its place and gets a new `ClientInfo`.
unfoldable pub add_client : Bool → ℕ → WorkerThread → WorkerThread
unfolding has_client
add_client false fd w = w
add_client true fd w = record w {
  clients = if has_client fd w.clients then w.clients else fd ∷ w.clients;
  client_count = (w.client_count + 1) % 2 ^ 64;
}

-- `WorkerThread::remove_client`
unfoldable pub remove_client : ℕ → WorkerThread → WorkerThread
unfolding has_client erase_client
remove_client fd w =
    if has_client fd w.clients
    then record w {
      clients = erase_client fd w.clients;
      client_count = (w.client_count + 2 ^ 64 - 1) % 2 ^ 64;
    }
    else w

-- `client_to_worker_` is an association list.
pub record ThreadPool : Type 0 where
  pub workers : List WorkerThread
  pub client_to_worker : List (ℕ × ℕ)

-- The loop of `assign_client` from worker `i` on.
unfoldable pub find_best : ℕ → ℕ → ℕ → List WorkerThread → ℕ
find_best i best_worker min_clients [] = best_worker
find_best i best_worker min_clients (w ∷ rest) =
    let better = find_best (suc i) i w.client_count rest in
    let same = find_best (suc i) best_worker min_clients rest in
    if ltb w.client_count min_clients then better else same

abbrev pub modify_worker : ℕ → (WorkerThread → WorkerThread) → List WorkerThread → List WorkerThread
modify_worker n f [] = []
modify_worker zero f (w ∷ rest) = f w ∷ rest
modify_worker (suc n) f (w ∷ rest) = w ∷ modify_worker n f rest

unfoldable pub lookup_worker : ℕ → List (ℕ × ℕ) → Option ℕ
lookup_worker fd [] = none
lookup_worker fd ((c, i) ∷ rest) = if c == fd then some i else lookup_worker fd rest

unfoldable pub insert_worker : ℕ → ℕ → List (ℕ × ℕ) → List (ℕ × ℕ)
insert_worker fd i [] = (fd, i) ∷ []
insert_worker fd i ((c, j) ∷ rest) =
    let tail = insert_worker fd i rest in if c == fd then (fd, i) ∷ rest else (c, j) ∷ tail

unfoldable pub erase_worker : ℕ → List (ℕ × ℕ) → List (ℕ × ℕ)
erase_worker fd [] = []
erase_worker fd ((c, j) ∷ rest) =
    let tail = erase_worker fd rest in if c == fd then tail else (c, j) ∷ tail

-- `ThreadPool::assign_client`; `none` is the access to `workers_[0]` of a pool without workers.
unfoldable pub assign_client : Bool → ℕ → ThreadPool → Option ThreadPool
unfolding add_client find_best insert_worker
assign_client accepted fd p = elim p.workers [
  | [] ↦ none
  | w ∷ rest ↦
      let best_worker = find_best 1 0 w.client_count rest in
      some (record {
        workers = modify_worker best_worker (add_client accepted fd) (w ∷ rest);
        client_to_worker = insert_worker fd best_worker p.client_to_worker;
      })
]

-- `ThreadPool::remove_client`
unfoldable pub drop_client : ℕ → ThreadPool → ThreadPool
unfolding remove_client lookup_worker erase_worker
drop_client fd p = elim (lookup_worker fd p.client_to_worker) [
  | none ↦ p
  | some i ↦ record {
    workers = modify_worker i (remove_client fd) p.workers;
    client_to_worker = erase_worker fd p.client_to_worker;
  }
]

-- `total_clients` and `total_commands` of `ThreadPool::get_stats`.
unfoldable pub total_clients : List WorkerThread → ℕ
total_clients [] = 0
total_clients (w ∷ rest) = (w.client_count + total_clients rest) % 2 ^ 64

unfoldable pub total_commands : List WorkerThread → ℕ
total_commands [] = 0
total_commands (w ∷ rest) = (w.processed_commands + total_commands rest) % 2 ^ 64
