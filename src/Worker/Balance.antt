-- ===== src/Worker/Balance.antt =====
-- `ThreadPool::assign_client` keeps the workers' loads within one of each other.
use redis_c.Prelude.{
  ℕ, zero, suc, ◌+◌, ◌^◌, ◌≤◌, ◌<◌, ◌≡◌, refl, ap, ◌∙◌, true, some, List, [], ◌∷◌, arith, ltb,
  dec_le, get_elem?, Bool-cases, inl, inr, ◌⊎◌,
}
use redis_c.Worker.Clients.{
  WorkerThread, add_client, ThreadPool, find_best, modify_worker, assign_client, lookup_worker,
  insert_worker,
}

-- Every worker has `m` clients at least, or `m` or `m + 1`.
abbrev pub AllLoaded : ℕ → List WorkerThread → Type 0
AllLoaded m [] = Unit
AllLoaded m (w ∷ rest) = (m ≤ w.client_count) × AllLoaded m rest

abbrev pub AllWithin : ℕ → List WorkerThread → Type 0
AllWithin m [] = Unit
AllWithin m (w ∷ rest) = (m ≤ w.client_count) × (w.client_count ≤ m + 1) × AllWithin m rest

abbrev pub IsBalanced : List WorkerThread → Type 0
IsBalanced ws = (m : ℕ) × AllWithin m ws

AllLoaded-le : (m n : ℕ) (ws : List WorkerThread) → m ≤ n → AllLoaded n ws → AllLoaded m ws
AllLoaded-le m n [] le h = tt
AllLoaded-le m n (w ∷ ws) le h = (omega (arith, h.0), AllLoaded-le m n ws le h.1)

-- The loop keeps its candidate, which then has the least load, or ends at a worker that has.
abbrev IsBest : ℕ → ℕ → ℕ → List WorkerThread → ℕ → Type 0
IsBest i best least rest r =
    ((r ≡ best) × AllLoaded least rest)
    ⊎ ((k : ℕ) × (w : WorkerThread) × (r ≡ i + k)
        × (get_elem? rest k ≡ some w)
        × (w.client_count < least)
        × AllLoaded w.client_count rest)

find_best-IsBest :
    (i best least : ℕ) (rest : List WorkerThread)
    → IsBest i best least rest (find_best i best least rest)
unfolding find_best
find_best-IsBest i best least [] = inl (refl, tt)
find_best-IsBest i best least (w ∷ rest) = elim (Bool-cases (ltb w.client_count least)) [
  | inl less ↦ rw less (elim (find_best-IsBest (suc i) i w.client_count rest) [
    | inl (e, all) ↦ inr (0, w, e ∙ omega arith, refl, ground arith, (omega arith, all))
    | inr (k, v, e, at, lt, all) ↦
        inr (suc k, v, e ∙ omega arith, at, ground arith, (omega arith, all))
  ])
  | inr more ↦ rw more (elim (find_best-IsBest (suc i) best least rest) [
    | inl (e, all) ↦ inl (e, (ground arith, all))
    | inr (k, v, e, at, lt, all) ↦ inr (suc k, v, e ∙ omega arith, at, lt, (ground arith, all))
  ])
]

-- One more client for a worker with the least load.
add_client-AllWithin :
    (m k : ℕ) (fd : ℕ) (ws : List WorkerThread) (w : WorkerThread)
    → m + 1 < 2 ^ 64
    → AllWithin m ws
    → get_elem? ws k ≡ some w
    → w.client_count ≡ m
    → AllWithin m (modify_worker k (add_client true fd) ws)
unfolding add_client
add_client-AllWithin m k fd [] w b h at e = tt
add_client-AllWithin m zero fd (v ∷ ws) w b h at e =
    let same : v ≡ w = ground arith in
    let load : v.client_count ≡ m = ap (λ (x : WorkerThread). x.client_count) same ∙ e in
    (omega (arith, load), omega (arith, load), h.2)
add_client-AllWithin m (suc k) fd (v ∷ ws) w b h at e =
    (h.0, h.1, add_client-AllWithin m k fd ws w b h.2 at e)

AllWithin-suc :
    (m : ℕ) (ws : List WorkerThread) → AllWithin m ws → AllLoaded (m + 1) ws → AllWithin (m + 1) ws
AllWithin-suc m [] h l = tt
AllWithin-suc m (w ∷ ws) h l = (l.0, omega (arith, h.1), AllWithin-suc m ws h.2 l.1)

load_at :
    (m k : ℕ) (ws : List WorkerThread) (w : WorkerThread)
    → AllWithin m ws
    → get_elem? ws k ≡ some w
    → (m ≤ w.client_count) × (w.client_count ≤ m + 1)
load_at m k [] w h at = absurd (ground arith)
load_at m zero (v ∷ ws) w h at =
    let same : v ≡ w = ground arith in
    let load : v.client_count ≡ w.client_count = ap (λ (x : WorkerThread). x.client_count) same in
    (omega (arith, h.0, load), omega (arith, h.1, load))
load_at m (suc k) (v ∷ ws) w h at = load_at m k ws w h.2 at

least-IsBalanced :
    (k fd : ℕ) (ws : List WorkerThread) (w : WorkerThread) (v : IsBalanced ws)
    → v.0 + 2 < 2 ^ 64
    → get_elem? ws k ≡ some w
    → AllLoaded w.client_count ws
    → IsBalanced (modify_worker k (add_client true fd) ws)
least-IsBalanced k fd ws w (m, h) b at least =
    let (low, high) = load_at m k ws w h at in
    elim (dec_le w.client_count m) [
      | yes le ↦ (m, add_client-AllWithin m k fd ws w (omega arith) h at (omega arith))
      | no gt ↦
          let e : w.client_count ≡ m + 1 = omega arith in
          (
            m + 1,
            add_client-AllWithin (m + 1) k fd ws w (omega arith)
                (AllWithin-suc m ws h (rw e at least)) at e,
          )
    ]

lookup-insert_worker :
    (fd i : ℕ) (l : List (ℕ × ℕ)) → lookup_worker fd (insert_worker fd i l) ≡ some i
unfolding lookup_worker insert_worker
lookup-insert_worker fd i [] = ground arith
lookup-insert_worker fd i ((c, j) ∷ l) = ground (arith, lookup-insert_worker fd i l)

module _ (w : WorkerThread) (rest : List WorkerThread) (mapping : List (ℕ × ℕ)) where
  abbrev pub pool : ThreadPool
  pool = record { workers = w ∷ rest; client_to_worker = mapping }

  best_is_least :
      (v : WorkerThread) × (get_elem? (w ∷ rest) (find_best 1 0 w.client_count rest) ≡ some v)
      × AllLoaded v.client_count (w ∷ rest)
  best_is_least = elim (find_best-IsBest 1 0 w.client_count rest) [
    | inl (e, all) ↦ (w, rw e refl, (omega arith, all))
    | inr (k, v, e, at, lt, all) ↦
        let e' : find_best 1 0 w.client_count rest ≡ suc k = e ∙ omega arith in
        (v, rw e' at, (omega arith, all))
  ]

  -- A pool with workers assigns a client that epoll accepts to a worker that has the fewest, and
  -- records it. Where the numbers of clients of any two workers differ by one at most, and are
  -- not near 2 ^ 64, they still differ by one at most.
  pub assign_client-IsBalanced :
      (fd : ℕ) (v : IsBalanced (w ∷ rest))
      → v.0 + 2 < 2 ^ 64
      → (p : ThreadPool) × (k : ℕ) × (least : WorkerThread) × (assign_client true fd pool ≡ some p)
        × (get_elem? (w ∷ rest) k ≡ some least)
        × AllLoaded least.client_count (w ∷ rest)
        × (lookup_worker fd p.client_to_worker ≡ some k)
        × (p.workers ≡ modify_worker k (add_client true fd) (w ∷ rest))
        × IsBalanced p.workers
  unfolding assign_client
  assign_client-IsBalanced fd v b =
      let k = find_best 1 0 w.client_count rest in
      let (least, at, all) = best_is_least in
      (
        record {
          workers = modify_worker k (add_client true fd) (w ∷ rest);
          client_to_worker = insert_worker fd k mapping;
        },
        k,
        least,
        refl,
        at,
        all,
        lookup-insert_worker fd k mapping,
        refl,
        least-IsBalanced k fd (w ∷ rest) least v b at all,
      )
