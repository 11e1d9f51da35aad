-- ===== src/Worker/Affinity.antt =====
-- The placing of workers on processors: `calculate_optimal_cpu_assignment` of
-- include/ThreadAffinity.h and `ThreadPool::initialize_cpu_assignment` of src/ThreadPool.cpp.
use redis_c.Prelude.{
  ℕ, zero, suc, ◌+◌, ◌%◌, ◌≤◌, ◌<◌, ◌≡◌, refl, ap, ◌∙◌, Bool, true, false, Option, none, some, List,
  [], ◌∷◌, arith, leb, ◌==◌, if◌then◌else◌, length, get_elem?, Bool-cases, inl, inr,
}
use redis_c.Prelude.Decimal.{ℤ, pos, negsuc}

-- The loops of `calculate_optimal_cpu_assignment`, with `n` threads left from thread `i` on.
unfoldable pub one_each : ℕ → ℕ → List ℕ
one_each zero i = []
one_each (suc n) i = i ∷ one_each n (suc i)

unfoldable pub round_robin : ℕ → ℕ → ℕ → List ℕ
round_robin cpu_count zero i = []
round_robin cpu_count (suc n) i = i % cpu_count ∷ round_robin cpu_count n (suc i)

-- `calculate_optimal_cpu_assignment`, where `cpu_count` is what `hardware_concurrency` tells: 0
-- when it is not known.
unfoldable pub calculate_optimal_cpu_assignment : ℕ → ℕ → List ℕ
unfolding one_each round_robin
calculate_optimal_cpu_assignment cpu_count thread_count =
    if cpu_count == 0
    then []
    else if leb thread_count cpu_count
    then one_each thread_count 0
    else round_robin cpu_count thread_count 0

-- `ThreadPool::Options`
pub record PoolOptions : Type 0 where
  pub enable_cpu_affinity : Bool
  pub auto_detect_topology : Bool
  pub custom_cpu_assignment : List ℤ

-- `resize(n, x)`
unfoldable pub resize : ℕ → ℤ → List ℤ → List ℤ
resize zero x l = []
resize (suc n) x [] = x ∷ resize n x []
resize (suc n) x (y ∷ l) = y ∷ resize n x l

abbrev pub as_ints : List ℕ → List ℤ
as_ints [] = []
as_ints (n ∷ l) = pos n ∷ as_ints l

-- `initialize_cpu_assignment`; `none` is the division by zero of the simple round robin.
unfoldable pub initialize_cpu_assignment : ℕ → PoolOptions → ℕ → Option (List ℤ)
unfolding calculate_optimal_cpu_assignment round_robin resize
initialize_cpu_assignment cpu_count o worker_count =
    if o.enable_cpu_affinity
    then elim o.custom_cpu_assignment [
      | c ∷ rest ↦ some (resize worker_count (pos 0) (c ∷ rest))
      | [] ↦
          if o.auto_detect_topology
          then some (as_ints (calculate_optimal_cpu_assignment cpu_count worker_count))
          else if cpu_count == 0
          then (if worker_count == 0 then some [] else none)
          else some (as_ints (round_robin cpu_count worker_count 0))
    ]
    else some (resize worker_count (negsuc 0) [])

one_each-round_robin :
    (cpu_count n i : ℕ) → i + n ≤ cpu_count → one_each n i ≡ round_robin cpu_count n i
unfolding one_each round_robin
one_each-round_robin cpu_count zero i h = refl
one_each-round_robin cpu_count (suc n) i h =
    let e : i ≡ i % cpu_count = grind arith in
    λ j. e j ∷ one_each-round_robin cpu_count n (suc i) (omega arith) j

get_elem?-round_robin :
    (cpu_count n i k : ℕ)
    → k < n
    → get_elem? (round_robin cpu_count n i) k ≡ some ((i + k) % cpu_count)
unfolding round_robin
get_elem?-round_robin cpu_count zero i k h = absurd (omega arith)
get_elem?-round_robin cpu_count (suc n) i zero h = let e : i + 0 ≡ i = omega arith in rw e refl
get_elem?-round_robin cpu_count (suc n) i (suc k) h =
    let e : i + suc k ≡ suc i + k = omega arith in
    rw e (get_elem?-round_robin cpu_count n (suc i) k (omega arith))

length-round_robin : (cpu_count n i : ℕ) → length (round_robin cpu_count n i) ≡ n
unfolding round_robin
length-round_robin cpu_count zero i = refl
length-round_robin cpu_count (suc n) i = ap (λ m. suc m) (length-round_robin cpu_count n (suc i))

optimal-round_robin :
    (cpu_count n : ℕ)
    → 0 < cpu_count
    → calculate_optimal_cpu_assignment cpu_count n ≡ round_robin cpu_count n 0
unfolding calculate_optimal_cpu_assignment
optimal-round_robin cpu_count n known_count =
    let some_cpu : (cpu_count == 0) ≡ false = ground arith in
    elim (Bool-cases (leb n cpu_count)) [
      | inl few ↦ rw (some_cpu, few) (one_each-round_robin cpu_count n 0 (ground arith))
      | inr many ↦ rw (some_cpu, many) refl
    ]

-- Both strategies place thread `k` on processor `k % cpu_count`, where there are processors.
pub get_elem?-calculate_optimal_cpu_assignment :
    (cpu_count n k : ℕ)
    → 0 < cpu_count
    → k < n
    → get_elem? (calculate_optimal_cpu_assignment cpu_count n) k ≡ some (k % cpu_count)
get_elem?-calculate_optimal_cpu_assignment cpu_count n k known_count h =
    let e : 0 + k ≡ k = omega arith in
    rw (optimal-round_robin cpu_count n known_count)
      (get_elem?-round_robin cpu_count n 0 k h ∙ ap (λ i. some (i % cpu_count)) e)

length-resize : (n : ℕ) (x : ℤ) (l : List ℤ) → length (resize n x l) ≡ n
unfolding resize
length-resize zero x l = refl
length-resize (suc n) x [] = ap (λ m. suc m) (length-resize n x [])
length-resize (suc n) x (y ∷ l) = ap (λ m. suc m) (length-resize n x l)

length-as_ints : (l : List ℕ) → length (as_ints l) ≡ length l
length-as_ints [] = refl
length-as_ints (n ∷ l) = ap (λ m. suc m) (length-as_ints l)

-- Where the number of processors is known, every setting gives each worker its entry, which the
-- constructor of the pool reads.
pub initialize_cpu_assignment-length :
    (cpu_count : ℕ) (o : PoolOptions) (n : ℕ)
    → 0 < cpu_count
    → (l : List ℤ) × (initialize_cpu_assignment cpu_count o n ≡ some l) × (length l ≡ n)
unfolding initialize_cpu_assignment
initialize_cpu_assignment-length cpu_count o n known_count =
    go o.enable_cpu_affinity o.custom_cpu_assignment o.auto_detect_topology
  where
    known : (cpu_count == 0) ≡ false
    known = ground arith

    go :
        (affinity : Bool) (custom : List ℤ) (auto : Bool)
        → (l : List ℤ) × (initialize_cpu_assignment cpu_count
              (record {
                enable_cpu_affinity = affinity;
                auto_detect_topology = auto;
                custom_cpu_assignment = custom;
              })
              n
            ≡ some l)
          × (length l ≡ n)
    go false custom auto = (_, refl, length-resize n (negsuc 0) [])
    go true (c ∷ rest) auto = (_, refl, length-resize n (pos 0) (c ∷ rest))
    go true [] true = (
      as_ints (calculate_optimal_cpu_assignment cpu_count n),
      refl,
      length-as_ints (calculate_optimal_cpu_assignment cpu_count n)
          ∙ ap (length {A = ℕ}) (optimal-round_robin cpu_count n known_count)
          ∙ length-round_robin cpu_count n 0,
    )
    go true [] false = (
      as_ints (round_robin cpu_count n 0),
      rw known refl,
      length-as_ints (round_robin cpu_count n 0) ∙ length-round_robin cpu_count n 0,
    )

get_elem?-as_ints :
    (l : List ℕ) (k c : ℕ) → get_elem? l k ≡ some c → get_elem? (as_ints l) k ≡ some (pos c)
get_elem?-as_ints [] k c at = absurd (ground (arith, at))
get_elem?-as_ints (n ∷ l) zero c at = ground (arith, at)
get_elem?-as_ints (n ∷ l) (suc k) c at = get_elem?-as_ints l k c at

-- `cpu_assignments_` where the strategy is found by the pool.
pub as_ints-calculate_optimal_cpu_assignment :
    (cpu_count n : ℕ)
    → 0 < cpu_count
    → (length (as_ints (calculate_optimal_cpu_assignment cpu_count n)) ≡ n)
      × ((k : ℕ)
          → k < n
          → get_elem? (as_ints (calculate_optimal_cpu_assignment cpu_count n)) k
            ≡ some (pos (k % cpu_count)))
as_ints-calculate_optimal_cpu_assignment cpu_count n known = (
  length-as_ints (calculate_optimal_cpu_assignment cpu_count n)
      ∙ ap (length {A = ℕ}) (optimal-round_robin cpu_count n known)
      ∙ length-round_robin cpu_count n 0,
  λ k h.
      get_elem?-as_ints (calculate_optimal_cpu_assignment cpu_count n) k (k % cpu_count)
        (get_elem?-calculate_optimal_cpu_assignment cpu_count n k known h),
)
