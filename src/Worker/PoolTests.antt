-- ===== src/Worker/PoolTests.antt =====
-- Runs of the thread pool.
use redis_c.Prelude.{ℕ, ◌≡◌, refl, true, false, some, List, [], ◌∷◌, arith, ltb, ◌||◌, get_elem?}
use redis_c.Prelude.Decimal.{pos, negsuc}
use redis_c.Worker.Clients.{
  WorkerThread, add_client, ThreadPool, modify_worker, assign_client, lookup_worker,
}
use redis_c.Worker.Balance.{AllLoaded, IsBalanced, assign_client-IsBalanced}
use redis_c.Worker.Affinity.{PoolOptions, initialize_cpu_assignment}
use redis_c.Worker.Binding.{
  ThreadTable, cpu_set, get_current_thread_affinity, bind_thread_to_cpu, set_cpu_affinity,
  enable_cpu_affinity,
}

abbrev busy : WorkerThread
busy = record { clients = 7 ∷ 8 ∷ []; client_count = 2; processed_commands = 5 }

abbrev idle : WorkerThread
idle = record { clients = 9 ∷ []; client_count = 1; processed_commands = 3 }

abbrev three : List WorkerThread
three = busy ∷ idle ∷ busy ∷ []

three-IsBalanced : IsBalanced three
three-IsBalanced = (1, omega arith)

abbrev mapping : List (ℕ × ℕ)
mapping = (9, 1) ∷ []

abbrev demo_pool : ThreadPool
demo_pool = record { workers = three; client_to_worker = mapping }

assign_client-IsBalanced_example :
    (p : ThreadPool) × (k : ℕ) × (least : WorkerThread) × (assign_client true 12 demo_pool ≡ some p)
    × (get_elem? three k ≡ some least)
    × AllLoaded least.client_count three
    × (lookup_worker 12 p.client_to_worker ≡ some k)
    × (p.workers ≡ modify_worker k (add_client true 12) three)
    × IsBalanced p.workers
assign_client-IsBalanced_example =
    assign_client-IsBalanced busy (idle ∷ busy ∷ []) mapping 12 (1, omega arith) (omega arith)

abbrev automatic : PoolOptions
automatic = record {
  enable_cpu_affinity = true;
  auto_detect_topology = true;
  custom_cpu_assignment = [];
}

-- Where the number of processors is not known, no worker has an entry.
no_processors : initialize_cpu_assignment 0 automatic 6 ≡ some []
unfolding initialize_cpu_assignment
no_processors = refl

abbrev fresh : ThreadTable
fresh = record { running = λ w. false; affinity = λ w i. ltb i 8; scheduling = λ w. (0, 0) }

-- A processor that the set cannot name leaves the set empty, which the system refuses: the thread
-- stays on its processors.
refused :
    get_current_thread_affinity true 2
      (bind_thread_to_cpu (λ cpuset. cpuset 1 || cpuset 0) (λ p n. true) 2 (pos 1024) fresh).1
    ≡ get_current_thread_affinity true 2 fresh
unfolding bind_thread_to_cpu cpu_set get_current_thread_affinity
refused = refl

later : set_cpu_affinity 1 (pos 5) (negsuc 0 ∷ negsuc 0 ∷ []) ≡ negsuc 0 ∷ pos 5 ∷ []
unfolding set_cpu_affinity
later = refl

-- The switch is read when the next pool is made: without it no worker has a processor.
switched_off :
    initialize_cpu_assignment 8 (enable_cpu_affinity false automatic) 2
    ≡ some (negsuc 0 ∷ negsuc 0 ∷ [])
unfolding initialize_cpu_assignment enable_cpu_affinity
switched_off = refl
