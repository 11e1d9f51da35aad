-- ===== src/Worker/Count.antt =====
-- The count of a worker's clients: `WorkerThread::add_client` and `remove_client` of
-- src/ThreadPool.cpp.
use redis_c.Prelude.{
  ℕ, ◌+◌, ◌^◌, ◌<◌, ◌≡◌, refl, true, false, List, [], ◌∷◌, arith, ◌==◌, length, Bool-cases, inl,
  inr,
}
use redis_c.Worker.Clients.{WorkerThread, has_client, erase_client, add_client, remove_client}

-- No descriptor twice.
abbrev pub AreDistinct : List ℕ → Type 0
AreDistinct [] = Unit
AreDistinct (c ∷ rest) = (has_client c rest ≡ false) × AreDistinct rest

-- `client_count_` counts the clients.
pub record IsCounted (w : WorkerThread) : Type 0 where
  pub distinct : AreDistinct w.clients
  pub counted : w.client_count ≡ length w.clients
  pub fits : length w.clients + 1 < 2 ^ 64

has_client-erase_client :
    (c fd : ℕ) (l : List ℕ) → has_client c l ≡ false → has_client c (erase_client fd l) ≡ false
unfolding has_client erase_client
has_client-erase_client c fd [] h = refl
has_client-erase_client c fd (x ∷ l) h = ground (arith, has_client-erase_client c fd l)

pub erased : (fd : ℕ) (l : List ℕ) → has_client fd (erase_client fd l) ≡ false
unfolding has_client erase_client
erased fd [] = refl
erased fd (x ∷ l) = ground (arith, erased fd l)

erase_client-AreDistinct : (fd : ℕ) (l : List ℕ) → AreDistinct l → AreDistinct (erase_client fd l)
unfolding erase_client
erase_client-AreDistinct fd [] h = tt
erase_client-AreDistinct fd (x ∷ l) h = elim (Bool-cases (x == fd)) [
  | inl e ↦ rw e (erase_client-AreDistinct fd l h.1)
  | inr e ↦ rw e (has_client-erase_client x fd l h.0, erase_client-AreDistinct fd l h.1)
]

length-erase_absent :
    (fd : ℕ) (l : List ℕ) → has_client fd l ≡ false → length (erase_client fd l) ≡ length l
unfolding has_client erase_client
length-erase_absent fd [] h = refl
length-erase_absent fd (x ∷ l) h = ground (arith, length-erase_absent fd l)

pub length-erase_client :
    (fd : ℕ) (l : List ℕ)
    → AreDistinct l
    → has_client fd l ≡ true
    → length (erase_client fd l) + 1 ≡ length l
unfolding has_client erase_client
length-erase_client fd [] d h = absurd (ground arith)
length-erase_client fd (x ∷ l) d h = elim (Bool-cases (x == fd)) [
  | inl e ↦
      let same : x ≡ fd = ground arith in
      let gone : has_client fd l ≡ false = rw (← same) d.0 in
      rw e (omega (arith, length-erase_absent fd l gone))
  | inr e ↦ rw e (omega (arith, length-erase_client fd l d.1 (ground arith)))
]

module _ (fd : ℕ) (w : WorkerThread) (v : IsCounted w) where
  -- Where `client_count_` is the number of a worker's clients, it still is when a descriptor that
  -- is new to the worker, and that epoll accepts, is added, below 2 ^ 64 clients.
  pub add_client-IsCounted :
      length w.clients + 2 < 2 ^ 64
      → has_client fd w.clients ≡ false
      → IsCounted (add_client true fd w)
  unfolding add_client
  add_client-IsCounted room absent = record {
    distinct = rw absent (absent, v.distinct);
    counted = rw absent (omega (arith, v.counted));
    fits = rw absent (omega arith);
  }

  -- Where `client_count_` is the number of a worker's clients, it still is when a descriptor is
  -- removed, known or not, and the descriptor is gone.
  pub remove_client-IsCounted :
      IsCounted (remove_client fd w) × (has_client fd (remove_client fd w).clients ≡ false)
  unfolding remove_client
  remove_client-IsCounted = elim (Bool-cases (has_client fd w.clients)) [
    | inr absent ↦ rw absent (v, absent)
    | inl there ↦
        let shorter = length-erase_client fd w.clients v.distinct there in
        rw there (
          record {
            distinct = erase_client-AreDistinct fd w.clients v.distinct;
            counted = omega (arith, v.counted, shorter, v.fits);
            fits = omega (arith, v.fits, shorter);
          },
          erased fd w.clients,
        )
  ]
