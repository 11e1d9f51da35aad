-- ===== src/Store/Stale.antt =====
-- A deleted key that comes back: `get` and `del` of src/DataStore.cpp side by side.
use redis_c.Prelude.{
  ℕ, ◌<◌, ◌≡◌, refl, ap, ◌∙◌, Bool, false, Option, none, some, arith, inl, inr, ◌==◌, Bytes,
  beq_iff, Bool-cases,
}
use redis_c.Prelude.Run.{Run, done, blocked, bad_alloc, dangling, runtime_error, endless, ◌>>=◌}
use redis_c.Cache.State.{Env, Cache}
use redis_c.Cache.Valid.{cached}
use redis_c.Cache.Laws.{get-Sets, remove-absent, absent-Sets}
use redis_c.Cache.Put.{put-Sets}
use redis_c.Store.Codec.{Zlib, decode}
use redis_c.Store.State.{
  DataStore, erase_value, stored, stored-cache, stored-erase_value, set_submap,
}
use redis_c.Store.Contents.{contents, IsCoherent, read}
use redis_c.Store.Threads.{
  Pending, idle, looking, filling, erasing, Threads, set_pending, moved, with_cache, reads, Step,
  miss, found, fill, begin_del, end_del, Reach, here, next,
}

-- No thread is at work, the submap does not have the key, and the cache answers a value for it.
pub record IsStale (env : Env) (std_hash : Bytes → ℕ) (key value : Bytes) (τ : Threads)
    : Type 0 where
  pub settled : (t : ℕ) → τ.pending t ≡ idle
  pub unstored : stored env std_hash τ.store key ≡ none
  pub answered : cached env τ.store.cache key ≡ some value

module _ (env : Env) (std_hash : Bytes → ℕ) (z : Zlib) (f : ℕ) where
  -- What a value in the contents is read from.
  read_from :
      (compression : Bool) (o : Option Bytes) (value : Bytes)
      → read env std_hash z f compression o ≡ done (some value)
      → (s : Bytes) × (o ≡ some s) × (decode z f compression s ≡ done value)
  unfolding read
  read_from compression none value e = absurd (ground arith)
  read_from compression (some s) value e = (s, refl, go (decode z f compression s) e)
    where
      go : (r : Run Bytes) → (r >>= (λ v. done (some v))) ≡ done (some value) → r ≡ done value
      go (done v) e = ground arith
      go blocked e = absurd (ground arith)
      go bad_alloc e = absurd (ground arith)
      go dangling e = absurd (ground arith)
      go runtime_error e = absurd (ground arith)
      go endless e = absurd (ground arith)

  -- The threads before the last step, and after it.
  abbrev before_last : Bytes → Bytes → (ℕ → Pending) → ℕ → Pending
  before_last key value pending = set_pending 0 idle (
      set_pending 1 (erasing key)
        (set_pending 0 (filling key value) (set_pending 0 (looking key) pending)))

  at_rest :
      (pending : ℕ → Pending) (key value : Bytes)
      → ((t : ℕ) → pending t ≡ idle)
      → (t : ℕ) → set_pending 1 idle (before_last key value pending) t ≡ idle
  at_rest pending key value rest t = elim (Bool-cases (1 == t)) [
    | inl e ↦ rw e refl
    | inr e ↦ rw e (elim (Bool-cases (0 == t)) [ inl e0 ↦ rw e0 refl | inr e0 ↦ rw e0 (rest t) ])
  ]

  unread :
      (d : DataStore) (key value : Bytes) (pending : ℕ → Pending)
      → ((t : ℕ) → pending t ≡ idle)
      → (c : Cache) → (u : ℕ)
      → reads env std_hash (record d { cache = c }) key (before_last key value pending u) ≡ false
  unfolding reads
  unread d key value pending rest c u = elim (Bool-cases (0 == u)) [
    | inl e ↦ rw e refl
    | inr e ↦
        rw e
          (elim (Bool-cases (1 == u)) [ inl e1 ↦ rw e1 refl | inr e1 ↦ rw e1 (rw (rest u) refl) ])
  ]

  -- From a coherent store, with threads that have nothing to do, that holds a value for a key that
  -- is not cached and has room: one thread's `get` misses the cache and finds the value, another
  -- thread's `del` removes the key from the cache, the first thread caches the value, and the
  -- second erases it from the submap. The deleted value is then in the cache.
  pub del-IsStale :
      (σ : Threads) (key value : Bytes)
      → IsCoherent env std_hash z f σ.store
      → ((t : ℕ) → σ.pending t ≡ idle)
      → contents env std_hash z f σ.store key ≡ done (some value)
      → cached env σ.store.cache key ≡ none
      → σ.store.cache.size < σ.store.cache.capacity
      → (τ : Threads) × Reach env std_hash z f σ τ × IsStale env std_hash key value τ
  unfolding contents erase_value set_submap
  del-IsStale σ key value v rest holds uncached room =
      let (s, there, dec) =
        read_from σ.store.enable_compression (stored env std_hash σ.store key) value holds in
      let (c1, run1, size1, g) = get-Sets env σ.store.cache v.cache key 0 in
      let missed : cached env c1 key ≡ none = ground (arith, g.holds key, uncached) in
      let run2 = remove-absent env c1 g.valid key missed in
      let r = absent-Sets env c1 g.valid key missed in
      let (c3, run3, p) =
        put-Sets env c1 0 key value r.valid
          (λ e. omega (arith, r.size, r.capacity, g.capacity, size1)) in
      let σ1 = moved 0 (looking key) (with_cache c1 σ) σ in
      let step1 : Step env std_hash z f σ σ1 =
        miss 0 0 key c1 (rest 0) (run1 ∙ ap (λ o. done (c1, o)) uncached) in
      let σ2 = moved 0 (filling key value) σ1.store σ1 in
      let step2 : Step env std_hash z f σ1 σ2 =
        found 0 key s value refl (stored-cache env std_hash σ.store c1 key ∙ there) dec in
      let σ3 = moved 1 (erasing key) (with_cache c1 σ2) σ2 in
      let step3 : Step env std_hash z f σ2 σ3 = begin_del 1 key c1 false (rest 1) run2 in
      let σ4 = moved 0 idle (with_cache c3 σ3) σ3 in
      let step4 : Step env std_hash z f σ3 σ4 = fill 0 0 key value c3 refl run3 in
      let σ5 = moved 1 idle (erase_value env std_hash key σ4.store) σ4 in
      let step5 : Step env std_hash z f σ4 σ5 =
        end_del 1 key refl (unread σ3.store key value σ.pending rest c3) in
      (
        σ5,
        next (next (next (next (next here step1) step2) step3) step4) step5,
        record {
          settled = λ t. at_rest σ.pending key value rest t;
          unstored =
              ground (arith, stored-erase_value env std_hash σ4.store key key, beq_iff key key);
          answered = ground (arith, p.holds key, beq_iff key key);
        },
      )
