-- ===== src/Store/Get.antt =====
-- `get` of a `DataStore`: from the cache, or from the submap through the cache.
use redis_c.Prelude.{
  ℕ, ◌≡◌, refl, ap, ◌∙◌, sym, Bool, true, Option, none, some, arith, Bytes, beq_iff, Option-cases,
  inl, inr, ◌⊎◌,
}
use redis_c.Prelude.Run.{Run, done, blocked, bad_alloc, dangling, runtime_error, endless, ◌>>=◌}
use redis_c.Cache.State.{Env, Cache}
use redis_c.Cache.Ops
use redis_c.Cache.Valid.{cached}
use redis_c.Cache.Laws.{Sets, get-Sets}
use redis_c.Cache.Put.{put-Sets, put_dangling}
use redis_c.Store.Codec.{Zlib, decode}
use redis_c.Store.State.{DataStore, stored, stored-cache}
use redis_c.Store.Ops.{get_stored, get_cached, get}
use redis_c.Store.Contents.{
  read, contents, IsCoherent, Updates, HasRoom, contents-cache, updated-Updates,
}

-- A read that ended had a value.
read_value :
    (r : Run Bytes) (o : Option Bytes)
    → (r >>= (λ v. done (some v))) ≡ done o
    → (value : Bytes) × (r ≡ done value) × (o ≡ some value)
read_value (done w) o h = (w, refl, ground arith)
read_value blocked o h = absurd (ground arith)
read_value bad_alloc o h = absurd (ground arith)
read_value dangling o h = absurd (ground arith)
read_value runtime_error o h = absurd (ground arith)
read_value endless o h = absurd (ground arith)

-- Two operations on the cache in a row that hold the same value.
Sets-then :
    (env : Env) (c c1 c2 : Cache) (key : Bytes) (w : Bytes)
    → Sets env c c1 key none 0
    → Sets env c1 c2 key (some w) 1
    → Sets env c c2 key (some w) 1
Sets-then env c c1 c2 key w s t = record {
  valid = t.valid;
  capacity = t.capacity ∙ s.capacity;
  size = omega (arith, s.size, t.size);
  holds = λ k. ground (arith, s.holds k, t.holds k);
}

weaken :
    (env : Env) (c c' : Cache) (key : Bytes) (x : Option Bytes)
    → Sets env c c' key x 0
    → Sets env c c' key x 1
weaken env c c' key x s = record {
  valid = s.valid;
  capacity = s.capacity;
  size = omega (arith, s.size);
  holds = s.holds;
}

module _ (env : Env) (std_hash : Bytes → ℕ) (z : Zlib) (f : ℕ) where
  stored-cases :
      (d : DataStore) (key : Bytes) (o : Option Bytes)
      → contents env std_hash z f d key ≡ done o
      → ((stored env std_hash d key ≡ none) × (o ≡ none))
        ⊎ ((s : Bytes) × (value : Bytes) × (stored env std_hash d key ≡ some s)
            × (decode z f d.enable_compression s ≡ done value)
            × (o ≡ some value))
  unfolding contents read
  stored-cases d key o e = elim (Option-cases (stored env std_hash d key)) [
    | inl absent ↦ inl (absent, ground (arith, absent, e))
    | inr (s, found) ↦
        let (value, run, same) =
          read_value (decode z f d.enable_compression s) o
            (ap (read env std_hash z f d.enable_compression) (sym found) ∙ e) in
        inr (s, value, found, run, same)
  ]

  module _ (d : DataStore) (v : IsCoherent env std_hash z f d) (key : Bytes) (now : ℕ) where
    -- `d` with another cache, which took `xc` for the key.
    recached :
        (c : Cache) (xc o : Option Bytes) (n : ℕ)
        → Sets env d.cache c key xc n
        → ((w : Bytes) → xc ≡ some w → o ≡ some w)
        → contents env std_hash z f d key ≡ done o
        → Updates env std_hash z f d (record d { cache = c }) key o n
    recached c xc o n sets agree e =
        updated-Updates env std_hash z f d v c key xc o n sets agree (record d { cache = c }) refl
          refl (λ k. contents-cache env std_hash z f d c k ∙ ground (arith, beq_iff key k, e))

    get-run :
        (memory : Bool) (c : Cache) (x : Option Bytes)
        → Ops.get env now key d.cache ≡ done (c, x)
        → get env std_hash z f memory now key d
          ≡ get_cached env std_hash z f memory now key (record d { cache = c }) x
    unfolding get
    get-run memory c x run =
        ap
          (λ r. r >>= (λ (c', x').
            get_cached env std_hash z f memory now key (record d { cache = c' }) x'))
          run

    stored_same :
        (c : Cache) → stored env std_hash (record d { cache = c }) key ≡ stored env std_hash d key
    stored_same c = stored-cache env std_hash d c key

    get_cached-absent :
        (c : Cache) (memory : Bool)
        → stored env std_hash d key ≡ none
        → get_cached env std_hash z f memory now key (record d { cache = c }) none
          ≡ done (record d { cache = c }, none)
    unfolding get_cached
    get_cached-absent c memory absent =
        ap (get_stored env std_hash z f memory now key (record d { cache = c }))
          (stored_same c ∙ absent)

    get_cached-found :
        (c : Cache) (memory : Bool) (s value : Bytes)
        → stored env std_hash d key ≡ some s
        → decode z f d.enable_compression s ≡ done value
        → get_cached env std_hash z f memory now key (record d { cache = c }) none ≡ (
            Ops.put env memory now key value c >>= (λ x. done (record d { cache = x }, some value)))
    unfolding get_cached get_stored
    get_cached-found c memory s value found dec =
        ap (get_stored env std_hash z f memory now key (record d { cache = c }))
          (stored_same c ∙ found)
        ∙ ap
            (λ r. r >>= (λ value'.
              Ops.put env memory now key value' c
              >>= (λ x. done (record d { cache = x }, some value'))))
            dec

    -- In a coherent store whose cache holds the key or has room for it, `get` answers what the
    -- store holds for the key. Nothing that the store holds changes, and the store is coherent.
    pub get-Updates :
        (o : Option Bytes)
        → contents env std_hash z f d key ≡ done o
        → HasRoom env std_hash z f d key
        → (d' : DataStore) × (get env std_hash z f true now key d ≡ done (d', o))
          × Updates env std_hash z f d d' key o 1
    unfolding get_cached get_stored
    get-Updates o e room =
        let (c, run, same_size, sets) = get-Sets env d.cache v.cache key now in
        elim (Option-cases (cached env d.cache key)) [
          | inr (w, hit) ↦
              let same : o ≡ some w = ground (arith, e, v.fresh key w hit) in
              (
                record d { cache = c },
                get-run true c (some w) (run ∙ rw hit) ∙ rw same,
                recached c (some w) o 1 (weaken env d.cache c key (some w) (rw (← hit) sets))
                    (λ w' h. same ∙ h) e,
              )
          | inl miss ↦
              let sets0 : Sets env d.cache c key none 0 = rw (← miss) sets in
              elim (stored-cases d key o e) [
                | inl (absent, same) ↦ (
                  record d { cache = c },
                  get-run true c none (run ∙ rw miss) ∙ get_cached-absent c true absent ∙ rw same,
                  recached c none o 1 (weaken env d.cache c key none sets0) (λ w' h. ground arith)
                      e,
                )
                | inr (s, value, found, dec, same) ↦
                    let (c2, run2, sets2) =
                      put-Sets env c now key value sets0.valid
                        (λ h. omega (arith, room miss, sets0.size, sets0.capacity)) in
                    (
                      record d { cache = c2 },
                      get-run true c none (run ∙ rw miss)
                          ∙ get_cached-found c true s value found dec
                          ∙ ap (λ r. r >>= (λ x. done (record d { cache = x }, some value))) run2
                          ∙ rw same,
                      recached c2 (some value) o 1
                          (Sets-then env d.cache c c2 key value sets0 sets2) (λ w' h. same ∙ h) e,
                    )
              ]
        ]

    -- In a coherent store whose cache is at its capacity and does not hold the key, `get` of a
    -- key that a submap holds is undefined.
    pub get_dangling :
        (memory : Bool) (value : Bytes)
        → contents env std_hash z f d key ≡ done (some value)
        → cached env d.cache key ≡ none
        → d.cache.size ≡ d.cache.capacity
        → get env std_hash z f memory now key d ≡ dangling
    get_dangling memory value e miss full =
        let (c, run, same_size, sets) = get-Sets env d.cache v.cache key now in
        elim (stored-cases d key (some value) e) [
          | inl (absent, same) ↦ absurd (ground (arith, same))
          | inr (s, w, found, dec, same) ↦
              get-run memory c none (run ∙ rw miss)
              ∙ get_cached-found c memory s w found dec
              ∙ ap (λ r. r >>= (λ x. done (record d { cache = x }, some w)))
                  (put_dangling env c now key w sets.valid memory
                    (sets.holds key ∙ ground (arith, beq_iff key key, miss))
                    (omega (arith, sets.capacity, same_size, full)))
        ]
