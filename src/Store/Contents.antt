-- ===== src/Store/Contents.antt =====
-- What a `DataStore` holds for a key, whichever of the cache and the submaps answers, and what
-- `set`, `get` and `del` do to it.
use redis_c.Prelude.{
  ℕ, ◌+◌, ◌≤◌, ◌<◌, ◌≡◌, refl, ap, ◌∙◌, sym, Bool, true, false, Option, none, some, arith,
  if◌then◌else◌, Bytes, beq, Bool-cases, Option-cases, inl, inr,
}
use redis_c.Prelude.Run.{Run, done, blocked, bad_alloc, dangling, runtime_error, endless, ◌>>=◌}
use redis_c.Cache.State.{Env, Cache}
use redis_c.Cache.Valid.{IsValid, cached}
use redis_c.Cache.Laws.{Sets, remove-absent, remove-held, absent-Sets, is_some}
use redis_c.Cache.Put.{put-Sets}
use redis_c.Store.Codec.{Zlib, ZlibLaw, IsCoded, encode, decode, decode-encode}
use redis_c.Store.State.{
  DataStore, store_value, erase_value, stored, stored-cache, stored-store_value, stored-erase_value,
}
use redis_c.Store.Ops.{set, del}

module _ (env : Env) (std_hash : Bytes → ℕ) (z : Zlib) (f : ℕ) where
  unfoldable pub read : Bool → Option Bytes → Run (Option Bytes)
  unfolding decode
  read enable_compression none = done none
  read enable_compression (some s) = do value ← decode z f enable_compression s; done (some value)

  -- The value of a key, from the submap alone.
  unfoldable pub contents : DataStore → Bytes → Run (Option Bytes)
  unfolding read
  contents d k = read d.enable_compression (stored env std_hash d k)

  -- A store at rest: the cache is valid, what it holds is what the submaps hold, and every stored
  -- value can be read.
  pub record IsCoherent (d : DataStore) : Type 0 where
    pub cache : IsValid d.cache
    pub fresh : (k v : Bytes) → cached env d.cache k ≡ some v → contents d k ≡ done (some v)
    pub readable : (k : Bytes) → (o : Option Bytes) × (contents d k ≡ done o)

  -- From `d` to `d'` the value of `key` became `x` and no other did; the cache has `grown` more
  -- items at most.
  pub record Updates (d d' : DataStore) (key : Bytes) (x : Option Bytes) (grown : ℕ) : Type 0 where
    pub coherent : IsCoherent d'
    pub capacity : d'.cache.capacity ≡ d.cache.capacity
    pub size : d'.cache.size ≤ d.cache.size + grown
    pub compression : d'.enable_compression ≡ d.enable_compression
    pub holds : (k : Bytes) → contents d' k ≡ (if beq key k then done x else contents d k)
    pub others : (k : Bytes) → beq key k ≡ false → cached env d'.cache k ≡ cached env d.cache k

  -- The cache has a place for `key`, or has it already.
  abbrev pub HasRoom : DataStore → Bytes → Type 0
  HasRoom d key = cached env d.cache key ≡ none → d.cache.size < d.cache.capacity

  pub contents-cache :
      (d : DataStore) (c : Cache) (k : Bytes) → contents (record d { cache = c }) k ≡ contents d k
  unfolding contents
  contents-cache d c k = rw (stored-cache env std_hash d c k)

  pub contents-store_value :
      (d : DataStore) (key s value k : Bytes)
      → decode z f d.enable_compression s ≡ done value
      → contents (store_value env std_hash key s d) k
        ≡ (if beq key k then done (some value) else contents d k)
  unfolding contents store_value
  contents-store_value d key s value k e = elim (Bool-cases (beq key k)) [
    | inl same ↦
        rw (same, stored-store_value env std_hash d key s k)
          (rw (same) (ap (λ r. r >>= (λ v. done (some v))) e))
    | inr other ↦ rw (other, stored-store_value env std_hash d key s k) (rw other refl)
  ]

  contents-erase_value :
      (d : DataStore) (key k : Bytes)
      → contents (erase_value env std_hash key d) k
        ≡ (if beq key k then done none else contents d k)
  unfolding contents erase_value
  contents-erase_value d key k = elim (Bool-cases (beq key k)) [
    | inl same ↦ rw (same, stored-erase_value env std_hash d key k) (rw same refl)
    | inr other ↦ rw (other, stored-erase_value env std_hash d key k) (rw other refl)
  ]

  -- The cache took `xc` for the key where the submaps now say `x`.
  module _ (d : DataStore) (v : IsCoherent d) (c : Cache) (key : Bytes) (xc x : Option Bytes)
      (n : ℕ) (sets : Sets env d.cache c key xc n) (agree : (w : Bytes) → xc ≡ some w → x ≡ some w)
      (d' : DataStore) (same_cache : d'.cache ≡ c)
      (same_compression : d'.enable_compression ≡ d.enable_compression)
      (holds' : (k : Bytes) → contents d' k ≡ (if beq key k then done x else contents d k)) where
    updated-fresh : (k w : Bytes) → cached env d'.cache k ≡ some w → contents d' k ≡ done (some w)
    updated-fresh k w h = elim (Bool-cases (beq key k)) [
      | inl same ↦
          let e : xc ≡ some w = ground (arith, same_cache, sets.holds k, same, h) in
          holds' k ∙ rw same (ap done (agree w e))
      | inr other ↦
          let e : cached env d.cache k ≡ some w =
            ground (arith, same_cache, sets.holds k, other, h) in
          holds' k ∙ rw other (v.fresh k w e)
    ]

    updated-readable : (k : Bytes) → (o : Option Bytes) × (contents d' k ≡ done o)
    updated-readable k = elim (Bool-cases (beq key k)) [
      | inl same ↦ (x, holds' k ∙ rw same refl)
      | inr other ↦ let (o, e) = v.readable k in (o, holds' k ∙ rw other e)
    ]

    pub updated-Updates : Updates d d' key x n
    updated-Updates = record {
      coherent = record {
        cache = rw same_cache sets.valid;
        fresh = updated-fresh;
        readable = updated-readable;
      };
      capacity = rw same_cache sets.capacity;
      size = omega (arith, ap (λ (c : Cache). c.size) same_cache, sets.size);
      compression = same_compression;
      holds = holds';
      others = λ k other. ap (λ c'. cached env c' k) same_cache ∙ sets.holds k ∙ rw other refl;
    }

  module _ (d : DataStore) (v : IsCoherent d) (key : Bytes) where
    -- In a coherent store, `set` of a value that the compressor accepts, shorter than the fuel
    -- and than 2 ^ 31, as is what is stored, under a key that the cache holds or has room for,
    -- returns. The value is then what the store holds for the key, no other key changes, and the
    -- store is coherent.
    pub set-Updates :
        (law : ZlibLaw z) (now : ℕ) (value s : Bytes)
        → encode z d.enable_compression value ≡ done s
        → IsCoded f value s
        → HasRoom d key
        → (d' : DataStore) × (set env std_hash z f true now key value d ≡ done d')
          × Updates d d' key (some value) 1
    unfolding set store_value
    set-Updates law now value s e le room =
        let (c, run, sets) = put-Sets env d.cache now key value v.cache room in
        let d1 : DataStore = record d { cache = c } in
        let d' = store_value env std_hash key s d1 in
        (
          d',
          rw e (
              ap (λ r. r >>= (λ x. done (store_value env std_hash key s (record d { cache = x }))))
                run),
          updated-Updates d v c key (some value) (some value) 1 sets (λ w h. h) d' refl refl
              (λ k.
                contents-store_value d1 key s value k
                  (decode-encode z law f d.enable_compression value s e le)
                ∙ rw (contents-cache d c k)),
        )

    read-is_some :
        (r : Run Bytes) (o : Option Bytes)
        → (r >>= (λ v. done (some v))) ≡ done o
        → is_some o ≡ true
    read-is_some (done w) o h = ground arith
    read-is_some (blocked) o h = ground arith
    read-is_some (bad_alloc) o h = ground arith
    read-is_some (dangling) o h = ground arith
    read-is_some (runtime_error) o h = ground arith
    read-is_some (endless) o h = ground arith

    is_some-stored :
        (o : Option Bytes)
        → contents d key ≡ done o
        → is_some (stored env std_hash d key) ≡ is_some o
    unfolding contents
    is_some-stored o e = elim (Option-cases (stored env std_hash d key)) [
      | inl absent ↦ let h : o ≡ none = ground (arith, absent, e) in rw (absent, h) refl
      | inr (s, found) ↦ rw found (
          sym (
            read-is_some (decode z f d.enable_compression s) o
              (ap (read d.enable_compression) (sym found) ∙ e)))
    ]

    -- In a coherent store, `del` of a key that the cache does not hold returns whether the store
    -- held the key, and then it does not; the cache is as before, no other key changes, and the
    -- store is coherent.
    pub del-Updates :
        (o : Option Bytes)
        → contents d key ≡ done o
        → cached env d.cache key ≡ none
        → (d' : DataStore) × (del env std_hash z f key d ≡ done (d', is_some o))
          × Updates d d' key none 0
          × (d'.cache ≡ d.cache)
    unfolding del erase_value
    del-Updates o e absent =
        let sets = absent-Sets env d.cache v.cache key absent in
        let d' = erase_value env std_hash key d in
        (
          d',
          ap
                (λ r. r >>= (λ (x, _). done (
                  erase_value env std_hash key (record d { cache = x }),
                  is_some (stored env std_hash d key),
                )))
                (remove-absent env d.cache v.cache key absent)
              ∙ ap (λ b. done (d', b)) (is_some-stored o e),
          updated-Updates d v d.cache key none none 0 sets (λ w h. h) d' refl refl
              (λ k. contents-erase_value d key k),
          refl,
        )

    -- In a coherent store, `del` of a key that the cache holds, as it does behind every `set` and
    -- `get` of it, is undefined.
    pub del_dangling :
        (w : Bytes) → cached env d.cache key ≡ some w → del env std_hash z f key d ≡ dangling
    unfolding del
    del_dangling w held =
        ap
          (λ r. r >>= (λ (x, _). done (
            erase_value env std_hash key (record d { cache = x }),
            is_some (stored env std_hash d key),
          )))
          (remove-held env d.cache v.cache key w held)
