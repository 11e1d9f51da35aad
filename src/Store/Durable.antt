-- ===== src/Store/Durable.antt =====
-- A store over its whole life: the constructor, `set`, `get` and `del`, the destructor and the
-- next constructor of src/DataStore.cpp.
use redis_c.Prelude.{
  ℕ, suc, ◌+◌, ◌^◌, ◌≤◌, ◌<◌, ◌≡◌, refl, ap, ◌∙◌, sym, Bool, true, Option, none, some, List, [],
  ◌∷◌, arith, Bytes, beq, beq_iff, Bool-cases, false, length, if◌then◌else◌, inl, inr,
}
use redis_c.Prelude.Run.{Run, done, ◌>>=◌}
use redis_c.Cache.State.{Env}
use redis_c.Store.Codec.{Zlib, ZlibLaw, IsCoded, encode}
use redis_c.Store.State.{DataStore}
use redis_c.Store.Ops.{set, get, del}
use redis_c.Store.Persist.{SyncRound, shutdown}
use redis_c.Store.Contents.{contents, IsCoherent, Updates, HasRoom, set-Updates, del-Updates}
use redis_c.Store.Get.{get-Updates}
use redis_c.Store.Restore.{IsPlaced}
use redis_c.Store.Keeps.{done_inj, bind-done, Keeps, set-Keeps, get-Keeps, del-Keeps}
use redis_c.Cache.Valid.{cached}
use redis_c.Cache.Init.{new_cache}
use redis_c.Cache.Laws.{is_some}
use redis_c.Store.Init.{
  StoreOptions, new_store, new_store-IsCoherent, load_shards-none, empty_store, cache_options,
}
use redis_c.Commands.Spec.{Map, assign}
use redis_c.Store.Life.{Restores, sync_routine-restart}

-- A call of a method, at some time of the clock.
pub data Call : Type 0 where
  setting : ℕ → Bytes → Bytes → Call
  getting : ℕ → Bytes → Call
  deleting : Bytes → Call

-- What the calls of a list make of a map that is empty at first, first to last.
abbrev pub applied : Call → Map → Map
applied (setting now key value) m = assign key (some value) m
applied (getting now key) m = m
applied (deleting key) m = assign key none m

abbrev pub applied_all : List Call → Map → Map
applied_all [] m = m
applied_all (c ∷ rest) m = applied_all rest (applied c m)

module _ (env : Env) (std_hash : Bytes → ℕ) (z : Zlib) (f : ℕ) (deletable : Bytes → Bool) where
  unfoldable pub call : Call → DataStore → Run DataStore
  call (setting now key value) d = set env std_hash z f true now key value d
  call (getting now key) d = do (d', _) ← get env std_hash z f true now key d; done d'
  call (deleting key) d = do (d', _) ← del env std_hash z f key d; done d'

  unfoldable pub call_all : List Call → DataStore → Run DataStore
  unfolding call
  call_all [] d = done d
  call_all (c ∷ rest) d = do d' ← call c d; call_all rest d'

  -- The compressor accepts a value, and a file can hold its record; `set` and `get` are called for
  -- keys that are not deleted, and `del` for others.
  abbrev pub Fits : Bool → Call → Type 0
  Fits compression (setting now key value) =
      (s : Bytes) × (encode z compression value ≡ done s)
      × IsCoded f value s
      × (length key < 2 ^ 32)
      × (deletable key ≡ false)
  Fits compression (getting now key) = deletable key ≡ false
  Fits compression (deleting key) = deletable key ≡ true

  abbrev pub AllFit : Bool → List Call → Type 0
  AllFit compression [] = Unit
  AllFit compression (c ∷ rest) = Fits compression c × AllFit compression rest

  -- A store that can be restarted, that holds a map, and whose cache has room for `n` items.
  record Stands (o : StoreOptions) (m : Map) (n : ℕ) (d : DataStore) : Type 0 where
    coherent : IsCoherent env std_hash z f d
    placed : IsPlaced env std_hash d
    holds : (k : Bytes) → contents env std_hash z f d k ≡ done (m k)
    room : d.cache.size + n ≤ d.cache.capacity
    compression : d.enable_compression ≡ o.enable_compression
    shard_count : d.shard_count ≡ o.shard_count
    apart : (k : Bytes) → deletable k ≡ true → cached env d.cache k ≡ none

  module _ (o : StoreOptions) (m : Map) (n : ℕ) (d : DataStore) (v : Stands o m (suc n) d) where
    updated-Stands :
        (d' : DataStore) (key : Bytes) (x : Option Bytes) (grown : ℕ) (m' : Map)
        → ((k : Bytes) → assign key x m k ≡ m' k)
        → grown ≤ 1
        → Updates env std_hash z f d d' key x grown
        → Keeps env std_hash z f d d'
        → ((k : Bytes) → deletable k ≡ true → cached env d'.cache k ≡ none)
        → Stands o m' n d'
    updated-Stands d' key x grown m' same le u k apart = record {
      coherent = u.coherent;
      placed = k.placed v.placed;
      holds = λ j. u.holds j ∙ if_done (beq key j) x (v.holds j) ∙ ap done (same j);
      room = omega (arith, u.size, u.capacity, v.room, le);
      compression = u.compression ∙ v.compression;
      shard_count = k.shard_count ∙ v.shard_count;
      apart = apart;
    }
      where
        if_done :
            {r : Run (Option Bytes)} {w : Option Bytes} (b : Bool) (x : Option Bytes)
            → r ≡ done w
            → (if b then done x else r) ≡ done (if b then x else w)
        if_done true x e = refl
        if_done false x e = e

    still_apart :
        (d' : DataStore) (key : Bytes) (x : Option Bytes) (grown : ℕ)
        → Updates env std_hash z f d d' key x grown
        → deletable key ≡ false
        → (k : Bytes) → deletable k ≡ true
        → cached env d'.cache k ≡ none
    still_apart d' key x grown u used k h = elim (Bool-cases (beq key k)) [
      | inl same ↦ absurd (ground (arith, ap deletable ((beq_iff key k).0 same), used, h))
      | inr different ↦ u.others k different ∙ v.apart k h
    ]

    has_room : (key : Bytes) → HasRoom env std_hash z f d key
    has_room key h = omega (arith, v.room)

    assign_self : (key k : Bytes) → assign key (m key) m k ≡ m k
    assign_self key k = elim (Bool-cases (beq key k)) [
      | inl same ↦ let e : key ≡ k = ground (arith, beq_iff key k, same) in rw same (ap m e)
      | inr other ↦ rw other refl
    ]

    call-Stands :
        (law : ZlibLaw z) (c : Call)
        → Fits o.enable_compression c
        → (d' : DataStore) × (call c d ≡ done d') × Stands o (applied c m) n d'
    unfolding call
    call-Stands law (setting now key value) (s, e, coded, hk, used) =
        let accepted : encode z d.enable_compression value ≡ done s = rw v.compression e in
        let (d', run, u) =
          set-Updates env std_hash z f d v.coherent key law now value s accepted coded
            (has_room key) in
        (
          d',
          run,
          updated-Stands d' key (some value) 1 _ (λ k. refl) (omega arith) u
              (set-Keeps env std_hash z f d d' now key value s accepted hk (omega (arith, coded.2))
                run)
              (still_apart d' key (some value) 1 u used),
        )
    call-Stands law (getting now key) used =
        let (d', run, u) =
          get-Updates env std_hash z f d v.coherent key now (m key) (v.holds key) (has_room key) in
        (
          d',
          ap (λ r. r >>= (λ (x, _). done x)) run,
          updated-Stands d' key (m key) 1 m (assign_self key) (omega arith) u
              (get-Keeps env std_hash z f d d' now key (m key) run)
              (still_apart d' key (m key) 1 u used),
        )
    call-Stands law (deleting key) free =
        let (d', run, u, same) =
          del-Updates env std_hash z f d v.coherent key (m key) (v.holds key) (v.apart key free) in
        (
          d',
          ap (λ r. r >>= (λ (x, _). done x)) run,
          updated-Stands d' key none 0 _ (λ k. refl) (omega arith) u
              (del-Keeps env std_hash z f d d' key (is_some (m key)) run)
              (λ k h. ap (λ c. cached env c k) same ∙ v.apart k h),
        )

  call_all-Stands :
      (o : StoreOptions) (law : ZlibLaw z) (calls : List Call) (m : Map) (d : DataStore)
      → AllFit o.enable_compression calls
      → Stands o m (length calls) d
      → (d' : DataStore) × (call_all calls d ≡ done d') × Stands o (applied_all calls m) 0 d'
  unfolding call_all
  call_all-Stands o law [] m d h v = (d, refl, v)
  call_all-Stands o law (c ∷ rest) m d h v =
      let (d1, run, v1) = call-Stands o m (length rest) d v law c h.0 in
      let (d', runs, v') = call_all-Stands o law rest (applied c m) d1 h.1 v1 in
      (d', rw run runs, v')

  Stands-weaken :
      (o : StoreOptions) (m : Map) (n n' : ℕ) (d : DataStore)
      → n' ≤ n
      → Stands o m n d
      → Stands o m n' d
  Stands-weaken o m n n' d le v = record {
    coherent = v.coherent;
    placed = v.placed;
    holds = v.holds;
    room = omega (arith, le, v.room);
    compression = v.compression;
    shard_count = v.shard_count;
    apart = v.apart;
  }

  new_store-shard_count :
      (item_size : ℕ) (o : StoreOptions) (d : DataStore)
      → new_store env std_hash true true item_size o (λ _. none) ≡ done d
      → d.shard_count ≡ o.shard_count
  unfolding new_store
  new_store-shard_count item_size o d h =
      let (c, e, h1) = bind-done (new_cache true item_size (cache_options o)) _ d h in
      let loaded = load_shards-none env std_hash o.shard_count 0 (empty_store o c) in
      sym (ap (λ x. x.shard_count) (done_inj (empty_store o c) d (sym loaded ∙ h1)))

  new_store-Stands :
      (item_size : ℕ) (o : StoreOptions)
      → 0 < o.cache_shards
      → o.cache_size < 2 ^ 64
      → 0 < o.bucket_per_shard
      → (d : DataStore) × (new_store env std_hash true true item_size o (λ _. none) ≡ done d)
        × Stands o (λ _. none) o.cache_size d
  new_store-Stands item_size o shards fits buckets =
      let (d, made, coherent, placed, same_setting, capacity, size, nothing, uncached) =
        new_store-IsCoherent env std_hash item_size o shards fits buckets z f in
      (
        d,
        made,
        record {
          coherent = coherent;
          placed = placed;
          holds = nothing;
          room = omega (arith, size, capacity);
          compression = same_setting;
          shard_count = new_store-shard_count item_size o d made;
          apart = λ k h. uncached k;
        },
      )

pub call_all-restart :
    (env : Env) (std_hash : Bytes → ℕ) (z : Zlib) (f item_size : ℕ) (deletable : Bytes → Bool)
    (o : StoreOptions) (calls : List Call) (rounds : List SyncRound)
    → ZlibLaw z
    → 0 < o.cache_shards
    → o.cache_size < 2 ^ 64
    → 0 < o.bucket_per_shard
    → 0 < o.shard_count
    → length calls ≤ o.cache_size
    → AllFit env std_hash z f deletable o.enable_compression calls
    → (start : DataStore) × (new_store env std_hash true true item_size o (λ _. none) ≡ done start)
      × (d : DataStore) × (call_all env std_hash z f deletable calls start ≡ done d)
      × (d' : DataStore) × (new_store env std_hash true true item_size o
            (shutdown rounds d (λ _. none))
          ≡ done d')
      × IsCoherent env std_hash z f d'
      × ((k : Bytes) → contents env std_hash z f d' k ≡ done (applied_all calls (λ _. none) k))
unfolding Restores
call_all-restart env std_hash z f item_size deletable o calls rounds law shards fits buckets
      some_shard few fitting =
    let (start, made, v) =
      new_store-Stands env std_hash z f deletable item_size o shards fits buckets in
    let (d, run, v') =
      call_all-Stands env std_hash z f deletable o law calls (λ _. none) start fitting
        (Stands-weaken env std_hash z f deletable o (λ _. none) o.cache_size (length calls) start
          few v) in
    let (d', again, coherent, same) =
      (sync_routine-restart env std_hash z f item_size o d [] rounds (λ _. none) shards fits
        some_shard v'.shard_count v'.compression v'.placed v'.coherent).1 in
    (start, made, d, run, d', again, coherent, λ k. same k ∙ v'.holds k)
