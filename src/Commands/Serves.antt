-- ===== src/Commands/Serves.antt =====
-- A store that serves an abstract map, and that the store's operations keep it so.
use redis_c.Prelude.{
  ℕ, suc, ◌+◌, ◌≤◌, ◌≡◌, refl, ap, ◌∙◌, Bool, true, false, Option, none, some, List, [], ◌∷◌, ◌++◌,
  arith, Bytes, beq, beq_iff, length, Bool-cases, inl, inr,
}
use redis_c.Prelude.Run.{done, ◌>>=◌}
use redis_c.Cache.State.{Env}
use redis_c.Cache.Laws.{is_some}
use redis_c.Cache.Valid.{cached}
use redis_c.Store.Codec.{Zlib, ZlibLaw, IsCoded, encode}
use redis_c.Store.State.{DataStore}
use redis_c.Store.Ops
use redis_c.Store.Contents.{contents, IsCoherent, Updates, set-Updates, del-Updates}
use redis_c.Store.Get.{get-Updates}
use redis_c.Commands.Spec.{
  Map, Request, set, get, del, mset, mget, assign, assign_all, value_replies,
}
use redis_c.Commands.Handle.{set_all, get_all, value_reply}

module _ (env : Env) (std_hash : Bytes → ℕ) (z : Zlib) (law : ZlibLaw z) (f : ℕ)
    (average : ℕ → ℕ → Bytes) (compression : Bool) (deletable : Bytes → Bool) where
  -- The store is at rest, holds `m`, its cache has room for `n` more items, and holds none of the
  -- keys that may be deleted.
  pub record Serves (m : Map) (n : ℕ) (d : DataStore) : Type 0 where
    pub coherent : IsCoherent env std_hash z f d
    pub setting : d.enable_compression ≡ compression
    pub holds : (k : Bytes) → contents env std_hash z f d k ≡ done (m k)
    pub room : d.cache.size + n ≤ d.cache.capacity
    pub apart : (k : Bytes) → deletable k ≡ true → cached env d.cache k ≡ none

  -- A value that the compressor accepts, small enough for the fuel and for zlib.
  abbrev pub IsWritable : Bytes → Type 0
  IsWritable value = (s : Bytes) × (encode z compression value ≡ done s) × IsCoded f value s

  abbrev pub AllWritable : List (Bytes × Bytes) → Type 0
  AllWritable [] = Unit
  AllWritable ((key, value) ∷ rest) = (deletable key ≡ false) × IsWritable value × AllWritable rest

  abbrev pub AllUsed : List Bytes → Type 0
  AllUsed [] = Unit
  AllUsed (key ∷ rest) = (deletable key ≡ false) × AllUsed rest

  -- A request uses keys that are not deleted, with values that can be written, or deletes a key
  -- that may be deleted.
  abbrev pub Fits : Request → Type 0
  Fits (set key value) = AllWritable ((key, value) ∷ [])
  Fits (get key) = AllUsed (key ∷ [])
  Fits (del key) = deletable key ≡ true
  Fits (mset pair rest) = AllWritable (pair ∷ rest)
  Fits (mget key keys) = AllUsed (key ∷ keys)

  -- Less room.
  pub Serves-le : (m : Map) (a b : ℕ) (d : DataStore) → b ≤ a → Serves m a d → Serves m b d
  Serves-le m a b d le v = record {
    coherent = v.coherent;
    setting = v.setting;
    holds = v.holds;
    room = omega (arith, v.room);
    apart = v.apart;
  }

  still_apart :
      (d d' : DataStore) (key : Bytes) (x : Option Bytes) (g : ℕ)
      → Updates env std_hash z f d d' key x g
      → deletable key ≡ false
      → ((k : Bytes) → deletable k ≡ true → cached env d.cache k ≡ none)
      → (k : Bytes) → deletable k ≡ true
      → cached env d'.cache k ≡ none
  still_apart d d' key x g u used v k h = elim (Bool-cases (beq key k)) [
    | inl same ↦
        let at : key ≡ k = (beq_iff key k).0 same in
        absurd (ground (arith, ap deletable at, used, h))
    | inr other ↦ u.others k other ∙ v k h
  ]

  served :
      (m : Map) (a b : ℕ) (d d' : DataStore) (key : Bytes) (x : Option Bytes) (g : ℕ)
      → Serves m a d
      → Updates env std_hash z f d d' key x g
      → ((k : Bytes) → deletable k ≡ true → cached env d'.cache k ≡ none)
      → d'.cache.size + b ≤ d'.cache.capacity
      → Serves (assign key x m) b d'
  served m a b d d' key x g v u apart room = record {
    coherent = u.coherent;
    setting = u.compression ∙ v.setting;
    holds = λ k. elim (Bool-cases (beq key k)) [
      | inl same ↦ u.holds k ∙ rw (same, assign) refl
      | inr other ↦ u.holds k ∙ rw (other, assign) (v.holds k)
    ];
    room = room;
    apart = apart;
  }

  module _ (m : Map) (n : ℕ) (d : DataStore) where
    pub set-Serves :
        (now : ℕ) (key value : Bytes)
        → Serves m (suc n) d
        → (deletable key ≡ false) × IsWritable value
        → (d' : DataStore) × (Ops.set env std_hash z f true now key value d ≡ done d')
          × Serves (assign key (some value) m) n d'
    set-Serves now key value v (used, (s, e, small)) =
        let (d', run, u) =
          set-Updates env std_hash z f d v.coherent key law now value s (rw v.setting e) small
            (λ h. omega (arith, v.room)) in
        (
          d',
          run,
          served m (suc n) n d d' key (some value) 1 v u
              (still_apart d d' key (some value) 1 u used v.apart)
              (omega (arith, u.size, u.capacity, v.room)),
        )

    pub get-Serves :
        (now : ℕ) (key : Bytes)
        → deletable key ≡ false
        → Serves m (suc n) d
        → (d' : DataStore) × (Ops.get env std_hash z f true now key d ≡ done (d', m key))
          × Serves m n d'
    get-Serves now key used v =
        let (d', run, u) =
          get-Updates env std_hash z f d v.coherent key now (m key) (v.holds key)
            (λ h. omega (arith, v.room)) in
        (
          d',
          run,
          record {
            coherent = u.coherent;
            setting = u.compression ∙ v.setting;
            holds = λ k. ground (arith, beq_iff key k, u.holds k, v.holds k);
            room = omega (arith, u.size, u.capacity, v.room);
            apart = still_apart d d' key (m key) 1 u used v.apart;
          },
        )

    pub del-Serves :
        (key : Bytes)
        → deletable key ≡ true
        → Serves m n d
        → (d' : DataStore) × (Ops.del env std_hash z f key d ≡ done (d', is_some (m key)))
          × Serves (assign key none m) n d'
    del-Serves key free v =
        let (d', run, u, same) =
          del-Updates env std_hash z f d v.coherent key (m key) (v.holds key) (v.apart key free) in
        (
          d',
          run,
          served m n n d d' key none 0 v u (λ k h. ap (λ c. cached env c k) same ∙ v.apart k h)
              (omega (arith, u.size, u.capacity, v.room)),
        )

  pub set_all-Serves :
      (clock : ℕ → ℕ) (pairs : List (Bytes × Bytes)) (m : Map) (n : ℕ) (d : DataStore)
      → Serves m (length pairs + n) d
      → AllWritable pairs
      → (d' : DataStore) × (set_all env std_hash z f average true clock pairs d ≡ done d')
        × Serves (assign_all pairs m) n d'
  unfolding set_all
  set_all-Serves clock [] m n d v w = (d, refl, Serves-le m (0 + n) n d (omega arith) v)
  set_all-Serves clock ((key, value) ∷ rest) m n d v w =
      let (d1, run1, v1) =
        set-Serves m (length rest + n) d (clock 0) key value
          (Serves-le m (suc (length rest) + n) (suc (length rest + n)) d (omega arith) v)
          (w.0, w.1) in
      let (d2, run2, v2) =
        set_all-Serves (λ i. clock (suc i)) rest (assign key (some value) m) n d1 v1 w.2 in
      (
        d2,
        ap (λ r. r >>= (λ d'. set_all env std_hash z f average true (λ i. clock (suc i)) rest d'))
              run1
            ∙ run2,
        v2,
      )

  pub get_all-Serves :
      (clock : ℕ → ℕ) (keys : List Bytes) (m : Map) (n : ℕ) (d : DataStore)
      → AllUsed keys
      → Serves m (length keys + n) d
      → (d' : DataStore) × (get_all env std_hash z f average true clock keys d
          ≡ done (d', value_replies m keys))
        × Serves m n d'
  unfolding get_all
  get_all-Serves clock [] m n d w v = (d, refl, Serves-le m (0 + n) n d (omega arith) v)
  get_all-Serves clock (key ∷ rest) m n d w v =
      let (d1, run1, v1) =
        get-Serves m (length rest + n) d (clock 0) key w.0
          (Serves-le m (suc (length rest) + n) (suc (length rest + n)) d (omega arith) v) in
      let (d2, run2, v2) = get_all-Serves (λ i. clock (suc i)) rest m n d1 w.1 v1 in
      (
        d2,
        ap
              (λ r. r >>= (λ (d', value).
                get_all env std_hash z f average true (λ i. clock (suc i)) rest d'
                >>= (λ (d'', response). done (d'', value_reply value ++ response))))
              run1
            ∙ ap (λ r. r >>= (λ (d'', response). done (d'', value_reply (m key) ++ response))) run2,
        v2,
      )
