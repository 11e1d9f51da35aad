-- ===== src/Store/Written.antt =====
-- Threads on one store answer only what was written: `set`, `get` and `del` of src/DataStore.cpp
-- in any interleaving.
use redis_c.Prelude.{
  ℕ, ◌≡◌, refl, sym, ap, ◌∙◌, Bool, Option, none, some, List, [], ◌∷◌, arith, ◌⊎◌, inl, inr, Bytes,
  beq, beq_iff, Bool-cases,
}
use mathlib.Core.Path.{subst}
use redis_c.Prelude.Run.{done}
use redis_c.Cache.State.{Env, Cache}
use redis_c.Cache.Ops
use redis_c.Cache.Valid.{IsValid, cached}
use redis_c.Store.Codec.{Zlib, ZlibLaw, IsCoded, encode, decode, decode-encode}
use redis_c.Store.State.{
  store_value, erase_value, stored, stored-cache, stored-store_value, stored-erase_value,
  set_submap,
}
use redis_c.Store.Holds.{Holds, put-Holds, get-Holds, remove-Holds}
use redis_c.Store.Threads.{
  Pending, idle, storing, looking, filling, erasing, Threads, set_pending_all, moved, with_cache,
  Step, begin_set, end_set, hit, miss, absent, found, fill, begin_del, end_del, Reach, here, next,
}

-- The key was written with the value.
abbrev pub IsWritten : Bytes → Bytes → List (Bytes × Bytes) → Type 0
IsWritten k v [] = ⊥
IsWritten k v (x ∷ l) = ((x.0 ≡ k) × (x.1 ≡ v)) ⊎ IsWritten k v l

module _ (env : Env) (std_hash : Bytes → ℕ) (z : Zlib) (law : ZlibLaw z) (f : ℕ)
    (compression : Bool) where
  -- Stored bytes that a written value was made into.
  abbrev IsEncoded : Bytes → Bytes → List (Bytes × Bytes) → Type 0
  IsEncoded k s l =
      (value : Bytes) × (encode z compression value ≡ done s)
      × IsCoded f value s
      × IsWritten k value l

  abbrev IsHonest : List (Bytes × Bytes) → Pending → Type 0
  IsHonest l idle = Unit
  IsHonest l (storing k s) = IsEncoded k s l
  IsHonest l (looking k) = Unit
  IsHonest l (filling k value) = IsWritten k value l
  IsHonest l (erasing k) = Unit

  -- All that the cache, the submaps and the threads hold was written.
  record IsFaithful (σ : Threads) : Type 0 where
    cache : IsValid σ.store.cache
    setting : σ.store.enable_compression ≡ compression
    cached_written : (k v : Bytes) → cached env σ.store.cache k ≡ some v → IsWritten k v σ.written
    stored_written :
        (k s : Bytes) → stored env std_hash σ.store k ≡ some s → IsEncoded k s σ.written
    pending_written : (t : ℕ) → IsHonest σ.written (σ.pending t)

  IsHonest-cons :
      (x : Bytes × Bytes) (l : List (Bytes × Bytes)) (p : Pending)
      → IsHonest l p
      → IsHonest (x ∷ l) p
  IsHonest-cons x l idle h = tt
  IsHonest-cons x l (storing k s) (v, e, lt, w) = (v, e, lt, inr w)
  IsHonest-cons x l (looking k) h = tt
  IsHonest-cons x l (filling k v) h = inr h
  IsHonest-cons x l (erasing k) h = tt

  -- A step that changes the cache for one key.
  cached-IsFaithful :
      (σ : Threads) (t : ℕ) (p : Pending) (key : Bytes) (x : Option Bytes) (c : Cache)
      → IsFaithful σ
      → Holds env σ.store.cache c key x
      → ((v : Bytes) → x ≡ some v → IsWritten key v σ.written)
      → IsHonest σ.written p
      → IsFaithful (moved t p (with_cache c σ) σ)
  cached-IsFaithful σ t p key x c v h new honest = record {
    cache = h.valid;
    setting = v.setting;
    cached_written = λ k w e. elim (Bool-cases (beq key k)) [
      | inl same ↦
          let at : key ≡ k = (beq_iff key k).0 same in
          subst (λ (y : Bytes). IsWritten y w σ.written) at (new w (ground (arith, h.holds k)))
      | inr other ↦ v.cached_written k w (ground (arith, h.holds k))
    ];
    stored_written =
        λ k s e. v.stored_written k s (sym (stored-cache env std_hash σ.store c k) ∙ e);
    pending_written = set_pending_all (IsHonest σ.written) t p σ.pending honest v.pending_written;
  }

  with_written : Bytes → Bytes → Threads → Threads
  with_written key value σ = record σ { written = (key, value) ∷ σ.written }

  written-IsFaithful :
      (σ : Threads) (key value : Bytes) → IsFaithful σ → IsFaithful (with_written key value σ)
  unfolding with_written
  written-IsFaithful σ key value v = record {
    cache = v.cache;
    setting = v.setting;
    cached_written = λ k w e. inr (v.cached_written k w e);
    stored_written = λ k s e. let (w, enc, lt, at) = v.stored_written k s e in (w, enc, lt, inr at);
    pending_written = λ t. IsHonest-cons (key, value) σ.written (σ.pending t) (v.pending_written t);
  }

  IsHonest-at :
      (σ : Threads) (t : ℕ) (p : Pending) → IsFaithful σ → σ.pending t ≡ p → IsHonest σ.written p
  IsHonest-at σ t p v e = subst (IsHonest σ.written) e (v.pending_written t)

  stored-IsFaithful :
      (σ : Threads) (t : ℕ) (key s : Bytes)
      → IsFaithful σ
      → IsEncoded key s σ.written
      → IsFaithful (moved t idle (store_value env std_hash key s σ.store) σ)
  unfolding store_value set_submap
  stored-IsFaithful σ t key s v h = record {
    cache = v.cache;
    setting = v.setting;
    cached_written = v.cached_written;
    stored_written = λ k w e. elim (Bool-cases (beq key k)) [
      | inl same ↦
          let at : key ≡ k = (beq_iff key k).0 same in
          let was : s ≡ w = ground (arith, stored-store_value env std_hash σ.store key s k) in
          subst (λ (y : Bytes). IsEncoded y w σ.written) at
            (subst (λ (y : Bytes). IsEncoded key y σ.written) was h)
      | inr other ↦
          v.stored_written k w (ground (arith, stored-store_value env std_hash σ.store key s k))
    ];
    pending_written = set_pending_all (IsHonest σ.written) t idle σ.pending tt v.pending_written;
  }

  erased-IsFaithful :
      (σ : Threads) (t : ℕ) (key : Bytes)
      → IsFaithful σ
      → IsFaithful (moved t idle (erase_value env std_hash key σ.store) σ)
  unfolding erase_value set_submap
  erased-IsFaithful σ t key v = record {
    cache = v.cache;
    setting = v.setting;
    cached_written = v.cached_written;
    stored_written = λ k w e. elim (Bool-cases (beq key k)) [
      | inl same ↦ absurd (ground (arith, stored-erase_value env std_hash σ.store key k))
      | inr other ↦
          v.stored_written k w (ground (arith, stored-erase_value env std_hash σ.store key k))
    ];
    pending_written = set_pending_all (IsHonest σ.written) t idle σ.pending tt v.pending_written;
  }

  Step-IsFaithful : (σ τ : Threads) → Step env std_hash z f σ τ → IsFaithful σ → IsFaithful τ
  Step-IsFaithful σ τ (begin_set t now key value s c at short enc run) v =
      let σ' = with_written key value σ in
      unfold with_written in
      cached-IsFaithful σ' t (storing key s) key (some value) c (written-IsFaithful σ key value v)
        (put-Holds env σ.store.cache v.cache key now value c run) (λ w e. inl (refl, ground arith))
        (value, ap (λ b. encode z b value) (sym v.setting) ∙ enc, short, inl (refl, refl))
  Step-IsFaithful σ τ (end_set t key s at free) v =
      stored-IsFaithful σ t key s v (IsHonest-at σ t (storing key s) v at)
  Step-IsFaithful σ τ (hit t now key value c at run) v =
      let (h, e) = get-Holds env σ.store.cache v.cache key now c (some value) run in
      cached-IsFaithful σ t idle key (cached env σ.store.cache key) c v h
        (λ w held. v.cached_written key w held) tt
  Step-IsFaithful σ τ (miss t now key c at run) v =
      let (h, e) = get-Holds env σ.store.cache v.cache key now c none run in
      cached-IsFaithful σ t (looking key) key (cached env σ.store.cache key) c v h
        (λ w held. v.cached_written key w held) tt
  Step-IsFaithful σ τ (absent t key at gone) v = record {
    cache = v.cache;
    setting = v.setting;
    cached_written = v.cached_written;
    stored_written = v.stored_written;
    pending_written = set_pending_all (IsHonest σ.written) t idle σ.pending tt v.pending_written;
  }
  Step-IsFaithful σ τ (found t key s value at there dec) v =
      let (w, enc, short, writ) = v.stored_written key s there in
      let read : decode z f compression s ≡ done w =
        decode-encode z law f compression w s enc short in
      let dec' : decode z f compression s ≡ done value =
        ap (λ b. decode z f b s) (sym v.setting) ∙ dec in
      let same : w ≡ value = ground (arith, read, dec') in
      record {
        cache = v.cache;
        setting = v.setting;
        cached_written = v.cached_written;
        stored_written = v.stored_written;
        pending_written =
            set_pending_all (IsHonest σ.written) t (filling key value) σ.pending
              (subst (λ (y : Bytes). IsWritten key y σ.written) same writ) v.pending_written;
      }
  Step-IsFaithful σ τ (fill t now key value c at run) v =
      let honest = IsHonest-at σ t (filling key value) v at in
      cached-IsFaithful σ t idle key (some value) c v
        (put-Holds env σ.store.cache v.cache key now value c run)
        (λ w e.
          let same : value ≡ w = ground arith in
          subst (λ (y : Bytes). IsWritten key y σ.written) same honest)
        tt
  Step-IsFaithful σ τ (begin_del t key c held at run) v =
      cached-IsFaithful σ t (erasing key) key none c v
        (remove-Holds env σ.store.cache v.cache key c held run) (λ w e. absurd (ground arith)) tt
  Step-IsFaithful σ τ (end_del t key at free) v = erased-IsFaithful σ t key v

  Reach-IsFaithful : (σ τ : Threads) → Reach env std_hash z f σ τ → IsFaithful σ → IsFaithful τ
  Reach-IsFaithful σ τ here v = v
  Reach-IsFaithful σ τ (next {τ = ρ} run step) v =
      Step-IsFaithful ρ τ step (Reach-IsFaithful σ ρ run v)

-- A store at rest that holds nothing, with threads that have nothing to do.
pub record IsFresh (env : Env) (std_hash : Bytes → ℕ) (σ : Threads) : Type 0 where
  pub cache : IsValid σ.store.cache
  pub uncached : (k : Bytes) → cached env σ.store.cache k ≡ none
  pub unstored : (k : Bytes) → stored env std_hash σ.store k ≡ none
  pub at_rest : (t : ℕ) → σ.pending t ≡ idle

-- From a fresh store on, whatever defined steps the threads take in `set`, `get` and `del`, in
-- whatever order, a value that a `get` answers, from the cache or behind a miss, is one that a
-- `set` was called with for that key. The compressor keeps its promise.
pub Reach-IsWritten :
    (env : Env) (std_hash : Bytes → ℕ) (z : Zlib) (law : ZlibLaw z) (f : ℕ) (σ τ : Threads)
    (t now : ℕ) (key value : Bytes) (c : Cache)
    → IsFresh env std_hash σ
    → Reach env std_hash z f σ τ
    → (τ.pending t ≡ filling key value) ⊎ (Ops.get env now key τ.store.cache ≡ done (c, some value))
    → IsWritten key value τ.written
Reach-IsWritten env std_hash z law f σ τ t now key value c fresh run answer =
    let v = Reach-IsFaithful env std_hash z law f σ.store.enable_compression σ τ run (record {
      cache = fresh.cache;
      setting = refl;
      cached_written = λ k w e. absurd (ground (arith, fresh.uncached k));
      stored_written = λ k s e. absurd (ground (arith, fresh.unstored k));
      pending_written = λ u.
          subst (IsHonest env std_hash z law f σ.store.enable_compression σ.written)
            (sym (fresh.at_rest u)) tt;
    }) in
    elim answer [
      | inl at ↦
          IsHonest-at env std_hash z law f σ.store.enable_compression τ t (filling key value) v at
      | inr run' ↦
          let (h, e) = get-Holds env τ.store.cache v.cache key now c (some value) run' in
          v.cached_written key value (sym e)
    ]
