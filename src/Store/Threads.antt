-- ===== src/Store/Threads.antt =====
-- Threads that work on one store: `set`, `get` and `del` of src/DataStore.cpp in the parts between
-- which other threads run, each part under the lock that it holds.
use redis_c.Prelude.{
  ℕ, ◌≡◌, Bool, true, false, ◌&&◌, none, some, List, ◌∷◌, ◌==◌, if◌then◌else◌, Bytes, Bool-cases,
  inl, inr,
}
use redis_c.Prelude.Run.{done}
use redis_c.Cache.State.{Env, Cache}
use redis_c.Cache.Ops
use redis_c.Store.Codec.{Zlib, IsCoded, encode, decode}
use redis_c.Store.State.{
  DataStore, shard_index, get_bucket_index, get_submap_index, store_value, erase_value, stored,
}

-- Where a thread stands between its steps: `set` behind the cache's `put`, with the stored value;
-- `get` behind a miss; `get` with the value that it found, under the shared lock of the submap;
-- `del` behind the cache's `remove`.
pub data Pending : Type 0 where
  idle : Pending
  storing : (key stored_value : Bytes) → Pending
  looking : (key : Bytes) → Pending
  filling : (key value : Bytes) → Pending
  erasing : (key : Bytes) → Pending

-- The store, the threads, and every key and value that a `set` was called with.
pub record Threads : Type 0 where
  pub store : DataStore
  pub pending : ℕ → Pending
  pub written : List (Bytes × Bytes)

abbrev pub set_pending : ℕ → Pending → (ℕ → Pending) → ℕ → Pending
set_pending t p pending u = if t == u then p else pending u

pub set_pending_all :
    (P : Pending → Type 0) (t : ℕ) (p : Pending) (pending : ℕ → Pending)
    → P p
    → ((u : ℕ) → P (pending u))
    → (u : ℕ) → P (set_pending t p pending u)
set_pending_all P t p pending h all u = elim (Bool-cases (t == u)) [
  | inl e ↦ rw e h
  | inr e ↦ rw e (all u)
]

-- Thread `t` goes on to `p`, with the store `d`.
abbrev pub moved : ℕ → Pending → DataStore → Threads → Threads
moved t p d σ = record σ { store = d; pending = set_pending t p σ.pending }

abbrev pub with_cache : Cache → Threads → DataStore
with_cache c σ = record σ.store { cache = c }

module _ (env : Env) (std_hash : Bytes → ℕ) where
  unfoldable pub same_submap : DataStore → Bytes → Bytes → Bool
  same_submap d j k =
      (shard_index env std_hash d j == shard_index env std_hash d k)
      && (get_bucket_index env std_hash j d.bucket_per_shard
          == get_bucket_index env std_hash k d.bucket_per_shard)
      && (get_submap_index env std_hash j == get_submap_index env std_hash k)

  -- Whether a thread holds the shared lock of the submap of `key`.
  unfoldable pub reads : DataStore → Bytes → Pending → Bool
  unfolding same_submap
  reads d key (filling k value) = same_submap d key k
  reads d key _ = false

  module _ (z : Zlib) (f : ℕ) where
    -- A thread's step. `f` bounds the rounds of `decompress`, and no value is too long for it, nor
    -- for the 32 bits of zlib.
    pub data Step (σ : Threads) : Threads → Type 0 where
      begin_set :
          (t now : ℕ) (key value stored_value : Bytes) (c : Cache)
          → σ.pending t ≡ idle
          → IsCoded f value stored_value
          → encode z σ.store.enable_compression value ≡ done stored_value
          → Ops.put env true now key value σ.store.cache ≡ done c
          → Step σ (record (moved t (storing key stored_value) (with_cache c σ) σ) {
            written = (key, value) ∷ σ.written;
          })
      end_set :
          (t : ℕ) (key stored_value : Bytes)
          → σ.pending t ≡ storing key stored_value
          → ((u : ℕ) → reads σ.store key (σ.pending u) ≡ false)
          → Step σ (moved t idle (store_value env std_hash key stored_value σ.store) σ)
      hit :
          (t now : ℕ) (key value : Bytes) (c : Cache)
          → σ.pending t ≡ idle
          → Ops.get env now key σ.store.cache ≡ done (c, some value)
          → Step σ (moved t idle (with_cache c σ) σ)
      miss :
          (t now : ℕ) (key : Bytes) (c : Cache)
          → σ.pending t ≡ idle
          → Ops.get env now key σ.store.cache ≡ done (c, none)
          → Step σ (moved t (looking key) (with_cache c σ) σ)
      absent :
          (t : ℕ) (key : Bytes)
          → σ.pending t ≡ looking key
          → stored env std_hash σ.store key ≡ none
          → Step σ (moved t idle σ.store σ)
      found :
          (t : ℕ) (key stored_value value : Bytes)
          → σ.pending t ≡ looking key
          → stored env std_hash σ.store key ≡ some stored_value
          → decode z f σ.store.enable_compression stored_value ≡ done value
          → Step σ (moved t (filling key value) σ.store σ)
      fill :
          (t now : ℕ) (key value : Bytes) (c : Cache)
          → σ.pending t ≡ filling key value
          → Ops.put env true now key value σ.store.cache ≡ done c
          → Step σ (moved t idle (with_cache c σ) σ)
      begin_del :
          (t : ℕ) (key : Bytes) (c : Cache) (held : Bool)
          → σ.pending t ≡ idle
          → Ops.remove env key σ.store.cache ≡ done (c, held)
          → Step σ (moved t (erasing key) (with_cache c σ) σ)
      end_del :
          (t : ℕ) (key : Bytes)
          → σ.pending t ≡ erasing key
          → ((u : ℕ) → reads σ.store key (σ.pending u) ≡ false)
          → Step σ (moved t idle (erase_value env std_hash key σ.store) σ)

    -- Any number of steps of the threads, in any order.
    pub data Reach (σ : Threads) : Threads → Type 0 where
      here : Reach σ σ
      next : {τ υ : Threads} → Reach σ τ → Step τ υ → Reach σ υ
