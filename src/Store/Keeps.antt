-- ===== src/Store/Keeps.antt =====
-- `set`, `get` and `del` of src/DataStore.cpp leave each key where the hashes put it.
use redis_c.Prelude.{
  ℕ, ◌^◌, ◌<◌, ◌≡◌, refl, ap, ◌∙◌, sym, Bool, true, Option, none, some, arith, Bytes, length,
}
use mathlib.Core.Path.{subst}
use redis_c.Prelude.Run.{Run, done, blocked, bad_alloc, dangling, runtime_error, endless, ◌>>=◌}
use redis_c.Cache.State.{Env, Cache}
use redis_c.Cache.Ops
use redis_c.Store.Codec.{Zlib, encode, decode}
use redis_c.Store.State.{DataStore, shard_index, stored}
use redis_c.Store.Ops.{set, get, del, get_cached, get_stored}
use redis_c.Store.Restore.{IsPlaced}
use redis_c.Store.Placed.{store_value-IsPlaced, erase_value-IsPlaced}

pub done_inj : {A : Type 0} (x y : A) → done x ≡ done y → x ≡ y
done_inj x y h = ground (arith, h)

pub bind-done :
    {A B : Type 0} (r : Run A) (g : A → Run B) (y : B)
    → (r >>= g) ≡ done y
    → (x : A) × (r ≡ done x) × (g x ≡ done y)
bind-done (done x) g y h = (x, refl, h)
bind-done (blocked) g y h = absurd (ground (arith, h))
bind-done (bad_alloc) g y h = absurd (ground (arith, h))
bind-done (dangling) g y h = absurd (ground (arith, h))
bind-done (runtime_error) g y h = absurd (ground (arith, h))
bind-done (endless) g y h = absurd (ground (arith, h))

module _ (env : Env) (std_hash : Bytes → ℕ) (z : Zlib) (f : ℕ) where
  -- What an operation keeps beside what the store holds.
  pub record Keeps (d d' : DataStore) : Type 0 where
    pub placed : IsPlaced env std_hash d → IsPlaced env std_hash d'
    pub shard_count : d'.shard_count ≡ d.shard_count

  recached-Keeps : (d : DataStore) (c : Cache) → Keeps d (record d { cache = c })
  unfolding shard_index
  recached-Keeps d c = record {
    placed =
        λ v. record { maps = v.maps; small = v.small; placed = v.placed; positive = v.positive };
    shard_count = refl;
  }

  pub set-Keeps :
      (d d' : DataStore) (now : ℕ) (key value s : Bytes)
      → encode z d.enable_compression value ≡ done s
      → length key < 2 ^ 32
      → length s < 2 ^ 32
      → set env std_hash z f true now key value d ≡ done d'
      → Keeps d d'
  unfolding set
  set-Keeps d d' now key value s e hk hs h =
      let (s', e1, h1) = bind-done (encode z d.enable_compression value) _ d' h in
      let (c, e2, h2) = bind-done (Ops.put env true now key value d.cache) _ d' h1 in
      let same : s ≡ s' = done_inj s s' (sym e ∙ e1) in
      subst (Keeps d) (done_inj _ d' h2) (record {
        placed = λ v.
            store_value-IsPlaced env std_hash (record d { cache = c })
              ((recached-Keeps d c).placed v) key s' hk (rw (← same) hs);
        shard_count = refl;
      })

  pub del-Keeps :
      (d d' : DataStore) (key : Bytes) (b : Bool)
      → del env std_hash z f key d ≡ done (d', b)
      → Keeps d d'
  unfolding del
  del-Keeps d d' key b h =
      let (p, e, h1) = bind-done (Ops.remove env key d.cache) _ (d', b) h in
      let same = done_inj _ (d', b) h1 in
      subst (Keeps d) (ap (λ q. q.0) same) (record {
        placed = λ v.
            erase_value-IsPlaced env std_hash (record d { cache = p.0 })
              ((recached-Keeps d p.0).placed v) key;
        shard_count = refl;
      })

  get_stored-Keeps :
      (d d' : DataStore) (now : ℕ) (key : Bytes) (found o : Option Bytes)
      → get_stored env std_hash z f true now key d found ≡ done (d', o)
      → Keeps d d'
  unfolding get_stored
  get_stored-Keeps d d' now key none o h =
      subst (Keeps d) (ap (λ q. q.0) (done_inj _ (d', o) h)) (recached-Keeps d d.cache)
  get_stored-Keeps d d' now key (some s) o h =
      let (value, e1, h1) = bind-done (decode z f d.enable_compression s) _ (d', o) h in
      let (c, e2, h2) = bind-done (Ops.put env true now key value d.cache) _ (d', o) h1 in
      subst (Keeps d) (ap (λ q. q.0) (done_inj _ (d', o) h2)) (recached-Keeps d c)

  get_cached-Keeps :
      (d d' : DataStore) (now : ℕ) (key : Bytes) (found o : Option Bytes)
      → get_cached env std_hash z f true now key d found ≡ done (d', o)
      → Keeps d d'
  unfolding get_cached
  get_cached-Keeps d d' now key (some value) o h =
      subst (Keeps d) (ap (λ q. q.0) (done_inj _ (d', o) h)) (recached-Keeps d d.cache)
  get_cached-Keeps d d' now key none o h =
      get_stored-Keeps d d' now key (stored env std_hash d key) o h

  pub get-Keeps :
      (d d' : DataStore) (now : ℕ) (key : Bytes) (o : Option Bytes)
      → get env std_hash z f true now key d ≡ done (d', o)
      → Keeps d d'
  unfolding get
  get-Keeps d d' now key o h =
      let ((c, found), e, h1) = bind-done (Ops.get env now key d.cache) _ (d', o) h in
      let k = get_cached-Keeps (record d { cache = c }) d' now key found o h1 in
      record { placed = λ v. k.placed ((recached-Keeps d c).placed v); shard_count = k.shard_count }
