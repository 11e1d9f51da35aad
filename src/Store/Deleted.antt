-- ===== src/Store/Deleted.antt =====
-- `del` of src/DataStore.cpp behind `set`.
use redis_c.Prelude.{ℕ, ◌≡◌, refl, ap, ◌∙◌, sym, true, some, arith, Bytes, beq, beq_iff}
use redis_c.Prelude.Run.{done, dangling, ◌>>=◌}
use redis_c.Cache.State.{Env}
use redis_c.Cache.Valid.{cached}
use redis_c.Cache.Put.{put-Sets}
use redis_c.Store.Codec.{Zlib, ZlibLaw, IsCoded, encode}
use redis_c.Store.State.{DataStore, store_value}
use redis_c.Store.Ops.{set, del}
use redis_c.Store.Contents.{IsCoherent, HasRoom, set-Updates, del_dangling}

module _ (env : Env) (std_hash : Bytes → ℕ) (z : Zlib) (f : ℕ) (d : DataStore)
    (v : IsCoherent env std_hash z f d) (key : Bytes) where
  -- In a coherent store with room in its cache, `set` of a value that the compressor accepts, of
  -- sizes that fit, returns, and a `del` of the same key that follows is undefined.
  pub set-del_dangling :
      (law : ZlibLaw z) (now : ℕ) (value s : Bytes)
      → encode z d.enable_compression value ≡ done s
      → IsCoded f value s
      → HasRoom env std_hash z f d key
      → (d' : DataStore) × (set env std_hash z f true now key value d ≡ done d')
        × (del env std_hash z f key d' ≡ dangling)
  unfolding set store_value
  set-del_dangling law now value s e le room =
      let (c, run, sets) = put-Sets env d.cache now key value v.cache room in
      let (d', run', u) = set-Updates env std_hash z f d v key law now value s e le room in
      let d1 = store_value env std_hash key s (record d { cache = c }) in
      let one : set env std_hash z f true now key value d ≡ done d1 = rw e (
        ap (λ r. r >>= (λ x. done (store_value env std_hash key s (record d { cache = x }))))
          run) in
      let same_key : beq key key ≡ true = (beq_iff key key).1 refl in
      let held : cached env d1.cache key ≡ some value = sets.holds key ∙ rw same_key refl in
      let same : d1 ≡ d' = ground (arith, one, run') in
      (
        d',
        run',
        del_dangling env std_hash z f d' u.coherent key value
            (ap (λ (x : DataStore). cached env x.cache key) (sym same) ∙ held),
      )
