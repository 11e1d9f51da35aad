-- ===== src/Store/Ops.antt =====
-- The operations of `DataStore`: src/DataStore.cpp.
use redis_c.Prelude.{ℕ, Bool, true, false, Option, none, some, Bytes}
use redis_c.Prelude.Run.{Run, done, ◌>>=◌}
use redis_c.Cache.State.{Env}
use redis_c.Cache.Ops
use redis_c.Store.Codec.{Zlib, encode, decode}
use redis_c.Store.State.{DataStore, store_value, erase_value, stored}

-- `f` bounds the rounds of `decompress`; `memory` tells whether the allocator answers, `now` is
-- what the clock shows.
module _ (env : Env) (std_hash : Bytes → ℕ) (z : Zlib) (f : ℕ) where
  -- `set`
  unfoldable pub set : Bool → ℕ → Bytes → Bytes → DataStore → Run DataStore
  unfolding encode store_value
  set memory now key value d = do
    stored_value ← encode z d.enable_compression value
    cache ← Ops.put env memory now key value d.cache
    done (store_value env std_hash key stored_value (record d { cache = cache }))

  -- `get` behind a miss of the cache, with what the store has.
  unfoldable pub get_stored :
      Bool → ℕ → Bytes → DataStore → Option Bytes → Run (DataStore × Option Bytes)
  unfolding decode
  get_stored memory now key d none = done (d, none)
  get_stored memory now key d (some s) = do
    value ← decode z f d.enable_compression s
    cache ← Ops.put env memory now key value d.cache
    done (record d { cache = cache }, some value)

  unfoldable pub get_cached :
      Bool → ℕ → Bytes → DataStore → Option Bytes → Run (DataStore × Option Bytes)
  unfolding get_stored stored
  get_cached memory now key d (some value) = done (d, some value)
  get_cached memory now key d none = get_stored memory now key d (stored env std_hash d key)

  -- `get`
  unfoldable pub get : Bool → ℕ → Bytes → DataStore → Run (DataStore × Option Bytes)
  unfolding get_cached
  get memory now key d = do
    (cache, found) ← Ops.get env now key d.cache
    get_cached memory now key (record d { cache = cache }) found

  -- `del`
  unfoldable pub del : Bytes → DataStore → Run (DataStore × Bool)
  unfolding erase_value stored
  del key d = do
    (cache, _) ← Ops.remove env key d.cache
    done (
      erase_value env std_hash key (record d { cache = cache }),
      elim (stored env std_hash d key) [ none ↦ false | some _ ↦ true ],
    )
