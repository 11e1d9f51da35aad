-- ===== src/Store/Tests.antt =====
-- Runs of the store.
use redis_c.Prelude.{
  Bool, ◌≡◌, refl, true, none, some, [], ◌∷◌, arith, Bytes, beq, beq_iff, List, if◌then◌else◌, ap,
  ◌∙◌, Bool-cases, inl, inr,
}
use redis_c.Prelude.Assoc.{lookup}
use redis_c.Prelude.Run.{done, dangling, endless}
use redis_c.Prelude.Text.{text}
use redis_c.Cache.Valid.{cached}
use redis_c.Cache.Items.{value_of}
use redis_c.Store.Codec.{Zlib, other, decode, decode-encode, decompress, decompress-nil}
use redis_c.Store.State.{DataStore, store_value}
use redis_c.Store.Ops.{set, get, del}
use redis_c.Store.Contents.{
  contents, Updates, IsCoherent, set-Updates, del-Updates, del_dangling, contents-store_value,
}
use redis_c.Store.Get.{get-Updates, get_dangling}
use redis_c.Store.Persist.{load_shard}
use redis_c.Store.Restore.{IsPlaced}
use redis_c.Store.Placed.{store_value-IsPlaced}
use redis_c.Store.Load.{load_shard_total}
use redis_c.Store.Persist.{sync_routine, shutdown, stopping, syncing}
use redis_c.Store.Durable.{Call, setting, deleting, applied_all, call_all, call_all-restart}
use redis_c.Store.Life.{Restores, sync_routine-restart}
use redis_c.Store.Init.{StoreOptions, new_store}
use redis_c.Demo.{
  demo_cache-IsValid, demo_env, demo_hash, demo_zlib, demo_law, demo_empty, demo_store, demo_encode,
  demo_contents, demo_store-IsCoherent,
}

abbrev here : DataStore
here = demo_store 5 (text "k") (text "v")

here-IsCoherent : IsCoherent demo_env demo_hash demo_zlib 9 here
here-IsCoherent =
    demo_store-IsCoherent 9 5 (text "k") (text "v") (omega arith, omega arith, omega arith)
      (omega arith) (omega arith)

-- A store whose cache is full.
abbrev crowded : DataStore
crowded = demo_store 1 (text "k") (text "v")

set-Updates_example :
    (d' : DataStore) × (set demo_env demo_hash demo_zlib 9 true 8 (text "j") (text "w") here
      ≡ done d')
    × Updates demo_env demo_hash demo_zlib 9 here d' (text "j") (some (text "w")) 1
unfolding store_value
set-Updates_example =
    set-Updates demo_env demo_hash demo_zlib 9 here here-IsCoherent (text "j") demo_law 8 (text "w")
      (120 ∷ text "w") (demo_encode (text "w") (omega arith))
      (omega arith, omega arith, omega arith) (λ h. omega arith)

get-Updates_example :
    (d' : DataStore) × (get demo_env demo_hash demo_zlib 9 true 8 (text "k") here
      ≡ done (d', some (text "v")))
    × Updates demo_env demo_hash demo_zlib 9 here d' (text "k") (some (text "v")) 1
unfolding store_value beq
get-Updates_example =
    get-Updates demo_env demo_hash demo_zlib 9 here here-IsCoherent (text "k") 8 (some (text "v"))
      (demo_contents 9 5 (text "k") (text "v") (omega arith, omega arith, omega arith) (text "k"))
      (λ h. omega arith)

decode-encode_example : decode demo_zlib 9 true (120 ∷ text "hello") ≡ done (text "hello")
decode-encode_example =
    decode-encode demo_zlib demo_law 9 true (text "hello") (120 ∷ text "hello")
      (demo_encode (text "hello") (omega arith)) (omega arith, omega arith, omega arith)

-- A codec that waits for input.
abbrev hungry : Zlib
hungry = record {
  Stream = Bytes;
  inflate_init = some;
  inflate = λ room s. (other, [], s);
  deflate_init = true;
  deflate = λ v room. some v;
}

hungry_endless : decompress hungry 1000 [] ≡ endless
hungry_endless = decompress-nil hungry [] refl refl 1000

load_shard_total_example :
    (d' : DataStore) × (load_shard demo_env demo_hash 0
        (some (3 ∷ 0 ∷ 0 ∷ 0 ∷ 1 ∷ 0 ∷ 0 ∷ 0 ∷ 65 ∷ []))
        here
      ≡ done d')
load_shard_total_example =
    load_shard_total demo_env demo_hash 0 (some (3 ∷ 0 ∷ 0 ∷ 0 ∷ 1 ∷ 0 ∷ 0 ∷ 0 ∷ 65 ∷ [])) here

abbrev bare : DataStore
bare = demo_empty 5 (text "k") (text "v")

bare-IsPlaced : IsPlaced demo_env demo_hash bare
unfolding lookup
bare-IsPlaced = record {
  maps = λ i b s. tt;
  small = λ i b s. tt;
  placed = λ i b s k w h. absurd (ground arith);
  positive = omega arith;
}

-- Another key, in the submaps only.
abbrev two : DataStore
two = store_value demo_env demo_hash (text "j") (120 ∷ text "w") crowded

two-contents :
    (k : Bytes)
    → contents demo_env demo_hash demo_zlib 9 two k ≡ (
        if beq (text "j") k
        then done (some (text "w"))
        else done (if beq (text "k") k then some (text "v") else none))
unfolding store_value
two-contents k =
    contents-store_value demo_env demo_hash demo_zlib 9 crowded (text "j") (120 ∷ text "w")
      (text "w") k
      (decode-encode demo_zlib demo_law 9 true (text "w") (120 ∷ text "w")
        (demo_encode (text "w") (omega arith)) (omega arith, omega arith, omega arith))
    ∙ ap (λ r. if beq (text "j") k then done (some (text "w")) else r)
        (demo_contents 9 1 (text "k") (text "v") (omega arith, omega arith, omega arith) k)

two-IsCoherent : IsCoherent demo_env demo_hash demo_zlib 9 two
unfolding store_value cached value_of
two-IsCoherent = record {
  cache = demo_cache-IsValid 1 (text "k") (text "v") (omega arith) (omega arith);
  fresh = λ k v e. elim (Bool-cases (beq (text "j") k)) [
    | inl same ↦ absurd (ground (arith, beq_iff (text "j") k, beq_iff (text "k") k, e, same))
    | inr other_key ↦ two-contents k ∙ rw other_key (ap done e)
  ];
  readable = λ k. elim (Bool-cases (beq (text "j") k)) [
    | inl same ↦ (some (text "w"), two-contents k ∙ rw same refl)
    | inr other_key ↦
        ((if beq (text "k") k then some (text "v") else none), two-contents k ∙ rw other_key refl)
  ];
}

del-Updates_example :
    (d' : DataStore) × (del demo_env demo_hash demo_zlib 9 (text "j") two ≡ done (d', true))
    × Updates demo_env demo_hash demo_zlib 9 two d' (text "j") none 0
    × (d'.cache ≡ two.cache)
unfolding store_value beq cached value_of
del-Updates_example =
    del-Updates demo_env demo_hash demo_zlib 9 two two-IsCoherent (text "j") (some (text "w"))
      (two-contents (text "j")) refl

-- The key is cached.
del_dangling_example : del demo_env demo_hash demo_zlib 9 (text "k") here ≡ dangling
unfolding cached value_of beq store_value
del_dangling_example =
    del_dangling demo_env demo_hash demo_zlib 9 here here-IsCoherent (text "k") (text "v") refl

get_dangling_example : get demo_env demo_hash demo_zlib 9 true 8 (text "j") two ≡ dangling
unfolding store_value cached value_of beq
get_dangling_example =
    get_dangling demo_env demo_hash demo_zlib 9 two two-IsCoherent (text "j") 8 true (text "w")
      (two-contents (text "j")) refl refl

abbrev options : StoreOptions
options = record {
  shard_count = 2;
  bucket_per_shard = 3;
  enable_compression = true;
  cache_shards = 4;
  cache_size = 9;
  memory_pool_block_size = 4096;
}

sync_routine-restart_example :
    Restores demo_env demo_hash demo_zlib 9 64 options here
      (sync_routine (syncing crowded ∷ syncing here ∷ []) (λ i. some (text "old")))
    × Restores demo_env demo_hash demo_zlib 9 64 options here
        (shutdown (syncing crowded ∷ stopping ∷ syncing crowded ∷ []) here (λ i. some (text "old")))
unfolding store_value
sync_routine-restart_example =
    sync_routine-restart demo_env demo_hash demo_zlib 9 64 options here (crowded ∷ [])
      (syncing crowded ∷ stopping ∷ syncing crowded ∷ []) (λ i. some (text "old")) (omega arith)
      (omega arith) (omega arith) refl refl
      (store_value-IsPlaced demo_env demo_hash bare bare-IsPlaced (text "k") (120 ∷ text "v")
        (omega arith) (omega arith))
      here-IsCoherent

abbrev deletable : Bytes → Bool
deletable k = beq (text "d") k

abbrev three_calls : List Call
three_calls =
    setting 3 (text "a") (text "one") ∷ setting 5 (text "b") (text "two") ∷ deleting (text "d") ∷ []

call_all-restart_example :
    (start : DataStore) × (new_store demo_env demo_hash true true 64 options (λ _. none)
      ≡ done start)
    × (d : DataStore) × (call_all demo_env demo_hash demo_zlib 9 deletable three_calls start
        ≡ done d)
    × (d' : DataStore) × (new_store demo_env demo_hash true true 64 options
          (shutdown (syncing here ∷ []) d (λ _. none))
        ≡ done d')
    × IsCoherent demo_env demo_hash demo_zlib 9 d'
    × ((k : Bytes)
        → contents demo_env demo_hash demo_zlib 9 d' k
          ≡ done (applied_all three_calls (λ _. none) k))
unfolding beq
call_all-restart_example =
    call_all-restart demo_env demo_hash demo_zlib 9 64 deletable options three_calls
      (syncing here ∷ []) demo_law (omega arith) (omega arith) (omega arith) (omega arith)
      (omega arith)
      (
        (
          120 ∷ text "one",
          demo_encode (text "one") (omega arith),
          (omega arith, omega arith, omega arith),
          omega arith,
          refl,
        ),
        (
          (
            120 ∷ text "two",
            demo_encode (text "two") (omega arith),
            (omega arith, omega arith, omega arith),
            omega arith,
            refl,
          ),
          (refl, tt),
        ),
      )
