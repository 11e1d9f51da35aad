-- ===== src/Cache/Tests.antt =====
-- Runs of the cache.
use redis_c.Prelude.{◌≡◌, refl, true, false, if◌then◌else◌, none, some, arith, Bytes, beq}
use redis_c.Prelude.Run.{done, dangling}
use redis_c.Prelude.Text.{text}
use redis_c.Cache.State.{Cache, evict_items}
use redis_c.Cache.Items.{value_of}
use redis_c.Cache.Ops.{put, get, remove, clear}
use redis_c.Cache.Valid.{cached, IsValid}
use redis_c.Cache.Laws.{Sets, get-Sets, remove_lem, is_some}
use redis_c.Cache.Put.{put-Sets, put_dangling}
use redis_c.Cache.Init.{new_cache, new_cache-IsValid}
use redis_c.Cache.Destroy.{evict_items_dangling}
use redis_c.Cache.Clear.{clear_dangling}
use redis_c.Demo.{demo_env, demo_cache, demo_shard, demo_cache-IsValid}

abbrev one : Cache
one = demo_cache 2 (text "k") (text "v")

one-IsValid : IsValid one
one-IsValid = demo_cache-IsValid 2 (text "k") (text "v") (omega arith) (omega arith)

-- A cache at its capacity.
abbrev full : Cache
full = demo_cache 1 (text "k") (text "v")

put-Sets_example :
    (c' : Cache) × (put demo_env true 9 (text "j") (text "w") one ≡ done c')
    × Sets demo_env one c' (text "j") (some (text "w")) 1
put-Sets_example = put-Sets demo_env one 9 (text "j") (text "w") one-IsValid (λ h. omega arith)

get-Sets_example :
    (c' : Cache) × (get demo_env 9 (text "k") one ≡ done (c', cached demo_env one (text "k")))
    × (c'.size ≡ one.size)
    × Sets demo_env one c' (text "k") (cached demo_env one (text "k")) 0
get-Sets_example = get-Sets demo_env one one-IsValid (text "k") 9

remove_lem_example :
    remove demo_env (text "k") one
    ≡ (if is_some (cached demo_env one (text "k")) then dangling else done (one, false))
remove_lem_example = remove_lem demo_env one one-IsValid (text "k")

evict_items_dangling_example : evict_items 1 one (demo_shard (text "k") (text "v")) ≡ dangling
evict_items_dangling_example =
    evict_items_dangling 1 1 one (demo_shard (text "k") (text "v")) (one-IsValid.shard 0)
      (omega arith) (omega arith)

clear_dangling_example : clear one ≡ dangling
clear_dangling_example = clear_dangling one one-IsValid (omega arith)

put_dangling_example : put demo_env true 9 (text "j") (text "w") full ≡ dangling
unfolding cached value_of beq
put_dangling_example =
    put_dangling demo_env full 9 (text "j") (text "w")
      (demo_cache-IsValid 1 (text "k") (text "v") (omega arith) (omega arith)) true absent
      (omega arith)
  where
    absent : cached demo_env full (text "j") ≡ none
    absent = refl

new_cache-IsValid_example :
    (c : Cache) × (new_cache true 64 (record {
      shard_count = 4;
      initial_capacity = 10;
      min_capacity = 1;
      max_capacity = 20;
      memory_pool_block_size = 4096;
    })
      ≡ done c)
    × IsValid c
    × (c.capacity ≡ 10)
    × (c.size ≡ 0)
    × ((k : Bytes) → cached demo_env c k ≡ none)
new_cache-IsValid_example =
    new_cache-IsValid demo_env 64
      (record {
        shard_count = 4;
        initial_capacity = 10;
        min_capacity = 1;
        max_capacity = 20;
        memory_pool_block_size = 4096;
      })
      (omega arith) (omega arith)
