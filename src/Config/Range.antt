-- ===== src/Config/Range.antt =====
-- The ranges of the members of `RedisServer::Config` of include/RedisServer.h.
use redis_c.Prelude.{◌^◌, ◌<◌}
use redis_c.Config.Load.{Config}
use redis_c.Config.Numbers.{IsInt}

-- Each number fits the type of its member.
abbrev pub IsInRange : Config → Type 0
IsInRange c =
    IsInt c.port
    × IsInt c.sync_interval_sec
    × (c.worker_threads < 2 ^ 64)
    × (c.io_threads < 2 ^ 64)
    × (c.shard_count < 2 ^ 64)
    × (c.max_connections < 2 ^ 64)
    × (c.buffer_size < 2 ^ 64)
    × (c.cache_size_mb < 2 ^ 64)
