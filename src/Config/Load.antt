-- ===== src/Config/Load.antt =====
-- `Config::get_default_config` and `Config::load_from_file` of src/Config.cpp.
use redis_c.Prelude.{
  ℕ, ◌*◌, ◌/◌, ◌%◌, ◌^◌, min, Bool, true, false, ◌&&◌, Option, none, some, List, [], ◌∷◌, ◌==◌,
  if◌then◌else◌, Bytes, beq,
}
use redis_c.Prelude.Decimal.{ℤ}
use redis_c.Prelude.Text.{text}
use redis_c.Config.Trim.{
  is_blank, is_line_space, trim, split_at, strip_comment, ends_with, starts_with, inner, get_lines,
}
use redis_c.Config.Values.{parse_int, parse_size_t, parse_bool}

-- `RedisServer::Config`
pub record Config : Type 0 where
  pub port : ℤ
  pub host : Bytes
  pub worker_threads : ℕ
  pub io_threads : ℕ
  pub shard_count : ℕ
  pub max_connections : ℕ
  pub buffer_size : ℕ
  pub cache_size_mb : ℕ
  pub enable_compression : Bool
  pub enable_persistence : Bool
  pub sync_interval_sec : ℤ

-- Its member initialisers.
unfoldable pub new_config : Config
new_config = record {
  port = ℤ.pos 6379;
  host = text "127.0.0.1";
  worker_threads = 32;
  io_threads = 8;
  shard_count = 16;
  max_connections = 10000;
  buffer_size = 32768;
  cache_size_mb = 200;
  enable_compression = false;
  enable_persistence = true;
  sync_interval_sec = ℤ.pos 300;
}

-- `Config::get_default_config`, for a value of `std::thread::hardware_concurrency()`.
unfoldable pub get_default_config : ℕ → Config
unfolding new_config
get_default_config hardware =
    let hw_threads = if hardware == 0 then 4 else hardware in
    record new_config {
      worker_threads = min 32 (hw_threads * 2 % 2 ^ 64);
      io_threads = min 8 (hw_threads / 2);
      shard_count = 16;
    }

unfoldable pub set_server : Bytes → Bytes → Config → Config
set_server key value config =
    if beq key (text "port")
    then record config { port = parse_int value config.port }
    else if beq key (text "host")
    then record config { host = value }
    else config

unfoldable pub set_threading : Bytes → Bytes → Config → Config
set_threading key value config =
    if beq key (text "worker_threads")
    then record config { worker_threads = parse_size_t value config.worker_threads }
    else if beq key (text "io_threads")
    then record config { io_threads = parse_size_t value config.io_threads }
    else if beq key (text "shard_count")
    then record config { shard_count = parse_size_t value config.shard_count }
    else config

unfoldable pub set_performance : Bytes → Bytes → Config → Config
set_performance key value config =
    if beq key (text "max_connections")
    then record config { max_connections = parse_size_t value config.max_connections }
    else if beq key (text "buffer_size")
    then record config { buffer_size = parse_size_t value config.buffer_size }
    else config

unfoldable pub set_storage : Bytes → Bytes → Config → Config
set_storage key value config =
    if beq key (text "cache_size_mb")
    then record config { cache_size_mb = parse_size_t value config.cache_size_mb }
    else if beq key (text "enable_compression")
    then record config { enable_compression = parse_bool value config.enable_compression }
    else if beq key (text "enable_persistence")
    then record config { enable_persistence = parse_bool value config.enable_persistence }
    else if beq key (text "sync_interval_sec")
    then record config { sync_interval_sec = parse_int value config.sync_interval_sec }
    else config

-- The chain of tests on the section and the key.
unfoldable pub set_option : Bytes → Bytes → Bytes → Config → Config
unfolding set_server set_threading set_performance set_storage
set_option section key value config =
    if beq section (text "server")
    then set_server key value config
    else if beq section (text "threading")
    then set_threading key value config
    else if beq section (text "performance")
    then set_performance key value config
    else if beq section (text "storage")
    then set_storage key value config
    else config

-- The locals of the loop.
pub record Loading : Type 0 where
  pub section : Bytes
  pub config : Config

-- The part of the body behind the test for an empty line.
unfoldable pub load_text : Bytes → Loading → Loading
unfolding set_option
load_text line l =
    if starts_with 91 line && ends_with 93 line
    then record l { section = inner line }
    else elim (split_at 61 line) [
      | none ↦ l
      | some (key, value) ↦ record l {
        config = set_option l.section (trim is_blank key) (trim is_blank value) l.config;
      }
    ]

unfoldable pub load_unless_empty : Bytes → Loading → Loading
unfolding load_text
load_unless_empty [] l = l
load_unless_empty (c ∷ s) l = load_text (c ∷ s) l

-- The body of the loop.
unfoldable pub load_line : Bytes → Loading → Loading
unfolding load_unless_empty
load_line line l = load_unless_empty (trim is_line_space (strip_comment line)) l

unfoldable pub load_lines : List Bytes → Loading → Loading
unfolding load_line
load_lines [] l = l
load_lines (line ∷ rest) l = load_lines rest (load_line line l)

-- `Config::load_from_file`; `none` is a file that does not open.
unfoldable pub load_from_file : ℕ → Option Bytes → Config
unfolding get_default_config load_lines
load_from_file hardware none = get_default_config hardware
load_from_file hardware (some content) =
    (load_lines (get_lines content)
      (record { section = []; config = get_default_config hardware })).config
