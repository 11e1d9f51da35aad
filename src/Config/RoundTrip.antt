-- ===== src/Config/RoundTrip.antt =====
-- Every configuration can be written to a file that `Config::load_from_file` of src/Config.cpp
-- reads back.
use redis_c.Prelude.{ℕ, ◌≡◌, ◌≢◌, refl, ◌∙◌, Bool, true, some, [], arith, Bytes, beq}
use redis_c.Prelude.Text.{text}
use redis_c.Prelude.Decimal.{ℤ, All, to_string}
use redis_c.Config.Trim.{is_blank, is_line_space}
use redis_c.Config.Values.{parse_int, parse_size_t, parse_bool}
use redis_c.Config.Load.{
  Config, get_default_config, set_server, set_threading, set_performance, set_storage, set_option,
  load_from_file,
}
use redis_c.Config.Numbers.{print_int}
use redis_c.Config.Words.{all}
use redis_c.Config.Classes.{is_plain, is_name}
use redis_c.Config.Items.{IsItem, apply_items, load_from_file-items}
use redis_c.Config.Range.{IsInRange}
use redis_c.Config.Print.{
  print_bool, option, section, config_items, print_config, parse_bool-print_bool,
  parse_size_t-to_string, parse_int-print_int, to_string-plain, to_string-not_empty,
  print_int-plain, print_int-not_empty, print_bool-plain, print_bool-not_empty,
}

option-IsItem :
    (key value : Bytes)
    → all is_name key ≡ true
    → key ≢ []
    → all is_plain value ≡ true
    → value ≢ []
    → IsItem (option key value)
unfolding all is_blank
option-IsItem key value hk nk hv nv = (
  record {
    before = refl;
    key = hk;
    key_not_empty = nk;
    behind_key = refl;
    before_value = refl;
    value = hv;
    value_not_empty = nv;
    after = refl;
    comment = tt;
  },
  record { marked = tt; newline_free = refl },
)

section-IsItem : (name : Bytes) → all is_plain name ≡ true → IsItem (section name)
unfolding all
section-IsItem name h = (refl, h, record { marked = tt; newline_free = refl })

module _ (c : Config) (host_plain : all is_plain c.host ≡ true) (host_not_empty : c.host ≢ []) where
  number-IsItem :
      (key : Bytes)
      → all is_name key ≡ true
      → key ≢ []
      → (n : ℕ) → IsItem (option key (to_string n))
  number-IsItem key hk nk n =
      option-IsItem key (to_string n) hk nk (to_string-plain n) (to_string-not_empty n)

  int-IsItem :
      (key : Bytes)
      → all is_name key ≡ true
      → key ≢ []
      → (i : ℤ) → IsItem (option key (print_int i))
  int-IsItem key hk nk i =
      option-IsItem key (print_int i) hk nk (print_int-plain i) (print_int-not_empty i)

  bool-IsItem :
      (key : Bytes)
      → all is_name key ≡ true
      → key ≢ []
      → (b : Bool) → IsItem (option key (print_bool b))
  bool-IsItem key hk nk b =
      option-IsItem key (print_bool b) hk nk (print_bool-plain b) (print_bool-not_empty b)

  config_items-IsItem : All IsItem (config_items c)
  unfolding config_items all is_name is_plain is_line_space is_blank
  config_items-IsItem = (
    section-IsItem (text "server") refl,
    (
      int-IsItem (text "port") refl (λ e. ground arith) c.port,
      (
        option-IsItem (text "host") c.host refl (λ e. ground arith) host_plain host_not_empty,
        (
          section-IsItem (text "threading") refl,
          (
            number-IsItem (text "worker_threads") refl (λ e. ground arith) c.worker_threads,
            (
              number-IsItem (text "io_threads") refl (λ e. ground arith) c.io_threads,
              (
                number-IsItem (text "shard_count") refl (λ e. ground arith) c.shard_count,
                (
                  section-IsItem (text "performance") refl,
                  (
                    number-IsItem (text "max_connections") refl (λ e. ground arith)
                        c.max_connections,
                    (
                      number-IsItem (text "buffer_size") refl (λ e. ground arith) c.buffer_size,
                      (
                        section-IsItem (text "storage") refl,
                        (
                          number-IsItem (text "cache_size_mb") refl (λ e. ground arith)
                              c.cache_size_mb,
                          (
                            bool-IsItem (text "enable_compression") refl (λ e. ground arith)
                                c.enable_compression,
                            (
                              bool-IsItem (text "enable_persistence") refl (λ e. ground arith)
                                  c.enable_persistence,
                              (
                                int-IsItem (text "sync_interval_sec") refl (λ e. ground arith)
                                    c.sync_interval_sec,
                                tt,
                              ),
                            ),
                          ),
                        ),
                      ),
                    ),
                  ),
                ),
              ),
            ),
          ),
        ),
      ),
    ),
  )

-- The options of a whole configuration, over any other.
apply-config_items :
    (c d : Config)
    → apply_items [] (config_items c) d ≡ record {
      port = parse_int (print_int c.port) d.port;
      host = c.host;
      worker_threads = parse_size_t (to_string c.worker_threads) d.worker_threads;
      io_threads = parse_size_t (to_string c.io_threads) d.io_threads;
      shard_count = parse_size_t (to_string c.shard_count) d.shard_count;
      max_connections = parse_size_t (to_string c.max_connections) d.max_connections;
      buffer_size = parse_size_t (to_string c.buffer_size) d.buffer_size;
      cache_size_mb = parse_size_t (to_string c.cache_size_mb) d.cache_size_mb;
      enable_compression = parse_bool (print_bool c.enable_compression) d.enable_compression;
      enable_persistence = parse_bool (print_bool c.enable_persistence) d.enable_persistence;
      sync_interval_sec = parse_int (print_int c.sync_interval_sec) d.sync_interval_sec;
    }
unfolding config_items apply_items set_option set_server set_threading set_performance set_storage
    beq
apply-config_items c d = refl

-- Any configuration whose numbers fit their types, and whose host is not empty and has no `#` or
-- white space, can be written to a file: loading the file gives that configuration, whatever the
-- number of processors.
pub load_from_file-print_config :
    (hardware : ℕ) (c : Config)
    → IsInRange c
    → all is_plain c.host ≡ true
    → c.host ≢ []
    → load_from_file hardware (some (print_config c)) ≡ c
unfolding print_config
load_from_file-print_config hardware c (p, y, w, i, s, m, b, z) plain not_empty =
    let d = get_default_config hardware in
    load_from_file-items hardware (config_items c) (config_items-IsItem c plain not_empty)
    ∙ apply-config_items c d
    ∙ rw
        (
          parse_int-print_int c.port d.port p,
          parse_int-print_int c.sync_interval_sec d.sync_interval_sec y,
          parse_size_t-to_string c.worker_threads d.worker_threads w,
          parse_size_t-to_string c.io_threads d.io_threads i,
          parse_size_t-to_string c.shard_count d.shard_count s,
          parse_size_t-to_string c.max_connections d.max_connections m,
          parse_size_t-to_string c.buffer_size d.buffer_size b,
          parse_size_t-to_string c.cache_size_mb d.cache_size_mb z,
          parse_bool-print_bool c.enable_compression d.enable_compression,
          parse_bool-print_bool c.enable_persistence d.enable_persistence,
        )
        refl
