-- ===== src/Commands/State.antt =====
-- The state of `CommandHandler`: include/CommandHandler.h, and the table and the statistics of
-- src/CommandHandler.cpp.
use redis_c.Prelude.{
  ℕ, ◌+◌, ◌-◌, ◌%◌, ◌^◌, min, max, ◌&&◌, none, some, List, [], ◌∷◌, leb, if◌then◌else◌, Bytes,
}
use redis_c.Prelude.Assoc.{lookup, insert}
use redis_c.Prelude.Text.{text}
use redis_c.Store.State.{DataStore}

-- `struct CommandStats`
pub record CommandStats : Type 0 where
  pub calls : ℕ
  pub total_time : ℕ
  pub max_time : ℕ
  pub min_time : ℕ

abbrev pub no_stats : CommandStats
no_stats = record { calls = 0; total_time = 0; max_time = 0; min_time = 2 ^ 64 - 1 }

-- The functions that `cmd_handlers_` holds.
pub data CommandFunc : Type 0 where
  handle_set handle_get handle_del handle_mset handle_mget handle_info : CommandFunc

-- `init_handlers`
unfoldable pub cmd_handlers : List (Bytes × CommandFunc)
cmd_handlers =
    (text "set", handle_set)
    ∷ (text "get", handle_get)
    ∷ (text "del", handle_del)
    ∷ (text "mset", handle_mset)
    ∷ (text "mget", handle_mget)
    ∷ (text "info", handle_info)
    ∷ []

pub record CommandHandler : Type 0 where
  pub store : DataStore
  pub cmd_stats : List (Bytes × CommandStats)

-- `std::tolower` in the C locale, for each byte.
unfoldable pub lower_byte : ℕ → ℕ
lower_byte c = if leb 65 c && leb c 90 then c + 32 else c

unfoldable pub to_lower : Bytes → Bytes
unfolding lower_byte
to_lower [] = []
to_lower (c ∷ s) = lower_byte c ∷ to_lower s

-- `auto& stats = cmd_stats_[cmd_name]`
abbrev pub stats_of : Bytes → List (Bytes × CommandStats) → CommandStats
stats_of cmd_name l = elim (lookup cmd_name l) [ none ↦ no_stats | some s ↦ s ]

-- `update_command_stats`, on `uint64_t`.
unfoldable pub add_call : ℕ → CommandStats → CommandStats
add_call execution_time s = record {
  calls = (s.calls + 1) % 2 ^ 64;
  total_time = (s.total_time + execution_time) % 2 ^ 64;
  max_time = max s.max_time execution_time;
  min_time = min s.min_time execution_time;
}

unfoldable pub update_command_stats : Bytes → ℕ → CommandHandler → CommandHandler
unfolding add_call
update_command_stats cmd_name execution_time h = record h {
  cmd_stats = insert cmd_name (add_call execution_time (stats_of cmd_name h.cmd_stats)) h.cmd_stats;
}
