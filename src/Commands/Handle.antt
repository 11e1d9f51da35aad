-- ===== src/Commands/Handle.antt =====
-- The handlers of src/CommandHandler.cpp and `handle`.
use redis_c.Prelude.{
  ℕ, suc, ◌%◌, ◌||◌, not, Bool, Option, none, some, List, [], ◌∷◌, ◌++◌, ltb, ◌==◌, if◌then◌else◌,
  Bytes, length,
}
use redis_c.Prelude.Assoc.{lookup}
use redis_c.Prelude.Decimal.{to_string}
use redis_c.Prelude.Run.{Run, done, ◌>>=◌}
use redis_c.Cache.State.{Env}
use redis_c.Store.Codec.{Zlib}
use redis_c.Store.State.{DataStore}
use redis_c.Store.Ops
use redis_c.Prelude.Text.{text, line}
use redis_c.Commands.State.{
  CommandStats, CommandFunc, handle_set, handle_get, handle_del, handle_mset, handle_mget,
  handle_info, cmd_handlers, CommandHandler, to_lower, update_command_stats,
}

abbrev pub wrong_number : Bytes → Bytes
wrong_number name = text "-ERR wrong number of arguments for '" ++ name ++ line "' command"

-- The reply for one value: `$-1`, or the size and the bytes.
unfoldable pub value_reply : Option Bytes → Bytes
value_reply none = line "$-1"
value_reply (some value) =
    text "$" ++ to_string (length value) ++ (13 ∷ 10 ∷ []) ++ value ++ (13 ∷ 10 ∷ [])

-- `kvs` of `handle_mset`, from the arguments behind the name.
unfoldable pub pairs : List Bytes → List (Bytes × Bytes)
pairs (key ∷ value ∷ rest) = (key, value) ∷ pairs rest
pairs _ = []

-- `env`, `std_hash`, `z` and `f` are those of the store; `average total calls` is the text of the
-- quotient with three decimals; `memory` tells whether the allocator answers, `clock n` is what
-- the clock shows at the `n`-th operation of the command.
module _ (env : Env) (std_hash : Bytes → ℕ) (z : Zlib) (f : ℕ) (average : ℕ → ℕ → Bytes)
    (memory : Bool) where
  -- The loop of `handle_mset`.
  unfoldable pub set_all : (ℕ → ℕ) → List (Bytes × Bytes) → DataStore → Run DataStore
  set_all clock [] d = done d
  set_all clock ((key, value) ∷ rest) d = do
    d' ← Ops.set env std_hash z f memory (clock 0) key value d
    set_all (λ n. clock (suc n)) rest d'

  -- The loop of `handle_mget`.
  unfoldable pub get_all : (ℕ → ℕ) → List Bytes → DataStore → Run (DataStore × Bytes)
  unfolding value_reply
  get_all clock [] d = done (d, [])
  get_all clock (key ∷ rest) d = do
    (d', value) ← Ops.get env std_hash z f memory (clock 0) key d
    (d'', response) ← get_all (λ n. clock (suc n)) rest d'
    done (d'', value_reply value ++ response)

  -- The loop of `handle_info`.
  unfoldable pub info_lines : List (Bytes × CommandStats) → Bytes
  info_lines [] = []
  info_lines ((cmd, stats) ∷ rest) =
      cmd
      ++ text "_calls:"
      ++ to_string stats.calls
      ++ (13 ∷ 10 ∷ [])
      ++ (if stats.calls == 0
          then []
          else cmd
            ++ text "_avg_time:"
            ++ average stats.total_time stats.calls
            ++ line "us"
            ++ cmd
            ++ text "_min_time:"
            ++ to_string stats.min_time
            ++ line "us"
            ++ cmd
            ++ text "_max_time:"
            ++ to_string stats.max_time
            ++ line "us")
      ++ info_lines rest

  unfoldable pub info_reply : List (Bytes × CommandStats) → Bytes
  unfolding info_lines
  info_reply stats = line "$1024" ++ line "# Commands" ++ info_lines stats ++ (13 ∷ 10 ∷ [])

  -- The handlers, with the words of the request, the name included.
  unfoldable pub run_set : (ℕ → ℕ) → List Bytes → DataStore → Run (DataStore × Bytes)
  run_set clock (_ ∷ key ∷ value ∷ []) d = do
    d' ← Ops.set env std_hash z f memory (clock 0) key value d
    done (d', line "+OK")
  run_set clock _ d = done (d, wrong_number (text "set"))

  unfoldable pub run_get : (ℕ → ℕ) → List Bytes → DataStore → Run (DataStore × Bytes)
  unfolding value_reply
  run_get clock (_ ∷ key ∷ []) d = do
    (d', value) ← Ops.get env std_hash z f memory (clock 0) key d
    done (d', value_reply value)
  run_get clock _ d = done (d, wrong_number (text "get"))

  unfoldable pub run_del : List Bytes → DataStore → Run (DataStore × Bytes)
  run_del (_ ∷ key ∷ []) d = do
    (d', success) ← Ops.del env std_hash z f key d
    done (d', text ":" ++ to_string (if success then 1 else 0) ++ (13 ∷ 10 ∷ []))
  run_del _ d = done (d, wrong_number (text "del"))

  unfoldable pub run_mset : (ℕ → ℕ) → List Bytes → DataStore → Run (DataStore × Bytes)
  unfolding set_all pairs
  run_mset clock args d =
      if ltb (length args) 3 || not (length args % 2 == 1)
      then done (d, wrong_number (text "mset"))
      else elim args [
        | [] ↦ done (d, [])
        | _ ∷ rest ↦ do d' ← set_all clock (pairs rest) d; done (d', line "+OK")
      ]

  unfoldable pub run_mget : (ℕ → ℕ) → List Bytes → DataStore → Run (DataStore × Bytes)
  unfolding get_all
  run_mget clock (_ ∷ key ∷ keys) d = do
    (d', response) ← get_all clock (key ∷ keys) d
    done (d', text "*" ++ to_string (length (key ∷ keys)) ++ (13 ∷ 10 ∷ []) ++ response)
  run_mget clock _ d = done (d, wrong_number (text "mget"))

  -- `it->second(cmd)`
  unfoldable pub call :
      CommandFunc → (ℕ → ℕ) → List Bytes → CommandHandler → Run (DataStore × Bytes)
  unfolding run_set run_get run_del run_mset run_mget info_reply
  call handle_set clock cmd h = run_set clock cmd h.store
  call handle_get clock cmd h = run_get clock cmd h.store
  call handle_del clock cmd h = run_del cmd h.store
  call handle_mset clock cmd h = run_mset clock cmd h.store
  call handle_mget clock cmd h = run_mget clock cmd h.store
  call handle_info clock cmd h = done (h.store, info_reply h.cmd_stats)

  -- `handle` with the answer of the table; `execution_time` is what the clocks tell.
  unfoldable pub dispatch :
      (ℕ → ℕ)
      → ℕ
      → Bytes
      → List Bytes
      → CommandHandler
      → Option CommandFunc
      → Run (CommandHandler × Bytes)
  unfolding call update_command_stats
  dispatch clock execution_time cmd_name cmd h none =
      done (h, text "-ERR unknown command '" ++ cmd_name ++ line "'")
  dispatch clock execution_time cmd_name cmd h (some func) = do
    (d, result) ← call func clock cmd h
    done (update_command_stats cmd_name execution_time (record h { store = d }), result)

  unfoldable pub handle : (ℕ → ℕ) → ℕ → List Bytes → CommandHandler → Run (CommandHandler × Bytes)
  unfolding to_lower cmd_handlers dispatch
  handle clock execution_time [] h = done (h, line "-ERR empty command")
  handle clock execution_time (name ∷ args) h =
      dispatch clock execution_time (to_lower name) (name ∷ args) h
        (lookup (to_lower name) cmd_handlers)
