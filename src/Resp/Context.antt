-- ===== src/Resp/Context.antt =====
-- `RESPParser` itself: `struct ParseContext` of include/RESPParser.h, and `parse`,
-- `get_commands` and `add_completed_command` of src/RESPParser.cpp.
use redis_c.Prelude.{ℕ, zero, suc, ◌-◌, List, [], ◌∷◌, ◌++◌, Bytes, length, drop}
use redis_c.Resp.Value.{Value, node, array, to_command}
use redis_c.Resp.Parser.{Outcome, parsed, incomplete, thrown, out_of_fuel, try_parse_next}

-- The fields that the code reads or writes.
pub record ParseContext : Type 0 where
  pub buffer : Bytes
  pub position : ℕ
  pub completed_values : List Value

-- `RESPParser() = default`
abbrev pub fresh : ParseContext
fresh = record { buffer = []; position = 0; completed_values = [] }

-- `add_completed_command`: only arrays are commands.
unfoldable pub add_completed_command : Value → List Value → List Value
add_completed_command (node array v items) done = done ++ node array v items ∷ []
add_completed_command _ done = done

-- The body of the `while (true)` of `parse`, with the next round: `parsed tt` when it breaks.
unfoldable pub after_next :
    (List Value → ℕ → Outcome (Unit {0}) × List Value × ℕ)
    → List Value
    → Outcome Value × ℕ
    → Outcome (Unit {0}) × List Value × ℕ
unfolding add_completed_command
after_next again done (parsed v, p) = again (add_completed_command v done) p
after_next again done (incomplete, p) = (parsed tt, done, p)
after_next again done (thrown, p) = (thrown, done, p)
after_next again done (out_of_fuel, p) = (out_of_fuel, done, p)

unfoldable pub parse_loop : ℕ → Bytes → List Value → ℕ → Outcome (Unit {0}) × List Value × ℕ
unfolding after_next try_parse_next
parse_loop zero data_ done p = (out_of_fuel, done, p)
parse_loop (suc f) data_ done p = after_next (parse_loop f data_) done (try_parse_next data_ p)

-- The storage of the string after `buffer.erase(0, n)` for `n > 0`: the tail is moved to the
-- front, a NUL ends it, and the bytes behind keep their values. Views made before still look here.
unfoldable pub storage_after_erase : Bytes → ℕ → Bytes
storage_after_erase buffer zero = buffer
storage_after_erase buffer (suc n) = drop (suc n) buffer ++ (0 ∷ drop (length buffer - n) buffer)

-- `get_commands`: drains the completed values and keeps the commands that are not empty.
unfoldable pub commands_of : Bytes → List Value → List (List Bytes)
unfolding to_command
commands_of mem [] = []
commands_of mem (v ∷ rest) = elim (to_command mem v) [
  | [] ↦ commands_of mem rest
  | w ∷ ws ↦ (w ∷ ws) ∷ commands_of mem rest
]

unfoldable pub get_commands : Bytes → ParseContext → List (List Bytes) × ParseContext
unfolding commands_of
get_commands mem c = (commands_of mem c.completed_values, record c { completed_values = [] })

-- What `parse` does once the loop is left by its `break`.
unfoldable pub compact : ParseContext → List (List Bytes) × ParseContext
unfolding get_commands storage_after_erase
compact c =
    get_commands (storage_after_erase c.buffer c.position)
      (record c { buffer = drop c.position c.buffer; position = 0 })

-- `parse`: an exception leaves the buffer and the position as they are.
unfoldable pub finish_parse :
    Bytes → Outcome (Unit {0}) × List Value × ℕ → Outcome (List (List Bytes)) × ParseContext
unfolding compact
finish_parse buffer (r, done, p) =
    let c : ParseContext = record { buffer = buffer; position = p; completed_values = done } in
    elim r [
      | parsed _ ↦ let (commands, c') = compact c in (parsed commands, c')
      | incomplete ↦ (incomplete, c)
      | thrown ↦ (thrown, c)
      | out_of_fuel ↦ (out_of_fuel, c)
    ]

unfoldable pub parse : ParseContext → Bytes → Outcome (List (List Bytes)) × ParseContext
unfolding parse_loop finish_parse
parse c chunk =
    let buffer = c.buffer ++ chunk in
    finish_parse buffer (parse_loop (suc (length buffer)) buffer c.completed_values c.position)
