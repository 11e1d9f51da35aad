-- ===== src/Resp/Value.antt =====
-- `RESPParser::RESPValue` of include/RESPParser.h: parsed values hold views into the buffer.
use redis_c.Prelude.{ℕ, Option, none, some, List, [], ◌∷◌, Bytes, take, drop}

-- `enum class Type`
pub data Kind : Type 0 where
  simple_string error integer bulk_string array invalid : Kind

-- `std::string_view` into the buffer: an offset and a length.
pub record View : Type 0 where
  pub offset : ℕ
  pub size : ℕ

-- `std::string_view()`
abbrev pub null_view : View
null_view = record { offset = 0; size = 0 }

-- `struct RESPValue`: `type`, `value`, `array`; the array is a type of its own.
mutual
  pub data Value : Type 0 where
    node : Kind → View → Values → Value

  pub data Values : Type 0 where
    nil : Values
    cons : Value → Values → Values

-- `std::make_unique<RESPValue>()` with the type and the view filled in.
abbrev pub leaf : Kind → View → Value
leaf k v = node k v nil

-- The bytes that a view shows when the memory holds `mem`.
unfoldable pub read_view : Bytes → View → Bytes
read_view mem v = take v.size (drop v.offset mem)

-- The loop of `to_command`: `none` once an element is not a bulk string.
unfoldable pub words : Bytes → Values → Option (List Bytes)
unfolding read_view
words mem nil = some []
words mem (cons (node bulk_string v _) rest) = elim (words mem rest) [
  | none ↦ none
  | some ws ↦ some (read_view mem v ∷ ws)
]
words mem (cons _ rest) = none

-- `RESPValue::to_command`, with the memory that the views look at.
unfoldable pub to_command : Bytes → Value → List Bytes
unfolding words
to_command mem (node array _ items) = elim (words mem items) [ none ↦ [] | some ws ↦ ws ]
to_command mem _ = []
