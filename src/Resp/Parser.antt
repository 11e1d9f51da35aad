-- ===== src/Resp/Parser.antt =====
-- The parsing routines of src/RESPParser.cpp. `size_t& pos` is the state of a `Parse`: what a
-- routine has moved it to stays, whether or not the value was complete.
use redis_c.Prelude.{
  ℕ, zero, suc, ◌+◌, ◌-◌, ◌*◌, Bool, ◌&&◌, ◌||◌, Option, none, some, [], ◌∷◌, ltb, ◌==◌,
  if◌then◌else◌, Bytes, length, get_elem?, take, drop,
}
use redis_c.Prelude.Decimal.{ℤ, pos, negsuc, stoi}
use redis_c.Resp.Value.{
  Kind, simple_string, error, integer, bulk_string, array, null_view, Value, node, Values, nil,
  cons, leaf,
}

-- A value, `std::nullopt`, an exception of `std::stoi`; `out_of_fuel` has no counterpart.
pub data Outcome {ℓ} (A : Type ℓ) : Type ℓ where
  parsed : A → Outcome A
  incomplete thrown out_of_fuel : Outcome A

abbrev pub Parse {ℓ} : Type ℓ → Type ℓ
Parse A = ℕ → Outcome A × ℕ

module _ {ℓ κ} {A : Type ℓ} {B : Type κ} where
  abbrev pub follow : Outcome A × ℕ → (A → Parse B) → Outcome B × ℕ
  follow (parsed a, p) f = f a p
  follow (incomplete, p) f = (incomplete, p)
  follow (thrown, p) f = (thrown, p)
  follow (out_of_fuel, p) f = (out_of_fuel, p)

  infixl 5 ◌>>=◌
  abbrev pub ◌>>=◌ : Parse A → (A → Parse B) → Parse B
  ◌>>=◌ m f p = follow (m p) f

abbrev pub pure {ℓ} : {A : Type ℓ} → A → Parse A
pure a p = (parsed a, p)

-- The loop of `find_crlf` from index `i`, where `s` is the data from there on.
unfoldable pub scan_crlf : ℕ → Bytes → Option ℕ
scan_crlf i [] = none
scan_crlf i (a ∷ []) = none
scan_crlf i (a ∷ b ∷ s) =
    let rest = scan_crlf (suc i) (b ∷ s) in if (a == 13) && (b == 10) then some i else rest

-- `RESPParser::find_crlf`; `none` is `std::string::npos`.
unfoldable pub find_crlf : Bytes → ℕ → Option ℕ
unfolding scan_crlf
find_crlf data_ start = scan_crlf start (drop start data_)

-- `data.substr(pos, crlf - pos)` is this view; here it is read at once.
unfoldable pub slice : Bytes → ℕ → ℕ → Bytes
slice data_ from to = take (to - from) (drop from data_)

-- The common text of `parse_simple_string`, `parse_error` and `parse_integer`.
unfoldable pub parse_line : Kind → Bytes → Parse Value
unfolding find_crlf
parse_line kind data_ p = elim (find_crlf data_ (p + 1)) [
  | none ↦ (incomplete, p + 1)
  | some crlf ↦ (parsed (leaf kind (record { offset = p + 1; size = crlf - (p + 1) })), crlf + 2)
]

unfoldable pub parse_simple_string : Bytes → Parse Value
unfolding parse_line
parse_simple_string = parse_line simple_string

unfoldable pub parse_error : Bytes → Parse Value
unfolding parse_line
parse_error = parse_line error

unfoldable pub parse_integer : Bytes → Parse Value
unfolding parse_line
parse_integer = parse_line integer

-- The head of a bulk string or an array: its number, with the position behind the line.
unfoldable pub parse_header : Bytes → Parse ℤ
unfolding find_crlf slice
parse_header data_ p = elim (find_crlf data_ (p + 1)) [
  | none ↦ (incomplete, p + 1)
  | some crlf ↦ elim (stoi (slice data_ (p + 1) crlf)) [
    | none ↦ (thrown, p + 1)
    | some len ↦ (parsed len, crlf + 2)
  ]
]

-- `parse_bulk_string` behind its head.
unfoldable pub bulk_body : Bytes → ℤ → Parse Value
bulk_body data_ (negsuc n) p = (parsed (leaf bulk_string null_view), p)
bulk_body data_ (pos len) p =
    if ltb (length data_) (p + len + 2)
    then (incomplete, p)
    else (parsed (leaf bulk_string (record { offset = p; size = len })), p + (len + 2))

unfoldable pub parse_bulk_string : Bytes → Parse Value
unfolding parse_header bulk_body
parse_bulk_string data_ = parse_header data_ >>= bulk_body data_

-- The `switch` over the type byte. `nested` is the recursive call; `default` gives `fallback`.
unfoldable pub parse_typed : Parse Value → Parse Value → Bytes → ℕ → Parse Value
unfolding parse_simple_string parse_error parse_integer parse_bulk_string
parse_typed nested fallback data_ type =
    if type == b'+'
    then parse_simple_string data_
    else if type == b'-'
    then parse_error data_
    else if type == b':'
    then parse_integer data_
    else if type == b'$'
    then parse_bulk_string data_
    else if type == b'*'
    then nested
    else fallback

-- `return std::nullopt;`
abbrev pub stop : Parse Value
stop p = (incomplete, p)

-- `data[pos]`, when `pos < data.size()`.
unfoldable pub peek : Bytes → Parse ℕ
peek data_ p = elim (get_elem? data_ p) [ none ↦ (incomplete, p) | some c ↦ (parsed c, p) ]

-- `parse_array` behind its head; `elements count` is the loop over the elements.
unfoldable pub array_body : (ℕ → Parse Values) → ℤ → Parse Value
array_body elements (negsuc n) = pure (node array null_view nil)
array_body elements (pos count) = elements count >>= λ vs. pure (node array null_view vs)

-- `parse_array`, and its loop with `count - i` rounds left. A call costs a unit of fuel.
unfoldable mutual
  unfolding peek parse_header parse_typed array_body

  pub parse_elements : ℕ → Bytes → ℕ → Parse Values
  parse_elements zero data_ count p = (out_of_fuel, p)
  parse_elements (suc f) data_ zero p = (parsed nil, p)
  parse_elements (suc f) data_ (suc n) p = follow (peek data_ p) λ type.
      parse_typed (parse_array f data_) stop data_ type >>= λ v.
      parse_elements f data_ n >>= λ vs. pure (cons v vs)

  pub parse_array : ℕ → Bytes → Parse Value
  parse_array zero data_ p = (out_of_fuel, p)
  parse_array (suc f) data_ p = follow (parse_header data_ p) (array_body (parse_elements f data_))

-- `default` of `try_parse_next`: skip to the next type byte. `s` is the data from `p` on.
unfoldable pub is_type_byte : ℕ → Bool
is_type_byte c = (c == b'+') || (c == b'-') || (c == b':') || (c == b'$') || (c == b'*')

unfoldable pub skip_invalid : Bytes → ℕ → ℕ
unfolding is_type_byte
skip_invalid [] p = p
skip_invalid (c ∷ s) p = let rest = skip_invalid s (suc p) in if is_type_byte c then p else rest

-- `try_parse_next`; the fuel is enough for any array in `data`.
unfoldable pub enough : Bytes → ℕ
enough data_ = suc (suc (2 * length data_))

unfoldable pub try_parse_next : Bytes → Parse Value
unfolding peek parse_typed parse_array skip_invalid enough
try_parse_next data_ p = follow (peek data_ p) (
    parse_typed (parse_array (enough data_) data_)
      (λ q. (incomplete, skip_invalid (drop q data_) q)) data_)
