-- ===== src/Resp/Lines.antt =====
-- The head of a bulk string or an array: `find_crlf` finds the end of the number, `stoi` reads it.
use redis_c.Prelude.{
  ℕ, suc, ◌+◌, ◌-◌, ◌^◌, ◌<◌, ◌≡◌, some, [], ◌∷◌, ◌++◌, arith, Bytes, length, drop, drop-drop,
  drop_past, take-append,
}
use redis_c.Prelude.Decimal.{pos, to_string, stoi-to_string, to_string-All, All, IsDigit}
use redis_c.Resp.Encode.{crlf_then}
use redis_c.Resp.Parser.{scan_crlf, find_crlf, slice, parsed, parse_header}

scan_crlf_line :
    (i : ℕ) (line rest : Bytes)
    → All IsDigit line
    → scan_crlf i (line ++ crlf_then rest) ≡ some (i + length line)
unfolding scan_crlf
scan_crlf_line i [] rest h = ground arith
scan_crlf_line i (c ∷ []) rest h = ground arith
scan_crlf_line i (c ∷ d ∷ line) rest h = ground (arith, scan_crlf_line (suc i) (d ∷ line) rest h.1)

module _ (data_ rest : Bytes) (p c n : ℕ)
    (at : drop p data_ ≡ c ∷ (to_string n ++ crlf_then rest)) where
  behind_type : drop (p + 1) data_ ≡ to_string n ++ crlf_then rest
  behind_type = rw (← drop-drop p 1 data_, at)

  find_crlf_number : find_crlf data_ (p + 1) ≡ some (p + 1 + length (to_string n))
  unfolding find_crlf
  find_crlf_number = rw behind_type (scan_crlf_line (p + 1) (to_string n) rest (to_string-All n))

  slice_number : slice data_ (p + 1) (p + 1 + length (to_string n)) ≡ to_string n
  unfolding slice
  slice_number =
      let e : p + 1 + length (to_string n) - (p + 1) ≡ length (to_string n) = omega arith in
      rw (e, behind_type) (take-append (to_string n) (crlf_then rest))

  pub parse_header_number :
      n < 2 ^ 31 → parse_header data_ p ≡ (parsed (pos n), p + 1 + length (to_string n) + 2)
  unfolding parse_header
  parse_header_number h =
      rw (find_crlf_number, parse_header) (rw (slice_number, stoi-to_string n h))

  pub behind_header : drop (p + 1 + length (to_string n) + 2) data_ ≡ rest
  behind_header = rw (
    ← drop-drop (p + 1 + length (to_string n)) 2 data_,
    drop_past (p + 1) data_ (to_string n) (crlf_then rest) behind_type,
  )
