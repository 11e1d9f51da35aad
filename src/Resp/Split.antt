-- ===== src/Resp/Split.antt =====
-- What happens to a request that arrives in two pieces.
use redis_c.Prelude.{
  ℕ, suc, ◌<◌, ◌≡◌, refl, ap, ◌∙◌, List, [], ◌∷◌, ◌++◌, arith, Bytes, length, drop,
}
use redis_c.Prelude.Decimal.{to_string, stoi, to_string-All, length-to_string_pos, All, IsDigit}
use redis_c.Resp.Encode.{crlf_then, bulks, request}
use redis_c.Resp.Parser.{parsed, incomplete, skip_invalid, try_parse_next}
use redis_c.Resp.Context.{fresh, parse_loop, finish_parse, parse}

-- A digit is no type byte: `try_parse_next` skips it and what follows up to a type byte.
try_parse_next-digit :
    (c : ℕ) (s : Bytes)
    → IsDigit c
    → try_parse_next (c ∷ s) 0 ≡ (incomplete, skip_invalid (c ∷ s) 0)
unfolding try_parse_next
try_parse_next-digit c s h = ground arith

loop-digit :
    (f c : ℕ) (s : Bytes)
    → IsDigit c
    → parse_loop (suc f) (c ∷ s) [] 0 ≡ (parsed tt, [], skip_invalid (c ∷ s) 0)
unfolding parse_loop
loop-digit f c s h = rw (try_parse_next-digit c s h)

finish_parse-none : (b : Bytes) (p : ℕ) → (finish_parse b (parsed tt, [], p)).0 ≡ parsed []
unfolding finish_parse
finish_parse-none b p = refl

parse-digit : (c : ℕ) (s : Bytes) → IsDigit c → (parse fresh (c ∷ s)).0 ≡ parsed []
unfolding parse
parse-digit c s h =
    ap (λ l. (finish_parse (c ∷ s) l).0) (loop-digit (length (c ∷ s)) c s h)
    ∙ finish_parse-none (c ∷ s) (skip_invalid (c ∷ s) 0)

parse-digits : (d s : Bytes) → 0 < length d → All IsDigit d → (parse fresh (d ++ s)).0 ≡ parsed []
parse-digits [] s h ds = absurd (omega arith)
parse-digits (c ∷ d) s h ds = parse-digit c (d ++ s) ds.0

-- The type byte of a request, alone in a chunk, is consumed and forgotten: the parser is as it
-- was before, and the rest of the request, arriving next, yields no command.
pub split_request_is_lost :
    (ws : List Bytes)
    → (parse fresh (b'*' ∷ []) ≡ (parsed [], fresh))
      × ((parse (parse fresh (b'*' ∷ [])).1 (drop 1 (request ws []))).0 ≡ parsed [])
unfolding parse stoi request
split_request_is_lost ws = (
  refl,
  parse-digits (to_string (length ws)) (crlf_then (bulks ws [])) (length-to_string_pos (length ws))
      (to_string-All (length ws)),
)
