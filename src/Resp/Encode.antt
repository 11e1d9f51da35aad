-- ===== src/Resp/Encode.antt =====
-- The wire format of a request, as a client writes it: an array of bulk strings.
use redis_c.Prelude.{◌^◌, ◌<◌, List, [], ◌∷◌, ◌++◌, Bytes, length}
use redis_c.Prelude.Decimal.{to_string}

abbrev pub crlf_then : Bytes → Bytes
crlf_then rest = 13 ∷ 10 ∷ rest

-- `$<size>\r\n<bytes>\r\n`, followed by `rest`.
unfoldable pub bulk : Bytes → Bytes → Bytes
bulk s rest = b'$' ∷ (to_string (length s) ++ crlf_then (s ++ crlf_then rest))

unfoldable pub bulks : List Bytes → Bytes → Bytes
unfolding bulk
bulks [] rest = rest
bulks (w ∷ ws) rest = bulk w (bulks ws rest)

-- `*<count>\r\n`, then the words.
unfoldable pub request : List Bytes → Bytes → Bytes
unfolding bulks
request ws rest = b'*' ∷ (to_string (length ws) ++ crlf_then (bulks ws rest))

unfoldable pub pipeline : List (List Bytes) → Bytes → Bytes
unfolding request
pipeline [] rest = rest
pipeline (ws ∷ more) rest = request ws (pipeline more rest)

-- Each word's size fits the `int` that `stoi` returns.
abbrev pub Fits : List Bytes → Type 0
Fits [] = Unit
Fits (w ∷ ws) = (length w < 2 ^ 31) × Fits ws

-- A request that the parser can return: at least one word, and as many as an `int` counts.
abbrev pub IsRequest : List Bytes → Type 0
IsRequest ws = (0 < length ws) × (length ws < 2 ^ 31) × Fits ws

abbrev pub AllRequests : List (List Bytes) → Type 0
AllRequests [] = Unit
AllRequests (ws ∷ more) = IsRequest ws × AllRequests more
