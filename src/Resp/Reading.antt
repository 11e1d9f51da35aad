-- ===== src/Resp/Reading.antt =====
-- A request that a client wrote is read whole: the parsing routines on its bytes.
use redis_c.Prelude.{
  ℕ, zero, suc, ◌+◌, ◌*◌, ◌^◌, ◌≤◌, ◌<◌, ◌≡◌, refl, ap, some, List, [], ◌∷◌, ◌++◌, arith, Bytes,
  length, drop, drop-drop, drop_past, take-append, get_elem?-drop, length_of_drop, length-drop,
  length-append,
}
use redis_c.Prelude.Decimal.{pos, to_string, length-to_string_pos}
use redis_c.Resp.Value.{
  node, Values, nil, cons, leaf, View, bulk_string, array, null_view, read_view, words,
}
use redis_c.Resp.Encode.{crlf_then, bulk, bulks, request, Fits}
use redis_c.Resp.Parser.{
  parsed, parse_header, parse_bulk_string, peek, parse_elements, try_parse_next,
}
use redis_c.Resp.Lines.{parse_header_number, behind_header}

length-bulk : (s rest : Bytes) → 5 + length s + length rest < length (bulk s rest)
unfolding bulk
length-bulk s rest = omega (
  arith,
  length-append (to_string (length s)) (crlf_then (s ++ crlf_then rest)),
  length-append s (crlf_then rest),
  length-to_string_pos (length s),
)

pub length-bulks :
    (ws : List Bytes) (rest : Bytes) → 6 * length ws + length rest ≤ length (bulks ws rest)
unfolding bulks
length-bulks [] rest = omega arith
length-bulks (w ∷ ws) rest = omega (arith, length-bulks ws rest, length-bulk w (bulks ws rest))

-- The memory agrees with the data behind its first byte.
module _ (data_ mem : Bytes) (agree : (q : ℕ) → 0 < q → drop q mem ≡ drop q data_) where
  -- A bulk string at `p` is read whole: where its view stands, and what follows.
  module _ (s rest : Bytes) (p : ℕ) (at : drop p data_ ≡ bulk s rest)
      (small : length s < 2 ^ 31) where
    body : ℕ
    body = p + 1 + length (to_string (length s)) + 2

    at_type : drop p data_ ≡ b'$' ∷ (to_string (length s) ++ crlf_then (s ++ crlf_then rest))
    unfolding bulk
    at_type = at

    at_body : drop body data_ ≡ s ++ crlf_then rest
    unfolding body
    at_body = behind_header data_ (s ++ crlf_then rest) p b'$' (length s) at_type

    behind_bulk : drop (body + (length s + 2)) data_ ≡ rest
    behind_bulk =
        let e : body + (length s + 2) ≡ body + length s + 2 = omega arith in
        rw (
          e,
          ← drop-drop (body + length s) 2 data_,
          drop_past body data_ s (crlf_then rest) at_body,
        )

    body_fits : body + length s + 2 ≤ length data_
    body_fits = omega (
      arith,
      length_of_drop body data_ (s ++ crlf_then rest) at_body
          (omega (arith, length-append s (crlf_then rest))),
      length-append s (crlf_then rest),
    )

    view : View
    view = record { offset = body; size = length s }

    parse_bulk_string-bulk :
        parse_bulk_string data_ p ≡ (parsed (leaf bulk_string view), body + (length s + 2))
    unfolding parse_bulk_string view
    parse_bulk_string-bulk =
        rw (parse_header_number data_ (s ++ crlf_then rest) p b'$' (length s) at_type small)
          (unfold body in ground (arith, body_fits))

    read_view-bulk : read_view mem view ≡ s
    unfolding read_view view
    read_view-bulk =
        rw (agree body (unfold body in omega arith), at_body) (take-append s (crlf_then rest))

  peek-bulk :
      (s rest : Bytes) (p : ℕ) → drop p data_ ≡ bulk s rest → peek data_ p ≡ (parsed b'$', p)
  unfolding peek bulk
  peek-bulk s rest p at = rw (get_elem?-drop p data_, peek) (rw at)

  record WordsRead (f p : ℕ) (ws : List Bytes) (rest : Bytes) : Type 0 where
    values : Values
    end : ℕ
    run : parse_elements f data_ (length ws) p ≡ (parsed values, end)
    within : end ≤ length data_
    behind : drop end data_ ≡ rest
    reads : words mem values ≡ some ws

  -- One more word in front.
  WordsRead-cons :
      (f : ℕ) (w : Bytes) (ws : List Bytes) (rest : Bytes) (p : ℕ)
      (at : drop p data_ ≡ bulk w (bulks ws rest)) (small : length w < 2 ^ 31)
      → WordsRead f (body w (bulks ws rest) p at small + (length w + 2)) ws rest
      → WordsRead (suc f) p (w ∷ ws) rest
  unfolding parse_elements words
  WordsRead-cons f w ws rest p at small more = record {
    values = cons (leaf bulk_string (view w (bulks ws rest) p at small)) more.values;
    end = more.end;
    run =
        rw (peek-bulk w (bulks ws rest) p at)
          (rw (parse_bulk_string-bulk w (bulks ws rest) p at small) (rw more.run));
    within = more.within;
    behind = more.behind;
    reads = rw (more.reads, read_view-bulk w (bulks ws rest) p at small);
  }

  parse_elements-bulks :
      (f : ℕ) (ws : List Bytes) (rest : Bytes) (p : ℕ)
      → length ws < f
      → p ≤ length data_
      → Fits ws
      → drop p data_ ≡ bulks ws rest
      → WordsRead f p ws rest
  unfolding bulks parse_elements words
  parse_elements-bulks zero ws rest p h inside fits at = absurd (omega arith)
  parse_elements-bulks (suc f) [] rest p h inside fits at = record {
    values = nil;
    end = p;
    run = refl;
    within = inside;
    behind = at;
    reads = refl;
  }
  parse_elements-bulks (suc f) (w ∷ ws) rest p h inside fits at =
      WordsRead-cons f w ws rest p at fits.0 (
        parse_elements-bulks f ws rest (body w (bulks ws rest) p at fits.0 + (length w + 2))
          (omega arith) (omega (arith, body_fits w (bulks ws rest) p at fits.0)) fits.1
          (behind_bulk w (bulks ws rest) p at fits.0))

  -- A request at `p` is one array.
  pub record RequestRead (p : ℕ) (ws : List Bytes) (rest : Bytes) : Type 0 where
    pub values : Values
    pub end : ℕ
    pub run : try_parse_next data_ p ≡ (parsed (node array null_view values), end)
    pub within : end ≤ length data_
    pub behind : drop end data_ ≡ rest
    pub reads : words mem values ≡ some ws

  enough-bulks :
      (ws : List Bytes) (rest : Bytes) (p : ℕ)
      → drop p data_ ≡ bulks ws rest
      → length ws < suc (2 * length data_)
  enough-bulks ws rest p at =
      omega (arith, length-bulks ws rest, length-drop p data_, ap (length {A = ℕ}) at)

  peek-request :
      (ws : List Bytes) (rest : Bytes) (p : ℕ)
      → drop p data_ ≡ request ws rest
      → peek data_ p ≡ (parsed b'*', p)
  unfolding peek request
  peek-request ws rest p at = rw (get_elem?-drop p data_, peek) (rw at)

  header_fits :
      (ws : List Bytes) (rest : Bytes) (p : ℕ)
      → drop p data_ ≡ request ws rest
      → p + 1 + length (to_string (length ws)) + 2 ≤ length data_
  unfolding request
  header_fits ws rest p at =
      let l : length (to_string (length ws) ++ crlf_then (bulks ws rest))
          ≡ length (to_string (length ws)) + length (crlf_then (bulks ws rest)) =
        length-append (to_string (length ws)) (crlf_then (bulks ws rest)) in
      omega (arith, length_of_drop p data_ _ at (omega arith))

  RequestRead-words :
      (ws : List Bytes) (rest : Bytes) (p q : ℕ)
      → peek data_ p ≡ (parsed b'*', p)
      → parse_header data_ p ≡ (parsed (pos (length ws)), q)
      → WordsRead (suc (2 * length data_)) q ws rest
      → RequestRead p ws rest
  unfolding try_parse_next
  RequestRead-words ws rest p q at header items = record {
    values = items.values;
    end = items.end;
    run = rw at (rw header (rw items.run));
    within = items.within;
    behind = items.behind;
    reads = items.reads;
  }

  pub try_parse_next-request :
      (ws : List Bytes) (rest : Bytes) (p : ℕ)
      → length ws < 2 ^ 31
      → Fits ws
      → drop p data_ ≡ request ws rest
      → RequestRead p ws rest
  unfolding request
  try_parse_next-request ws rest p count fits at =
      let b : drop (p + 1 + length (to_string (length ws)) + 2) data_ ≡ bulks ws rest =
        behind_header data_ (bulks ws rest) p b'*' (length ws) at in
      RequestRead-words ws rest p (p + 1 + length (to_string (length ws)) + 2)
        (peek-request ws rest p at)
        (parse_header_number data_ (bulks ws rest) p b'*' (length ws) at count)
        (parse_elements-bulks (suc (2 * length data_)) ws rest _ (enough-bulks ws rest _ b)
          (header_fits ws rest p at) fits b)
