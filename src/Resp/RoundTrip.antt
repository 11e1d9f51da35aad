-- ===== src/Resp/RoundTrip.antt =====
-- What a client writes is what the parser returns.
use redis_c.Prelude.{
  ℕ, zero, suc, ◌-◌, ◌≤◌, ◌<◌, ◌≡◌, refl, ap, ◌∙◌, List, [], ◌∷◌, ◌++◌, append-nil, append_assoc,
  arith, Bytes, length, drop, get_elem?-drop, length-drop, drop_of_length-le, length-append,
}
use redis_c.Prelude.Decimal.{to_string}
use redis_c.Resp.Value.{Value, node, array, null_view}
use redis_c.Resp.Encode.{crlf_then, bulks, pipeline, AllRequests}
use redis_c.Resp.Parser.{parsed, incomplete, peek, try_parse_next}
use redis_c.Resp.Context.{fresh, parse_loop, storage_after_erase, commands_of, finish_parse, parse}
use redis_c.Resp.Reading.{length-bulks, RequestRead, try_parse_next-request}

-- The loop of `parse`.
module _ (data_ mem : Bytes) (agree : (q : ℕ) → 0 < q → drop q mem ≡ drop q data_) where
  record Commands (f : ℕ) (done : List Value) (p : ℕ) (more : List (List Bytes)) : Type 0 where
    values : List Value
    end : ℕ
    run : parse_loop f data_ done p ≡ (parsed tt, done ++ values, end)
    at_end : end ≡ length data_
    reads : commands_of mem values ≡ more

  try_parse_next-nil : (p : ℕ) → drop p data_ ≡ [] → try_parse_next data_ p ≡ (incomplete, p)
  unfolding try_parse_next
  try_parse_next-nil p at = rw (get_elem?-drop p data_, peek) (rw at)

  Commands-nil :
      (f p : ℕ) (done : List Value)
      → p ≤ length data_
      → drop p data_ ≡ []
      → Commands (suc f) done p []
  unfolding parse_loop commands_of
  Commands-nil f p done inside at = record {
    values = [];
    end = p;
    run = rw (try_parse_next-nil p at) (rw append-nil);
    at_end = omega (arith, length-drop p data_, ap (length {A = ℕ}) at);
    reads = refl;
  }

  Commands-cons :
      (f p : ℕ) (done : List Value) (w : Bytes) (ws : List Bytes) (rest : Bytes)
      (more : List (List Bytes)) (r : RequestRead data_ mem agree p (w ∷ ws) rest)
      → Commands f (done ++ node array null_view r.values ∷ []) r.end more
      → Commands (suc f) done p ((w ∷ ws) ∷ more)
  unfolding parse_loop commands_of
  Commands-cons f p done w ws rest more r c = record {
    values = node array null_view r.values ∷ c.values;
    end = c.end;
    run = rw r.run (rw c.run (rw append_assoc));
    at_end = c.at_end;
    reads = rw (r.reads, commands_of) (rw c.reads);
  }

  parse_loop-pipeline :
      (f p : ℕ) (done : List Value) (reqs : List (List Bytes))
      → length reqs < f
      → p ≤ length data_
      → AllRequests reqs
      → drop p data_ ≡ pipeline reqs []
      → Commands f done p reqs
  unfolding pipeline
  parse_loop-pipeline zero p done reqs h inside fits at = absurd (omega arith)
  parse_loop-pipeline (suc f) p done [] h inside fits at = Commands-nil f p done inside at
  parse_loop-pipeline (suc f) p done ([] ∷ more) h inside fits at = absurd (omega arith)
  parse_loop-pipeline (suc f) p done ((w ∷ ws) ∷ more) h inside fits at =
      let r : RequestRead data_ mem agree p (w ∷ ws) (pipeline more []) =
        try_parse_next-request data_ mem agree (w ∷ ws) (pipeline more []) p fits.0.1 fits.0.2 at in
      Commands-cons f p done w ws (pipeline more []) more r (
        parse_loop-pipeline f r.end (done ++ node array null_view r.values ∷ []) more (omega arith)
          r.within fits.1 r.behind)

length-pipeline : (reqs : List (List Bytes)) → length reqs ≤ length (pipeline reqs [])
unfolding pipeline
length-pipeline [] = omega arith
length-pipeline (ws ∷ more) = omega (
  arith,
  length-pipeline more,
  length-bulks ws (pipeline more []),
  length-append (to_string (length ws)) (crlf_then (bulks ws (pipeline more []))),
)

-- What the views still see once a buffer that was read to its end is erased.
storage_read_out :
    (b : Bytes) (q : ℕ) → 0 < q → drop q (storage_after_erase b (length b)) ≡ drop q b
unfolding storage_after_erase
storage_read_out [] q h = refl
storage_read_out (c ∷ b) zero h = elim h [ ]
storage_read_out (c ∷ b) (suc q) h =
    let e : suc (length b) - length b ≡ 1 = omega arith in
    rw (drop_of_length-le (length b) b (omega arith), e)

finish_parse-read_out :
    (b : Bytes) (vs : List Value) (n : ℕ)
    → n ≡ length b
    → finish_parse b (parsed tt, vs, n)
      ≡ (parsed (commands_of (storage_after_erase b (length b)) vs), fresh)
unfolding finish_parse
finish_parse-read_out b vs n e = rw e (rw (drop_of_length-le (length b) b (omega arith)))

parse-Commands :
    (b : Bytes) (reqs : List (List Bytes))
    → Commands b (storage_after_erase b (length b)) (storage_read_out b) (suc (length b)) [] 0 reqs
    → parse fresh b ≡ (parsed reqs, fresh)
unfolding parse
parse-Commands b reqs c =
    ap (finish_parse b) c.run ∙ finish_parse-read_out b c.values c.end c.at_end ∙ rw c.reads

-- A parser that has nothing pending, given any number of whole requests in one chunk, returns
-- exactly these requests, in order, and has nothing pending afterwards. The words may hold any
-- bytes; each request has at least one word, and its count and its words' sizes fit an `int`.
pub parse-pipeline :
    (reqs : List (List Bytes))
    → AllRequests reqs
    → parse fresh (pipeline reqs []) ≡ (parsed reqs, fresh)
parse-pipeline reqs fits =
    let b = pipeline reqs [] in
    parse-Commands b reqs (
      parse_loop-pipeline b _ (storage_read_out b) (suc (length b)) 0 [] reqs
        (omega (arith, length-pipeline reqs)) (omega arith) fits refl)
