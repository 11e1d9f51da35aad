-- ===== src/Worker/Send.antt =====
-- `WorkerThread::send_response` of src/ThreadPool.cpp.
use redis_c.Prelude.{
  ℕ, zero, suc, ◌+◌, ◌≤◌, ◌<◌, ◌≡◌, refl, sym, ap, ◌∙◌, true, false, List, [], ◌∷◌, ◌++◌, arith,
  ltb, if◌then◌else◌, Bytes, length, take, drop, append-nil, append_assoc, Bool-cases, inl, inr,
  ◌⊎◌, drop-drop, drop_of_length-le,
}

-- What one call of `send` returns: a number of bytes, `EAGAIN` or `EWOULDBLOCK`, or another error.
pub data SendResult : Type 0 where
  sent : ℕ → SendResult
  would_block failed : SendResult

-- How `send_response` ends: all is sent, or the client is removed. `waiting` tells that it is
-- still in its loop after the calls that are given.
pub data Delivery : Type 0 where
  delivered removed waiting : Delivery

-- The loop, with what the calls of `send` return; also the bytes that went out.
unfoldable pub send_loop : List SendResult → ℕ → Bytes → Bytes → Delivery × Bytes
send_loop [] total_sent data_ out =
    if ltb total_sent (length data_) then (waiting, out) else (delivered, out)
send_loop (would_block ∷ calls) total_sent data_ out =
    let next = send_loop calls total_sent data_ out in
    if ltb total_sent (length data_) then next else (delivered, out)
send_loop (failed ∷ calls) total_sent data_ out =
    if ltb total_sent (length data_) then (removed, out) else (delivered, out)
send_loop (sent n ∷ calls) total_sent data_ out =
    let next = send_loop calls (total_sent + n) data_ (out ++ take n (drop total_sent data_)) in
    if ltb total_sent (length data_)
    then (if ltb 0 n then next else (removed, out))
    else (delivered, out)

unfoldable pub send_response : List SendResult → Bytes → Delivery × Bytes
unfolding send_loop
send_response calls data_ = send_loop calls 0 data_ []

take-drop : (n : ℕ) (xs : Bytes) → take n xs ++ drop n xs ≡ xs
take-drop zero xs = refl
take-drop (suc n) [] = refl
take-drop (suc n) (x ∷ xs) = ap (◌∷◌ x) (take-drop n xs)

-- What went out and what is left make up the response, and nothing is left when it is delivered.
abbrev IsSent : Bytes → Delivery × Bytes → Type 0
IsSent data_ r = (rest : Bytes) × (r.1 ++ rest ≡ data_) × (r.0 ≡ delivered → rest ≡ [])

abbrev pub IsSplit : ℕ → Bytes → Bytes → Type 0
IsSplit total_sent data_ out = out ++ drop total_sent data_ ≡ data_

IsSplit-sent :
    (t n : ℕ) (data_ out : Bytes)
    → IsSplit t data_ out
    → IsSplit (t + n) data_ (out ++ take n (drop t data_))
IsSplit-sent t n data_ out h =
    rw (append_assoc out (take n (drop t data_)) (drop (t + n) data_), ← drop-drop t n data_)
      (rw (take-drop n (drop t data_)) h)

at_end :
    (t : ℕ) (data_ out : Bytes)
    → IsSplit t data_ out
    → ltb t (length data_) ≡ false
    → IsSent data_ (delivered, out)
at_end t data_ out h e = (drop t data_, h, λ x. drop_of_length-le t data_ (ground arith))

send_loop_lem :
    (calls : List SendResult) (t : ℕ) (data_ out : Bytes)
    → IsSplit t data_ out
    → IsSent data_ (send_loop calls t data_ out)
unfolding send_loop
send_loop_lem calls t data_ out h = go calls t out h (Bool-cases (ltb t (length data_)))
  where
    go :
        (calls : List SendResult) (t : ℕ) (out : Bytes)
        → IsSplit t data_ out
        → (ltb t (length data_) ≡ true) ⊎ (ltb t (length data_) ≡ false)
        → IsSent data_ (send_loop calls t data_ out)
    go [] t out h (inl e) = rw e (drop t data_, h, λ x. absurd (ground arith))
    go [] t out h (inr e) = rw e (at_end t data_ out h e)
    go (would_block ∷ calls) t out h (inl e) =
        rw e (go calls t out h (Bool-cases (ltb t (length data_))))
    go (would_block ∷ calls) t out h (inr e) = rw e (at_end t data_ out h e)
    go (failed ∷ calls) t out h (inl e) = rw e (drop t data_, h, λ x. absurd (ground arith))
    go (failed ∷ calls) t out h (inr e) = rw e (at_end t data_ out h e)
    go (sent n ∷ calls) t out h (inr e) = rw e (at_end t data_ out h e)
    go (sent n ∷ calls) t out h (inl e) = rw e (elim (Bool-cases (ltb 0 n)) [
      | inl pos ↦ rw pos (
          go calls (t + n) (out ++ take n (drop t data_)) (IsSplit-sent t n data_ out h)
            (Bool-cases (ltb (t + n) (length data_))))
      | inr none_sent ↦ rw none_sent (drop t data_, h, λ x. absurd (ground arith))
    ])

send_response-IsSent :
    (calls : List SendResult) (data_ : Bytes) → IsSent data_ (send_response calls data_)
unfolding send_response
send_response-IsSent calls data_ = send_loop_lem calls 0 data_ [] refl

abbrev pub IsPrefixOf : Bytes → Bytes → Type 0
IsPrefixOf data_ out = (rest : Bytes) × (out ++ rest ≡ data_)

-- Whatever the calls of `send` return, what went out is a prefix of the response.
pub send_response-IsPrefixOf :
    (calls : List SendResult) (data_ : Bytes) → IsPrefixOf data_ (send_response calls data_).1
send_response-IsPrefixOf calls data_ =
    let (rest, split, all) = send_response-IsSent calls data_ in (rest, split)

-- A response that counts as delivered went out whole.
pub send_response-delivered :
    (calls : List SendResult) (data_ : Bytes)
    → (send_response calls data_).0 ≡ delivered
    → (send_response calls data_).1 ≡ data_
send_response-delivered calls data_ e =
    let (rest, split, all) = send_response-IsSent calls data_ in
    let out = (send_response calls data_).1 in
    sym (append-nil out) ∙ ap (◌++◌ out) (sym (all e)) ∙ split

-- Calls without an error, and the number of those that send something.
abbrev pub NoError : List SendResult → Type 0
NoError [] = Unit
NoError (sent n ∷ calls) = (0 < n) × NoError calls
NoError (would_block ∷ calls) = NoError calls
NoError (failed ∷ calls) = ⊥

abbrev pub sends : List SendResult → ℕ
sends [] = 0
sends (sent n ∷ calls) = suc (sends calls)
sends (_ ∷ calls) = sends calls

send_loop_delivers :
    (calls : List SendResult) (t : ℕ) (data_ out : Bytes)
    → NoError calls
    → length data_ ≤ t + sends calls
    → (send_loop calls t data_ out).0 ≡ delivered
unfolding send_loop
send_loop_delivers [] t data_ out ok h = ground arith
send_loop_delivers (would_block ∷ calls) t data_ out ok h =
    ground (arith, send_loop_delivers calls t data_ out ok h)
send_loop_delivers (failed ∷ calls) t data_ out ok h = absurd ok
send_loop_delivers (sent n ∷ calls) t data_ out ok h = ground (
  arith,
  ok.0,
  send_loop_delivers calls (t + n) data_ (out ++ take n (drop t data_)) ok.1 (omega (arith, ok.0)),
)

-- The loop ends: without an error, as many calls that send something as the response has bytes
-- are enough, however many would block in between.
pub send_response_delivers :
    (calls : List SendResult) (data_ : Bytes)
    → NoError calls
    → length data_ ≤ sends calls
    → send_response calls data_ ≡ (delivered, data_)
unfolding send_response
send_response_delivers calls data_ ok h =
    let e : (send_response calls data_).0 ≡ delivered =
      send_loop_delivers calls 0 data_ [] ok (omega arith) in
    λ i. (e i, send_response-delivered calls data_ e i)
