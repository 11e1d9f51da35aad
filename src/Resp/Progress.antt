-- ===== src/Resp/Progress.antt =====
-- Every routine of the parser moves its position forward, and the fuel of the model never runs out.
use redis_c.Prelude.{
  ℕ, zero, suc, ◌+◌, ◌-◌, ◌*◌, ◌≤◌, ◌<◌, ◌≡◌, ◌≢◌, refl, some, none, List, [], ◌∷◌, ◌++◌, arith,
  Bytes, length, drop, inl, inr, get_elem?, Bool, true, false, if◌then◌else◌, Option-cases,
  Bool-cases, ◌==◌, ltb, dec_lt,
}
use redis_c.Prelude.Decimal.{ℤ, pos, negsuc, stoi}
use redis_c.Resp.Value.{Value, Values, Kind}
use redis_c.Resp.Parser.{
  Outcome, Parse, parsed, incomplete, thrown, out_of_fuel, follow, scan_crlf, find_crlf, slice,
  parse_line, parse_header, bulk_body, parse_bulk_string, peek, parse_typed, stop, array_body,
  parse_elements, parse_array, try_parse_next, enough,
}
use redis_c.Resp.Context.{ParseContext, after_next, parse_loop, finish_parse, parse}

-- The run did not stop for lack of fuel, and a value that it returns took `k` bytes at least.
abbrev pub Moves {ℓ} : {A : Type ℓ} → ℕ → ℕ → Outcome A × ℕ → Type 0
Moves k p (parsed a, q) = p + k ≤ q
Moves k p (incomplete, q) = Unit
Moves k p (thrown, q) = Unit
Moves k p (out_of_fuel, q) = ⊥

Moves-weaken {ℓ} :
    {A : Type ℓ} (k l m p q : ℕ) (r : Outcome A × ℕ)
    → m ≤ k + l
    → p + k ≤ q
    → Moves l q r
    → Moves m p r
Moves-weaken k l m p q (parsed b, q') e h h' = omega arith
Moves-weaken k l m p q (incomplete, q') e h h' = tt
Moves-weaken k l m p q (thrown, q') e h h' = tt
Moves-weaken k l m p q (out_of_fuel, q') e h h' = h'

Moves-follow {ℓ κ} :
    {A : Type ℓ} {B : Type κ} (k l m p : ℕ) (r : Outcome A × ℕ) (f : A → Parse B)
    → m ≤ k + l
    → Moves k p r
    → ((a : A) (q : ℕ) → p + k ≤ q → Moves l q (f a q))
    → Moves m p (follow r f)
Moves-follow k l m p (parsed a, q) f e h rest = Moves-weaken k l m p q (f a q) e h (rest a q h)
Moves-follow k l m p (incomplete, q) f e h rest = tt
Moves-follow k l m p (thrown, q) f e h rest = tt
Moves-follow k l m p (out_of_fuel, q) f e h rest = h

scan_crlf-ge : (i : ℕ) (s : Bytes) (c : ℕ) → scan_crlf i s ≡ some c → i ≤ c
unfolding scan_crlf
scan_crlf-ge i [] c h = ground arith
scan_crlf-ge i (a ∷ []) c h = ground arith
scan_crlf-ge i (a ∷ b ∷ s) c h = ground (arith, scan_crlf-ge (suc i) (b ∷ s) c)

find_crlf-ge : (data_ : Bytes) (p c : ℕ) → find_crlf data_ p ≡ some c → p ≤ c
unfolding find_crlf
find_crlf-ge data_ p c h = scan_crlf-ge p (drop p data_) c h

lt_of_get_elem? : (s : Bytes) (p c : ℕ) → get_elem? s p ≡ some c → p < length s
lt_of_get_elem? [] p c h = ground arith
lt_of_get_elem? (x ∷ s) zero c h = omega arith
lt_of_get_elem? (x ∷ s) (suc p) c h = omega (arith, lt_of_get_elem? s p c h)

module _ (data_ : Bytes) where
  parse_line-Moves : (k : Kind) (p : ℕ) → Moves 1 p (parse_line k data_ p)
  unfolding parse_line
  parse_line-Moves k p = elim (Option-cases (find_crlf data_ (p + 1))) [
    | inl e ↦ rw (e, parse_line) tt
    | inr (c, e) ↦
        rw (e, parse_line) (let b : p + 1 ≤ c = find_crlf-ge data_ (p + 1) c e in omega arith)
  ]

  parse_header-Moves : (p : ℕ) → Moves 1 p (parse_header data_ p)
  unfolding parse_header
  parse_header-Moves p = elim (Option-cases (find_crlf data_ (p + 1))) [
    | inl e ↦ rw (e, parse_header) tt
    | inr (c, e) ↦ rw (e, parse_header) (number c e)
  ]
    where
      number :
          (c : ℕ)
          → find_crlf data_ (p + 1) ≡ some c
          → Moves {A = ℤ} 1 p (elim (stoi (slice data_ (p + 1) c)) [
            | none ↦ (thrown, p + 1)
            | some len ↦ (parsed len, c + 2)
          ])
      number c e = elim (Option-cases (stoi (slice data_ (p + 1) c))) [
        | inl n ↦ rw n tt
        | inr (z, n) ↦ rw n (let b : p + 1 ≤ c = find_crlf-ge data_ (p + 1) c e in omega arith)
      ]

  bulk_body-Moves : (z : ℤ) (p : ℕ) → Moves 0 p (bulk_body data_ z p)
  unfolding bulk_body
  bulk_body-Moves (negsuc n) p = omega arith
  bulk_body-Moves (pos n) p = elim (Bool-cases (ltb (length data_) (p + n + 2))) [
    | inl short ↦ rw short tt
    | inr whole ↦ rw whole (omega arith)
  ]

  parse_bulk_string-Moves : (p : ℕ) → Moves 1 p (parse_bulk_string data_ p)
  unfolding parse_bulk_string
  parse_bulk_string-Moves p =
      Moves-follow 1 0 1 p (parse_header data_ p) (bulk_body data_) (omega arith)
        (parse_header-Moves p) (λ z q h. bulk_body-Moves z q)

  peek-follow :
      {B : Type 0} (m p : ℕ) (k : ℕ → Parse B)
      → ((c : ℕ) → p < length data_ → Moves m p (k c p))
      → Moves m p (follow (peek data_ p) k)
  unfolding peek
  peek-follow m p k h = elim (Option-cases (get_elem? data_ p)) [
    | inl e ↦ rw (e, peek) tt
    | inr (c, e) ↦ rw (e, peek) (h c (lt_of_get_elem? data_ p c e))
  ]

  if-Moves :
      {A : Type 0} (b : Bool) (k p : ℕ) (x y : Parse A)
      → Moves k p (x p)
      → Moves k p (y p)
      → Moves k p ((if b then x else y) p)
  if-Moves true k p x y hx hy = hx
  if-Moves false k p x y hx hy = hy

  parse_typed-Moves :
      (nested fallback : Parse Value) (type p : ℕ)
      → Moves 1 p (nested p)
      → Moves 1 p (fallback p)
      → Moves 1 p (parse_typed nested fallback data_ type p)
  unfolding parse_typed
  parse_typed-Moves nested fallback type p hn hf =
      if-Moves (type == b'+') 1 p _ _ (parse_line-Moves _ p) (
        if-Moves (type == b'-') 1 p _ _ (parse_line-Moves _ p) (
          if-Moves (type == b':') 1 p _ _ (parse_line-Moves _ p) (
            if-Moves (type == b'$') 1 p _ _ (parse_bulk_string-Moves p)
              (if-Moves (type == b'*') 1 p _ _ hn hf))))

  array_body-Moves :
      (elements : ℕ → Parse Values) (z : ℤ) (p : ℕ)
      → ((n : ℕ) → Moves 0 p (elements n p))
      → Moves 0 p (array_body elements z p)
  unfolding array_body
  array_body-Moves elements (negsuc n) p h = omega arith
  array_body-Moves elements (pos n) p h =
      Moves-follow 0 0 0 p (elements n p) _ (omega arith) (h n) (λ vs q e. omega arith)

mutual
  unfolding parse_elements

  parse_elements-Moves :
      (f : ℕ) (data_ : Bytes) (n p : ℕ)
      → 2 * (length data_ - p) + 1 ≤ f
      → Moves 0 p (parse_elements f data_ n p)
  parse_elements-Moves zero data_ n p h = omega arith
  parse_elements-Moves (suc f) data_ zero p h = omega arith
  parse_elements-Moves (suc f) data_ (suc n) p h = peek-follow data_ 0 p _ λ c inside.
      Moves-follow 1 0 0 p (parse_typed (parse_array f data_) stop data_ c p) _ (omega arith)
        (parse_typed-Moves data_ (parse_array f data_) stop c p
          (parse_array-Moves f data_ p inside (omega arith)) tt)
        λ v q le.
          Moves-follow 0 0 0 q (parse_elements f data_ n q) _ (omega arith)
            (parse_elements-Moves f data_ n q (omega arith)) λ vs q' le'. omega arith

  parse_array-Moves :
      (f : ℕ) (data_ : Bytes) (p : ℕ)
      → p < length data_
      → 2 * (length data_ - p) ≤ f
      → Moves 1 p (parse_array f data_ p)
  parse_array-Moves zero data_ p inside h = omega arith
  parse_array-Moves (suc f) data_ p inside h =
      Moves-follow 1 0 1 p (parse_header data_ p) _ (omega arith) (parse_header-Moves data_ p)
        λ z q le.
          array_body-Moves data_ (parse_elements f data_) z q
            λ n. parse_elements-Moves f data_ n q (omega arith)

-- A value that is read moves the position; the fuel for nested arrays is never used up.
pub try_parse_next-Moves : (data_ : Bytes) (p : ℕ) → Moves 1 p (try_parse_next data_ p)
unfolding try_parse_next
try_parse_next-Moves data_ p = peek-follow data_ 1 p _ λ c inside.
    parse_typed-Moves data_ _ _ c p (parse_array-Moves (enough data_) data_ p inside (omega arith))
      tt

-- What the loop has done is an end by its `break` or by an exception.
after_next-fuel :
    (again : List Value → ℕ → Outcome (Unit {0}) × List Value × ℕ) (done : List Value) (p : ℕ)
    (r : Outcome Value × ℕ)
    → Moves 1 p r
    → ((vs : List Value) (q : ℕ) → p < q → (again vs q).0 ≢ out_of_fuel)
    → (after_next again done r).0 ≢ out_of_fuel
unfolding after_next
after_next-fuel again done p (parsed v, q) m h = h _ q (omega arith)
after_next-fuel again done p (incomplete, q) m h = cc
after_next-fuel again done p (thrown, q) m h = cc
after_next-fuel again done p (out_of_fuel, q) m h = absurd m

get_elem?_past : (s : Bytes) (p : ℕ) → length s ≤ p → get_elem? s p ≡ none
get_elem?_past [] p h = refl
get_elem?_past (x ∷ s) zero h = elim h [ ]
get_elem?_past (x ∷ s) (suc p) h = get_elem?_past s p (omega arith)

try_parse_next_past :
    (data_ : Bytes) (p : ℕ) → length data_ ≤ p → try_parse_next data_ p ≡ (incomplete, p)
unfolding try_parse_next
try_parse_next_past data_ p h = rw (get_elem?_past data_ p h, peek)

parse_loop-fuel :
    (f : ℕ) (data_ : Bytes) (done : List Value) (p : ℕ)
    → length data_ - p < f
    → (parse_loop f data_ done p).0 ≢ out_of_fuel
unfolding parse_loop
parse_loop-fuel zero data_ done p h = elim h [ ]
parse_loop-fuel (suc f) data_ done p h = elim (dec_lt p (length data_)) [
  | yes inside ↦
      after_next-fuel (parse_loop f data_) done p (try_parse_next data_ p)
        (try_parse_next-Moves data_ p) λ vs q lt. parse_loop-fuel f data_ vs q (omega arith)
  | no past ↦ rw (try_parse_next_past data_ p (omega arith)) (cc)
]

finish_parse-fuel :
    (b : Bytes) (r : Outcome (Unit {0})) (done : List Value) (p : ℕ)
    → r ≢ out_of_fuel
    → (finish_parse b (r, done, p)).0 ≢ out_of_fuel
unfolding finish_parse
finish_parse-fuel b (parsed x) done p h = cc
finish_parse-fuel b incomplete done p h = cc
finish_parse-fuel b thrown done p h = cc
finish_parse-fuel b out_of_fuel done p h = absurd (h refl)

-- The parser ends on every input, in every state: the loops over the buffer, the elements and
-- the nested arrays stop within the fuel that the model gives them.
pub parse_terminates : (c : ParseContext) (chunk : Bytes) → (parse c chunk).0 ≢ out_of_fuel
unfolding parse
parse_terminates c chunk =
    let b : Bytes = c.buffer ++ chunk in
    let l = parse_loop (suc (length b)) b c.completed_values c.position in
    finish_parse-fuel b l.0 l.1 l.2
      (parse_loop-fuel (suc (length b)) b c.completed_values c.position (omega arith))
