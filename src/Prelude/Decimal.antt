-- ===== src/Prelude/Decimal.antt =====
-- `std::to_string` of an unsigned number, and `std::stoi`.
use redis_c.Prelude.{
  ℕ, zero, suc, ◌+◌, ◌-◌, ◌*◌, ◌/◌, ◌%◌, ◌^◌, ◌≤◌, ◌<◌, ◌≡◌, refl, Bool, true, false, ◌&&◌, ◌||◌,
  Option, none, some, List, [], ◌∷◌, ◌++◌, arith, ltb, leb, ◌==◌, if◌then◌else◌, Bytes, Bool-cases,
  inl, inr, ◌∙◌, length, length-append,
}

pub data ℤ : Type 0 where
  pos : ℕ → ℤ
  negsuc : ℕ → ℤ

abbrev pub All {ℓ κ} : {A : Type ℓ} → (A → Type κ) → List A → Type κ
All P [] = Unit
All P (x ∷ xs) = P x × All P xs

pub All-append {ℓ κ} :
    {A : Type ℓ} (P : A → Type κ) (xs ys : List A) → All P xs → All P ys → All P (xs ++ ys)
All-append P [] ys hx hy = hy
All-append P (x ∷ xs) ys hx hy = (hx.0, All-append P xs ys hx.1 hy)

-- The decimal digits of `n`; `f` bounds their number.
unfoldable pub decimal : ℕ → ℕ → Bytes
decimal zero n = []
decimal (suc f) n =
    let front = decimal f (n / 10) in
    if ltb n 10 then (48 + n) ∷ [] else front ++ (48 + n % 10) ∷ []

-- `std::to_string(n)`
unfoldable pub to_string : ℕ → Bytes
unfolding decimal
to_string n = decimal (suc n) n

unfoldable pub is_digit : ℕ → Bool
is_digit c = leb 48 c && leb c 57

-- `isspace` in the C locale.
unfoldable pub is_space : ℕ → Bool
is_space c = (c == 32) || (leb 9 c && leb c 13)

unfoldable pub skip_space : Bytes → Bytes
unfolding is_space
skip_space [] = []
skip_space (c ∷ s) = let rest = skip_space s in if is_space c then rest else c ∷ s

-- The value of the leading digits.
unfoldable pub read_digits : ℕ → Bytes → ℕ
unfolding is_digit
read_digits acc [] = acc
read_digits acc (c ∷ s) =
    let rest = read_digits (acc * 10 + (c - 48)) s in if is_digit c then rest else acc

unfoldable pub magnitude : Bytes → Option ℕ
unfolding read_digits
magnitude [] = none
magnitude (c ∷ s) = if is_digit c then some (read_digits 0 (c ∷ s)) else none

abbrev pub minus : ℕ → ℤ
minus zero = pos 0
minus (suc n) = negsuc n

-- In the range of `int`, or `std::out_of_range`.
unfoldable pub ranged : Bool → Option ℕ → Option ℤ
ranged neg none = none
ranged true (some n) = if leb n (2 ^ 31) then some (minus n) else none
ranged false (some n) = if ltb n (2 ^ 31) then some (pos n) else none

unfoldable pub signed : Bytes → Option ℤ
unfolding magnitude ranged
signed [] = none
signed (c ∷ s) =
    if c == 45
    then ranged true (magnitude s)
    else if c == 43
    then ranged false (magnitude s)
    else ranged false (magnitude (c ∷ s))

-- `std::stoi(s)`; `none` stands for `std::invalid_argument` and `std::out_of_range`.
unfoldable pub stoi : Bytes → Option ℤ
unfolding skip_space signed
stoi s = signed (skip_space s)

abbrev pub IsDigit : ℕ → Type 0
IsDigit c = (48 ≤ c) × (c ≤ 57)

decimal-All : (f n : ℕ) → All IsDigit (decimal f n)
unfolding decimal
decimal-All zero n = tt
decimal-All (suc f) n = elim (Bool-cases (ltb n 10)) [
  | inl small ↦ rw small ((omega arith, ground arith), tt)
  | inr large ↦ rw large (
      All-append IsDigit (decimal f (n / 10)) ((48 + n % 10) ∷ []) (decimal-All f (n / 10))
        ((omega arith, omega arith), tt))
]

pub to_string-All : (n : ℕ) → All IsDigit (to_string n)
unfolding to_string
to_string-All n = decimal-All (suc n) n

read_digits-append :
    (acc : ℕ) (xs ys : Bytes)
    → All IsDigit xs
    → read_digits acc (xs ++ ys) ≡ read_digits (read_digits acc xs) ys
unfolding read_digits
read_digits-append acc [] ys h = refl
read_digits-append acc (c ∷ xs) ys h =
    ground (arith, read_digits-append (acc * 10 + (c - 48)) xs ys h.1)

read_digits-decimal : (f n : ℕ) → n < f → read_digits 0 (decimal f n) ≡ n
unfolding decimal
read_digits-decimal zero n h = elim h [ ]
read_digits-decimal (suc f) n h = elim (Bool-cases (ltb n 10)) [
  | inl small ↦ rw small (unfold read_digits in ground arith)
  | inr large ↦
      rw
        (
          large,
          read_digits-append 0 (decimal f (n / 10)) ((48 + n % 10) ∷ []) (decimal-All f (n / 10)),
          read_digits-decimal f (n / 10) (ground arith),
        )
        (unfold read_digits in ground arith)
]

-- A text of digits starts with no sign and no space.
signed_of_digits :
    (c : ℕ) (s : Bytes) → IsDigit c → stoi (c ∷ s) ≡ ranged false (some (read_digits 0 (c ∷ s)))
unfolding stoi
signed_of_digits c s h = ground arith

stoi_of_digits :
    (s : Bytes)
    → 0 < length s
    → All IsDigit s
    → read_digits 0 s < 2 ^ 31
    → stoi s ≡ some (pos (read_digits 0 s))
stoi_of_digits [] p h r = absurd (omega arith)
stoi_of_digits (c ∷ s) p h r = rw (signed_of_digits c s h.0) (unfold ranged in ground arith)

pub length-to_string_pos : (n : ℕ) → 0 < length (to_string n)
unfolding to_string
length-to_string_pos n = ground (arith, length-append (decimal n (n / 10)) ((48 + n % 10) ∷ []))

pub read_digits-to_string : (n : ℕ) → read_digits 0 (to_string n) ≡ n
unfolding to_string
read_digits-to_string n = read_digits-decimal (suc n) n (omega arith)

pub stoi-to_string : (n : ℕ) → n < 2 ^ 31 → stoi (to_string n) ≡ some (pos n)
stoi-to_string n h =
    let e : read_digits 0 (to_string n) ≡ n = read_digits-to_string n in
    stoi_of_digits (to_string n) (length-to_string_pos n) (to_string-All n) (omega arith) ∙ rw e
