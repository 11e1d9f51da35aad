-- ===== src/Config/Numbers.antt =====
-- What `std::stoi` and `std::stoull` read back of a printed number, for src/Config.cpp.
use redis_c.Prelude.{
  ℕ, suc, ◌^◌, ◌<◌, ◌≡◌, refl, ap, ◌∙◌, true, false, some, [], ◌∷◌, arith, Bytes, length,
}
use redis_c.Prelude.Decimal.{
  ℤ, All, IsDigit, is_digit, is_space, skip_space, read_digits, magnitude, ranged, stoi, to_string,
  to_string-All, length-to_string_pos, stoi-to_string, read_digits-to_string,
}
use redis_c.Config.Values.{ranged_u64, signed_u64, stoull}

unfoldable pub print_int : ℤ → Bytes
print_int (ℤ.pos n) = to_string n
print_int (ℤ.negsuc n) = 45 ∷ to_string (suc n)

-- The range of a 32-bit `int`.
abbrev pub IsInt : ℤ → Type 0
IsInt (ℤ.pos n) = n < 2 ^ 31
IsInt (ℤ.negsuc n) = n < 2 ^ 31

magnitude_of_digits :
    (s : Bytes) → 0 < length s → All IsDigit s → magnitude s ≡ some (read_digits 0 s)
unfolding magnitude is_digit
magnitude_of_digits [] p h = absurd (omega arith)
magnitude_of_digits (c ∷ s) p h =
    let e : is_digit c ≡ true = unfold is_digit in ground (arith, h.0) in rw e refl

magnitude-to_string : (n : ℕ) → magnitude (to_string n) ≡ some n
magnitude-to_string n =
    magnitude_of_digits (to_string n) (length-to_string_pos n) (to_string-All n)
    ∙ ap some (read_digits-to_string n)

pub stoi-print_int : (i : ℤ) → IsInt i → stoi (print_int i) ≡ some i
unfolding print_int stoi ranged
stoi-print_int (ℤ.pos n) h = stoi-to_string n h
stoi-print_int (ℤ.negsuc n) h = ap (ranged true) (magnitude-to_string (suc n)) ∙ ranged_negative
  where
    ranged_negative : ranged true (some (suc n)) ≡ some (ℤ.negsuc n)
    ranged_negative = unfold ranged in ground arith

signed_u64_of_digits :
    (s : Bytes) → 0 < length s → All IsDigit s → stoull s ≡ ranged_u64 false (magnitude s)
unfolding stoull signed_u64 skip_space is_space
signed_u64_of_digits [] p h = absurd (omega arith)
signed_u64_of_digits (c ∷ s) p h = ground (arith, h.0)

pub stoull-to_string : (n : ℕ) → n < 2 ^ 64 → stoull (to_string n) ≡ some n
stoull-to_string n h =
    signed_u64_of_digits (to_string n) (length-to_string_pos n) (to_string-All n)
    ∙ ap (ranged_u64 false) (magnitude-to_string n)
    ∙ (unfold ranged_u64 in ground arith)
