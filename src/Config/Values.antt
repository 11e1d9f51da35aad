-- ===== src/Config/Values.antt =====
-- `Config::parse_int`, `parse_size_t` and `parse_bool` of src/Config.cpp.
use redis_c.Prelude.{
  ℕ, ◌+◌, ◌-◌, ◌%◌, ◌^◌, Bool, true, false, ◌&&◌, ◌||◌, Option, none, some, [], ◌∷◌, map, ltb, leb,
  ◌==◌, if◌then◌else◌, Bytes, beq,
}
use redis_c.Prelude.Decimal.{ℤ, stoi, skip_space, magnitude}
use redis_c.Prelude.Text.{text}

abbrev pub value_or {ℓ} : {A : Type ℓ} → A → Option A → A
value_or default_val none = default_val
value_or default_val (some v) = v

-- The range of `unsigned long long`; a minus sign negates modulo 2 ^ 64.
unfoldable pub ranged_u64 : Bool → Option ℕ → Option ℕ
ranged_u64 negative none = none
ranged_u64 true (some n) = if ltb n (2 ^ 64) then some ((2 ^ 64 - n) % 2 ^ 64) else none
ranged_u64 false (some n) = if ltb n (2 ^ 64) then some n else none

unfoldable pub signed_u64 : Bytes → Option ℕ
unfolding ranged_u64
signed_u64 [] = none
signed_u64 (c ∷ s) =
    if c == 45
    then ranged_u64 true (magnitude s)
    else if c == 43
    then ranged_u64 false (magnitude s)
    else ranged_u64 false (magnitude (c ∷ s))

-- `std::stoull(s)`; `none` stands for its exceptions.
unfoldable pub stoull : Bytes → Option ℕ
unfolding signed_u64
stoull s = signed_u64 (skip_space s)

-- `Config::parse_int`
unfoldable pub parse_int : Bytes → ℤ → ℤ
parse_int str default_val = value_or default_val (stoi str)

-- `Config::parse_size_t`
unfoldable pub parse_size_t : Bytes → ℕ → ℕ
unfolding stoull
parse_size_t str default_val = value_or default_val (stoull str)

-- `::tolower` in the C locale.
unfoldable pub to_lower : ℕ → ℕ
to_lower c = if leb 65 c && leb c 90 then c + 32 else c

-- `Config::parse_bool`
unfoldable pub parse_bool : Bytes → Bool → Bool
unfolding to_lower
parse_bool str default_val =
    let lower = map to_lower str in
    if beq lower (text "true")
      || beq lower (text "1")
      || beq lower (text "yes")
      || beq lower (text "on")
    then true
    else if beq lower (text "false")
        || beq lower (text "0")
        || beq lower (text "no")
        || beq lower (text "off")
    then false
    else default_val
