-- ===== src/Config/Trim.antt =====
-- What `Config::load_from_file` does to texts: lines, comments, white space at the ends, `find`.
use redis_c.Prelude.{
  ℕ, ◌-◌, Bool, true, false, ◌||◌, Option, none, some, List, [], ◌∷◌, ◌==◌, if◌then◌else◌, Bytes,
  length, take, drop,
}

-- The set `" \t"`.
unfoldable pub is_blank : ℕ → Bool
is_blank c = (c == 32) || (c == 9)

-- The set `" \t\r\n"`.
unfoldable pub is_line_space : ℕ → Bool
unfolding is_blank
is_line_space c = is_blank c || (c == 13) || (c == 10)

-- `s.erase(0, s.find_first_not_of(set))`
unfoldable pub erase_front : (ℕ → Bool) → Bytes → Bytes
erase_front set [] = []
erase_front set (c ∷ s) = let rest = erase_front set s in if set c then rest else c ∷ s

unfoldable pub attach : Bool → ℕ → Bytes → Bytes
attach true c [] = []
attach false c [] = c ∷ []
attach blank c (d ∷ s) = c ∷ d ∷ s

-- `s.erase(s.find_last_not_of(set) + 1)`; where there is none, `npos + 1` is 0.
unfoldable pub erase_back : (ℕ → Bool) → Bytes → Bytes
unfolding attach
erase_back set [] = []
erase_back set (c ∷ s) = attach (set c) c (erase_back set s)

abbrev pub trim : (ℕ → Bool) → Bytes → Bytes
trim set s = erase_back set (erase_front set s)

unfoldable pub prepend : ℕ → Option (Bytes × Bytes) → Option (Bytes × Bytes)
prepend c none = none
prepend c (some (before, after)) = some (c ∷ before, after)

-- `s.substr(0, pos)` and `s.substr(pos + 1)` for `pos = s.find(c)`.
unfoldable pub split_at : ℕ → Bytes → Option (Bytes × Bytes)
unfolding prepend
split_at c [] = none
split_at c (d ∷ s) = let rest = split_at c s in if d == c then some ([], s) else prepend d rest

-- The line up to a `#`.
unfoldable pub strip_comment : Bytes → Bytes
unfolding split_at
strip_comment s = elim (split_at 35 s) [ none ↦ s | some (before, after) ↦ before ]

-- A first byte, and a last one.
unfoldable pub ends_with : ℕ → Bytes → Bool
ends_with c [] = false
ends_with c (d ∷ []) = d == c
ends_with c (d ∷ e ∷ s) = ends_with c (e ∷ s)

unfoldable pub starts_with : ℕ → Bytes → Bool
starts_with c [] = false
starts_with c (d ∷ s) = d == c

-- `line.substr(1, line.size() - 2)`
abbrev pub inner : Bytes → Bytes
inner line = take (length line - 2) (drop 1 line)

abbrev push_line : ℕ → List Bytes → List Bytes
push_line c [] = (c ∷ []) ∷ []
push_line c (l ∷ ls) = (c ∷ l) ∷ ls

-- What `std::getline` reads until it fails: the last line needs no end, and is not empty then.
unfoldable pub get_lines : Bytes → List Bytes
get_lines [] = []
get_lines (c ∷ s) = let rest = get_lines s in if c == 10 then [] ∷ rest else push_line c rest
