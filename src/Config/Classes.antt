-- ===== src/Config/Classes.antt =====
-- Classes of bytes in a configuration file, as src/Config.cpp reads them.
use redis_c.Prelude.{
  ℕ, ◌≡◌, ◌≢◌, refl, Bool, true, false, not, ◌&&◌, ◌||◌, [], ◌∷◌, ◌++◌, arith, ◌==◌, Bytes,
}
use redis_c.Config.Trim.{is_blank, is_line_space, trim}
use redis_c.Config.Words.{all, none_of, all_of, IsKept, word-IsKept, trim-padded}

-- A byte of a value: no `#` and no white space.
unfoldable pub is_plain : ℕ → Bool
unfolding is_line_space is_blank
is_plain c = not ((c == 35) || is_line_space c)

-- A byte of a key: no `=` and no `[` either.
unfoldable pub is_name : ℕ → Bool
unfolding is_plain
is_name c = is_plain c && not ((c == 61) || (c == 91))

pub plain_not_newline : (c : ℕ) → is_plain c ≡ true → not (c == 10) ≡ true
unfolding is_plain is_line_space
plain_not_newline c h = ground arith

pub blank_not_newline : (c : ℕ) → is_blank c ≡ true → not (c == 10) ≡ true
unfolding is_blank
blank_not_newline c h = ground arith

pub blank_not_hash : (c : ℕ) → is_blank c ≡ true → not (c == 35) ≡ true
unfolding is_blank
blank_not_hash c h = ground arith

pub blank_not_equals : (c : ℕ) → is_blank c ≡ true → not (c == 61) ≡ true
unfolding is_blank
blank_not_equals c h = ground arith

pub blank_is_space : (c : ℕ) → is_blank c ≡ true → is_line_space c ≡ true
unfolding is_line_space
blank_is_space c h = rw h refl

pub name_is_plain : (c : ℕ) → is_name c ≡ true → is_plain c ≡ true
unfolding is_name
name_is_plain c h = ground arith

pub name_not_equals : (c : ℕ) → is_name c ≡ true → not (c == 61) ≡ true
unfolding is_name
name_not_equals c h = ground arith

pub name_not_bracket : (c : ℕ) → is_name c ≡ true → (c == 91) ≡ false
unfolding is_name
name_not_bracket c h = ground arith

pub plain_not_hash : (c : ℕ) → is_plain c ≡ true → not (c == 35) ≡ true
unfolding is_plain
plain_not_hash c h = ground arith

pub plain_not_space : (c : ℕ) → is_plain c ≡ true → not (is_line_space c) ≡ true
unfolding is_plain is_line_space
plain_not_space c h = ground arith

pub plain_not_blank : (c : ℕ) → is_plain c ≡ true → not (is_blank c) ≡ true
unfolding is_plain is_line_space
plain_not_blank c h = ground arith

pub hash_free : (s : Bytes) → all is_blank s ≡ true → none_of (λ d. d == 35) s ≡ true
hash_free s = all_of is_blank (λ c. not (c == 35)) s blank_not_hash

pub plain_hash_free : (s : Bytes) → all is_plain s ≡ true → none_of (λ d. d == 35) s ≡ true
plain_hash_free s = all_of is_plain (λ c. not (c == 35)) s plain_not_hash

pub plain-IsKept :
    (set : ℕ → Bool) (s : Bytes)
    → ((c : ℕ) → is_plain c ≡ true → not (set c) ≡ true)
    → all is_plain s ≡ true
    → s ≢ []
    → IsKept set s
plain-IsKept set [] h a n = absurd (n refl)
plain-IsKept set (c ∷ s) h a n =
    word-IsKept set c s (all_of is_plain (λ d. not (set d)) (c ∷ s) h a)

-- Trimming a word with blanks around gives the word.
pub trim-word :
    (before w after : Bytes)
    → all is_blank before ≡ true
    → all is_blank after ≡ true
    → all is_plain w ≡ true
    → w ≢ []
    → trim is_blank (before ++ w ++ after) ≡ w
unfolding all
trim-word before [] after hb ha hw n = absurd (n refl)
trim-word before (c ∷ s) after hb ha hw n =
    trim-padded is_blank before c s after hb ha (ground (arith, plain_not_blank c))
      (plain-IsKept is_blank (c ∷ s) plain_not_blank hw n)
