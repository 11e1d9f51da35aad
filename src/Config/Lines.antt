-- ===== src/Config/Lines.antt =====
-- One line of the file: `Config::load_from_file` of src/Config.cpp applies what is written on it.
use redis_c.Prelude.{
  ℕ, ◌≡◌, ◌≢◌, refl, ap, ◌∙◌, sym, true, false, not, some, [], ◌∷◌, ◌++◌, append-nil, append_assoc,
  arith, ◌==◌, Bytes,
}
use mathlib.Core.Path.{subst}
use redis_c.Config.Trim.{is_blank, is_line_space, trim, split_at, starts_with}
use redis_c.Config.Load.{set_option, Loading, load_text, load_unless_empty, load_line}
use redis_c.Config.Words.{
  all, none_of, all-append, all_of, IsKept, IsKept-append, trim-padded, split_at-append, IsComment,
  strip_comment-append,
}
use redis_c.Config.Classes.{
  is_plain, is_name, plain_not_newline, blank_not_newline, blank_not_equals, blank_is_space,
  name_is_plain, name_not_equals, name_not_bracket, plain_not_space, hash_free, plain_hash_free,
  plain-IsKept, trim-word,
}

-- `key = value`, with blanks where they may stand, and a comment behind.
pub record Written : Type 0 where
  pub before : Bytes
  pub key : Bytes
  pub behind_key : Bytes
  pub before_value : Bytes
  pub value : Bytes
  pub after : Bytes
  pub comment : Bytes

pub record IsWritten (w : Written) : Type 0 where
  pub before : all is_blank w.before ≡ true
  pub key : all is_name w.key ≡ true
  pub key_not_empty : w.key ≢ []
  pub behind_key : all is_blank w.behind_key ≡ true
  pub before_value : all is_blank w.before_value ≡ true
  pub value : all is_plain w.value ≡ true
  pub value_not_empty : w.value ≢ []
  pub after : all is_blank w.after ≡ true
  pub comment : IsComment w.comment

abbrev body : Written → Bytes
body w = w.key ++ (w.behind_key ++ (61 ∷ (w.before_value ++ w.value)))

unfoldable pub write : Written → Bytes
write w = w.before ++ body w ++ w.after ++ w.comment

key_cases : (s : Bytes) → s ≢ [] → (c : ℕ) × (t : Bytes) × (s ≡ c ∷ t)
key_cases [] n = absurd (n refl)
key_cases (c ∷ t) n = (c, t, refl)

module _ (w : Written) (v : IsWritten w) where
  -- One line, where the comment is.
  pub write-newline_free :
      none_of (λ d. d == 10) w.comment ≡ true → none_of (λ d. d == 10) (write w) ≡ true
  unfolding all write
  write-newline_free h =
      let keep = λ (s t : Bytes). all-append (λ c. not (c == 10)) s t in
      let blanks = λ (s : Bytes). all_of is_blank (λ c. not (c == 10)) s blank_not_newline in
      let plains = λ (s : Bytes). all_of is_plain (λ c. not (c == 10)) s plain_not_newline in
      let tail =
        keep w.before_value w.value (blanks w.before_value v.before_value)
          (plains w.value v.value) in
      let named = plains w.key (all_of is_name is_plain w.key name_is_plain v.key) in
      let rest = keep w.key (w.behind_key ++ (61 ∷ (w.before_value ++ w.value))) named (
        keep w.behind_key (61 ∷ (w.before_value ++ w.value)) (blanks w.behind_key v.behind_key)
          tail) in
      keep (w.before ++ body w ++ w.after) w.comment
        (keep (w.before ++ body w) w.after (keep w.before (body w) (blanks w.before v.before) rest)
          (blanks w.after v.after))
        h

  body-hash_free : none_of (λ d. d == 35) (w.before ++ body w ++ w.after) ≡ true
  unfolding all
  body-hash_free =
      let keep = λ (s t : Bytes). all-append (λ c. not (c == 35)) s t in
      let tail =
        keep w.before_value w.value (hash_free w.before_value v.before_value)
          (plain_hash_free w.value v.value) in
      let named = plain_hash_free w.key (all_of is_name is_plain w.key name_is_plain v.key) in
      let rest = keep w.key (w.behind_key ++ (61 ∷ (w.before_value ++ w.value))) named (
        keep w.behind_key (61 ∷ (w.before_value ++ w.value)) (hash_free w.behind_key v.behind_key)
          tail) in
      keep (w.before ++ body w) w.after (keep w.before (body w) (hash_free w.before v.before) rest)
        (hash_free w.after v.after)

  body-IsKept : IsKept is_line_space (body w)
  body-IsKept = IsKept-append is_line_space w.key _ (
      IsKept-append is_line_space w.behind_key _ (
        IsKept-append is_line_space (61 ∷ w.before_value) w.value
          (plain-IsKept is_line_space w.value plain_not_space v.value v.value_not_empty)))

  trim-body :
      (c : ℕ) (s : Bytes)
      → w.key ≡ c ∷ s
      → trim is_line_space (w.before ++ body w ++ w.after) ≡ body w
  unfolding all
  trim-body c s e =
      let spaces = λ (t : Bytes). all_of is_blank is_line_space t blank_is_space in
      let plain : is_plain c ≡ true = name_is_plain c (ground (arith, v.key)) in
      let rest = s ++ (w.behind_key ++ (61 ∷ (w.before_value ++ w.value))) in
      let same : body w ≡ c ∷ rest =
        ap (λ (k : Bytes). k ++ (w.behind_key ++ (61 ∷ (w.before_value ++ w.value)))) e in
      rw same (
        trim-padded is_line_space w.before c rest w.after (spaces w.before v.before)
          (spaces w.after v.after) (ground (arith, plain_not_space c plain))
          (subst (IsKept is_line_space) same body-IsKept))

  split-body : split_at 61 (body w) ≡ some (w.key ++ w.behind_key, w.before_value ++ w.value)
  split-body =
      ap (split_at 61) (sym (append_assoc w.key w.behind_key (61 ∷ (w.before_value ++ w.value))))
      ∙ split_at-append 61 (w.key ++ w.behind_key) (w.before_value ++ w.value) (
          all-append (λ c. not (c == 61)) w.key w.behind_key
            (all_of is_name (λ c. not (c == 61)) w.key name_not_equals v.key)
            (all_of is_blank (λ c. not (c == 61)) w.behind_key blank_not_equals v.behind_key))

  starts-body : (c : ℕ) (s : Bytes) → w.key ≡ c ∷ s → starts_with 91 (body w) ≡ false
  unfolding all starts_with
  starts-body c s e =
      let h : (c == 91) ≡ false = name_not_bracket c (ground (arith, v.key)) in rw e h

  unless_empty-body :
      (c : ℕ) (s : Bytes) (l : Loading)
      → w.key ≡ c ∷ s
      → load_unless_empty (body w) l ≡ load_text (body w) l
  unfolding load_unless_empty
  unless_empty-body c s l e = rw e refl

  load_text-body :
      (l : Loading)
      → starts_with 91 (body w) ≡ false
      → load_text (body w) l ≡ (record l { config = set_option l.section w.key w.value l.config })
  unfolding all load_text
  load_text-body l h =
      rw
        (
          load_text,
          h,
          split-body,
          trim-word [] w.key w.behind_key refl v.behind_key
              (all_of is_name is_plain w.key name_is_plain v.key) v.key_not_empty,
        )
        (ap (λ (x : Bytes). record l { config = set_option l.section w.key x l.config })
          (ap (λ (x : Bytes). trim is_blank x) (sym (append-nil (w.before_value ++ w.value)))
            ∙ trim-word w.before_value w.value [] v.before_value refl v.value v.value_not_empty))

  -- A line that gives a key a value, with any blanks around the two and any comment behind, sets
  -- the option of that name in the current section to the value, and does nothing else. The key
  -- and the value have no white space and no `#`, the key no `=` or `[`.
  pub load_line-write :
      (l : Loading)
      → load_line (write w) l ≡ (record l { config = set_option l.section w.key w.value l.config })
  unfolding load_line write
  load_line-write l =
      let (c, s, e) = key_cases w.key v.key_not_empty in
      ap (λ (x : Bytes). load_unless_empty (trim is_line_space x) l)
        (strip_comment-append (w.before ++ body w ++ w.after) w.comment body-hash_free v.comment)
      ∙ ap (λ (x : Bytes). load_unless_empty x l) (trim-body c s e)
      ∙ unless_empty-body c s l e
      ∙ load_text-body l (starts-body c s e)
