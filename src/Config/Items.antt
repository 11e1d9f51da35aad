-- ===== src/Config/Items.antt =====
-- Whole files for `Config::load_from_file` of src/Config.cpp: headings, settings, comments.
use redis_c.Prelude.{
  ℕ, ◌-◌, ◌≡◌, refl, ap, ◌∙◌, sym, true, false, not, some, List, [], ◌∷◌, ◌++◌, map, append-nil,
  arith, ◌==◌, Bytes, length, take, length-append, take-append,
}
use redis_c.Prelude.Decimal.{All}
use redis_c.Config.Trim.{
  is_blank, is_line_space, erase_front, erase_back, trim, starts_with, ends_with, inner, get_lines,
}
use redis_c.Config.Load.{
  Config, get_default_config, set_option, Loading, load_text, load_unless_empty, load_line,
  load_lines, load_from_file,
}
use redis_c.Config.Words.{
  all, none_of, all-append, all_of, IsKept-append, word-IsKept, trim-padded, erase_front-append,
  IsComment, strip_comment-append,
}
use redis_c.Config.Lines.{Written, IsWritten, write, load_line-write, write-newline_free}
use redis_c.Config.Classes.{
  is_plain, plain_not_newline, blank_not_newline, blank_is_space, plain_not_hash, hash_free,
}

pub data Item : Type 0 where
  heading : (before name comment : Bytes) → Item
  setting : Written → Item
  remark : (before comment : Bytes) → Item

-- A comment has no line end.
pub record IsRemark (comment : Bytes) : Type 0 where
  pub marked : IsComment comment
  pub newline_free : none_of (λ d. d == 10) comment ≡ true

abbrev pub IsItem : Item → Type 0
IsItem (heading before name comment) =
    (all is_blank before ≡ true) × (all is_plain name ≡ true) × IsRemark comment
IsItem (setting w) = IsWritten w × IsRemark w.comment
IsItem (remark before comment) = (all is_blank before ≡ true) × IsRemark comment

abbrev bracketed : Bytes → Bytes
bracketed name = 91 ∷ (name ++ 93 ∷ [])

unfoldable pub item_line : Item → Bytes
item_line (heading before name comment) = before ++ bracketed name ++ comment
item_line (setting w) = write w
item_line (remark before comment) = before ++ comment

-- The lines, each with its end.
unfoldable pub unlines : List Bytes → Bytes
unlines [] = []
unlines (l ∷ ls) = l ++ (10 ∷ unlines ls)

-- What the file says: a heading opens a section, a setting changes an option of it.
unfoldable pub apply_items : Bytes → List Item → Config → Config
apply_items section [] config = config
apply_items section (heading before name comment ∷ rest) config = apply_items name rest config
apply_items section (setting w ∷ rest) config =
    apply_items section rest (set_option section w.key w.value config)
apply_items section (remark before comment ∷ rest) config = apply_items section rest config

get_lines-append :
    (l s : Bytes) → none_of (λ d. d == 10) l ≡ true → get_lines (l ++ (10 ∷ s)) ≡ l ∷ get_lines s
unfolding all get_lines
get_lines-append [] s h = refl
get_lines-append (c ∷ l) s h =
    let e : (c == 10) ≡ false = ground arith in rw (e, get_lines-append l s (ground arith)) refl

get_lines-unlines :
    (ls : List Bytes) → All (λ l. none_of (λ d. d == 10) l ≡ true) ls → get_lines (unlines ls) ≡ ls
unfolding unlines
get_lines-unlines [] h = unfold get_lines in refl
get_lines-unlines (l ∷ ls) h =
    get_lines-append l (unlines ls) h.0 ∙ ap (◌∷◌ l) (get_lines-unlines ls h.1)

ends_with-append : (c : ℕ) (s : Bytes) → ends_with c (s ++ c ∷ []) ≡ true
unfolding ends_with
ends_with-append c [] = ground arith
ends_with-append c (d ∷ []) = ground arith
ends_with-append c (d ∷ e ∷ s) = ends_with-append c (e ∷ s)

inner-bracketed : (name : Bytes) → inner (bracketed name) ≡ name
inner-bracketed name =
    let n : length (bracketed name) - 2 ≡ length name =
      omega (arith, length-append name (93 ∷ [])) in
    ap (λ k. take k (name ++ 93 ∷ [])) n ∙ take-append name (93 ∷ [])

load_text-bracketed :
    (name : Bytes) (l : Loading) → load_text (bracketed name) l ≡ (record l { section = name })
unfolding starts_with load_text
load_text-bracketed name l =
    rw (load_text, ends_with-append 93 (91 ∷ name), inner-bracketed name) refl

module _ (before name comment : Bytes) (hb : all is_blank before ≡ true)
    (hn : all is_plain name ≡ true) (hc : IsRemark comment) where
  trim-bracketed : trim is_line_space (before ++ bracketed name) ≡ bracketed name
  unfolding all is_line_space is_blank
  trim-bracketed =
      ap (λ x. trim is_line_space x) (sym (append-nil (before ++ bracketed name)))
      ∙ trim-padded is_line_space before 91 (name ++ 93 ∷ []) []
          (all_of is_blank is_line_space before blank_is_space hb) refl refl
          (IsKept-append is_line_space (91 ∷ name) (93 ∷ []) (word-IsKept is_line_space 93 [] refl))

  bracketed-hash_free : none_of (λ d. d == 35) (before ++ bracketed name) ≡ true
  unfolding all
  bracketed-hash_free =
      all-append (λ c. not (c == 35)) before (bracketed name) (hash_free before hb)
        (all-append (λ c. not (c == 35)) name (93 ∷ [])
          (all_of is_plain (λ c. not (c == 35)) name plain_not_hash hn) refl)

  heading-newline_free : none_of (λ d. d == 10) (before ++ bracketed name ++ comment) ≡ true
  unfolding all
  heading-newline_free =
      all-append (λ c. not (c == 10)) (before ++ bracketed name) comment
        (all-append (λ c. not (c == 10)) before (bracketed name)
          (all_of is_blank (λ c. not (c == 10)) before blank_not_newline hb)
          (all-append (λ c. not (c == 10)) name (93 ∷ [])
            (all_of is_plain (λ c. not (c == 10)) name plain_not_newline hn) refl))
        hc.newline_free

  load_line-heading :
      (l : Loading)
      → load_line (before ++ bracketed name ++ comment) l ≡ (record l { section = name })
  unfolding load_line load_unless_empty
  load_line-heading l =
      ap (λ (x : Bytes). load_unless_empty (trim is_line_space x) l)
        (strip_comment-append (before ++ bracketed name) comment bracketed-hash_free hc.marked)
      ∙ ap (λ (x : Bytes). load_unless_empty x l) trim-bracketed
      ∙ load_text-bracketed name l

trim-all : (s : Bytes) → all is_blank s ≡ true → trim is_line_space s ≡ []
unfolding all erase_front erase_back
trim-all s h =
    ap (λ x. trim is_line_space x) (sym (append-nil s))
    ∙ ap (erase_back is_line_space)
        (erase_front-append is_line_space s [] (all_of is_blank is_line_space s blank_is_space h))

load_line-remark :
    (before comment : Bytes) (l : Loading)
    → all is_blank before ≡ true
    → IsRemark comment
    → load_line (before ++ comment) l ≡ l
unfolding load_line load_unless_empty
load_line-remark before comment l hb hc =
    ap (λ (x : Bytes). load_unless_empty (trim is_line_space x) l)
      (strip_comment-append before comment (hash_free before hb) hc.marked)
    ∙ ap (λ (x : Bytes). load_unless_empty x l) (trim-all before hb)

load_lines-items :
    (items : List Item) (l : Loading)
    → All IsItem items
    → (load_lines (map item_line items) l).config ≡ apply_items l.section items l.config
unfolding load_lines item_line apply_items
load_lines-items [] l h = refl
load_lines-items (heading before name comment ∷ rest) l h =
    ap (λ (x : Loading). (load_lines (map item_line rest) x).config)
      (load_line-heading before name comment h.0.0 h.0.1 h.0.2 l)
    ∙ load_lines-items rest (record l { section = name }) h.1
load_lines-items (setting w ∷ rest) l h =
    ap (λ (x : Loading). (load_lines (map item_line rest) x).config) (load_line-write w h.0.0 l)
    ∙ load_lines-items rest (record l { config = set_option l.section w.key w.value l.config }) h.1
load_lines-items (remark before comment ∷ rest) l h =
    ap (λ (x : Loading). (load_lines (map item_line rest) x).config)
      (load_line-remark before comment l h.0.0 h.0.1)
    ∙ load_lines-items rest l h.1

items-newline_free :
    (items : List Item)
    → All IsItem items
    → All (λ l. none_of (λ d. d == 10) l ≡ true) (map item_line items)
unfolding item_line
items-newline_free [] h = tt
items-newline_free (heading before name comment ∷ rest) h =
    (heading-newline_free before name comment h.0.0 h.0.1 h.0.2, items-newline_free rest h.1)
items-newline_free (setting w ∷ rest) h =
    (write-newline_free w h.0.0 h.0.1.newline_free, items-newline_free rest h.1)
items-newline_free (remark before comment ∷ rest) h = (
  all-append (λ c. not (c == 10)) before comment
      (all_of is_blank (λ c. not (c == 10)) before blank_not_newline h.0.0) h.0.1.newline_free,
  items-newline_free rest h.1,
)

-- A file of headings, settings, comments and empty lines, each with any blanks and comment that
-- the format allows, loads as the default configuration with the settings applied in their order,
-- each in the section of the heading above it.
pub load_from_file-items :
    (hardware : ℕ) (items : List Item)
    → All IsItem items
    → load_from_file hardware (some (unlines (map item_line items)))
      ≡ apply_items [] items (get_default_config hardware)
unfolding load_from_file
load_from_file-items hardware items h =
    ap
      (λ (ls : List Bytes).
        (load_lines ls (record { section = []; config = get_default_config hardware })).config)
      (get_lines-unlines (map item_line items) (items-newline_free items h))
    ∙ load_lines-items items (record { section = []; config = get_default_config hardware }) h
