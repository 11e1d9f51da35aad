-- ===== src/Config/Words.antt =====
-- The texts that a configuration line is written with, and what trimming does to them.
use redis_c.Prelude.{
  ℕ, ◌≡◌, refl, ap, ◌∙◌, sym, Bool, true, false, not, ◌&&◌, none, some, [], ◌∷◌, ◌++◌, append-nil,
  append_assoc, arith, ◌==◌, Bytes,
}
use redis_c.Config.Trim.{erase_front, erase_back, attach, trim, prepend, split_at, strip_comment}

-- Every byte has the property.
unfoldable pub all : (ℕ → Bool) → Bytes → Bool
all p [] = true
all p (c ∷ s) = p c && all p s

-- No byte has it.
abbrev pub none_of : (ℕ → Bool) → Bytes → Bool
none_of p = all (λ c. not (p c))

pub all-append :
    (p : ℕ → Bool) (s t : Bytes) → all p s ≡ true → all p t ≡ true → all p (s ++ t) ≡ true
unfolding all
all-append p [] t hs ht = ht
all-append p (c ∷ s) t hs ht = ground (arith, all-append p s t)

pub all_of :
    (p q : ℕ → Bool) (s : Bytes)
    → ((c : ℕ) → p c ≡ true → q c ≡ true)
    → all p s ≡ true
    → all q s ≡ true
unfolding all
all_of p q [] h a = refl
all_of p q (c ∷ s) h a = ground (arith, h c, all_of p q s h)

module _ (set : ℕ → Bool) where
  -- Erasing in front takes the bytes of the set, and stops at one that is none.
  pub erase_front-append :
      (s t : Bytes) → all set s ≡ true → erase_front set (s ++ t) ≡ erase_front set t
  unfolding all erase_front
  erase_front-append [] t h = refl
  erase_front-append (c ∷ s) t h = ground (arith, erase_front-append s t)

  erase_front_stops : (c : ℕ) (s : Bytes) → set c ≡ false → erase_front set (c ∷ s) ≡ c ∷ s
  unfolding erase_front
  erase_front_stops c s h = rw h refl

  erase_back-all : (s : Bytes) → all set s ≡ true → erase_back set s ≡ []
  unfolding all erase_back attach
  erase_back-all [] h = refl
  erase_back-all (c ∷ s) h =
      let e : set c ≡ true = ground arith in rw (e, erase_back-all s (ground arith)) refl

  erase_back-append : (s t : Bytes) → all set t ≡ true → erase_back set (s ++ t) ≡ erase_back set s
  unfolding erase_back
  erase_back-append [] t h = erase_back-all t h
  erase_back-append (c ∷ s) t h = ap (attach (set c) c) (erase_back-append s t h)

  -- Not empty, and erasing at the back leaves it.
  abbrev pub IsKept : Bytes → Type 0
  IsKept s = (c : ℕ) × (t : Bytes) × (s ≡ c ∷ t) × (erase_back set s ≡ s)

  attach-kept : (b : Bool) (c d : ℕ) (s : Bytes) → attach b c (d ∷ s) ≡ c ∷ d ∷ s
  unfolding attach
  attach-kept true c d s = refl
  attach-kept false c d s = refl

  IsKept-cons : (c : ℕ) (s : Bytes) → IsKept s → IsKept (c ∷ s)
  unfolding erase_back
  IsKept-cons c s (d, t, e, k) =
      (c, s, refl, ap (attach (set c) c) (k ∙ e) ∙ attach-kept (set c) c d t ∙ ap (◌∷◌ c) (sym e))

  pub IsKept-append : (s t : Bytes) → IsKept t → IsKept (s ++ t)
  IsKept-append [] t k = k
  IsKept-append (c ∷ s) t k = IsKept-cons c (s ++ t) (IsKept-append s t k)

  pub word-IsKept : (c : ℕ) (s : Bytes) → none_of set (c ∷ s) ≡ true → IsKept (c ∷ s)
  unfolding all erase_back attach
  word-IsKept c [] h = let e : set c ≡ false = ground arith in (c, [], refl, rw e refl)
  word-IsKept c (d ∷ s) h = IsKept-cons c (d ∷ s) (word-IsKept d s (ground arith))

  pub trim-padded :
      (before : Bytes) (c : ℕ) (s after : Bytes)
      → all set before ≡ true
      → all set after ≡ true
      → set c ≡ false
      → IsKept (c ∷ s)
      → trim set (before ++ (c ∷ s) ++ after) ≡ c ∷ s
  trim-padded before c s after hb ha hc (d, t, e, k) =
      ap (λ x. trim set x) (append_assoc before (c ∷ s) after)
      ∙ ap (erase_back set)
          (erase_front-append before ((c ∷ s) ++ after) hb ∙ erase_front_stops c (s ++ after) hc)
      ∙ erase_back-append (c ∷ s) after ha
      ∙ k

pub split_at-append :
    (c : ℕ) (s t : Bytes) → none_of (λ d. d == c) s ≡ true → split_at c (s ++ c ∷ t) ≡ some (s, t)
unfolding all split_at prepend
split_at-append c [] t h = ground arith
split_at-append c (d ∷ s) t h =
    let e : (d == c) ≡ false = ground arith in rw (e, split_at-append c s t (ground arith)) refl

split_at-none : (c : ℕ) (s : Bytes) → none_of (λ d. d == c) s ≡ true → split_at c s ≡ none
unfolding all split_at prepend
split_at-none c [] h = refl
split_at-none c (d ∷ s) h =
    let e : (d == c) ≡ false = ground arith in rw (e, split_at-none c s (ground arith)) refl

-- Nothing, or a `#` and any text.
abbrev pub IsComment : Bytes → Type 0
IsComment [] = Unit
IsComment (c ∷ s) = c ≡ 35

pub strip_comment-append :
    (s comment : Bytes)
    → none_of (λ d. d == 35) s ≡ true
    → IsComment comment
    → strip_comment (s ++ comment) ≡ s
unfolding strip_comment
strip_comment-append s [] h k =
    ap strip_comment (append-nil s) ∙ rw (strip_comment, split_at-none 35 s h) refl
strip_comment-append s (c ∷ t) h k = rw (k, strip_comment, split_at-append 35 s t h) refl
