-- ===== src/Review/Format/Header.antt =====
-- `parse_hunk_header` of src/review/diff.rs on a printed header.
use git_lab_work_runner.Base.{
  ℕ, ◌<◌, ◌≡◌, refl, sym, ap, ◌∙◌, true, false, some, [], ◌∷◌, ◌++◌, append_assoc, append-nil,
  arith, ◌==◌, Str, codes, split_words, before, is_whitespace, All-map, All-append, ok, lines,
  strip_cr,
}
use git_lab_work_runner.Base.Splits.{
  Without, split_parts-part, split_parts-last, IsWord, split_words-word, split_words-last,
  before-skip, split_lines-line,
}
use git_lab_work_runner.Base.Decimal.{
  u32_mod, decimal, parse_u32-decimal, decimal-IsDigits, IsDigits,
}
use git_lab_work_runner.Review.Diff.{parse_range, parse_hunk_header}

digits-Without-comma : (s : Str) → IsDigits s → Without b',' s
digits-Without-comma s h = All-map s (λ c d. ground arith) h

-- `start,len` behind its prefix.
abbrev range_text : ℕ → ℕ → ℕ → Str
range_text prefix start len = prefix ∷ (decimal start ++ b',' ∷ decimal len)

parse_range-range_text :
    (prefix start len : ℕ)
    → start < u32_mod
    → len < u32_mod
    → parse_range (range_text prefix start len) prefix ≡ ok (start, len)
unfolding parse_range
parse_range-range_text prefix start len hs hl = ground (
  arith,
  split_parts-part b',' [] (decimal start) (decimal len)
      (digits-Without-comma (decimal start) (decimal-IsDigits start)),
  split_parts-last b',' [] (decimal len)
      (digits-Without-comma (decimal len) (decimal-IsDigits len)),
  parse_u32-decimal start hs,
  parse_u32-decimal len hl,
)

digits-IsWord : (s : Str) → IsDigits s → IsWord s
unfolding is_whitespace
digits-IsWord s h = All-map s (λ c d. ground arith) h

range_text-IsWord :
    (prefix start len : ℕ) → is_whitespace prefix ≡ false → IsWord (range_text prefix start len)
unfolding is_whitespace
range_text-IsWord prefix start len h = (
  h,
  All-append _ (decimal start) _ (digits-IsWord _ (decimal-IsDigits start))
      (refl, digits-IsWord _ (decimal-IsDigits len)),
)

-- The end mark of a header is not found inside a word.
before-word :
    (t s u : Str)
    → IsWord t
    → before (codes " @@") s ≡ some u
    → before (codes " @@") (t ++ s) ≡ some (t ++ u)
unfolding is_whitespace
before-word [] s u h e = e
before-word (c ∷ t) s u h e =
    before-skip (codes " @@") c (t ++ s) (t ++ u) (ground arith) (before-word t s u h.1 e)

is_whitespace_plus : is_whitespace b'+' ≡ false
unfolding is_whitespace
is_whitespace_plus = refl

is_whitespace_space : is_whitespace b' ' ≡ true
unfolding is_whitespace
is_whitespace_space = refl

is_whitespace_minus : is_whitespace b'-' ≡ false
unfolding is_whitespace
is_whitespace_minus = refl

abbrev pub header_line : ℕ → ℕ → ℕ → ℕ → Str
header_line a b c d =
    codes "@@ " ++ (range_text b'-' a b ++ b' ' ∷ (range_text b'+' c d ++ codes " @@"))

before-header_line :
    (a b c d : ℕ)
    → before (codes " @@") (header_line a b c d)
      ≡ some (codes "@@ " ++ (range_text b'-' a b ++ b' ' ∷ range_text b'+' c d))
unfolding before
before-header_line a b c d =
    let mark = codes " @@" in
    let old = range_text b'-' a b in
    let new = range_text b'+' c d in
    let behind : before mark (b' ' ∷ (new ++ mark)) ≡ some (b' ' ∷ new) =
      before-skip mark b' ' (new ++ mark) new refl (
        before-word new mark [] (range_text-IsWord b'+' c d is_whitespace_plus) refl
        ∙ ap some (append-nil new)) in
    let body =
      before-word old (b' ' ∷ (new ++ mark)) (b' ' ∷ new)
        (range_text-IsWord b'-' a b is_whitespace_minus) behind in
    let rest = old ++ b' ' ∷ (new ++ mark) in
    before-skip mark b'@' (b'@' ∷ b' ' ∷ rest) _ refl
      (before-skip mark b'@' (b' ' ∷ rest) _ refl (before-skip mark b' ' rest _ refl body))

pub parse_hunk_header-header_line :
    (a b c d : ℕ)
    → a < u32_mod
    → b < u32_mod
    → c < u32_mod
    → d < u32_mod
    → parse_hunk_header (header_line a b c d)
      ≡ ok (record { old_start = a; old_lines = b; new_start = c; new_lines = d })
unfolding parse_hunk_header
parse_hunk_header-header_line a b c d ha hb hc hd =
    let old = range_text b'-' a b in
    let new = range_text b'+' c d in
    let words : split_words [] (old ++ b' ' ∷ new) ≡ old ∷ new ∷ [] =
      split_words-word [] old new b' ' (range_text-IsWord b'-' a b is_whitespace_minus) (λ e. cc)
        is_whitespace_space
      ∙ ap (◌∷◌ old)
          (split_words-last [] new (range_text-IsWord b'+' c d is_whitespace_plus) (λ e. cc)) in
    ground (
      arith,
      before-header_line a b c d,
      words,
      parse_range-range_text b'-' a b ha hb,
      parse_range-range_text b'+' c d hc hd,
    )

digits-Without-newline : (n : ℕ) → Without b'\n' (decimal n)
digits-Without-newline n = All-map (decimal n) (λ c d. ground arith) (decimal-IsDigits n)

range_text-Without-newline :
    (prefix a b : ℕ) → (prefix == b'\n') ≡ false → Without b'\n' (range_text prefix a b)
range_text-Without-newline prefix a b h =
    (h, All-append _ (decimal a) _ (digits-Without-newline a) (refl, digits-Without-newline b))

strip_cr-at : (s : Str) → strip_cr (s ++ b'@' ∷ []) ≡ s ++ b'@' ∷ []
strip_cr-at [] = refl
strip_cr-at (c ∷ []) = refl
strip_cr-at (c ∷ d ∷ s) = ap (◌∷◌ c) (strip_cr-at (d ∷ s))

-- A header line is one line, and ends with a mark that no line ending takes off.
pub lines-header_line :
    (a b c d : ℕ) (rest : Str)
    → lines (header_line a b c d ++ b'\n' ∷ rest) ≡ header_line a b c d ∷ lines rest
lines-header_line a b c d rest =
    let old = range_text b'-' a b in
    let new = range_text b'+' c d in
    let clear : Without b'\n' (header_line a b c d) =
      All-append (λ x. (x == b'\n') ≡ false) (codes "@@ ") (old ++ b' ' ∷ (new ++ codes " @@"))
        (refl, (refl, (refl, tt)))
        (All-append (λ x. (x == b'\n') ≡ false) old (b' ' ∷ (new ++ codes " @@"))
          (range_text-Without-newline b'-' a b refl)
          (
            refl,
            All-append (λ x. (x == b'\n') ≡ false) new (codes " @@")
                (range_text-Without-newline b'+' c d refl) (refl, (refl, (refl, tt))),
          )) in
    let most = codes "@@ " ++ (old ++ b' ' ∷ (new ++ codes " @")) in
    let ends : header_line a b c d ≡ most ++ b'@' ∷ [] = simp append_assoc in
    split_lines-line [] (header_line a b c d) rest clear
    ∙ ap (λ s. s ∷ lines rest) (ap strip_cr ends ∙ strip_cr-at most ∙ sym ends)
