-- ===== src/Review/Diff/Panics.antt =====
-- The slice of a header in src/review/diff.rs, and when it panics.
use git_lab_work_runner.Base.{
  ℕ, ◌≡◌, ◌≢◌, ◌↔◌, refl, sym, subst, true, false, List, [], ◌∷◌, ◌++◌, arith, Str, codes,
  starts_with, split_whitespace, lines, Result, ok, err, ◌>>=◌, >>=-eq-ok, Bool-cases, Option-cases,
  inl, inr, before, All,
}
use git_lab_work_runner.Review.Diff.{
  Fault, panicked, parse_range, parse_ranges, slice_body, parse_hunk_header, ParseState, parse_line,
  parse_lines, initial, parse_unified_diff,
}

parse_range-quiet : (s : Str) (prefix : ℕ) → parse_range s prefix ≢ err panicked
unfolding parse_range
parse_range-quiet s prefix h = ground arith

parse_ranges-quiet : (s : Str) (words : List Str) → parse_ranges s words ≢ err panicked
unfolding parse_ranges
parse_ranges-quiet s [] h = cc
parse_ranges-quiet s (a ∷ []) h = cc
parse_ranges-quiet s (a ∷ b ∷ rest) h =
    ground (arith, parse_range-quiet a b'-', parse_range-quiet b b'+')

header_end :
    (s : Str)
    → starts_with (codes "@@") s ≡ true
    → parse_hunk_header (codes "@@ " ++ s) ≡ err panicked
unfolding parse_hunk_header before
header_end s h = rw (h, parse_hunk_header, before)

slice_body-mark : (t : Str) → slice_body (codes "@@ " ++ t) ≡ ok t
unfolding slice_body
slice_body-mark t = ground arith

header_later :
    (s : Str)
    → starts_with (codes "@@") s ≡ false
    → parse_hunk_header (codes "@@ " ++ s) ≢ err panicked
unfolding parse_hunk_header before
header_later s h p = elim (Option-cases (before (codes " @@") s)) [
  | inl e ↦ ground arith
  | inr (t, e) ↦
      parse_ranges-quiet (codes "@@ " ++ s) (split_whitespace t)
        (rw (slice_body-mark t) at (rw (h, e, parse_hunk_header, before) at p))
]

-- A header `@@ …` makes the parser panic exactly when `@@` follows at once.
pub parse_hunk_header-panics_iff :
    (s : Str)
    → (parse_hunk_header (codes "@@ " ++ s) ≡ err panicked) ↔ (starts_with (codes "@@") s ≡ true)
parse_hunk_header-panics_iff s = (
  (λ p. elim (Bool-cases (starts_with (codes "@@") s)) [
    | inl y ↦ y
    | inr n ↦ absurd (header_later s n p)
  ]),
  header_end s,
)

parse_lines-append :
    (pre post : List Str) (p q : ParseState)
    → parse_lines p pre ≡ ok q
    → parse_lines p (pre ++ post) ≡ parse_lines q post
unfolding parse_lines
parse_lines-append [] post p q h = ground arith
parse_lines-append (raw ∷ pre) post p q h =
    let (r, stepped, rest) = >>=-eq-ok (parse_line p raw) (λ r. parse_lines r pre) h in
    rw stepped (parse_lines-append pre post r q rest)

-- A diff in which a line begins with `@@ @@` makes the parser panic, if it gets to that line: a slice
-- of the header ends before it starts.
pub parse_unified_diff-panics :
    (old_path new_path text s : Str) (pre post : List Str) (q : ParseState)
    → lines text ≡ pre ++ ((codes "@@ @@" ++ s) ∷ post)
    → parse_lines initial pre ≡ ok q
    → parse_unified_diff old_path new_path text ≡ err panicked
unfolding parse_unified_diff parse_lines parse_line
parse_unified_diff-panics old_path new_path text s pre post q split reached =
    rw (split, parse_lines-append pre ((codes "@@ @@" ++ s) ∷ post) initial q reached)
      (rw (header_end (codes "@@" ++ s) refl))

-- A line that does not begin with `@@ @@`.
abbrev pub IsHeaderSafe : Str → Type 0
IsHeaderSafe raw = starts_with (codes "@@ @@") raw ≡ false

parse_header-quiet :
    (raw : Str)
    → starts_with (codes "@@ ") raw ≡ true
    → IsHeaderSafe raw
    → parse_hunk_header raw ≢ err panicked
parse_header-quiet [] h safe = cc
parse_header-quiet (a ∷ []) h safe = absurd (ground (arith, h))
parse_header-quiet (a ∷ b ∷ []) h safe = absurd (ground (arith, h))
parse_header-quiet (a ∷ b ∷ c ∷ s) h safe =
    let same : a ∷ b ∷ c ∷ s ≡ codes "@@ " ++ s = three in
    subst (λ raw. parse_hunk_header raw ≢ err panicked) (sym same)
      (header_later s (subst IsHeaderSafe same safe))
  where
    three : a ∷ b ∷ c ∷ s ≡ codes "@@ " ++ s
    three = ground (arith, h)

parse_line-quiet : (p : ParseState) (raw : Str) → IsHeaderSafe raw → parse_line p raw ≢ err panicked
unfolding parse_line
parse_line-quiet p raw safe h = elim (Bool-cases (starts_with (codes "@@ ") raw)) [
  | inl y ↦ ground (arith, rw (y, parse_line) at h, parse_header-quiet raw y safe)
  | inr n ↦ ground (arith, rw (n, parse_line) at h)
]

>>=-quiet :
    (m : Result Fault ParseState) (f : ParseState → Result Fault ParseState)
    → m ≢ err panicked
    → ((q : ParseState) → f q ≢ err panicked)
    → (m >>= f) ≢ err panicked
>>=-quiet (ok q) f hm hf h = hf q h
>>=-quiet (err e) f hm hf h = hm h

parse_lines-quiet :
    (p : ParseState) (raws : List Str) → All IsHeaderSafe raws → parse_lines p raws ≢ err panicked
unfolding parse_lines
parse_lines-quiet p [] safe h = cc
parse_lines-quiet p (raw ∷ rest) safe h =
    >>=-quiet (parse_line p raw) (λ q. parse_lines q rest) (parse_line-quiet p raw safe.0)
      (λ q. parse_lines-quiet q rest safe.1) h

-- A diff without a line that begins with `@@ @@` never makes the parser panic.
pub parse_unified_diff-quiet :
    (old_path new_path text : Str)
    → All IsHeaderSafe (lines text)
    → parse_unified_diff old_path new_path text ≢ err panicked
unfolding parse_unified_diff
parse_unified_diff-quiet old_path new_path text safe h =
    ground (arith, parse_lines-quiet initial (lines text) safe)
