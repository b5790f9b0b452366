-- ===== src/Review/Format/RoundTrip.antt =====
-- The parser of src/review/diff.rs on what `format_diff_hunk` of src/review/ai.rs prints.
use git_lab_work_runner.Base.{
  ℕ, ◌<◌, ◌≡◌, refl, sym, ap, ◌∙◌, some, List, [], ◌∷◌, ◌++◌, append_assoc, append-nil, Str,
  split_lines, lines, strip_cr, All, ok, concat, map,
}
use git_lab_work_runner.Base.Splits.{Without, split_lines-line}
use git_lab_work_runner.Base.Decimal.{u32_mod}
use git_lab_work_runner.Review.Diff.{
  DiffLine, DiffLineKind, context, added, removed, DiffHunk, ParseState, take_current, push_line,
  feed, open_hunk, parse_line, parse_lines, initial, parse_unified_diff,
}
use git_lab_work_runner.Review.Diff.Numbers.{
  old_number, new_number, next_old, next_new, AreNumbered, end_old, end_new,
}
use git_lab_work_runner.Review.Format.{
  format_diff_hunk_header, format_line, format_lines, format_diff_hunk, marker,
}
use git_lab_work_runner.Review.Format.Header.{
  header_line, lines-header_line, parse_hunk_header-header_line,
}

-- A line's text fits on one line: no line feed in it, and no carriage return at its end.
abbrev pub IsContent : Str → Type 0
IsContent s = Without b'\n' s × (strip_cr s ≡ s)

pub record IsPrintable (h : DiffHunk) : Type 0 where
  pub old_start_fits : h.old_start < u32_mod
  pub old_lines_fits : h.old_lines < u32_mod
  pub new_start_fits : h.new_start < u32_mod
  pub new_lines_fits : h.new_lines < u32_mod
  pub numbered : AreNumbered h.old_start h.new_start h.lines
  pub contents : All (λ l. IsContent l.content) h.lines

abbrev inside : List DiffHunk → DiffHunk → ℕ → ℕ → ParseState
inside hunks h o n = record { hunks = hunks; current = some h; old_line = o; new_line = n }

strip_cr-marker :
    (k : DiffLineKind) (s : Str) → strip_cr s ≡ s → strip_cr (marker k ∷ s) ≡ marker k ∷ s
strip_cr-marker added [] h = refl
strip_cr-marker removed [] h = refl
strip_cr-marker context [] h = refl
strip_cr-marker k (d ∷ s) h = ap (◌∷◌ (marker k)) h

marker-Without : (k : DiffLineKind) (s : Str) → Without b'\n' s → Without b'\n' (marker k ∷ s)
marker-Without added s h = (refl, h)
marker-Without removed s h = (refl, h)
marker-Without context s h = (refl, h)

parse_line-marker :
    (k : DiffLineKind) (hunks : List DiffHunk) (h : DiffHunk) (o n : ℕ) (content : Str)
    → parse_line (inside hunks h o n) (marker k ∷ content)
      ≡ ok (
          inside hunks
            (push_line h (record {
              kind = k;
              old_line = old_number k o;
              new_line = new_number k n;
              content = content;
            }))
            (next_old k o)
            (next_new k n))
unfolding parse_line feed
parse_line-marker added hunks h o n content = refl
parse_line-marker removed hunks h o n content = refl
parse_line-marker context hunks h o n content = refl

abbrev with_lines : DiffHunk → List DiffLine → DiffHunk
with_lines h ls = record h { lines = h.lines ++ ls }

format_line-lines :
    (l : DiffLine) (rest : Str)
    → IsContent l.content
    → lines (format_line l ++ rest) ≡ (marker l.kind ∷ l.content) ∷ lines rest
format_line-lines l rest c =
    ap lines (append_assoc (marker l.kind ∷ l.content) (b'\n' ∷ []) rest)
    ∙ split_lines-line [] (marker l.kind ∷ l.content) rest (marker-Without l.kind l.content c.0)
    ∙ ap (λ s. s ∷ lines rest) (strip_cr-marker l.kind l.content c.1)

parse_lines-step :
    (p q : ParseState) (raw : Str) (rest : List Str)
    → parse_line p raw ≡ ok q
    → parse_lines p (raw ∷ rest) ≡ parse_lines q rest
unfolding parse_lines
parse_lines-step p q raw rest e = rw e

line_eta :
    (l : DiffLine) (o n : ℕ)
    → l.old_line ≡ old_number l.kind o
    → l.new_line ≡ new_number l.kind n
    → record l { old_line = old_number l.kind o; new_line = new_number l.kind n } ≡ l
line_eta l o n p q = λ i. record l { old_line = sym p i; new_line = sym q i }

parse_lines-format_lines :
    (ls : List DiffLine) (hunks : List DiffHunk) (h : DiffHunk) (o n : ℕ) (rest : Str)
    → AreNumbered o n ls
    → All (λ l. IsContent l.content) ls
    → parse_lines (inside hunks h o n) (lines (format_lines ls ++ rest))
      ≡ parse_lines (inside hunks (with_lines h ls) (end_old o ls) (end_new n ls)) (lines rest)
unfolding parse_lines
parse_lines-format_lines [] hunks h o n rest num c = rw append-nil
parse_lines-format_lines (l ∷ ls) hunks h o n rest num c =
    let o' = next_old l.kind o in
    let n' = next_new l.kind n in
    let fed : parse_line (inside hunks h o n) (marker l.kind ∷ l.content)
        ≡ ok (inside hunks (push_line h l) o' n') =
      parse_line-marker l.kind hunks h o n l.content
      ∙ ap (λ x. ok (inside hunks (push_line h x) o' n')) (line_eta l o n num.0 num.1) in
    ap (λ t. parse_lines (inside hunks h o n) (lines t))
      (append_assoc (format_line l) (format_lines ls) rest)
    ∙ ap (parse_lines (inside hunks h o n)) (format_line-lines l (format_lines ls ++ rest) c.0)
    ∙ parse_lines-step _ _ (marker l.kind ∷ l.content) (lines (format_lines ls ++ rest)) fed
    ∙ parse_lines-format_lines ls hunks (push_line h l) o' n' rest num.2 c.1
    ∙ ap
        (λ xs.
          parse_lines (inside hunks (record h { lines = xs }) (end_old o' ls) (end_new n' ls))
            (lines rest))
        (append_assoc h.lines (l ∷ []) ls)

-- A printed header opens its hunk.
format_diff_hunk_header-line :
    (h : DiffHunk) (rest : Str)
    → lines (format_diff_hunk_header h.old_start h.old_lines h.new_start h.new_lines ++ rest)
      ≡ header_line h.old_start h.old_lines h.new_start h.new_lines ∷ lines rest
unfolding format_diff_hunk_header
format_diff_hunk_header-line h rest =
    ap lines (simp append_assoc)
    ∙ lines-header_line h.old_start h.old_lines h.new_start h.new_lines rest

parse_line-header_line :
    (p : ParseState) (h : DiffHunk)
    → IsPrintable h
    → parse_line p (header_line h.old_start h.old_lines h.new_start h.new_lines)
      ≡ ok (
          open_hunk p (record {
            old_start = h.old_start;
            old_lines = h.old_lines;
            new_start = h.new_start;
            new_lines = h.new_lines;
          }))
unfolding parse_line
parse_line-header_line p h w = rw (
    parse_hunk_header-header_line h.old_start h.old_lines h.new_start h.new_lines w.old_start_fits
      w.old_lines_fits w.new_start_fits w.new_lines_fits)

parse_lines-format_diff_hunk :
    (h : DiffHunk) (p : ParseState) (rest : Str)
    → IsPrintable h
    → parse_lines p (lines (format_diff_hunk h ++ rest))
      ≡ parse_lines
          (inside
            (take_current p.current p.hunks)
            h
            (end_old h.old_start h.lines)
            (end_new h.new_start h.lines))
          (lines rest)
unfolding format_diff_hunk open_hunk
parse_lines-format_diff_hunk h p rest w =
    let a = h.old_start in
    let b = h.old_lines in
    let c = h.new_start in
    let d = h.new_lines in
    let opened =
      open_hunk p (record { old_start = a; old_lines = b; new_start = c; new_lines = d }) in
    ap (λ t. parse_lines p (lines t))
      (append_assoc (format_diff_hunk_header a b c d) (format_lines h.lines) rest)
    ∙ ap (parse_lines p) (format_diff_hunk_header-line h (format_lines h.lines ++ rest))
    ∙ parse_lines-step p opened (header_line a b c d) (lines (format_lines h.lines ++ rest))
        (parse_line-header_line p h w)
    ∙ parse_lines-format_lines h.lines (take_current p.current p.hunks) (record h { lines = [] }) a
        c rest w.numbered w.contents

-- All that the printed hunks leave behind: they come after those that the state held.
parse_lines-format_hunks :
    (hs : List DiffHunk) (p : ParseState)
    → All IsPrintable hs
    → (q : ParseState) × (parse_lines p (lines (concat (map format_diff_hunk hs))) ≡ ok q)
      × (take_current q.current q.hunks ≡ take_current p.current p.hunks ++ hs)
unfolding parse_lines split_lines
parse_lines-format_hunks [] p w = (p, refl, sym (append-nil _))
parse_lines-format_hunks (h ∷ hs) p w =
    let p' =
      inside (take_current p.current p.hunks) h (end_old h.old_start h.lines)
        (end_new h.new_start h.lines) in
    let (q, parsed, same) = parse_lines-format_hunks hs p' w.1 in
    (
      q,
      parse_lines-format_diff_hunk h p (concat (map format_diff_hunk hs)) w.0 ∙ parsed,
      same ∙ append_assoc (take_current p.current p.hunks) (h ∷ []) hs,
    )

-- The printed text of hunks that are numbered from their starts, have `u32` ranges, and hold lines
-- with no line feed and no carriage return at the end is parsed back to the same hunks, in order.
pub parse_unified_diff-format_diff_hunk :
    (old_path new_path : Str) (hs : List DiffHunk)
    → All IsPrintable hs
    → parse_unified_diff old_path new_path (concat (map format_diff_hunk hs))
      ≡ ok (record { old_path = old_path; new_path = new_path; hunks = hs })
unfolding parse_unified_diff
parse_unified_diff-format_diff_hunk old_path new_path hs w =
    let (q, parsed, same) = parse_lines-format_hunks hs initial w in
    rw parsed (ap (λ xs. ok (record { old_path = old_path; new_path = new_path; hunks = xs })) same)
