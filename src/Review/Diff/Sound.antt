-- ===== src/Review/Diff/Sound.antt =====
-- The diffs that src/review/diff.rs accepts.
use git_lab_work_runner.Base.{
  ℕ, ◌<◌, ◌≡◌, refl, sym, ap, ◌∙◌, subst, Option, none, some, List, [], ◌∷◌, arith, Str, codes,
  starts_with, lines, All, All-append, Result, ok, err, ◌>>=◌, >>=-eq-ok, Bool-cases, Option-cases,
  inl, inr, strip_prefix, split_at, split_whitespace, drop, before,
}
use git_lab_work_runner.Base.Decimal.{u32_mod, parse_u32-FitsU32}
use git_lab_work_runner.Review.Diff.{
  DiffLine, DiffLineKind, context, added, removed, DiffHunk, DiffFile, Fault, parse_parts,
  parse_range, parse_ranges, Ranges, parse_hunk_header, ParseState, take_current, push_line, feed,
  open_hunk, parse_line, parse_lines, initial, parse_unified_diff,
}
use git_lab_work_runner.Review.Diff.Numbers.{
  old_number, new_number, next_old, next_new, AreNumbered, AreNumbered-concat, end_old,
  end_old-concat, end_new, end_new-concat,
}

-- The lines of a hunk are numbered one after the other from its starts, which are `u32` values.
pub record IsNumbered (h : DiffHunk) : Type 0 where
  pub numbered : AreNumbered h.old_start h.new_start h.lines
  pub old_start_fits : h.old_start < u32_mod
  pub new_start_fits : h.new_start < u32_mod
  pub old_lines_fits : h.old_lines < u32_mod
  pub new_lines_fits : h.new_lines < u32_mod

abbrev FitsRange : Result Fault (ℕ × ℕ) → Type 0
FitsRange (ok (a, b)) = (a < u32_mod) × (b < u32_mod)
FitsRange (err e) = Unit

parse_parts-FitsRange : (s : Str) (parts : List Str) → FitsRange (parse_parts s parts)
unfolding parse_parts
parse_parts-FitsRange s [] = tt
parse_parts-FitsRange s (a ∷ []) =
    ground (arith, parse_u32-FitsU32 a, parse_u32-FitsU32 (codes "1"))
parse_parts-FitsRange s (a ∷ b ∷ rest) = ground (arith, parse_u32-FitsU32 a, parse_u32-FitsU32 b)

parse_range-FitsRange : (s : Str) (prefix : ℕ) → FitsRange (parse_range s prefix)
unfolding parse_range
parse_range-FitsRange s prefix = elim (Option-cases (strip_prefix prefix s)) [
  | inl e ↦ rw (e, parse_range) tt
  | inr (range, e) ↦ rw (e, parse_range) (parse_parts-FitsRange s (split_at b',' range))
]

abbrev FitsRanges : Result Fault Ranges → Type 0
FitsRanges (ok r) =
    (r.old_start < u32_mod)
    × (r.old_lines < u32_mod)
    × (r.new_start < u32_mod)
    × (r.new_lines < u32_mod)
FitsRanges (err e) = Unit

parse_ranges-FitsRanges : (s : Str) (words : List Str) → FitsRanges (parse_ranges s words)
unfolding parse_ranges
parse_ranges-FitsRanges s [] = tt
parse_ranges-FitsRanges s (a ∷ []) = tt
parse_ranges-FitsRanges s (a ∷ b ∷ rest) =
    ground (arith, parse_range-FitsRange a b'-', parse_range-FitsRange b b'+')

parse_hunk_header-FitsRanges : (s : Str) → FitsRanges (parse_hunk_header s)
unfolding parse_hunk_header
parse_hunk_header-FitsRanges s = elim (Option-cases (before (codes " @@") s)) [
  | inl e ↦ rw (e, parse_hunk_header) tt
  | inr (prefix, e) ↦
      rw (e, parse_hunk_header)
        (ground (arith, parse_ranges-FitsRanges s (split_whitespace (drop 3 prefix))))
]

-- The counters of the loop are what comes next behind the current hunk's lines.
abbrev CurrentInv : Option DiffHunk → ℕ → ℕ → Type 0
CurrentInv none o n = Unit
CurrentInv (some h) o n =
    IsNumbered h × (o ≡ end_old h.old_start h.lines) × (n ≡ end_new h.new_start h.lines)

record Inv (p : ParseState) : Type 0 where
  closed : All IsNumbered p.hunks
  opened : CurrentInv p.current p.old_line p.new_line

push_line-CurrentInv :
    (h : DiffHunk) (o n : ℕ) (k : DiffLineKind) (content : Str)
    → CurrentInv (some h) o n
    → CurrentInv
        (some (
          push_line h (record {
            kind = k;
            old_line = old_number k o;
            new_line = new_number k n;
            content = content;
          })))
        (next_old k o)
        (next_new k n)
push_line-CurrentInv h o n k content (i, eo, en) =
    let l : DiffLine = record {
      kind = k;
      old_line = old_number k o;
      new_line = new_number k n;
      content = content;
    } in
    (
      record {
        numbered =
            AreNumbered-concat h.old_start h.new_start h.lines l i.numbered (ap (old_number k) eo)
              (ap (new_number k) en);
        old_start_fits = i.old_start_fits;
        new_start_fits = i.new_start_fits;
        old_lines_fits = i.old_lines_fits;
        new_lines_fits = i.new_lines_fits;
      },
      ap (next_old k) eo ∙ sym (end_old-concat h.old_start h.lines l),
      ap (next_new k) en ∙ sym (end_new-concat h.new_start h.lines l),
    )

feed-Inv :
    (h : DiffHunk) (p : ParseState) (raw : Str) → p.current ≡ some h → Inv p → Inv (feed h p raw)
unfolding feed
feed-Inv h p [] e i = i
feed-Inv h p (c ∷ s) e i =
    let o : CurrentInv (some h) p.old_line p.new_line = rw e at i.opened in
    ground (
      arith,
      push_line-CurrentInv h p.old_line p.new_line added s o,
      push_line-CurrentInv h p.old_line p.new_line removed s o,
      push_line-CurrentInv h p.old_line p.new_line context s o,
    )

take_current-IsNumbered :
    (current : Option DiffHunk) (hunks : List DiffHunk) (o n : ℕ)
    → All IsNumbered hunks
    → CurrentInv current o n
    → All IsNumbered (take_current current hunks)
take_current-IsNumbered none hunks o n a c = a
take_current-IsNumbered (some h) hunks o n a c = All-append IsNumbered hunks (h ∷ []) a (c.0, tt)

open_hunk-Inv : (p : ParseState) (r : Ranges) → FitsRanges (ok r) → Inv p → Inv (open_hunk p r)
unfolding open_hunk
open_hunk-Inv p r (a, b, c, d) i = record {
  closed = take_current-IsNumbered p.current p.hunks p.old_line p.new_line i.closed i.opened;
  opened = (
    record {
      numbered = tt;
      old_start_fits = a;
      new_start_fits = c;
      old_lines_fits = b;
      new_lines_fits = d;
    },
    refl,
    refl,
  );
}

abbrev ResultInv : Result Fault ParseState → Type 0
ResultInv (ok p) = Inv p
ResultInv (err e) = Unit

header_line-Inv :
    (p : ParseState) (m : Result Fault Ranges)
    → FitsRanges m
    → Inv p
    → ResultInv (m >>= λ r. ok (open_hunk p r))
header_line-Inv p (ok r) f i = open_hunk-Inv p r f i
header_line-Inv p (err e) f i = tt

body_line-Inv :
    (p : ParseState) (current : Option DiffHunk) (raw : Str)
    → p.current ≡ current
    → Inv p
    → Inv (elim current [ none ↦ p | some hunk ↦ feed hunk p raw ])
body_line-Inv p none raw e i = i
body_line-Inv p (some h) raw e i = feed-Inv h p raw e i

parse_line-Inv : (p : ParseState) (raw : Str) → Inv p → ResultInv (parse_line p raw)
unfolding parse_line
parse_line-Inv p raw i = elim (Bool-cases (starts_with (codes "@@ ") raw)) [
  | inl y ↦
      rw (y, parse_line)
        (header_line-Inv p (parse_hunk_header raw) (parse_hunk_header-FitsRanges raw) i)
  | inr n ↦ rw (n, parse_line) (body_line-Inv p p.current raw refl i)
]

parse_lines-Inv : (ls : List Str) (p : ParseState) → Inv p → ResultInv (parse_lines p ls)
unfolding parse_lines
parse_lines-Inv [] p i = i
parse_lines-Inv (raw ∷ ls) p i =
    next (λ q. parse_lines-Inv ls q) (parse_line p raw) (parse_line-Inv p raw i)
  where
    next :
        ((q : ParseState) → Inv q → ResultInv (parse_lines q ls))
        → (m : Result Fault ParseState) → ResultInv m
        → ResultInv (m >>= λ q. parse_lines q ls)
    next rest (ok q) j = rest q j
    next rest (err e) j = tt

-- Whatever the parser returns has the given paths, and in each hunk `u32` ranges and lines that are
-- numbered one after the other from the hunk's starts: an added line has no old number, a removed
-- line no new number.
pub parse_unified_diff-IsNumbered :
    (old_path new_path text : Str) {f : DiffFile}
    → parse_unified_diff old_path new_path text ≡ ok f
    → (f.old_path ≡ old_path) × (f.new_path ≡ new_path) × All IsNumbered f.hunks
unfolding parse_unified_diff
parse_unified_diff-IsNumbered old_path new_path text {f} h =
    let (p, parsed, built) = >>=-eq-ok (parse_lines initial (lines text)) _ h in
    let i : Inv p =
      rw parsed at (parse_lines-Inv (lines text) initial (record { closed = tt; opened = tt })) in
    let known = take_current-IsNumbered p.current p.hunks p.old_line p.new_line i.closed i.opened in
    let same : record {
      old_path = old_path;
      new_path = new_path;
      hunks = take_current p.current p.hunks;
    }
        ≡ f =
      cc in
    (
      ap (λ g. g.old_path) (sym same),
      ap (λ g. g.new_path) (sym same),
      subst (λ g. All IsNumbered g.hunks) same known,
    )
