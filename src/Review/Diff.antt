-- ===== src/Review/Diff.antt =====
-- src/review/diff.rs. `u32` sums wrap, as they do in a release build.
pub mod Numbers
pub mod Panics
pub mod Sound
use git_lab_work_runner.Base.{
  ℕ, zero, suc, ◌+◌, ◌%◌, Bool, true, false, Option, none, some, List, [], ◌∷◌, ◌++◌, ltb, ◌==◌,
  if◌then◌else◌, Str, codes, starts_with, strip_prefix, split_whitespace, split_at, lines, before,
  length, drop, Result, ok, err, ◌>>=◌,
}
use git_lab_work_runner.Base.Decimal.{u32_mod, parse_u32}
use git_lab_work_runner.App.Error.{AppError, diff}

pub data DiffLineKind : Type 0 where
  context added removed : DiffLineKind

pub record DiffLine : Type 0 where
  pub kind : DiffLineKind
  pub old_line : Option ℕ
  pub new_line : Option ℕ
  pub content : Str

pub record DiffHunk : Type 0 where
  pub old_start : ℕ
  pub old_lines : ℕ
  pub new_start : ℕ
  pub new_lines : ℕ
  pub lines : List DiffLine

pub record DiffFile : Type 0 where
  pub old_path : Str
  pub new_path : Str
  pub hunks : List DiffHunk

-- How a call ends other than by its result: with an error value, or with a panic.
pub data Fault : Type 0 where
  failed : AppError → Fault
  panicked : Fault

abbrev fail {ℓ} : {A : Type ℓ} → Str → Str → Result Fault A
fail what text = err (failed (diff (what ++ text)))

abbrev parse_or {ℓ} : {A : Type ℓ} → Option A → Str → Str → Result Fault A
parse_or none what text = fail what text
parse_or (some a) what text = ok a

-- `parts.next().unwrap_or("1")`
abbrev second_or_one : List Str → Str
second_or_one [] = codes "1"
second_or_one (len ∷ rest) = len

parse_parts : Str → List Str → Result Fault (ℕ × ℕ)
parse_parts input [] = fail (codes "missing range start: ") input
parse_parts input (first ∷ rest) = do
  start ← parse_or (parse_u32 first) (codes "invalid range start: ") input
  len ← parse_or (parse_u32 (second_or_one rest)) (codes "invalid range length: ") input
  ok (start, len)

unfoldable pub parse_range : Str → ℕ → Result Fault (ℕ × ℕ)
unfolding parse_parts
parse_range input prefix = do
  range ← parse_or (strip_prefix prefix input) (codes "invalid range prefix: ") input
  parse_parts input (split_at b',' range)

pub record Ranges : Type 0 where
  pub old_start : ℕ
  pub old_lines : ℕ
  pub new_start : ℕ
  pub new_lines : ℕ

parse_ranges : Str → List Str → Result Fault Ranges
unfolding parse_range
parse_ranges header [] = fail (codes "missing old range: ") header
parse_ranges header (old ∷ []) = fail (codes "missing new range: ") header
parse_ranges header (old ∷ new ∷ rest) = do
  (old_start, old_lines) ← parse_range old b'-'
  (new_start, new_lines) ← parse_range new b'+'
  ok (record {
    old_start = old_start;
    old_lines = old_lines;
    new_start = new_start;
    new_lines = new_lines;
  })

-- `&header[3..end]`, for a header that begins with `@@ `: a slice whose end lies before its start
-- panics.
slice_body : Str → Result Fault Str
slice_body prefix = if ltb (length prefix) 3 then err panicked else ok (drop 3 prefix)

unfoldable pub parse_hunk_header : Str → Result Fault Ranges
unfolding slice_body parse_ranges
parse_hunk_header header = do
  prefix ← parse_or (before (codes " @@") header) (codes "invalid hunk header: ") header
  body ← slice_body prefix
  parse_ranges header (split_whitespace body)

-- The variables of the loop.
pub record ParseState : Type 0 where
  pub hunks : List DiffHunk
  pub current : Option DiffHunk
  pub old_line : ℕ
  pub new_line : ℕ

abbrev pub incr : ℕ → ℕ
incr n = (n + 1) % u32_mod

-- `if let Some(hunk) = current.take() { hunks.push(hunk) }`
abbrev pub take_current : Option DiffHunk → List DiffHunk → List DiffHunk
take_current none hunks = hunks
take_current (some hunk) hunks = hunks ++ hunk ∷ []

abbrev pub push_line : DiffHunk → DiffLine → DiffHunk
push_line hunk line = record hunk { lines = hunk.lines ++ line ∷ [] }

-- A line inside a hunk. A line with another first character, such as the note on a missing
-- newline, changes nothing.
unfoldable pub feed : DiffHunk → ParseState → Str → ParseState
feed hunk p [] = p
feed hunk p (c ∷ content) =
    if c == b'+'
    then record p {
      current = some (
          push_line hunk (record {
            kind = added;
            old_line = none;
            new_line = some p.new_line;
            content = content;
          }));
      new_line = incr p.new_line;
    }
    else if c == b'-'
    then record p {
      current = some (
          push_line hunk (record {
            kind = removed;
            old_line = some p.old_line;
            new_line = none;
            content = content;
          }));
      old_line = incr p.old_line;
    }
    else if c == b' '
    then record p {
      current = some (
          push_line hunk (record {
            kind = context;
            old_line = some p.old_line;
            new_line = some p.new_line;
            content = content;
          }));
      old_line = incr p.old_line;
      new_line = incr p.new_line;
    }
    else p

unfoldable pub open_hunk : ParseState → Ranges → ParseState
open_hunk p r = record {
  hunks = take_current p.current p.hunks;
  current = some (record {
    old_start = r.old_start;
    old_lines = r.old_lines;
    new_start = r.new_start;
    new_lines = r.new_lines;
    lines = [];
  });
  old_line = r.old_start;
  new_line = r.new_start;
}

-- One round of the loop.
unfoldable pub parse_line : ParseState → Str → Result Fault ParseState
parse_line p raw = elim (starts_with (codes "@@ ") raw) [
  | true ↦ (do r ← parse_hunk_header raw; ok (open_hunk p r))
  | false ↦ ok (elim p.current [ none ↦ p | some hunk ↦ feed hunk p raw ])
]

unfoldable pub parse_lines : ParseState → List Str → Result Fault ParseState
parse_lines p [] = ok p
parse_lines p (raw ∷ rest) = do q ← parse_line p raw; parse_lines q rest

abbrev pub initial : ParseState
initial = record { hunks = []; current = none; old_line = 0; new_line = 0 }

unfoldable pub parse_unified_diff : Str → Str → Str → Result Fault DiffFile
parse_unified_diff old_path new_path text = do
  p ← parse_lines initial (lines text)
  ok (record { old_path = old_path; new_path = new_path; hunks = take_current p.current p.hunks })
