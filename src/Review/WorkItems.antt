-- ===== src/Review/WorkItems.antt =====
-- The work items of src/review/ai.rs: how the diff of a change is cut to the size of a batch. Byte
-- counts (`usize`) are unbounded numbers; `u32` sums saturate, as in the source.
pub mod Bounds
pub mod Chunks
pub mod Lines
use git_lab_work_runner.Base.{
  ℕ, zero, suc, ◌+◌, ◌-◌, Bool, true, false, not, ◌&&◌, ◌||◌, Option, none, some, List, [], ◌∷◌,
  ◌++◌, ltb, leb, ◌==◌, if◌then◌else◌, Str, codes, byte_len, utf8_len, is_empty, length, max, min,
  Result, ok, err, ◌>>=◌,
}
use git_lab_work_runner.Base.Decimal.{u32_mod}
use git_lab_work_runner.Review.Diff.{
  DiffLine, DiffHunk, DiffFile, Fault, failed, panicked, parse_unified_diff,
}
use git_lab_work_runner.Review.Format.{
  format_diff_hunk, format_diff_hunk_header, diff_hunk_from_lines, formatted_diff_line_bytes,
  is_added, is_removed,
}

-- `GitLabChange` of src/gitlab/client.rs.
pub record GitLabChange : Type 0 where
  pub old_path : Str
  pub new_path : Str
  pub new_file : Bool
  pub renamed_file : Bool
  pub deleted_file : Bool
  pub diff : Str

pub record ReviewWorkItem : Type 0 where
  pub change : GitLabChange
  pub chunk_diff_bytes : ℕ
  pub payload_diff_bytes : ℕ
  pub reviewable : Bool
  pub incomplete_reason : Option Str

abbrev pub review_work_item_from_diff : GitLabChange → Str → ℕ → ReviewWorkItem
review_work_item_from_diff change diff chunk_diff_bytes = record {
  change = record change { diff = diff };
  chunk_diff_bytes = chunk_diff_bytes;
  payload_diff_bytes = byte_len diff;
  reviewable = true;
  incomplete_reason = none;
}

abbrev pub non_reviewable_work_item : GitLabChange → Str → ReviewWorkItem
non_reviewable_work_item change reason = record {
  change = record change { diff = [] };
  chunk_diff_bytes = 0;
  payload_diff_bytes = 0;
  reviewable = false;
  incomplete_reason = some reason;
}

-- `str::is_char_boundary`: the byte offset falls between two characters, or at an end.
unfoldable pub is_char_boundary : Str → ℕ → Bool
is_char_boundary [] e = e == 0
is_char_boundary (c ∷ s) e = e == 0 || (leb (utf8_len c) e && is_char_boundary s (e - utf8_len c))

-- `while end > start && !diff.is_char_boundary(end) { end -= 1 }`, with offsets from `start`.
unfoldable pub walk_back : Str → ℕ → ℕ
walk_back s zero = zero
walk_back s (suc e) = elim (is_char_boundary s (suc e)) [ true ↦ suc e | false ↦ walk_back s e ]

-- The text before and behind a byte offset.
unfoldable pub cut : ℕ → Str → Str × Str
cut e [] = ([], [])
cut e (c ∷ s) = elim (leb (utf8_len c) e) [
  | true ↦ (let (a, b) = cut (e - utf8_len c) s in (c ∷ a, b))
  | false ↦ ([], c ∷ s)
]

-- The end of the next chunk of a text that is not empty: one character if none fits.
unfoldable pub chunk_end : ℕ → Str → ℕ
chunk_end limit [] = 0
chunk_end limit (c ∷ s) =
    let e = walk_back (c ∷ s) (min limit (byte_len (c ∷ s))) in if e == 0 then utf8_len c else e

-- The loop over the text that is left. Each round takes a character at least, so that its length is
-- fuel enough.
unfoldable pub text_chunks : ℕ → ℕ → Str → List Str
text_chunks zero limit s = []
text_chunks (suc fuel) limit [] = []
text_chunks (suc fuel) limit (c ∷ s) =
    let (chunk, rest) = cut (chunk_end limit (c ∷ s)) (c ∷ s) in chunk ∷ text_chunks fuel limit rest

abbrev pub items_of_chunks : GitLabChange → List Str → List ReviewWorkItem
items_of_chunks change [] = []
items_of_chunks change (chunk ∷ rest) =
    review_work_item_from_diff change chunk (byte_len chunk) ∷ items_of_chunks change rest

unfoldable pub split_diff_text_into_review_work_items : GitLabChange → Str → ℕ → List ReviewWorkItem
split_diff_text_into_review_work_items change diff limit =
    items_of_chunks change (text_chunks (length diff) limit diff)

abbrev pub split_change_by_byte_chunks : GitLabChange → ℕ → List ReviewWorkItem
split_change_by_byte_chunks change limit =
    split_diff_text_into_review_work_items change change.diff (max limit 1)

-- `u32::saturating_add`
abbrev pub saturating_add : ℕ → ℕ → ℕ
saturating_add a b = min (a + b) (u32_mod - 1)

-- The variables of the loop over the lines of a hunk.
pub record HunkSplit : Type 0 where
  pub items : List ReviewWorkItem
  pub chunk_lines : List DiffLine
  pub chunk_old_start : ℕ
  pub chunk_new_start : ℕ
  pub chunk_source_bytes : ℕ

unfoldable pub push_oversized_diff_line_item : GitLabChange → HunkSplit → DiffLine → HunkSplit
push_oversized_diff_line_item change s line = record s {
  items = s.items ++ non_reviewable_work_item change (codes "single_diff_line_too_large") ∷ [];
  chunk_old_start = saturating_add s.chunk_old_start (if is_added line then 0 else 1);
  chunk_new_start = saturating_add s.chunk_new_start (if is_removed line then 0 else 1);
}

-- The text of the chunk that some lines make.
abbrev pub chunk_text : ℕ → ℕ → List DiffLine → Str
chunk_text old_start new_start lines =
    format_diff_hunk (diff_hunk_from_lines old_start new_start lines)

abbrev pub too_large : ℕ → ℕ → ℕ → List DiffLine → Bool
too_large limit old_start new_start lines =
    ltb limit (byte_len (chunk_text old_start new_start lines))

-- The chunk read so far becomes an item.
unfoldable pub flush_chunk : GitLabChange → HunkSplit → HunkSplit
flush_chunk change s =
    let completed = diff_hunk_from_lines s.chunk_old_start s.chunk_new_start s.chunk_lines in
    record {
      items =
          s.items
          ++ review_work_item_from_diff change (format_diff_hunk completed) s.chunk_source_bytes
            ∷ [];
      chunk_lines = [];
      chunk_old_start = saturating_add s.chunk_old_start completed.old_lines;
      chunk_new_start = saturating_add s.chunk_new_start completed.new_lines;
      chunk_source_bytes = 0;
    }

-- The line that overflowed the chunk before it starts a chunk, or is too large on its own.
unfoldable pub start_chunk : GitLabChange → ℕ → HunkSplit → DiffLine → HunkSplit
start_chunk change limit s line =
    if too_large limit s.chunk_old_start s.chunk_new_start (line ∷ [])
    then push_oversized_diff_line_item change s line
    else record s {
      chunk_lines = line ∷ [];
      chunk_source_bytes = s.chunk_source_bytes + formatted_diff_line_bytes line;
    }

-- One round of the loop.
unfoldable pub split_line : GitLabChange → ℕ → HunkSplit → DiffLine → HunkSplit
split_line change limit s line =
    let candidate = s.chunk_lines ++ line ∷ [] in
    let overflows = too_large limit s.chunk_old_start s.chunk_new_start candidate in
    if length candidate == 1 && overflows
    then push_oversized_diff_line_item change
        (record s { chunk_lines = []; chunk_source_bytes = 0 }) line
    else if ltb 1 (length candidate) && overflows
    then start_chunk change limit (flush_chunk change s) line
    else record s {
      chunk_lines = candidate;
      chunk_source_bytes = s.chunk_source_bytes + formatted_diff_line_bytes line;
    }

unfoldable pub split_lines_of_hunk : GitLabChange → ℕ → HunkSplit → List DiffLine → HunkSplit
split_lines_of_hunk change limit s [] = s
split_lines_of_hunk change limit s (line ∷ rest) =
    split_lines_of_hunk change limit (split_line change limit s line) rest

abbrev pub initial_split : DiffHunk → HunkSplit
initial_split hunk = record {
  items = [];
  chunk_lines = [];
  chunk_old_start = hunk.old_start;
  chunk_new_start = hunk.new_start;
  chunk_source_bytes =
      byte_len
        (format_diff_hunk_header hunk.old_start hunk.old_lines hunk.new_start hunk.new_lines);
}

-- What the loop leaves becomes the last item.
unfoldable pub finish_split : GitLabChange → HunkSplit → List ReviewWorkItem
finish_split change s = if is_empty s.chunk_lines then s.items else (flush_chunk change s).items

unfoldable pub split_hunk_into_review_work_items : GitLabChange → DiffHunk → ℕ → List ReviewWorkItem
split_hunk_into_review_work_items change hunk limit =
    finish_split change (split_lines_of_hunk change limit (initial_split hunk) hunk.lines)

-- The variables of the loop over the hunks of a change.
pub record ChangeSplit : Type 0 where
  pub items : List ReviewWorkItem
  pub current_diff : Str
  pub current_diff_bytes : ℕ

-- `if !current_diff.is_empty() { items.push(…) }`
unfoldable pub flush_diff : GitLabChange → ChangeSplit → ChangeSplit
flush_diff change s = if is_empty s.current_diff then s else record {
  items = s.items ++ review_work_item_from_diff change s.current_diff s.current_diff_bytes ∷ [];
  current_diff = [];
  current_diff_bytes = 0;
}

unfoldable pub split_hunk : GitLabChange → ℕ → ChangeSplit → DiffHunk → ChangeSplit
split_hunk change limit s hunk =
    let hunk_diff = format_diff_hunk hunk in
    let hunk_bytes = byte_len hunk_diff in
    let flushed = flush_diff change s in
    let joined = if ltb limit (s.current_diff_bytes + hunk_bytes) then flushed else s in
    if ltb limit hunk_bytes
    then record flushed {
      items = flushed.items ++ split_hunk_into_review_work_items change hunk limit;
    }
    else record joined {
      current_diff = joined.current_diff ++ hunk_diff;
      current_diff_bytes = joined.current_diff_bytes + hunk_bytes;
    }

unfoldable pub split_hunks : GitLabChange → ℕ → ChangeSplit → List DiffHunk → ChangeSplit
split_hunks change limit s [] = s
split_hunks change limit s (hunk ∷ rest) =
    split_hunks change limit (split_hunk change limit s hunk) rest

unfoldable pub split_parsed : GitLabChange → ℕ → List DiffHunk → List ReviewWorkItem
split_parsed change limit [] = split_change_by_byte_chunks change limit
split_parsed change limit (hunk ∷ rest) =
    (flush_diff change (
      split_hunks change (max limit 1)
        (record { items = []; current_diff = []; current_diff_bytes = 0 }) (hunk ∷ rest))).items

-- A parser error makes the caller fall back to byte chunks; its panic is a panic of the caller.
abbrev pub split_by_parse :
    GitLabChange → ℕ → Result Fault DiffFile → Result Fault (List ReviewWorkItem)
split_by_parse change limit (ok diff_file) = ok (split_parsed change limit diff_file.hunks)
split_by_parse change limit (err (failed e)) = ok (split_change_by_byte_chunks change limit)
split_by_parse change limit (err panicked) = err panicked

unfoldable pub split_change_into_review_work_items :
    GitLabChange → ℕ → Result Fault (List ReviewWorkItem)
split_change_into_review_work_items change limit =
    if leb (byte_len change.diff) limit
    then ok (
        record {
          change = change;
          chunk_diff_bytes = byte_len change.diff;
          payload_diff_bytes = byte_len change.diff;
          reviewable = true;
          incomplete_reason = none;
        }
        ∷ [])
    else split_by_parse change limit
        (parse_unified_diff change.old_path change.new_path change.diff)

unfoldable pub build_review_work_items : List GitLabChange → ℕ → Result Fault (List ReviewWorkItem)
build_review_work_items [] limit = ok []
build_review_work_items (change ∷ rest) limit = do
  items ← split_change_into_review_work_items change limit
  later ← build_review_work_items rest limit
  ok (items ++ later)
