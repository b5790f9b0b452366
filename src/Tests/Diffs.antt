-- ===== src/Tests/Diffs.antt =====
-- The parser and the printer of diffs, and the cutting of changes, on concrete inputs.
use git_lab_work_runner.Base.{
  List, ◌≡◌, ◌↔◌, refl, true, false, none, some, [], ◌∷◌, ◌++◌, map, concat, arith, codes,
  starts_with, lines, byte_len, All, ok, err, split_lines,
}
use git_lab_work_runner.Review.Diff.{
  DiffHunk, DiffFile, context, added, removed, panicked, parse_hunk_header, parse_lines, initial,
  parse_unified_diff,
}
use git_lab_work_runner.Review.Diff.Sound.{IsNumbered, parse_unified_diff-IsNumbered}
use git_lab_work_runner.Review.Diff.Panics.{
  parse_hunk_header-panics_iff, parse_unified_diff-panics, parse_unified_diff-quiet,
}
use git_lab_work_runner.Review.Batches.Plans.{IsQuiet, split_change-total}
use git_lab_work_runner.Review.Format.{format_diff_hunk}
use git_lab_work_runner.Review.Format.RoundTrip.{IsPrintable, parse_unified_diff-format_diff_hunk}
use git_lab_work_runner.Review.WorkItems.{
  GitLabChange, ReviewWorkItem, split_diff_text_into_review_work_items,
  split_change_into_review_work_items,
}
use git_lab_work_runner.Review.WorkItems.Bounds.{split_change-IsItemOf}
use git_lab_work_runner.Review.WorkItems.Lines.{IsItemOf}
use git_lab_work_runner.Review.WorkItems.Chunks.{IsChunk, split_diff_text-whole}

abbrev hunk_one : DiffHunk
hunk_one = record {
  old_start = 3;
  old_lines = 2;
  new_start = 3;
  new_lines = 2;
  lines =
      record { kind = context; old_line = some 3; new_line = some 3; content = codes "a" }
      ∷ record { kind = removed; old_line = some 4; new_line = none; content = codes "b" }
      ∷ record { kind = added; old_line = none; new_line = some 4; content = codes "c" }
      ∷ [];
}

hunk_one-IsPrintable : IsPrintable hunk_one
hunk_one-IsPrintable = record {
  old_start_fits = omega arith;
  old_lines_fits = omega arith;
  new_start_fits = omega arith;
  new_lines_fits = omega arith;
  numbered = (refl, refl, (refl, refl, (refl, refl, tt)));
  contents = (((refl, tt), refl), (((refl, tt), refl), (((refl, tt), refl), tt)));
}

parse_unified_diff-format_diff_hunk_example :
    parse_unified_diff
      (codes "old.rs")
      (codes "new.rs")
      (concat (map format_diff_hunk (hunk_one ∷ [])))
    ≡ ok (record { old_path = codes "old.rs"; new_path = codes "new.rs"; hunks = hunk_one ∷ [] })
parse_unified_diff-format_diff_hunk_example =
    parse_unified_diff-format_diff_hunk (codes "old.rs") (codes "new.rs") (hunk_one ∷ [])
      (hunk_one-IsPrintable, tt)

abbrev file_one : DiffFile
file_one = record { old_path = codes "old.rs"; new_path = codes "new.rs"; hunks = hunk_one ∷ [] }

parse_unified_diff-IsNumbered_example :
    (file_one.old_path ≡ codes "old.rs")
    × (file_one.new_path ≡ codes "new.rs")
    × All IsNumbered file_one.hunks
parse_unified_diff-IsNumbered_example =
    parse_unified_diff-IsNumbered (codes "old.rs") (codes "new.rs")
      (concat (map format_diff_hunk (hunk_one ∷ [])))
      (parse_unified_diff-format_diff_hunk (codes "old.rs") (codes "new.rs") (hunk_one ∷ [])
        (hunk_one-IsPrintable, tt))

parse_hunk_header-panics_iff_example :
    (parse_hunk_header (codes "@@ " ++ codes "@@ fn") ≡ err panicked)
    ↔ (starts_with (codes "@@") (codes "@@ fn") ≡ true)
parse_hunk_header-panics_iff_example = parse_hunk_header-panics_iff (codes "@@ fn")

one_bad_line : lines (codes "@@ @@ fn") ≡ [] ++ ((codes "@@ @@" ++ codes " fn") ∷ [])
unfolding split_lines
one_bad_line = refl

parse_unified_diff-panics_example :
    parse_unified_diff (codes "a") (codes "a") (codes "@@ @@ fn") ≡ err panicked
unfolding parse_lines
parse_unified_diff-panics_example =
    parse_unified_diff-panics (codes "a") (codes "a") (codes "@@ @@ fn") (codes " fn") [] [] initial
      one_bad_line refl

abbrev change_one : GitLabChange
change_one = record {
  old_path = codes "a.rs";
  new_path = codes "a.rs";
  new_file = false;
  renamed_file = false;
  deleted_file = false;
  diff = codes "héllo wörld";
}

split_diff_text-whole_example :
    let items = split_diff_text_into_review_work_items change_one change_one.diff 4 in
    (concat (map (λ (i : ReviewWorkItem). i.change.diff) items) ≡ change_one.diff)
    × All
        (λ (i : ReviewWorkItem).
          IsChunk 4 i.change.diff × (i.chunk_diff_bytes ≡ byte_len i.change.diff))
        items
split_diff_text-whole_example = split_diff_text-whole change_one change_one.diff 4

-- A change whose one hunk is over the limit, so that its lines are divided.
abbrev change_two : GitLabChange
change_two = record change_one {
  diff = codes "@@ -1,3 +1,3 @@\n-first line\n+second line\n third line\n fourth\n";
}

change_two-IsQuiet : IsQuiet change_two
unfolding split_lines
change_two-IsQuiet =
    parse_unified_diff-quiet (codes "a.rs") (codes "a.rs") change_two.diff
      (refl, (refl, (refl, (refl, (refl, tt)))))

abbrev two_split :
    (items : List ReviewWorkItem) × (split_change_into_review_work_items change_two 32 ≡ ok items)
two_split = split_change-total change_two 32 change_two-IsQuiet

split_change-IsItemOf_example : All (IsItemOf change_two 32) two_split.0
split_change-IsItemOf_example = split_change-IsItemOf change_two 32 two_split.1
