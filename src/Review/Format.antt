-- ===== src/Review/Format.antt =====
-- The printers of hunks in src/review/ai.rs.
mod Header
pub mod RoundTrip
use git_lab_work_runner.Base.{
  ℕ, ◌+◌, ◌%◌, Bool, not, List, [], ◌∷◌, ◌++◌, Str, codes, byte_len, length, keep_if,
}
use git_lab_work_runner.Base.Decimal.{u32_mod, decimal}
use git_lab_work_runner.Review.Diff.{DiffLine, DiffLineKind, context, added, removed, DiffHunk}

unfoldable pub format_diff_hunk_header : ℕ → ℕ → ℕ → ℕ → Str
format_diff_hunk_header old_start old_lines new_start new_lines =
    codes "@@ -"
    ++ (decimal old_start
        ++ (b','
            ∷ (decimal old_lines
                ++ (codes " +"
                    ++ (decimal new_start ++ (b',' ∷ (decimal new_lines ++ codes " @@\n")))))))

abbrev pub marker : DiffLineKind → ℕ
marker added = b'+'
marker removed = b'-'
marker context = b' '

abbrev pub format_line : DiffLine → Str
format_line line = marker line.kind ∷ (line.content ++ b'\n' ∷ [])

abbrev pub format_lines : List DiffLine → Str
format_lines [] = []
format_lines (line ∷ rest) = format_line line ++ format_lines rest

unfoldable pub format_diff_hunk : DiffHunk → Str
format_diff_hunk hunk =
    format_diff_hunk_header hunk.old_start hunk.old_lines hunk.new_start hunk.new_lines
    ++ format_lines hunk.lines

-- `1 + line.content.len() + 1`
abbrev pub formatted_diff_line_bytes : DiffLine → ℕ
formatted_diff_line_bytes line = 1 + byte_len line.content + 1

abbrev pub is_added : DiffLine → Bool
is_added line = elim line.kind [ added ↦ Bool.true | removed ↦ Bool.false | context ↦ Bool.false ]

abbrev pub is_removed : DiffLine → Bool
is_removed line = elim line.kind [ added ↦ Bool.false | removed ↦ Bool.true | context ↦ Bool.false ]

-- `count() as u32` truncates.
unfoldable pub diff_hunk_from_lines : ℕ → ℕ → List DiffLine → DiffHunk
diff_hunk_from_lines old_start new_start lines = record {
  old_start = old_start;
  old_lines = length (keep_if (λ line. not (is_added line)) lines) % u32_mod;
  new_start = new_start;
  new_lines = length (keep_if (λ line. not (is_removed line)) lines) % u32_mod;
  lines = lines;
}
