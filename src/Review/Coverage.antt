-- ===== src/Review/Coverage.antt =====
-- How much of the changed files a set of work items covers: `summarize_planned_work_items` of
-- src/review/ai.rs.
pub mod Counts
use git_lab_work_runner.Base.{
  ℕ, ◌+◌, Option, none, some, List, [], ◌∷◌, ◌++◌, ltb, ◌==◌, if◌then◌else◌, Str, codes,
  str_equality, byte_len, is_empty, min, Map, get, insert, Bool,
}
use git_lab_work_runner.Review.WorkItems.{GitLabChange, ReviewWorkItem}

pub record ReviewCoverageFile : Type 0 where
  pub path : Str
  pub status : Str
  pub reason : Str
  pub total_diff_bytes : ℕ
  pub reviewed_diff_bytes : ℕ

pub record CoverageSummary : Type 0 where
  pub fully_reviewed_files : ℕ
  pub partially_reviewed_files : ℕ
  pub unreviewed_files : ℕ
  pub reviewed_diff_bytes : ℕ
  pub incomplete_files : List ReviewCoverageFile

abbrev pub or_zero : Option ℕ → ℕ
or_zero none = 0
or_zero (some n) = n

abbrev pub or_text : Option Str → Str → Str
or_text none d = d
or_text (some s) d = s

-- `*reviewed_by_path.entry(path).or_default() += bytes`
unfoldable pub reviewed_by_path : Map Str ℕ → List ReviewWorkItem → Map Str ℕ
reviewed_by_path m [] = m
reviewed_by_path m (item ∷ rest) =
    let path = item.change.new_path in
    reviewed_by_path (insert path (or_zero (get path m) + item.chunk_diff_bytes) m) rest

-- `if let Some(reason) = item.incomplete_reason { reason_by_path.entry(path).or_insert(reason) }`
abbrev or_insert : Map Str Str → Str → Option Str → Map Str Str
or_insert m path none = m
or_insert m path (some reason) = elim (get path m) [ none ↦ insert path reason m | some r ↦ m ]

unfoldable pub reason_by_path : Map Str Str → List ReviewWorkItem → Map Str Str
reason_by_path m [] = m
reason_by_path m (item ∷ rest) =
    reason_by_path (or_insert m item.change.new_path item.incomplete_reason) rest

-- `reviewed_by_path.get(…).unwrap_or(0).min(change.diff.len())`
abbrev pub reviewed_of : Map Str ℕ → GitLabChange → ℕ
reviewed_of bytes change = min (or_zero (get change.new_path bytes)) (byte_len change.diff)

-- One round of the loop over the changes.
unfoldable pub count_change :
    Map Str ℕ → Map Str Str → CoverageSummary → GitLabChange → CoverageSummary
count_change bytes reasons s change =
    let reviewed = reviewed_of bytes change in
    let total = byte_len change.diff in
    let why = get change.new_path reasons in
    let counted = record s { reviewed_diff_bytes = s.reviewed_diff_bytes + reviewed } in
    if reviewed == 0
    then record counted {
      unreviewed_files = s.unreviewed_files + 1;
      incomplete_files =
          s.incomplete_files
          ++ record {
            path = change.new_path;
            status = codes "unreviewed";
            reason = or_text why (
                if is_empty change.diff
                then codes "gitlab_diff_unavailable"
                else codes "max_batches_reached");
            total_diff_bytes = total;
            reviewed_diff_bytes = 0;
          }
            ∷ [];
    }
    else if ltb reviewed total
    then record counted {
      partially_reviewed_files = s.partially_reviewed_files + 1;
      incomplete_files =
          s.incomplete_files
          ++ record {
            path = change.new_path;
            status = codes "partial";
            reason = or_text why (codes "max_batches_reached");
            total_diff_bytes = total;
            reviewed_diff_bytes = reviewed;
          }
            ∷ [];
    }
    else record counted { fully_reviewed_files = s.fully_reviewed_files + 1 }

unfoldable pub count_changes :
    Map Str ℕ → Map Str Str → CoverageSummary → List GitLabChange → CoverageSummary
count_changes bytes reasons s [] = s
count_changes bytes reasons s (change ∷ rest) =
    count_changes bytes reasons (count_change bytes reasons s change) rest

abbrev pub empty_summary : CoverageSummary
empty_summary = record {
  fully_reviewed_files = 0;
  partially_reviewed_files = 0;
  unreviewed_files = 0;
  reviewed_diff_bytes = 0;
  incomplete_files = [];
}

unfoldable pub summarize_planned_work_items :
    List GitLabChange → List ReviewWorkItem → CoverageSummary
summarize_planned_work_items changes items =
    count_changes (reviewed_by_path [] items) (reason_by_path [] items) empty_summary changes
