-- ===== src/Review/Batches.antt =====
-- The batches of src/review/ai.rs: `plan_ai_review_batches`, `run_batched_ai_review` and
-- `apply_batch_failure_coverage`. Byte counts (`usize`) are unbounded numbers.
pub mod Loops
pub mod Packs
pub mod Plans
pub mod Runs
use git_lab_work_runner.Base.{
  ℕ, ◌+◌, ◌/◌, Bool, true, false, not, ◌&&◌, Option, none, some, List, [], ◌∷◌, ◌++◌, map, ltb,
  ◌==◌, if◌then◌else◌, Str, codes, str_eq, byte_len, is_empty, min, max, length, take, drop, concat,
  sum_by, any, keep_if, Result, ok, err,
}
use git_lab_work_runner.App.Error.{AppError, ai_review_error, review_run_timeout}
use git_lab_work_runner.Base.Decimal.{decimal}
use git_lab_work_runner.Review.Rules.{AiReviewConfig, Finding}
use git_lab_work_runner.Review.Diff.{Fault}
use git_lab_work_runner.Review.WorkItems.{GitLabChange, ReviewWorkItem, build_review_work_items}
use git_lab_work_runner.Review.Coverage.{
  ReviewCoverageFile, CoverageSummary, summarize_planned_work_items,
}

pub record ReviewCoverage : Type 0 where
  pub total_files : ℕ
  pub fully_reviewed_files : ℕ
  pub partially_reviewed_files : ℕ
  pub unreviewed_files : ℕ
  pub total_diff_bytes : ℕ
  pub reviewed_diff_bytes : ℕ
  pub required_batches : ℕ
  pub planned_batches : ℕ
  pub completed_batches : ℕ
  pub max_batches : ℕ
  pub tool_rounds_used : ℕ
  pub max_tool_rounds : ℕ
  pub tool_calls_used : ℕ
  pub max_tool_calls : ℕ
  pub complete : Bool

pub record AiReviewBatchPlan : Type 0 where
  pub batches : List (List ReviewWorkItem)
  pub coverage : ReviewCoverage
  pub incomplete_files : List ReviewCoverageFile

-- The variables of the loop that packs the items.
pub record Packing : Type 0 where
  pub all_batches : List (List ReviewWorkItem)
  pub current : List ReviewWorkItem
  pub current_bytes : ℕ

abbrev pub empty_packing : Packing
empty_packing = record { all_batches = []; current = []; current_bytes = 0 }

-- One round of the loop over the reviewable items.
unfoldable pub pack_item : ℕ → Packing → ReviewWorkItem → Packing
pack_item limit s item =
    let item_bytes = item.payload_diff_bytes in
    if not (is_empty s.current) && ltb limit (s.current_bytes + item_bytes)
    then record {
      all_batches = s.all_batches ++ s.current ∷ [];
      current = item ∷ [];
      current_bytes = item_bytes;
    }
    else record s { current = s.current ++ item ∷ []; current_bytes = s.current_bytes + item_bytes }

unfoldable pub pack_items : ℕ → Packing → List ReviewWorkItem → Packing
pack_items limit s [] = s
pack_items limit s (item ∷ rest) = pack_items limit (pack_item limit s item) rest

-- `if !current.is_empty() { all_batches.push(current) }`
unfoldable pub finish_packing : Packing → List (List ReviewWorkItem)
finish_packing s = if is_empty s.current then s.all_batches else s.all_batches ++ s.current ∷ []

unfoldable pub pack : ℕ → List ReviewWorkItem → List (List ReviewWorkItem)
pack limit items = finish_packing (pack_items limit empty_packing items)

abbrev pub planned_count : ℕ → ℕ → ℕ
planned_count required max_batches = if max_batches == 0 then required else min required max_batches

abbrev pub is_reviewable : ReviewWorkItem → Bool
is_reviewable item = item.reviewable

abbrev pub is_not_reviewable : ReviewWorkItem → Bool
is_not_reviewable item = not item.reviewable

-- What `plan_ai_review_batches` makes of the work items.
unfoldable pub plan_of_items : List GitLabChange → ℕ → ℕ → List ReviewWorkItem → AiReviewBatchPlan
plan_of_items changes limit max_batches items =
    let all_batches = pack limit (keep_if is_reviewable items) in
    let required = length all_batches in
    let planned = planned_count required max_batches in
    let s =
      summarize_planned_work_items changes
        (concat (take planned all_batches) ++ keep_if is_not_reviewable items) in
    record {
      batches = take planned all_batches;
      coverage = record {
        total_files = length changes;
        fully_reviewed_files = s.fully_reviewed_files;
        partially_reviewed_files = s.partially_reviewed_files;
        unreviewed_files = s.unreviewed_files;
        total_diff_bytes = sum_by (λ c. byte_len c.diff) changes;
        reviewed_diff_bytes = s.reviewed_diff_bytes;
        required_batches = required;
        planned_batches = planned;
        completed_batches = 0;
        max_batches = max_batches;
        tool_rounds_used = 0;
        max_tool_rounds = 0;
        tool_calls_used = 0;
        max_tool_calls = 0;
        complete = false;
      };
      incomplete_files = s.incomplete_files;
    }

abbrev pub plan_built :
    List GitLabChange → ℕ → ℕ → Result Fault (List ReviewWorkItem) → Result Fault AiReviewBatchPlan
plan_built changes limit max_batches (ok items) = ok (plan_of_items changes limit max_batches items)
plan_built changes limit max_batches (err e) = err e

-- The only error is the panic of a slice in the diff parser.
unfoldable pub plan_ai_review_batches : List GitLabChange → ℕ → ℕ → Result Fault AiReviewBatchPlan
plan_ai_review_batches changes max_batch_diff_bytes max_batches =
    let limit = max max_batch_diff_bytes 1 in
    plan_built changes limit max_batches (build_review_work_items changes limit)

-- `if failed_paths.contains(file.path) { file.reason = "batch_execution_failed" }`
abbrev pub mark_failed : List Str → ReviewCoverageFile → ReviewCoverageFile
mark_failed failed_paths file =
    if any (λ p. str_eq p file.path) failed_paths
    then record file { reason = codes "batch_execution_failed" }
    else file

unfoldable pub apply_batch_failure_coverage :
    AiReviewBatchPlan → List GitLabChange → ℕ → AiReviewBatchPlan
apply_batch_failure_coverage plan changes failed_batch_index =
    let successful_items = concat (take failed_batch_index plan.batches) in
    let failed_paths =
      map (λ (item : ReviewWorkItem). item.change.new_path)
        (concat (drop failed_batch_index plan.batches)) in
    let s = summarize_planned_work_items changes successful_items in
    record {
      batches = plan.batches;
      coverage = record plan.coverage {
        fully_reviewed_files = s.fully_reviewed_files;
        partially_reviewed_files = s.partially_reviewed_files;
        unreviewed_files = s.unreviewed_files;
        reviewed_diff_bytes = s.reviewed_diff_bytes;
        complete = false;
      };
      incomplete_files = map (mark_failed failed_paths) s.incomplete_files;
    }

-- `effective_request_timeout_seconds`, with `div_ceil` and `max` written out.
unfoldable pub effective_request_timeout_seconds : AiReviewConfig → ℕ
effective_request_timeout_seconds config = elim config.request_timeout_seconds [
  | none ↦ max ((max config.timeout_seconds 1 + 1) / 2) 1
  | some seconds ↦ max seconds 1
]

abbrev pub ai_review_deadline_error : AiReviewConfig → AppError
ai_review_deadline_error config = ai_review_error review_run_timeout (
    codes "AI review "
    ++ config.id
    ++ codes " timed out after "
    ++ decimal (max config.timeout_seconds 1)
    ++ codes " seconds")

pub record AiReviewSingleResult : Type 0 where
  pub findings : List Finding
  pub tool_rounds_used : ℕ
  pub tool_calls_used : ℕ

pub record AiReviewExecution : Type 0 where
  pub result : Result AppError (List Finding)
  pub coverage : ReviewCoverage
  pub incomplete_files : List ReviewCoverageFile

-- What `run_ai_review_single` comes to under the timeout: it is given the index of the batch from 1,
-- the number of batches and the changes, and there is no result where the deadline passes first.
abbrev pub SingleReview : Type 0
SingleReview = ℕ → ℕ → List GitLabChange → Option (Result AppError AiReviewSingleResult)

-- `match tokio::time::timeout(…) { Ok(result) => result, Err(_) => Err(deadline) }`
abbrev pub or_deadline :
    AiReviewConfig
    → Option (Result AppError AiReviewSingleResult)
    → Result AppError AiReviewSingleResult
or_deadline config none = err (ai_review_deadline_error config)
or_deadline config (some result) = result

-- The variables of the loop over the batches.
pub record Running : Type 0 where
  pub all_findings : List Finding
  pub completed_batches : ℕ
  pub max_tool_rounds_used_in_batch : ℕ
  pub max_tool_calls_used_in_batch : ℕ

abbrev pub initial_running : Running
initial_running = record {
  all_findings = [];
  completed_batches = 0;
  max_tool_rounds_used_in_batch = 0;
  max_tool_calls_used_in_batch = 0;
}

-- `plan.coverage` with the counters of the loop.
abbrev pub with_counters : Running → ReviewCoverage → ReviewCoverage
with_counters s coverage = record coverage {
  completed_batches = s.completed_batches;
  tool_rounds_used = s.max_tool_rounds_used_in_batch;
  tool_calls_used = s.max_tool_calls_used_in_batch;
}

unfoldable pub complete_batch : Running → AiReviewSingleResult → Running
complete_batch s batch_result = record {
  all_findings = s.all_findings ++ batch_result.findings;
  completed_batches = s.completed_batches + 1;
  max_tool_rounds_used_in_batch = max s.max_tool_rounds_used_in_batch batch_result.tool_rounds_used;
  max_tool_calls_used_in_batch = max s.max_tool_calls_used_in_batch batch_result.tool_calls_used;
}

-- The end of the review behind the last batch.
unfoldable pub finish_run : AiReviewBatchPlan → Running → AiReviewExecution
finish_run plan s =
    let coverage = plan.coverage in
    record {
      result = ok s.all_findings;
      coverage = record (with_counters s coverage) {
        complete =
            coverage.partially_reviewed_files == 0
            && coverage.unreviewed_files == 0
            && s.completed_batches == coverage.planned_batches;
      };
      incomplete_files = plan.incomplete_files;
    }

-- The early return at the first batch that fails.
unfoldable pub fail_run :
    AiReviewBatchPlan → List GitLabChange → Running → ℕ → AppError → AiReviewExecution
fail_run plan changes s index error =
    let failed_plan = apply_batch_failure_coverage plan changes index in
    record {
      result = err error;
      coverage = with_counters s failed_plan.coverage;
      incomplete_files = failed_plan.incomplete_files;
    }

-- The loop over the batches that are left, from an index.
unfoldable pub run_batches :
    SingleReview
    → AiReviewConfig
    → AiReviewBatchPlan
    → List GitLabChange
    → ℕ
    → Running
    → List (List ReviewWorkItem)
    → AiReviewExecution
run_batches single config plan changes index s [] = finish_run plan s
run_batches single config plan changes index s (batch ∷ rest) =
    elim (or_deadline config (
      single (index + 1) (length plan.batches)
        (map (λ (item : ReviewWorkItem). item.change) batch))) [
          | ok batch_result ↦
              run_batches single config plan changes (index + 1) (complete_batch s batch_result)
                rest
          | err error ↦ fail_run plan changes s index error
        ]

abbrev pub with_limits : AiReviewConfig → AiReviewBatchPlan → AiReviewBatchPlan
with_limits config plan = record plan {
  coverage = record plan.coverage {
    max_tool_calls = config.max_tool_calls;
    max_tool_rounds = config.max_tool_rounds;
  };
}

unfoldable pub run_plan :
    SingleReview → AiReviewConfig → List GitLabChange → AiReviewBatchPlan → AiReviewExecution
run_plan single config changes plan =
    run_batches single config (with_limits config plan) changes 0 initial_running plan.batches

abbrev pub run_planned :
    SingleReview
    → AiReviewConfig
    → List GitLabChange
    → Result Fault AiReviewBatchPlan
    → Result Fault AiReviewExecution
run_planned single config changes (ok plan) = ok (run_plan single config changes plan)
run_planned single config changes (err e) = err e

unfoldable pub run_batched_ai_review :
    SingleReview → AiReviewConfig → List GitLabChange → Result Fault AiReviewExecution
run_batched_ai_review single config changes =
    run_planned single config changes
      (plan_ai_review_batches changes (max config.max_batch_diff_bytes 1) config.max_batches)
