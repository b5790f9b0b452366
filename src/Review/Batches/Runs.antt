-- ===== src/Review/Batches/Runs.antt =====
-- How a run over the batches of src/review/ai.rs ends: behind the last batch, or at the first failure.
use git_lab_work_runner.Base.{
  ℕ, ◌+◌, ◌≡◌, ◌≢◌, ◌↔◌, refl, sym, ap, ◌∙◌, subst, inl, inr, true, false, List, [], ◌∷◌, ◌++◌,
  arith, length, take, concat, All, lines, max, min, sum_by, byte_len, Result, ok, err,
}
use git_lab_work_runner.App.Error.{AppError}
use git_lab_work_runner.Review.Diff.{Fault}
use git_lab_work_runner.Review.WorkItems.{GitLabChange, ReviewWorkItem}
use git_lab_work_runner.Review.Rules.{AiReviewConfig, Finding}
use git_lab_work_runner.Review.Coverage.Counts.{path_bytes, summarize_counts}
use git_lab_work_runner.Review.Batches.Plans.{
  plan_ai_review_batches-IsPlan, plan_ai_review_batches-total,
}
use git_lab_work_runner.Review.Diff.Panics.{IsHeaderSafe}
use git_lab_work_runner.Review.Batches.{
  AiReviewBatchPlan, AiReviewSingleResult, AiReviewExecution, SingleReview, initial_running,
  finish_run, fail_run, with_limits, run_plan, run_planned, plan_ai_review_batches,
  run_batched_ai_review, apply_batch_failure_coverage,
}
use git_lab_work_runner.Review.Batches.Loops.{
  Answers, all_of, complete_all, complete_all-findings, complete_all-completed, length-Answers,
  Fails, run_batches-Ends,
}

abbrev IsPlanned : AiReviewBatchPlan → List GitLabChange → Type 0
IsPlanned plan changes =
    (length plan.batches ≡ plan.coverage.planned_batches)
    × (plan.coverage.fully_reviewed_files + plan.coverage.partially_reviewed_files
          + plan.coverage.unreviewed_files
        ≡ length changes)

ok-injective :
    (a : Result AppError (List Finding)) {xs ys : List Finding} → a ≡ ok xs → a ≡ ok ys → ys ≡ xs
ok-injective a h k = cc

-- Where the run returns findings, they are those of all batches in their order, all batches count as
-- completed, and the coverage is complete exactly where each file is fully reviewed.
pub record IsDone (single : SingleReview) (changes : List GitLabChange) (plan : AiReviewBatchPlan)
    (e : AiReviewExecution) (findings : List Finding) : Type 0 where
  pub answered :
      (rs : List AiReviewSingleResult) × Answers single (length plan.batches) 0 plan.batches rs
      × (findings ≡ all_of rs)
  pub all_completed : e.coverage.completed_batches ≡ e.coverage.planned_batches
  pub complete_iff :
      (e.coverage.complete ≡ true) ↔ (e.coverage.fully_reviewed_files ≡ length changes)

-- Where the run fails, it is at the first batch whose review fails; the coverage is that of the
-- batches before, and is not complete.
pub record IsFailed (single : SingleReview) (config : AiReviewConfig) (changes : List GitLabChange)
    (plan : AiReviewBatchPlan) (e : AiReviewExecution) (error : AppError) : Type 0 where
  pub done : List (List ReviewWorkItem)
  pub batch : List ReviewWorkItem
  pub later : List (List ReviewWorkItem)
  pub split : plan.batches ≡ done ++ batch ∷ later
  pub answered : (rs : List AiReviewSingleResult) × Answers single (length plan.batches) 0 done rs
  pub failed : Fails single config (length plan.batches) (length done) batch error
  pub completed : e.coverage.completed_batches ≡ length done
  pub incomplete : e.coverage.complete ≡ false
  pub bytes :
      e.coverage.reviewed_diff_bytes
      ≡ sum_by (λ c. min (path_bytes c.new_path (concat done)) (byte_len c.diff)) changes
  pub files :
      e.coverage.fully_reviewed_files + e.coverage.partially_reviewed_files
        + e.coverage.unreviewed_files
      ≡ length changes

err-ok : {error : AppError} {findings : List Finding} → err error ≢ ok findings
err-ok h = cc

ok-err : {error : AppError} {findings : List Finding} → ok findings ≢ err error
ok-err h = cc

zero_left : (n : ℕ) → 0 + n ≡ n
zero_left n = omega arith

take-split : (done rest : List (List ReviewWorkItem)) → take (length done) (done ++ rest) ≡ done
take-split [] rest = refl
take-split (b ∷ done) rest = ap (◌∷◌ b) (take-split done rest)

module _ (single : SingleReview) (config : AiReviewConfig) (changes : List GitLabChange) where
  finish_run-IsDone :
      (plan : AiReviewBatchPlan) (findings : List Finding) (rs : List AiReviewSingleResult)
      → IsPlanned plan changes
      → Answers single (length plan.batches) 0 plan.batches rs
      → (finish_run plan (complete_all initial_running rs)).result ≡ ok findings
      → IsDone single changes plan (finish_run plan (complete_all initial_running rs)) findings
  unfolding finish_run
  finish_run-IsDone plan findings rs p answers h =
      let completed = complete_all-completed initial_running rs in
      let n = length-Answers single config (length plan.batches) 0 plan.batches rs answers in
      record {
        answered = (
          rs,
          answers,
          ok-injective (finish_run plan (complete_all initial_running rs)).result refl h
              ∙ complete_all-findings initial_running rs,
        );
        all_completed = omega (arith, completed, n, p.0);
        complete_iff = ground (arith, completed, n, p.0, p.1);
      }

  fail_run-IsFailed :
      (plan : AiReviewBatchPlan) (done : List (List ReviewWorkItem)) (b : List ReviewWorkItem)
      (later : List (List ReviewWorkItem)) (rs : List AiReviewSingleResult)
      (error error1 : AppError)
      → plan.batches ≡ done ++ b ∷ later
      → Answers single (length plan.batches) 0 done rs
      → Fails single config (length plan.batches) (length done) b error
      → (fail_run plan changes (complete_all initial_running rs) (length done) error).result
        ≡ err error1
      → IsFailed single config changes plan
          (fail_run plan changes (complete_all initial_running rs) (length done) error)
          error1
  unfolding fail_run apply_batch_failure_coverage
  fail_run-IsFailed plan done b later rs error error1 split answers fails h =
      let completed = complete_all-completed initial_running rs in
      let n = length-Answers single config (length plan.batches) 0 done rs answers in
      let before : take (length done) plan.batches ≡ done =
        ap (take (length done)) split ∙ take-split done (b ∷ later) in
      let counts = summarize_counts changes (concat done) in
      let same : error ≡ error1 = cc in
      record {
        done = done;
        batch = b;
        later = later;
        split = split;
        answered = (rs, answers);
        failed = fails ∙ ap (λ e. err e) same;
        completed = omega (arith, completed, n);
        incomplete = refl;
        bytes = rw (before) counts.3;
        files = rw (before) counts.0;
      }

  run_plan-IsDone :
      (plan : AiReviewBatchPlan) (findings : List Finding)
      → IsPlanned plan changes
      → (run_plan single config changes plan).result ≡ ok findings
      → IsDone single changes plan (run_plan single config changes plan) findings
  unfolding run_plan fail_run
  run_plan-IsDone plan findings p h =
      let limited = with_limits config plan in
      elim (run_batches-Ends single config limited changes 0 initial_running plan.batches) [
        | inl (rs, (answers, e)) ↦
            let done =
              finish_run-IsDone limited findings rs p answers (sym (ap (λ x. x.result) e) ∙ h) in
            record {
              answered = done.answered;
              all_completed = rw (e) done.all_completed;
              complete_iff = rw (e) done.complete_iff;
            }
        | inr (done, b, later, rs, error, split, answers, fails, e) ↦
            absurd (err-ok (sym (ap (λ x. x.result) e) ∙ h))
      ]

  run_plan-IsFailed :
      (plan : AiReviewBatchPlan) (error : AppError)
      → (run_plan single config changes plan).result ≡ err error
      → IsFailed single config changes plan (run_plan single config changes plan) error
  unfolding run_plan finish_run
  run_plan-IsFailed plan error h =
      let limited = with_limits config plan in
      elim (run_batches-Ends single config limited changes 0 initial_running plan.batches) [
        | inl (rs, (answers, e)) ↦ absurd (ok-err (sym (ap (λ x. x.result) e) ∙ h))
        | inr (done, b, later, rs, error0, split, answers, fails, e) ↦
            let e = rw (zero_left (length done)) at e in
            let f =
              fail_run-IsFailed limited done b later rs error0 error split answers
                (rw (zero_left (length done)) at fails) (sym (ap (λ x. x.result) e) ∙ h) in
            record {
              done = f.done;
              batch = f.batch;
              later = f.later;
              split = f.split;
              answered = f.answered;
              failed = f.failed;
              completed = rw (e) f.completed;
              incomplete = rw (e) f.incomplete;
              bytes = rw (e) f.bytes;
              files = rw (e) f.files;
            }
      ]

run_planned-ok :
    (single : SingleReview) (config : AiReviewConfig) (changes : List GitLabChange)
    (r : Result Fault AiReviewBatchPlan) {e : AiReviewExecution}
    → run_planned single config changes r ≡ ok e
    → (plan : AiReviewBatchPlan) × (r ≡ ok plan) × (run_plan single config changes plan ≡ e)
run_planned-ok single config changes (ok plan) h = (plan, refl, cc)
run_planned-ok single config changes (err e) h = cc

-- What the result of a run says of it.
abbrev pub IsEnd :
    SingleReview
    → AiReviewConfig
    → List GitLabChange
    → AiReviewBatchPlan
    → AiReviewExecution
    → Result AppError (List Finding)
    → Type 0
IsEnd single config changes plan e (ok findings) = IsDone single changes plan e findings
IsEnd single config changes plan e (err error) = IsFailed single config changes plan e error

-- A run that returns carries out the plan of its changes. With findings, every batch was reviewed in
-- order, the findings are those of all batches, all planned batches count as completed, and the
-- coverage is complete exactly where each file is fully reviewed. With an error, it is that of the
-- first batch whose review fails (or of the deadline); the batches before it count as completed, the
-- reviewed bytes are those of their items, each file is counted once, and the coverage is not complete.
pub run_batched_ai_review-IsEnd :
    (single : SingleReview) (config : AiReviewConfig) (changes : List GitLabChange)
    (e : AiReviewExecution)
    → run_batched_ai_review single config changes ≡ ok e
    → (plan : AiReviewBatchPlan) × (plan_ai_review_batches changes
          (max config.max_batch_diff_bytes 1)
          config.max_batches
        ≡ ok plan)
      × IsEnd single config changes plan e e.result
unfolding run_batched_ai_review
run_batched_ai_review-IsEnd single config changes e h =
    let bytes = max config.max_batch_diff_bytes 1 in
    let (plan, planned, ran) =
      run_planned-ok single config changes (plan_ai_review_batches changes bytes config.max_batches)
        h in
    let (items, built, p) =
      plan_ai_review_batches-IsPlan changes bytes config.max_batches plan planned in
    (
      plan,
      planned,
      subst (λ x. IsEnd single config changes plan x x.result) ran
          (by_result plan (p.planned, p.files ∙ p.all_files)
            (run_plan single config changes plan).result refl),
    )
  where
    by_result :
        (plan : AiReviewBatchPlan)
        → IsPlanned plan changes
        → (r : Result AppError (List Finding)) → (run_plan single config changes plan).result ≡ r
        → IsEnd single config changes plan (run_plan single config changes plan) r
    by_result plan p (ok findings) h = run_plan-IsDone single config changes plan findings p h
    by_result plan p (err error) h = run_plan-IsFailed single config changes plan error h

-- A run returns for all changes, whatever the reviews of its batches return, where no line of a diff
-- begins with `@@ @@`.
pub run_batched_ai_review-total :
    (single : SingleReview) (config : AiReviewConfig) (changes : List GitLabChange)
    → All (λ c. All IsHeaderSafe (lines c.diff)) changes
    → (e : AiReviewExecution) × (run_batched_ai_review single config changes ≡ ok e)
unfolding run_batched_ai_review
run_batched_ai_review-total single config changes safe =
    let (plan, made) =
      plan_ai_review_batches-total changes (max config.max_batch_diff_bytes 1) config.max_batches
        safe in
    (run_plan single config changes plan, ap (run_planned single config changes) made)
