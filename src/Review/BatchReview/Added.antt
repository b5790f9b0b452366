-- ===== src/Review/BatchReview/Added.antt =====
-- What a run over the batches of src/review/ai.rs reports, where its batches are reviewed by
-- `run_ai_review_single`.
use git_lab_work_runner.Base.{
  ℕ, ◌+◌, ◌≡◌, sym, subst, inl, inr, some, List, [], ◌∷◌, length, max, All, All-append, All-map, ok,
}
use git_lab_work_runner.Review.WorkItems.{GitLabChange, ReviewWorkItem}
use git_lab_work_runner.Review.Rules.{AiReviewConfig, Finding}
use git_lab_work_runner.Review.Findings.Added.{Any, IsOnAdded}
use git_lab_work_runner.Review.Batches.{
  AiReviewBatchPlan, AiReviewSingleResult, AiReviewExecution, SingleReview, plan_ai_review_batches,
  run_batched_ai_review,
}
use git_lab_work_runner.Review.Batches.Loops.{batch_changes, Answers, all_of}
use git_lab_work_runner.Review.Batches.Runs.{IsEnd, run_batched_ai_review-IsEnd}
use git_lab_work_runner.Review.Completion.Requests.{Service}
use git_lab_work_runner.Review.Single.Sound.{run_ai_review_single-AreAdded}
use git_lab_work_runner.Review.BatchReview.{RunOptions, batch_input, IsReviewOf}

-- The finding is on a line that a change of one of the batches adds.
abbrev pub IsInBatch : List (List ReviewWorkItem) → Finding → Type 0
IsInBatch batches finding = Any (λ b. IsOnAdded (batch_changes b) finding) batches

module _ (services : ℕ → Service) (options : RunOptions) (config : AiReviewConfig) (fuel : ℕ)
    (single : SingleReview) (reviews : IsReviewOf services options config fuel single) where
  batch-AreAdded :
      (index count : ℕ) (b : List ReviewWorkItem) (r : AiReviewSingleResult)
      → single index count (batch_changes b) ≡ some (ok r)
      → All (IsOnAdded (batch_changes b)) r.findings
  unfolding batch_input
  batch-AreAdded index count b r h =
      run_ai_review_single-AreAdded (services index)
        (batch_input options config index count (batch_changes b)) fuel r
        (reviews index count (batch_changes b) r h)

  Answers-AreAdded :
      (count index : ℕ) (bs : List (List ReviewWorkItem)) (rs : List AiReviewSingleResult)
      → Answers single count index bs rs
      → All (IsInBatch bs) (all_of rs)
  Answers-AreAdded count index [] [] h = tt
  Answers-AreAdded count index [] (r ∷ rs) h = absurd h
  Answers-AreAdded count index (b ∷ bs) [] h = absurd h
  Answers-AreAdded count index (b ∷ bs) (r ∷ rs) h =
      All-append (IsInBatch (b ∷ bs)) r.findings (all_of rs)
        (All-map r.findings (λ f on. inl on) (batch-AreAdded (index + 1) count b r h.0))
        (All-map (all_of rs) (λ f later. inr later) (Answers-AreAdded count (index + 1) bs rs h.1))

  -- Each finding of a run that succeeds is on a line that a change of one of its planned batches adds,
  -- where the batches are reviewed by `run_ai_review_single`.
  pub run_batched_ai_review-AreAdded :
      (changes : List GitLabChange) (e : AiReviewExecution) (findings : List Finding)
      → run_batched_ai_review single config changes ≡ ok e
      → e.result ≡ ok findings
      → (plan : AiReviewBatchPlan) × (plan_ai_review_batches changes
            (max config.max_batch_diff_bytes 1)
            config.max_batches
          ≡ ok plan)
        × All (IsInBatch plan.batches) findings
  run_batched_ai_review-AreAdded changes e findings h found =
      let (plan, planned, end) = run_batched_ai_review-IsEnd single config changes e h in
      let (rs, answers, all) = (subst (IsEnd single config changes plan e) found end).answered in
      (
        plan,
        planned,
        subst (All (IsInBatch plan.batches)) (sym all)
            (Answers-AreAdded (length plan.batches) 0 plan.batches rs answers),
      )
