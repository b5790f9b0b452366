-- ===== src/Review/Batches/Loops.antt =====
-- The loop over the batches of src/review/ai.rs: where it ends, and what it has counted by then.
use git_lab_work_runner.Base.{
  ℕ, suc, ◌+◌, ◌≡◌, refl, sym, ap, ◌∙◌, subst, ◌⊎◌, inl, inr, Option, none, some, List, [], ◌∷◌,
  ◌++◌, map, append_assoc, append-nil, arith, length, Result, ok, err,
}
use git_lab_work_runner.App.Error.{AppError}
use git_lab_work_runner.Review.WorkItems.{GitLabChange, ReviewWorkItem}
use git_lab_work_runner.Review.Rules.{AiReviewConfig, Finding}
use git_lab_work_runner.Review.Batches.{
  AiReviewBatchPlan, AiReviewSingleResult, AiReviewExecution, SingleReview, or_deadline,
  ai_review_deadline_error, Running, complete_batch, finish_run, fail_run, run_batches,
}

abbrev pub batch_changes : List ReviewWorkItem → List GitLabChange
batch_changes b = map (λ (item : ReviewWorkItem). item.change) b

-- What the reviews of batches returned, from an index: a result for each.
abbrev pub Answers :
    SingleReview → ℕ → ℕ → List (List ReviewWorkItem) → List AiReviewSingleResult → Type 0
Answers single total index [] [] = Unit
Answers single total index [] (r ∷ rs) = ⊥
Answers single total index (b ∷ bs) [] = ⊥
Answers single total index (b ∷ bs) (r ∷ rs) =
    (single (index + 1) total (batch_changes b) ≡ some (ok r))
    × Answers single total (index + 1) bs rs

abbrev pub all_of : List AiReviewSingleResult → List Finding
all_of [] = []
all_of (r ∷ rs) = r.findings ++ all_of rs

pub complete_all : Running → List AiReviewSingleResult → Running
complete_all s [] = s
complete_all s (r ∷ rs) = complete_all (complete_batch s r) rs

pub complete_all-findings :
    (s : Running) (rs : List AiReviewSingleResult)
    → (complete_all s rs).all_findings ≡ s.all_findings ++ all_of rs
unfolding complete_all complete_batch
complete_all-findings s [] = sym (append-nil s.all_findings)
complete_all-findings s (r ∷ rs) =
    complete_all-findings (complete_batch s r) rs
    ∙ append_assoc s.all_findings r.findings (all_of rs)

pub complete_all-completed :
    (s : Running) (rs : List AiReviewSingleResult)
    → (complete_all s rs).completed_batches ≡ s.completed_batches + length rs
unfolding complete_all complete_batch
complete_all-completed s [] = omega arith
complete_all-completed s (r ∷ rs) = omega (arith, complete_all-completed (complete_batch s r) rs)

module _ (single : SingleReview) (config : AiReviewConfig) where
  pub length-Answers :
      (total index : ℕ) (bs : List (List ReviewWorkItem)) (rs : List AiReviewSingleResult)
      → Answers single total index bs rs
      → length rs ≡ length bs
  length-Answers total index [] [] h = refl
  length-Answers total index [] (r ∷ rs) h = absurd h
  length-Answers total index (b ∷ bs) [] h = absurd h
  length-Answers total index (b ∷ bs) (r ∷ rs) h =
      ap suc (length-Answers total (index + 1) bs rs h.1)

  -- The review of a batch fails, or the deadline passes in it.
  abbrev pub Fails : ℕ → ℕ → List ReviewWorkItem → AppError → Type 0
  Fails total index b error =
      or_deadline config (single (index + 1) total (batch_changes b)) ≡ err error

  module _ (plan : AiReviewBatchPlan) (changes : List GitLabChange) where
    abbrev pub Ends : ℕ → Running → List (List ReviewWorkItem) → AiReviewExecution → Type 0
    Ends index s bs e =
        ((rs : List AiReviewSingleResult) × (Answers single (length plan.batches) index bs rs
            × (e ≡ finish_run plan (complete_all s rs))))
        ⊎ ((done : List (List ReviewWorkItem)) × (b : List ReviewWorkItem) × (later : List
              (List ReviewWorkItem))
            × (rs : List AiReviewSingleResult) × (error : AppError) × (bs ≡ done ++ b ∷ later)
            × Answers single (length plan.batches) index done rs
            × Fails (length plan.batches) (index + length done) b error
            × (e ≡ fail_run plan changes (complete_all s rs) (index + length done) error))

    pub run_batches-Ends :
        (index : ℕ) (s : Running) (bs : List (List ReviewWorkItem))
        → Ends index s bs (run_batches single config plan changes index s bs)
    unfolding run_batches complete_all
    run_batches-Ends index s [] = inl ([], (tt, refl))
    run_batches-Ends index s (b ∷ rest) =
        step (single (index + 1) (length plan.batches) (batch_changes b)) refl
          (λ r. run_batches-Ends (index + 1) (complete_batch s r) rest)
      where
        now : index + 0 ≡ index
        now = omega arith

        later_index : (n : ℕ) → (index + 1) + n ≡ index + suc n
        later_index n = omega arith

        step :
            (answer : Option (Result AppError AiReviewSingleResult))
            → single (index + 1) (length plan.batches) (batch_changes b) ≡ answer
            → ((r : AiReviewSingleResult)
                → Ends
                    (index + 1)
                    (complete_batch s r)
                    rest
                    (run_batches single config plan changes (index + 1) (complete_batch s r) rest))
            → Ends index s (b ∷ rest) (run_batches single config plan changes index s (b ∷ rest))
        step (some (ok r)) h ih = elim (ih r) [
          | inl (rs, (answers, e)) ↦ inl (r ∷ rs, ((h, answers), rw (h, run_batches) e))
          | inr (done, c, later, rs, error, split, answers, fails, e) ↦ inr (
            b ∷ done,
            c,
            later,
            r ∷ rs,
            error,
            ap (◌∷◌ b) split,
            (h, answers),
            subst (λ n. Fails (length plan.batches) n c error) (later_index (length done)) fails,
            rw (h, run_batches)
                (e
                  ∙ ap (λ n. fail_run plan changes (complete_all (complete_batch s r) rs) n error)
                      (later_index (length done))),
          )
        ]
        step (some (err error)) h ih =
            inr ([], b, rest, [], error, refl, tt, rw (now, h) refl, rw (now, h, run_batches) refl)
        step none h ih = inr (
          [],
          b,
          rest,
          [],
          ai_review_deadline_error config,
          refl,
          tt,
          rw (now, h) refl,
          rw (now, h, run_batches) refl,
        )
