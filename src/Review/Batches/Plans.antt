-- ===== src/Review/Batches/Plans.antt =====
-- The plans that `plan_ai_review_batches` of src/review/ai.rs makes.
use git_lab_work_runner.Base.{
  ℕ, zero, suc, ◌+◌, ◌≤◌, ◌≡◌, ◌≢◌, refl, sym, ap, ◌∙◌, subst, ◌>>=◌, inl, inr, Bool, List, [], ◌∷◌,
  ◌++◌, append_assoc, arith, leb, lines, Bool-cases, byte_len, length, length-take, max, take, drop,
  All, All-append, All-left, All-right, All-map, All-take, concat, keep_if, Result, ok, err,
  >>=-eq-ok,
}
use git_lab_work_runner.Review.Diff.{DiffFile, Fault, failed, panicked, parse_unified_diff}
use git_lab_work_runner.Review.Diff.Panics.{IsHeaderSafe, parse_unified_diff-quiet}
use git_lab_work_runner.Review.WorkItems.{
  GitLabChange, ReviewWorkItem, split_by_parse, split_change_into_review_work_items,
  build_review_work_items,
}
use git_lab_work_runner.Review.WorkItems.Bounds.{split_change-IsItemOf}
use git_lab_work_runner.Review.Coverage.Counts.{summarize_counts}
use git_lab_work_runner.Review.Batches.{
  AiReviewBatchPlan, pack, planned_count, is_reviewable, is_not_reviewable, plan_of_items,
  plan_built, plan_ai_review_batches,
}
use git_lab_work_runner.Review.Batches.Packs.{batch_bytes, IsBatch, pack-IsPacking}

-- An item's payload fits the limit, or four bytes.
abbrev pub IsSmall : ℕ → ReviewWorkItem → Type 0
IsSmall limit i = i.payload_diff_bytes ≤ max limit 4

build-AreSmall :
    (changes : List GitLabChange) (limit : ℕ) (items : List ReviewWorkItem)
    → build_review_work_items changes limit ≡ ok items
    → All (IsSmall limit) items
unfolding build_review_work_items
build-AreSmall [] limit [] h = tt
build-AreSmall [] limit (i ∷ items) h = cc
build-AreSmall (change ∷ rest) limit items h =
    let (a, ea, h1) =
      >>=-eq-ok (split_change_into_review_work_items change limit)
        (λ xs. build_review_work_items rest limit >>= (λ ys. ok (xs ++ ys))) h in
    let (b, eb, h2) = >>=-eq-ok (build_review_work_items rest limit) (λ ys. ok (a ++ ys)) h1 in
    let same : a ++ b ≡ items = cc in
    subst (All (IsSmall limit)) same (
      All-append (IsSmall limit) a b
        (All-map a (λ i p. p.bounded) (split_change-IsItemOf change limit ea))
        (build-AreSmall rest limit b eb))

All-keep_if :
    (P : ReviewWorkItem → Type 0) (p : ReviewWorkItem → Bool) (xs : List ReviewWorkItem)
    → All P xs
    → All P (keep_if p xs)
All-keep_if P p [] h = tt
All-keep_if P p (x ∷ xs) h = elim (Bool-cases (p x)) [
  | inl y ↦ rw (y, keep_if) (h.0, All-keep_if P p xs h.1)
  | inr n ↦ rw (n, keep_if) (All-keep_if P p xs h.1)
]

-- A batch that holds an item and has at most `limit` bytes, or four.
abbrev pub IsBounded : ℕ → List ReviewWorkItem → Type 0
IsBounded limit b = (b ≢ []) × (batch_bytes b ≤ max limit 4)

one-IsBounded :
    (limit : ℕ) (b : List ReviewWorkItem)
    → All (IsSmall limit) b
    → IsBatch limit b
    → IsBounded limit b
one-IsBounded limit [] h p = absurd (p.0 refl)
one-IsBounded limit (i ∷ []) h p = (p.0, omega (arith, h.0))
one-IsBounded limit (i ∷ j ∷ b) h p =
    (p.0, elim p.1 [ inl fits ↦ omega (arith, fits) | inr one ↦ absurd (omega (arith, one)) ])

packed-AreBounded :
    (limit : ℕ) (bs : List (List ReviewWorkItem))
    → All (IsSmall limit) (concat bs)
    → All (IsBatch limit) bs
    → All (IsBounded limit) bs
packed-AreBounded limit [] h p = tt
packed-AreBounded limit (b ∷ bs) h p = (
  one-IsBounded limit b (All-left (IsSmall limit) b (concat bs) h) p.0,
  packed-AreBounded limit bs (All-right (IsSmall limit) b (concat bs) h) p.1,
)

take-drop :
    (n : ℕ) (bs : List (List ReviewWorkItem)) → concat (take n bs) ++ concat (drop n bs) ≡ concat bs
take-drop zero bs = refl
take-drop (suc n) [] = refl
take-drop (suc n) (b ∷ bs) =
    append_assoc b (concat (take n bs)) (concat (drop n bs)) ∙ ap (λ xs. b ++ xs) (take-drop n bs)

plan_built-ok :
    (changes : List GitLabChange) (limit max_batches : ℕ) (r : Result Fault (List ReviewWorkItem))
    {plan : AiReviewBatchPlan}
    → plan_built changes limit max_batches r ≡ ok plan
    → (items : List ReviewWorkItem) × ((r ≡ ok items)
        × (plan_of_items changes limit max_batches items ≡ plan))
plan_built-ok changes limit max_batches (ok items) h = (items, (refl, cc))
plan_built-ok changes limit max_batches (err e) h = cc

-- A plan holds a beginning of the packed batches: those left over hold the rest of the items.
pub record IsPlan (changes : List GitLabChange) (limit max_batches : ℕ)
    (items : List ReviewWorkItem) (plan : AiReviewBatchPlan) : Type 0 where
  pub in_order :
      (left_over : List ReviewWorkItem) × (concat plan.batches ++ left_over
        ≡ keep_if is_reviewable items)
      × ((max_batches ≡ 0) → left_over ≡ [])
  pub bounded : All (IsBounded limit) plan.batches
  pub planned : length plan.batches ≡ plan.coverage.planned_batches
  pub wanted :
      plan.coverage.planned_batches ≡ planned_count plan.coverage.required_batches max_batches
  pub files :
      plan.coverage.fully_reviewed_files + plan.coverage.partially_reviewed_files
        + plan.coverage.unreviewed_files
      ≡ plan.coverage.total_files
  pub all_files : plan.coverage.total_files ≡ length changes
  pub bytes : plan.coverage.reviewed_diff_bytes ≤ plan.coverage.total_diff_bytes

drop_all : (bs : List (List ReviewWorkItem)) → concat (drop (length bs) bs) ≡ []
drop_all [] = refl
drop_all (b ∷ bs) = drop_all bs

plan_of_items-IsPlan :
    (changes : List GitLabChange) (limit max_batches : ℕ) (items : List ReviewWorkItem)
    → All (IsSmall limit) items
    → IsPlan changes limit max_batches items (plan_of_items changes limit max_batches items)
unfolding plan_of_items
plan_of_items-IsPlan changes limit max_batches items small =
    let kept = keep_if is_reviewable items in
    let bs = pack limit kept in
    let (whole, fits) = pack-IsPacking limit kept in
    let n = planned_count (length bs) max_batches in
    let counts = summarize_counts changes (concat (take n bs) ++ keep_if is_not_reviewable items) in
    record {
      in_order =
          (concat (drop n bs), take-drop n bs ∙ whole, (λ unlimited. rw (unlimited) (drop_all bs)));
      bounded = All-take (IsBounded limit) n bs (
          packed-AreBounded limit bs
            (subst (All (IsSmall limit)) (sym whole)
              (All-keep_if (IsSmall limit) is_reviewable items small))
            fits.0);
      planned = ground (arith, length-take n bs);
      wanted = refl;
      files = counts.0;
      all_files = refl;
      bytes = counts.4;
    }

-- Where the plan is made, the changes have their work items, and the plan holds the reviewable ones in
-- order, all of them without a limit on batches, each batch not empty and in the byte limit (or four
-- bytes); the counts of batches and of files agree with each other, and no more bytes are reviewed than
-- the diffs have.
pub plan_ai_review_batches-IsPlan :
    (changes : List GitLabChange) (max_bytes max_batches : ℕ) (plan : AiReviewBatchPlan)
    → plan_ai_review_batches changes max_bytes max_batches ≡ ok plan
    → (items : List ReviewWorkItem) × (build_review_work_items changes (max max_bytes 1) ≡ ok items)
      × IsPlan changes (max max_bytes 1) max_batches items plan
unfolding plan_ai_review_batches
plan_ai_review_batches-IsPlan changes max_bytes max_batches plan h =
    let limit = max max_bytes 1 in
    let (items, (built, made)) =
      plan_built-ok changes limit max_batches (build_review_work_items changes limit) h in
    (
      items,
      built,
      subst (IsPlan changes limit max_batches items) made (
          plan_of_items-IsPlan changes limit max_batches items
            (build-AreSmall changes limit items built)),
    )

abbrev pub IsQuiet : GitLabChange → Type 0
IsQuiet c = parse_unified_diff c.old_path c.new_path c.diff ≢ err panicked

pub split_change-total :
    (change : GitLabChange) (limit : ℕ)
    → IsQuiet change
    → (items : List ReviewWorkItem) × (split_change_into_review_work_items change limit ≡ ok items)
unfolding split_change_into_review_work_items
split_change-total change limit quiet = elim (Bool-cases (leb (byte_len change.diff) limit)) [
  | inl y ↦ rw (y, split_change_into_review_work_items) (_, refl)
  | inr n ↦
      rw (n, split_change_into_review_work_items)
        (by_parse (parse_unified_diff change.old_path change.new_path change.diff) quiet)
]
  where
    by_parse :
        (r : Result Fault DiffFile)
        → r ≢ err panicked
        → (items : List ReviewWorkItem) × (split_by_parse change limit r ≡ ok items)
    by_parse (ok diff_file) h = (_, refl)
    by_parse (err (failed e)) h = (_, refl)
    by_parse (err panicked) h = absurd (h refl)

build-total :
    (changes : List GitLabChange) (limit : ℕ)
    → All IsQuiet changes
    → (items : List ReviewWorkItem) × (build_review_work_items changes limit ≡ ok items)
unfolding build_review_work_items
build-total [] limit quiet = ([], refl)
build-total (change ∷ rest) limit quiet =
    let (a, ea) = split_change-total change limit quiet.0 in
    let (b, eb) = build-total rest limit quiet.1 in (a ++ b, rw (ea, eb) refl)

-- A plan is made for all changes, where no line of a diff begins with `@@ @@`.
pub plan_ai_review_batches-total :
    (changes : List GitLabChange) (max_bytes max_batches : ℕ)
    → All (λ c. All IsHeaderSafe (lines c.diff)) changes
    → (plan : AiReviewBatchPlan) × (plan_ai_review_batches changes max_bytes max_batches ≡ ok plan)
unfolding plan_ai_review_batches
plan_ai_review_batches-total changes max_bytes max_batches safe =
    let (items, built) =
      build-total changes (max max_bytes 1)
        (All-map changes (λ c h. parse_unified_diff-quiet c.old_path c.new_path c.diff h) safe) in
    rw (built) (_, refl)
