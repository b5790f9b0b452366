-- ===== src/App/Server/Answers.antt =====
-- What the answers of the webhook handler of src/app/server.rs say of the work that was begun.
use git_lab_work_runner.Base.{
  ℕ, suc, ◌+◌, ◌≤◌, ◌<◌, Bool, true, false, Option, none, some, List, [], ◌∷◌, ◌==◌, if◌then◌else◌,
  Str, length, length-append, Result, ok, err, ◌≡◌, ◌⊎◌, refl, ap, ◌∙◌, inl, inr, arith,
}
use git_lab_work_runner.App.Webhook.{MergeRequestNoteEvent}
use git_lab_work_runner.App.ActiveReviews.{
  ActiveReviewStart, ActiveReviewStartError, duplicate, queue_busy, ActiveReviews, try_start,
}
use git_lab_work_runner.App.ActiveReviews.Worlds as Reviews
use git_lab_work_runner.App.ScriptScheduler.{
  ScriptTaskPermit, ScriptTaskBusy, ScriptTaskScheduler, try_acquire,
}
use git_lab_work_runner.App.ScriptScheduler.Worlds as Scripts
use git_lab_work_runner.Review.Rules.{Ruleset, AiReviewConfig, ScriptTaskConfig}
use git_lab_work_runner.App.Server.{
  AppState, Dispatch, Response, accepted, accepted_runs, AiRejection, duplicate_review, busy_review,
  review_outcome, key_of, start_reviews, task_outcome, start_tasks, rejected, respond, AppConfig,
  gitlab_webhook,
}
use git_lab_work_runner.App.Server.Steps.{gitlab_webhook-ways}

-- Whether the JSON of the answer says `"accepted": true`.
abbrev pub is_accepted : Response → Bool
is_accepted (accepted run) = true
is_accepted (accepted_runs run results) = true
is_accepted _ = false

-- The reviews and the script tasks at work.
abbrev pub at_work : AppState → ℕ
at_work state = length state.reviews.live + length state.scripts.live

abbrev pub AreSame : AppState → AppState → Type 0
AreSame state state' = (state'.reviews ≡ state.reviews) × (state'.scripts ≡ state.scripts)

try_acquire-err :
    (m m' : ScriptTaskScheduler) (id : Str) (n : ℕ) (busy : ScriptTaskBusy)
    → try_acquire m id n ≡ (m', err busy)
    → m' ≡ m
unfolding try_acquire
try_acquire-err m m' id n busy h = ground arith

module _ (state : AppState) where
  -- As many were started as are at work now besides those before.
  abbrev Counts : Dispatch → Type 0
  Counts d =
      ((d.started ≡ 0) × AreSame state d.state)
      ⊎ ((1 ≤ d.started) × (at_work d.state ≡ at_work state + d.started))

  refused-same :
      (rules : Ruleset) (note : MergeRequestNoteEvent) (run : Str) (running : ActiveReviews)
      (e : ActiveReviewStartError)
      → try_start state.reviews.running (key_of note) run rules.max_concurrent_reviews
        ≡ (running, err e)
      → record { running = running; live = state.reviews.live } ≡ state.reviews
  refused-same rules note run running e h =
      let world : ActiveReviews → Reviews.World =
        λ m. record { running = m; live = state.reviews.live } in
      ap world (
        Reviews.try_start-err state.reviews.running running (key_of note) run
          rules.max_concurrent_reviews e h)

  review_outcome-Counts :
      (rules : Ruleset) (note : MergeRequestNoteEvent) (run : Str)
      (r : ActiveReviews × Result ActiveReviewStartError ActiveReviewStart)
      → try_start state.reviews.running (key_of note) run rules.max_concurrent_reviews ≡ r
      → Counts (review_outcome note run state r)
  review_outcome-Counts rules note run (running, ok start) h =
      inr (omega arith, omega (arith, length-append state.reviews.live (start.guard ∷ [])))
  review_outcome-Counts rules note run (running, err (duplicate active n)) h =
      inl (refl, (refused-same rules note run running _ h, refl))
  review_outcome-Counts rules note run (running, err (queue_busy n m)) h =
      inl (refl, (refused-same rules note run running _ h, refl))

  start_reviews-Counts :
      (rules : Ruleset) (note : MergeRequestNoteEvent) (run : Str) (reviews : List AiReviewConfig)
      → Counts (start_reviews rules note run reviews state)
  unfolding start_reviews
  start_reviews-Counts rules note run [] = inl (refl, (refl, refl))
  start_reviews-Counts rules note run (review ∷ rest) = review_outcome-Counts rules note run _ refl

  -- A dispatch without a start leaves the state, so that its counts are the same.
  Counts-at_work : (d : Dispatch) → Counts d → at_work d.state ≡ at_work state + d.started
  Counts-at_work d (inl (none_started, same)) = omega (
    arith,
    none_started,
    ap (λ (w : Reviews.World). length w.live) same.0,
    ap (λ (w : Scripts.World). length w.live) same.1,
  )
  Counts-at_work d (inr (some_started, e)) = e

  task_outcome-Counts :
      (note : MergeRequestNoteEvent) (task : ScriptTaskConfig) (run : Str) (d : Dispatch)
      (r : ScriptTaskScheduler × Result ScriptTaskBusy ScriptTaskPermit)
      → try_acquire d.state.scripts.active task.id task.max_concurrent ≡ r
      → Counts d
      → Counts (task_outcome note task run d r)
  task_outcome-Counts note task run d (active, ok permit) h counts =
      inr (omega arith, omega (arith, Counts-at_work d counts))
  task_outcome-Counts note task run d (active, err busy) h (inr some_started) = inr some_started
  task_outcome-Counts note task run d (active, err busy) h (inl (none_started, same)) =
      let world : ScriptTaskScheduler → Scripts.World =
        λ m. record { active = m; live = d.state.scripts.live } in
      inl (
        none_started,
        (
          same.0,
          ap world
                (try_acquire-err d.state.scripts.active active task.id task.max_concurrent busy h)
              ∙ same.1,
        ),
      )

  start_tasks-Counts :
      (note : MergeRequestNoteEvent) (fresh : ℕ → Str) (index : ℕ) (tasks : List ScriptTaskConfig)
      (d : Dispatch)
      → Counts d
      → Counts (start_tasks note fresh index tasks d)
  unfolding start_tasks
  start_tasks-Counts note fresh index [] d counts = counts
  start_tasks-Counts note fresh index (task ∷ rest) d counts =
      start_tasks-Counts note fresh (suc index) rest _
        (task_outcome-Counts note task (fresh index) d _ refl counts)

  abbrev pub Answered : AppState × Response → Type 0
  Answered r =
      ((is_accepted r.1 ≡ false) × AreSame state r.0)
      ⊎ ((is_accepted r.1 ≡ true) × (at_work state < at_work r.0))

  rejected-is_accepted :
      (rules : Ruleset) (run : Str) (rejection : Option AiRejection)
      → is_accepted (rejected rules run rejection) ≡ false
  rejected-is_accepted rules run none = refl
  rejected-is_accepted rules run (some (duplicate_review active n)) = refl
  rejected-is_accepted rules run (some (busy_review n m)) = refl

  respond-Answered :
      (rules : Ruleset) (run : Str) (has_script_tasks : Bool) (d : Dispatch)
      → Counts d
      → Answered (d.state, respond rules run has_script_tasks d)
  unfolding respond
  respond-Answered rules run true d (inl (none_started, same)) = rw none_started (inl (refl, same))
  respond-Answered rules run false d (inl (none_started, same)) =
      rw none_started (inl (rejected-is_accepted rules run d.ai_rejection, same))
  respond-Answered rules run has_script_tasks d (inr (some_started, e)) =
      let is_zero : (d.started == 0) ≡ false = ground arith in
      inr (rw (is_zero, respond) (accepted_either has_script_tasks), omega (arith, some_started, e))
    where
      accepted_either :
          (b : Bool) → is_accepted (if b then accepted_runs run d.results else accepted run) ≡ true
      accepted_either true = refl
      accepted_either false = refl

  -- The handler answers that a request is accepted exactly where it has begun a review or a script task;
  -- after any other answer the registry, the scheduler, and what is at work are as before.
  pub gitlab_webhook-Answered :
      (c : AppConfig) (run : Str) (fresh : ℕ → Str) (token : Option Str) (body : Str)
      → Answered (gitlab_webhook c run fresh token body state)
  gitlab_webhook-Answered c run fresh token body =
      gitlab_webhook-ways c run fresh state Answered (λ m. inl (refl, (refl, refl)))
        (λ m. inl (refl, (refl, refl))) (λ m. inl (refl, (refl, refl))) (inl (refl, (refl, refl)))
        (λ m. inl (refl, (refl, refl)))
        (λ note rules e.
          respond-Answered rules run _ _
            (start_tasks-Counts note fresh 0 _ _ (start_reviews-Counts rules note run _)))
        token body
