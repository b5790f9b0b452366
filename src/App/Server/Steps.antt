-- ===== src/App/Server/Steps.antt =====
-- The webhook handler of src/app/server.rs against the registry and the scheduler: every request is a
-- sequence of their steps.
use git_lab_work_runner.Base.{
  ℕ, suc, ◌≤◌, ◌&&◌, Option, none, some, List, [], ◌∷◌, Str, is_empty, All, All-kept, Result, ok,
  err, ◌≡◌, refl, subst, if_holds,
}
use git_lab_work_runner.App.Error.{AppError}
use git_lab_work_runner.App.Webhook.{
  GitLabWebhookEvent, merge_request, merge_request_note, MergeRequestNoteEvent, validate_token,
  parse_gitlab_webhook_event,
}
use git_lab_work_runner.App.ActiveReviews.{
  ActiveReviewStart, ActiveReviewStartError, duplicate, queue_busy, ActiveReviews, try_start,
}
use git_lab_work_runner.App.ActiveReviews.Worlds as Reviews
use git_lab_work_runner.App.ScriptScheduler.{
  ScriptTaskPermit, ScriptTaskBusy, ScriptTaskScheduler, try_acquire,
}
use git_lab_work_runner.App.ScriptScheduler.Worlds as Scripts
use git_lab_work_runner.Review.Rules.{
  Ruleset, AiReviewConfig, ScriptTaskConfig, ai_reviews_by_ids, script_tasks_by_ids,
}
use git_lab_work_runner.App.Server.{
  AppState, Dispatch, Response, review_outcome, key_of, start_reviews, task_outcome, start_tasks,
  answer_dispatch, requested_ids, AppConfig, gitlab_token, handle_note, with_token, handle_event,
  authorized, gitlab_webhook, internal_server_error, bad_request, no_event, ignored, unauthorized,
}

-- A predicate holds of the handler's result if it holds of every answer without a dispatch, which
-- leaves the state, and of every dispatch.
module _ {ℓ} (c : AppConfig) (run : Str) (fresh : ℕ → Str) (state : AppState)
    (P : AppState × Response → Type ℓ) (refused : (message : Str) → P (state, unauthorized message))
    (malformed : (message : Str) → P (state, bad_request message))
    (failed : (message : Str) → P (state, internal_server_error message))
    (empty : P (state, no_event)) (unrequested : (reason : Str) → P (state, ignored run reason))
    (dispatched : (note : MergeRequestNoteEvent) (rules : Ruleset)
      → c.rules_file ≡ ok rules
      → P (
          answer_dispatch rules run (script_tasks_by_ids rules (requested_ids note)) (
            start_tasks note fresh 0 (script_tasks_by_ids rules (requested_ids note)) (
              start_reviews rules note run
                (ai_reviews_by_ids rules (requested_ids note))
                state)))) where
  handle_note-ways :
      (note : MergeRequestNoteEvent) (rules_file : Result AppError Ruleset)
      → c.rules_file ≡ rules_file
      → P (handle_note c run fresh note state rules_file)
  unfolding handle_note
  handle_note-ways note (err e) h = failed _
  handle_note-ways note (ok rules) h =
      if_holds P
        (is_empty (ai_reviews_by_ids rules (requested_ids note))
          && is_empty (script_tasks_by_ids rules (requested_ids note)))
        _ _ (λ y. unrequested _) (λ n. dispatched note rules h)

  with_token-ways :
      (note : MergeRequestNoteEvent) (token : Result AppError Str)
      → P (with_token c run fresh note state token)
  with_token-ways note (err e) = failed _
  with_token-ways note (ok token) = handle_note-ways note c.rules_file refl

  handle_event-ways :
      (event : Result AppError (Option GitLabWebhookEvent))
      → P (handle_event c run fresh state event)
  handle_event-ways (err e) = malformed _
  handle_event-ways (ok none) = empty
  handle_event-ways (ok (some (merge_request event))) = unrequested _
  handle_event-ways (ok (some (merge_request_note note))) = with_token-ways note (gitlab_token c)

  authorized-ways :
      (body : Str) (valid : Result AppError (Unit {0}))
      → P (authorized c run fresh body state valid)
  authorized-ways body (err e) = refused _
  authorized-ways body (ok u) = handle_event-ways (parse_gitlab_webhook_event c.serde body)

  pub gitlab_webhook-ways :
      (token : Option Str) (body : Str) → P (gitlab_webhook c run fresh token body state)
  unfolding gitlab_webhook
  gitlab_webhook-ways token body = authorized-ways body (validate_token c.webhook_secret token)

module _ (bound : ℕ) (limit : Str → ℕ) where
  -- The rules set limits of at most these.
  abbrev pub LimitsWithin : Result AppError Ruleset → Type 0
  LimitsWithin (err e) = Unit
  LimitsWithin (ok rules) =
      (rules.max_concurrent_reviews ≤ bound)
      × All (λ (task : ScriptTaskConfig). task.max_concurrent ≤ limit task.id) rules.script_tasks

  abbrev pub IsReached : AppState → Type 0
  IsReached state = Reviews.Reach bound state.reviews × Scripts.Reach limit state.scripts

  review_outcome-IsReached :
      (rules : Ruleset) (note : MergeRequestNoteEvent) (run : Str) (state : AppState)
      (r : ActiveReviews × Result ActiveReviewStartError ActiveReviewStart)
      → rules.max_concurrent_reviews ≤ bound
      → try_start state.reviews.running (key_of note) run rules.max_concurrent_reviews ≡ r
      → IsReached state
      → IsReached (review_outcome note run state r).state
  review_outcome-IsReached rules note run state (running, ok start) low h reached = (
    Reviews.then_step reached.0
        (Reviews.starts (key_of note) run rules.max_concurrent_reviews running start low h refl),
    reached.1,
  )
  review_outcome-IsReached rules note run state (running, err (duplicate active n)) low h reached =
      (
        Reviews.then_step reached.0
            (Reviews.rejects (key_of note) run rules.max_concurrent_reviews running _ h refl),
        reached.1,
      )
  review_outcome-IsReached rules note run state (running, err (queue_busy n m)) low h reached = (
    Reviews.then_step reached.0
        (Reviews.rejects (key_of note) run rules.max_concurrent_reviews running _ h refl),
    reached.1,
  )

  start_reviews-IsReached :
      (rules : Ruleset) (note : MergeRequestNoteEvent) (run : Str) (reviews : List AiReviewConfig)
      (state : AppState)
      → rules.max_concurrent_reviews ≤ bound
      → IsReached state
      → IsReached (start_reviews rules note run reviews state).state
  unfolding start_reviews
  start_reviews-IsReached rules note run [] state low reached = reached
  start_reviews-IsReached rules note run (review ∷ rest) state low reached =
      review_outcome-IsReached rules note run state _ low refl reached

  task_outcome-IsReached :
      (note : MergeRequestNoteEvent) (task : ScriptTaskConfig) (run : Str) (d : Dispatch)
      (r : ScriptTaskScheduler × Result ScriptTaskBusy ScriptTaskPermit)
      → task.max_concurrent ≤ limit task.id
      → try_acquire d.state.scripts.active task.id task.max_concurrent ≡ r
      → IsReached d.state
      → IsReached (task_outcome note task run d r).state
  task_outcome-IsReached note task run d (active, ok permit) low h reached = (
    reached.0,
    Scripts.then_step reached.1
        (Scripts.acquires task.id task.max_concurrent active permit low h refl),
  )
  task_outcome-IsReached note task run d (active, err busy) low h reached = (
    reached.0,
    Scripts.then_step reached.1 (Scripts.refuses task.id task.max_concurrent active busy h refl),
  )

  start_tasks-IsReached :
      (note : MergeRequestNoteEvent) (fresh : ℕ → Str) (index : ℕ) (tasks : List ScriptTaskConfig)
      (d : Dispatch)
      → All (λ (task : ScriptTaskConfig). task.max_concurrent ≤ limit task.id) tasks
      → IsReached d.state
      → IsReached (start_tasks note fresh index tasks d).state
  unfolding start_tasks
  start_tasks-IsReached note fresh index [] d low reached = reached
  start_tasks-IsReached note fresh index (task ∷ rest) d low reached =
      start_tasks-IsReached note fresh (suc index) rest _ low.1
        (task_outcome-IsReached note task (fresh index) d _ low.0 refl reached)

  -- Under limits that the rules keep, a webhook request takes a reachable state of the registry and of the
  -- scheduler, with the guards and permits of the spawned tasks alive, to a reachable one.
  pub gitlab_webhook-IsReached :
      (c : AppConfig) (run : Str) (fresh : ℕ → Str) (token : Option Str) (body : Str)
      (state : AppState)
      → LimitsWithin c.rules_file
      → IsReached state
      → IsReached (gitlab_webhook c run fresh token body state).0
  unfolding script_tasks_by_ids
  gitlab_webhook-IsReached c run fresh token body state low reached =
      gitlab_webhook-ways c run fresh state (λ r. IsReached r.0) (λ m. reached) (λ m. reached)
        (λ m. reached) reached (λ m. reached)
        (λ note rules e.
          let low' : LimitsWithin (ok rules) = subst LimitsWithin e low in
          start_tasks-IsReached note fresh 0 (script_tasks_by_ids rules (requested_ids note)) _
            (All-kept _ _ rules.script_tasks low'.1)
            (start_reviews-IsReached rules note run _ state low'.0 reached))
        token body
