-- ===== src/App/Server.antt =====
-- The webhook handler of src/app/server.rs with the answers of src/app/webhook_response.rs, and the ids
-- that a note asks for by src/review/service.rs. A task that `tokio::spawn` starts owns its guard or its
-- permit, so that these are alive from then on. The rules as read, the JSON parser and fresh run ids are
-- parameters.
pub mod Steps
pub mod Answers
use git_lab_work_runner.Base.{
  ℕ, zero, suc, ◌+◌, max, Bool, true, false, not, ◌&&◌, ◌||◌, Option, none, some, List, [], ◌∷◌,
  ◌++◌, ◌==◌, if◌then◌else◌, Str, codes, str_eq, trim, is_empty, reverse, strip_prefix,
  split_whitespace, is_ascii_alphanumeric, all, length, Result, ok, err, ◌>>=◌,
}
use git_lab_work_runner.App.Error.{AppError, config, display}
use git_lab_work_runner.App.Webhook.{
  GitLabWebhookEvent, merge_request, merge_request_note, MergeRequestNoteEvent, is_create_action,
  WebhookJson, validate_token, parse_gitlab_webhook_event,
}
use git_lab_work_runner.App.ActiveReviews.{
  ActiveReviewKey, ActiveReviewStart, ActiveReviewStartError, duplicate, queue_busy, ActiveReviews,
  try_start,
}
use git_lab_work_runner.App.ActiveReviews.Worlds as Reviews
use git_lab_work_runner.App.ScriptScheduler.{
  ScriptTaskPermit, ScriptTaskBusy, ScriptTaskScheduler, try_acquire,
}
use git_lab_work_runner.App.ScriptScheduler.Worlds as Scripts
use git_lab_work_runner.Review.Findings.{text_le}
use git_lab_work_runner.Review.Rules.{
  Ruleset, AiReviewConfig, ScriptTaskConfig, ai_reviews_by_ids, script_tasks_by_ids,
}

-- `trim_manual_trigger_token`.
abbrev is_trigger_punctuation : ℕ → Bool
is_trigger_punctuation c =
    c == b','
    || c == b'.'
    || c == b';'
    || c == b':'
    || c == b'!'
    || c == b'?'
    || c == b'('
    || c == b')'
    || c == b'['
    || c == b']'
    || c == b'{'
    || c == b'}'
    || c == b'<'
    || c == b'>'
    || c == 34
    || c == 39
    || c == 96

abbrev trim_punctuation : Str → Str
trim_punctuation [] = []
trim_punctuation (c ∷ s) = if is_trigger_punctuation c then trim_punctuation s else c ∷ s

abbrev pub trim_manual_trigger_token : Str → Str
trim_manual_trigger_token raw = reverse (trim_punctuation (reverse (trim_punctuation raw)))

abbrev pub is_trigger_char : ℕ → Bool
is_trigger_char c = is_ascii_alphanumeric c || c == b'-' || c == b'_' || c == b'.'

-- Insertion in a `BTreeSet`.
abbrev pub insert_id : Str → List Str → List Str
insert_id id [] = id ∷ []
insert_id id (other ∷ rest) =
    if str_eq id other
    then other ∷ rest
    else if text_le id other false
    then id ∷ other ∷ rest
    else other ∷ insert_id id rest

abbrev pub add_id : Option Str → List Str → List Str
add_id none ids = ids
add_id (some id) ids = if not (is_empty id) && all is_trigger_char id then insert_id id ids else ids

abbrev add_tokens : List Str → List Str → List Str
add_tokens [] ids = ids
add_tokens (raw ∷ rest) ids =
    add_tokens rest (add_id (strip_prefix b'@' (trim_manual_trigger_token raw)) ids)

unfoldable pub manual_review_ids : Str → List Str
manual_review_ids text = add_tokens (split_whitespace text) []

-- What the JSON of a started or refused dispatch says.
pub data DispatchResult : Type 0 where
  review_started : Str → DispatchResult
  review_duplicate : Str → ℕ → DispatchResult
  review_busy : ℕ → ℕ → DispatchResult
  task_started : (id review_run_id : Str) → DispatchResult
  task_busy : Str → (active_count max_concurrent : ℕ) → Str → DispatchResult

-- The answers of the handler; each but the errors and `no_event` holds the id of the run first.
pub data Response : Type 0 where
  unauthorized bad_request internal_server_error : Str → Response
  no_event : Response
  ignored : Str → Str → Response
  accepted : Str → Response
  accepted_runs : Str → List DispatchResult → Response
  dispatch_rejected : Str → List DispatchResult → Str → Response
  review_already_running : Str → Str → ℕ → ℕ → Response
  review_queue_busy : Str → ℕ → ℕ → Response

-- The tasks that were spawned.
pub data Spawned : Type 0 where
  run_webhook_review : MergeRequestNoteEvent → Str → Spawned
  notify_duplicate : MergeRequestNoteEvent → Str → Spawned
  notify_queue_busy : MergeRequestNoteEvent → ℕ → ℕ → Spawned
  run_script_task : MergeRequestNoteEvent → ScriptTaskConfig → Str → Spawned
  record_busy : MergeRequestNoteEvent → ScriptTaskConfig → Str → ScriptTaskBusy → Spawned

pub record AppState : Type 0 where
  pub reviews : Reviews.World
  pub scripts : Scripts.World
  pub spawned : List Spawned

pub data AiRejection : Type 0 where
  duplicate_review : Str → ℕ → AiRejection
  busy_review : ℕ → ℕ → AiRejection

-- The variables of a dispatch.
pub record Dispatch : Type 0 where
  pub state : AppState
  pub results : List DispatchResult
  pub started : ℕ
  pub ai_rejection : Option AiRejection

-- What a rejected or started review leaves.
abbrev pub review_outcome :
    MergeRequestNoteEvent
    → Str
    → AppState
    → ActiveReviews × Result ActiveReviewStartError ActiveReviewStart
    → Dispatch
review_outcome note run state (running, ok start) = record {
  state = record state {
    reviews = record { running = running; live = state.reviews.live ++ start.guard ∷ [] };
    spawned = state.spawned ++ run_webhook_review note run ∷ [];
  };
  results = review_started run ∷ [];
  started = 1;
  ai_rejection = none;
}
review_outcome note run state (running, err (duplicate active_run active_count)) = record {
  state = record state {
    reviews = record { running = running; live = state.reviews.live };
    spawned = state.spawned ++ notify_duplicate note active_run ∷ [];
  };
  results = review_duplicate active_run active_count ∷ [];
  started = 0;
  ai_rejection = some (duplicate_review active_run active_count);
}
review_outcome note run state (running, err (queue_busy active_count limit)) = record {
  state = record state {
    reviews = record { running = running; live = state.reviews.live };
    spawned = state.spawned ++ notify_queue_busy note active_count limit ∷ [];
  };
  results = review_busy active_count limit ∷ [];
  started = 0;
  ai_rejection = some (busy_review active_count limit);
}

abbrev pub no_dispatch : AppState → Dispatch
no_dispatch state = record { state = state; results = []; started = 0; ai_rejection = none }

abbrev pub key_of : MergeRequestNoteEvent → ActiveReviewKey
key_of note = record {
  project_id = note.project_id;
  mr_iid = note.mr_iid;
  commit_sha = note.commit_sha;
}

-- The reviews that are asked for start together, as one run.
unfoldable pub start_reviews :
    Ruleset → MergeRequestNoteEvent → Str → List AiReviewConfig → AppState → Dispatch
start_reviews rules note run [] state = no_dispatch state
start_reviews rules note run (review ∷ rest) state =
    review_outcome note run state
      (try_start state.reviews.running (key_of note) run rules.max_concurrent_reviews)

abbrev pub task_outcome :
    MergeRequestNoteEvent
    → ScriptTaskConfig
    → Str
    → Dispatch
    → ScriptTaskScheduler × Result ScriptTaskBusy ScriptTaskPermit
    → Dispatch
task_outcome note task run d (active, ok permit) = record d {
  state = record d.state {
    scripts = record { active = active; live = permit ∷ d.state.scripts.live };
    spawned = d.state.spawned ++ run_script_task note task run ∷ [];
  };
  results = d.results ++ task_started task.id run ∷ [];
  started = d.started + 1;
}
task_outcome note task run d (active, err busy) = record d {
  state = record d.state {
    scripts = record { active = active; live = d.state.scripts.live };
    spawned = d.state.spawned ++ record_busy note task run busy ∷ [];
  };
  results = d.results ++ task_busy task.id busy.active_count busy.max_concurrent run ∷ [];
}

-- The loop over the script tasks; `fresh` gives the id of the run of the task at an index.
unfoldable pub start_tasks :
    MergeRequestNoteEvent → (ℕ → Str) → ℕ → List ScriptTaskConfig → Dispatch → Dispatch
start_tasks note fresh index [] d = d
start_tasks note fresh index (task ∷ rest) d = start_tasks note fresh (suc index) rest (
    task_outcome note task (fresh index) d
      (try_acquire d.state.scripts.active task.id task.max_concurrent))

abbrev pub rejected : Ruleset → Str → Option AiRejection → Response
rejected rules run none = ignored run (codes "no_matching_manual_review")
rejected rules run (some (duplicate_review active_run active_count)) =
    review_already_running run active_run active_count (max rules.max_concurrent_reviews 1)
rejected rules run (some (busy_review active_count limit)) =
    review_queue_busy run active_count limit

unfoldable pub respond : Ruleset → Str → Bool → Dispatch → Response
respond rules run has_script_tasks d =
    if d.started == 0
    then (if has_script_tasks
        then dispatch_rejected run d.results (codes "script_task_busy")
        else rejected rules run d.ai_rejection)
    else if has_script_tasks
    then accepted_runs run d.results
    else accepted run

abbrev pub requested_ids : MergeRequestNoteEvent → List Str
requested_ids note = if is_create_action note then manual_review_ids note.note else []

abbrev pub answer_dispatch : Ruleset → Str → List ScriptTaskConfig → Dispatch → AppState × Response
answer_dispatch rules run tasks d = (d.state, respond rules run (not (is_empty tasks)) d)

abbrev pub dispatch :
    Ruleset
    → MergeRequestNoteEvent
    → Str
    → (ℕ → Str)
    → List AiReviewConfig
    → List ScriptTaskConfig
    → AppState
    → AppState × Response
dispatch rules note run fresh reviews tasks state =
    if is_empty reviews && is_empty tasks
    then (state, ignored run (codes "no_matching_manual_review"))
    else answer_dispatch rules run tasks
        (start_tasks note fresh 0 tasks (start_reviews rules note run reviews state))

-- What the handler is configured with; `rules_file` is the rules file as `Ruleset::from_path` reads it.
pub record AppConfig : Type 0 where
  pub webhook_secret : Str
  pub gitlab_token : Str
  pub rules_file : Result AppError Ruleset
  pub serde : WebhookJson

abbrev token_is_empty : Str
token_is_empty =
    codes
      "[gitlab].token is empty. Create a GitLab access token with the api scope, then set token in config.toml."

-- `AppConfig::gitlab_token`.
abbrev pub gitlab_token : AppConfig → Result AppError Str
gitlab_token c =
    if is_empty (trim c.gitlab_token) then err (config token_is_empty) else ok (trim c.gitlab_token)

module _ (c : AppConfig) (run : Str) (fresh : ℕ → Str) where
  -- A note that is not a new one asks for nothing.
  unfoldable pub handle_note :
      MergeRequestNoteEvent → AppState → Result AppError Ruleset → AppState × Response
  handle_note note state (err e) = (state, internal_server_error (display e))
  handle_note note state (ok rules) =
      dispatch rules note run fresh (ai_reviews_by_ids rules (requested_ids note))
        (script_tasks_by_ids rules (requested_ids note)) state

  abbrev pub with_token :
      MergeRequestNoteEvent → AppState → Result AppError Str → AppState × Response
  with_token note state (err e) = (state, internal_server_error (display e))
  with_token note state (ok token) = handle_note note state c.rules_file

  abbrev pub handle_event :
      AppState → Result AppError (Option GitLabWebhookEvent) → AppState × Response
  handle_event state (err e) = (state, bad_request (display e))
  handle_event state (ok none) = (state, no_event)
  handle_event state (ok (some (merge_request event))) =
      (state, ignored run (codes "merge_request_events_manual_triggers_only"))
  handle_event state (ok (some (merge_request_note note))) = with_token note state (gitlab_token c)

  abbrev pub authorized : Str → AppState → Result AppError (Unit {0}) → AppState × Response
  authorized body state (err e) = (state, unauthorized (display e))
  authorized body state (ok u) = handle_event state (parse_gitlab_webhook_event c.serde body)

  -- The handler, by the token of the request and its body.
  unfoldable pub gitlab_webhook : Option Str → Str → AppState → AppState × Response
  gitlab_webhook token body state = authorized body state (validate_token c.webhook_secret token)
