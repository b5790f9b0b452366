-- ===== src/Tests/Webhooks.antt =====
-- Requests to the webhook handler, on concrete inputs.
use git_lab_work_runner.Base.{
  ℕ, ◌≡◌, refl, true, false, none, some, [], ◌∷◌, ◌++◌, arith, Str, codes, pos, ok, err, trim,
  is_whitespace, split_words,
}
use git_lab_work_runner.App.Error.{display}
use git_lab_work_runner.App.ActiveReviews.{try_start}
use git_lab_work_runner.App.ActiveReviews.Worlds as Reviews
use git_lab_work_runner.App.ScriptScheduler.{try_acquire}
use git_lab_work_runner.App.ScriptScheduler.Worlds as Scripts
use git_lab_work_runner.App.Webhook.{
  GitLabNotePayload, validate_token, note_of_payload, parse_merge_request_note_event, parse_kind,
  parse_gitlab_webhook_event,
}
use git_lab_work_runner.Review.Rules.{
  AiReviewConfig, ScriptTaskConfig, Ruleset, ai_reviews_by_ids, script_tasks_by_ids,
}
use git_lab_work_runner.App.Server.{
  AppState, Response, accepted_runs, unauthorized, review_started, task_started, manual_review_ids,
  start_reviews, start_tasks, respond, handle_note, gitlab_webhook, AppConfig,
}
use git_lab_work_runner.App.Server.Steps.{IsReached, gitlab_webhook-IsReached}
use git_lab_work_runner.App.Server.Answers.{Answered, gitlab_webhook-Answered}

ids_of_note :
    manual_review_ids (codes "please (@lint), @default. @default @no/way @")
    ≡ codes "default" ∷ codes "lint" ∷ []
unfolding manual_review_ids split_words is_whitespace
ids_of_note = refl

abbrev note_payload : GitLabNotePayload
note_payload = record {
  project_id = some (pos 5);
  project = none;
  object_attributes = record {
    id = pos 9;
    note = codes "@default @lint";
    noteable_type = codes "MergeRequest";
    action = none;
  };
  merge_request = some (record { iid = pos 2; source_project_id = none; last_commit = none });
}

abbrev review_config : AiReviewConfig
review_config = record {
  enabled = true;
  id = codes "default";
  title = codes "Review";
  base_url = codes "http://localhost";
  api_key = codes "key";
  model = codes "m";
  timeout_seconds = 60;
  request_timeout_seconds = none;
  max_batch_diff_bytes = 40;
  max_batches = 0;
  extra_instructions = [];
  max_tool_calls = 30;
  max_tool_rounds = 0;
  max_tool_result_bytes = 60000;
  max_tool_total_bytes = 40000;
}

abbrev lint_task : ScriptTaskConfig
lint_task = record {
  enabled = true;
  download_archive = false;
  id = codes "lint";
  title = codes "Lint";
  command = codes "make lint";
  timeout_seconds = 60;
  max_concurrent = 1;
}

abbrev two_rules : Ruleset
two_rules = record {
  hash = codes "00";
  ai_reviews = review_config ∷ [];
  script_tasks = lint_task ∷ [];
  max_concurrent_reviews = 2;
}

abbrev server : AppConfig
server = record {
  webhook_secret = codes "s3cret";
  gitlab_token = codes "glpat";
  rules_file = ok two_rules;
  serde = record {
    kind_of = λ body. ok (codes "note");
    payload_of = λ body. err (codes "missing field `project`");
    note_payload_of = λ body. ok note_payload;
  };
}

abbrev idle_state : AppState
idle_state = record { reviews = Reviews.empty_world; scripts = Scripts.empty_world; spawned = [] }

abbrev task_runs : ℕ → Str
task_runs n = codes "task-" ++ n ∷ []

abbrev answered : Response
answered =
    (gitlab_webhook server (codes "run-1") task_runs (some (codes "s3cret")) (codes "{}")
      idle_state).1

both_started :
    answered
    ≡ accepted_runs
        (codes "run-1")
        (review_started (codes "run-1") ∷ task_started (codes "lint") (task_runs 0) ∷ [])
unfolding gitlab_webhook validate_token parse_gitlab_webhook_event parse_kind
    parse_merge_request_note_event note_of_payload handle_note ai_reviews_by_ids script_tasks_by_ids
    manual_review_ids split_words is_whitespace trim start_reviews try_start start_tasks try_acquire
    respond
both_started = refl

wrong_token :
    gitlab_webhook server (codes "run-1") task_runs none (codes "{}") idle_state
    ≡ (idle_state, unauthorized (codes "invalid webhook payload: invalid X-Gitlab-Token"))
unfolding gitlab_webhook validate_token display
wrong_token = refl

abbrev one_each : Str → ℕ
one_each id = 1

gitlab_webhook-IsReached_example :
    IsReached 2 one_each
      (gitlab_webhook server
        (codes "run-1")
        task_runs
        (some (codes "s3cret"))
        (codes "{}")
        idle_state).0
gitlab_webhook-IsReached_example =
    gitlab_webhook-IsReached 2 one_each server (codes "run-1") task_runs (some (codes "s3cret"))
      (codes "{}") idle_state (omega arith, (omega arith, tt)) (Reviews.at_start, Scripts.at_start)

gitlab_webhook-Answered_example : Answered idle_state (
    gitlab_webhook server (codes "run-1") task_runs (some (codes "s3cret")) (codes "{}") idle_state)
gitlab_webhook-Answered_example =
    gitlab_webhook-Answered idle_state server (codes "run-1") task_runs (some (codes "s3cret"))
      (codes "{}")
