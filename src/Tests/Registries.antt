-- ===== src/Tests/Registries.antt =====
-- The registries of src/app and its errors and events, on concrete inputs.
use git_lab_work_runner.Base.{
  ℕ, ◌≡◌, ◌↔◌, ◌<◌, refl, true, none, some, [], ◌∷◌, ◌++◌, map, max, arith, Str, codes, get, pos,
  ok, err,
}
use git_lab_work_runner.App.ActiveReviews.{
  key_equality, ActiveReviewKey, ActiveReviewGuard, ActiveReviewStart, try_start, drop_guard,
}
use git_lab_work_runner.App.ActiveReviews.Worlds as Reviews
use git_lab_work_runner.App.ScriptScheduler.{
  ScriptTaskPermit, ScriptTaskScheduler, try_acquire, drop_permit,
}
use git_lab_work_runner.App.ScriptScheduler.Worlds as Scripts
use git_lab_work_runner.App.Webhook.{
  MergeRequestNoteEvent, GitLabNotePayload, WebhookJson, merge_request_note, note_of_payload,
  parse_merge_request_note_event, parse_kind, parse_gitlab_webhook_event,
}
use git_lab_work_runner.App.Webhook.Events.{IsNoteOf, parse_event-IsNoteOf}

abbrev key_one : ActiveReviewKey
key_one = record { project_id = pos 7; mr_iid = pos 3; commit_sha = codes "abc" }

abbrev guard_one : ActiveReviewGuard
guard_one = record { key = key_one; review_run_id = codes "run-1" }

abbrev one_review : Reviews.World
one_review = record { running = (key_one, codes "run-1") ∷ []; live = guard_one ∷ [] }

one_review-Reach : Reviews.Reach 2 one_review
unfolding try_start
one_review-Reach = Reviews.then_step Reviews.at_start (
    Reviews.starts key_one (codes "run-1") 2 ((key_one, codes "run-1") ∷ [])
      (record { guard = guard_one; active_count = 1 }) (omega arith) refl refl)

Reach-IsSound_example : Reviews.IsSound 2 one_review
Reach-IsSound_example = Reviews.Reach-IsSound one_review-Reach

drop_guard-try_start_example :
    let after = (drop_guard one_review.running guard_one).0 in
    ((drop_guard one_review.running guard_one).1 ≡ true)
    × (after ≡ map Reviews.entry ([] ++ []))
    × (get key_one after ≡ none)
    × ((s : ActiveReviewStart) × (try_start after key_one (codes "run-2") 2
          ≡ (after ++ (key_one, codes "run-2") ∷ [], ok s)))
drop_guard-try_start_example =
    Reviews.drop_guard-try_start one_review [] guard_one [] (codes "run-2") 2 one_review-Reach refl
      (omega arith)

abbrev limits : Str → ℕ
limits id = 1

abbrev permit_lint : ScriptTaskPermit
permit_lint = record { task_id = codes "lint" }

abbrev one_script : Scripts.World
one_script = record { active = (codes "lint", 1) ∷ []; live = permit_lint ∷ [] }

one_script-Reach : Scripts.Reach limits one_script
unfolding try_acquire
one_script-Reach =
    Scripts.then_step Scripts.at_start (
      Scripts.acquires (codes "lint") 1 ((codes "lint", 1) ∷ []) permit_lint (omega arith) refl
        refl)

Reach-IsCounted_example : Scripts.IsCounted limits one_script
Reach-IsCounted_example = Scripts.Reach-IsCounted one_script-Reach

drop_permit-total_example :
    (active' : ScriptTaskScheduler) × (drop_permit one_script.active permit_lint ≡ some active')
    × Scripts.Reach limits (record { active = active'; live = [] ++ [] })
drop_permit-total_example =
    Scripts.drop_permit-total one_script [] permit_lint [] one_script-Reach refl

try_acquire_iff_example :
    ((try_acquire one_script.active (codes "lint") 2).1 ≡ ok permit_lint)
    ↔ (Scripts.count (codes "lint") one_script.live < max 2 1)
try_acquire_iff_example = Scripts.try_acquire_iff one_script (codes "lint") 2 one_script-Reach

abbrev note_payload : GitLabNotePayload
note_payload = record {
  project_id = some (pos 5);
  project = none;
  object_attributes = record {
    id = pos 9;
    note = codes "/review";
    noteable_type = codes "MergeRequest";
    action = none;
  };
  merge_request = some (record { iid = pos 2; source_project_id = none; last_commit = none });
}

abbrev note_json : WebhookJson
note_json = record {
  kind_of = λ body. ok (codes "note");
  payload_of = λ body. err (codes "missing field `project`");
  note_payload_of = λ body. ok note_payload;
}

abbrev note_read : MergeRequestNoteEvent
note_read = record {
  project_id = pos 5;
  source_project_id = none;
  project_name = none;
  project_path_with_namespace = none;
  mr_iid = pos 2;
  commit_sha = [];
  action = codes "create";
  note_id = pos 9;
  note = codes "/review";
}

note_parsed :
    parse_gitlab_webhook_event note_json (codes "{}") ≡ ok (some (merge_request_note note_read))
unfolding parse_gitlab_webhook_event parse_kind parse_merge_request_note_event note_of_payload
note_parsed = refl

parse_event-IsNoteOf_example :
    (note_json.kind_of (codes "{}") ≡ ok (codes "note"))
    × (payload : GitLabNotePayload) × (note_json.note_payload_of (codes "{}") ≡ ok payload)
    × IsNoteOf payload note_read
parse_event-IsNoteOf_example = parse_event-IsNoteOf note_json (codes "{}") note_read note_parsed
