-- ===== src/App/Webhook.antt =====
-- The webhook events of src/app/webhook.rs. The JSON parser of each payload is a parameter; a number
-- `i64` is an integer.
pub mod Events
use git_lab_work_runner.Base.{
  ℕ, ℤ, Bool, Option, none, some, List, [], Str, codes, str_eq, trim, eq_ignore_ascii_case,
  if◌then◌else◌, ◌||◌, Result, ok, err, ◌>>=◌,
}
use git_lab_work_runner.App.Error.{AppError, webhook, json}

pub record MergeRequestEvent : Type 0 where
  pub project_id : ℤ
  pub project_name : Option Str
  pub project_path_with_namespace : Option Str
  pub mr_iid : ℤ
  pub commit_sha : Str
  pub action : Str
  pub source_branch : Str
  pub target_branch : Str

pub record MergeRequestNoteEvent : Type 0 where
  pub project_id : ℤ
  pub source_project_id : Option ℤ
  pub project_name : Option Str
  pub project_path_with_namespace : Option Str
  pub mr_iid : ℤ
  pub commit_sha : Str
  pub action : Str
  pub note_id : ℤ
  pub note : Str

pub data GitLabWebhookEvent : Type 0 where
  merge_request : MergeRequestEvent → GitLabWebhookEvent
  merge_request_note : MergeRequestNoteEvent → GitLabWebhookEvent

-- `MergeRequestNoteEvent::is_create_action`.
abbrev pub is_create_action : MergeRequestNoteEvent → Bool
is_create_action event = eq_ignore_ascii_case (trim event.action) (codes "create")

-- The payloads, a `#[serde(default)]` field as an option.
pub record ProjectPayload : Type 0 where
  pub id : ℤ
  pub name : Option Str
  pub path_with_namespace : Option Str

pub record LastCommit : Type 0 where
  pub id : Str

pub record MergeRequestAttributes : Type 0 where
  pub iid : ℤ
  pub action : Str
  pub last_commit : LastCommit
  pub source_branch : Str
  pub target_branch : Str

pub record GitLabWebhookPayload : Type 0 where
  pub object_kind : Str
  pub project : ProjectPayload
  pub object_attributes : MergeRequestAttributes

pub record NoteAttributes : Type 0 where
  pub id : ℤ
  pub note : Str
  pub noteable_type : Str
  pub action : Option Str

pub record NoteMergeRequestPayload : Type 0 where
  pub iid : ℤ
  pub source_project_id : Option ℤ
  pub last_commit : Option LastCommit

pub record GitLabNotePayload : Type 0 where
  pub project_id : Option ℤ
  pub project : Option ProjectPayload
  pub object_attributes : NoteAttributes
  pub merge_request : Option NoteMergeRequestPayload

unfoldable pub validate_token : Str → Option Str → Result AppError (Unit {0})
validate_token expected none = err (webhook (codes "invalid X-Gitlab-Token"))
validate_token expected (some value) =
    if str_eq value expected then ok tt else err (webhook (codes "invalid X-Gitlab-Token"))

abbrev pub is_merge_request_note : Str → Bool
is_merge_request_note noteable_type =
    str_eq noteable_type (codes "MergeRequest") || str_eq noteable_type (codes "merge_request")

-- `map(…).or(…).ok_or_else(…)`
abbrev pub note_project_id : Option ProjectPayload → Option ℤ → Result AppError ℤ
note_project_id (some project) project_id = ok project.id
note_project_id none (some project_id) = ok project_id
note_project_id none none = err (webhook (codes "note hook missing project id"))

abbrev commit_of : Option LastCommit → Str
commit_of none = []
commit_of (some commit) = commit.id

abbrev name_of : Option ProjectPayload → Option Str
name_of none = none
name_of (some project) = project.name

abbrev path_of : Option ProjectPayload → Option Str
path_of none = none
path_of (some project) = project.path_with_namespace

abbrev action_of : Option Str → Str
action_of none = codes "create"
action_of (some action) = action

abbrev pub note_event : GitLabNotePayload → NoteMergeRequestPayload → ℤ → MergeRequestNoteEvent
note_event payload mr project_id = record {
  project_id = project_id;
  source_project_id = mr.source_project_id;
  project_name = name_of payload.project;
  project_path_with_namespace = path_of payload.project;
  mr_iid = mr.iid;
  commit_sha = commit_of mr.last_commit;
  action = action_of payload.object_attributes.action;
  note_id = payload.object_attributes.id;
  note = payload.object_attributes.note;
}

-- A note behind its payload's parsing.
unfoldable pub note_of_payload : GitLabNotePayload → Result AppError (Option MergeRequestNoteEvent)
note_of_payload payload =
    if is_merge_request_note payload.object_attributes.noteable_type
    then elim payload.merge_request [
      | none ↦ ok none
      | some mr ↦ (do
        project_id ← note_project_id payload.project payload.project_id
        ok (some (note_event payload mr project_id)))
    ]
    else ok none

unfoldable pub merge_request_of_payload : GitLabWebhookPayload → Option MergeRequestEvent
merge_request_of_payload payload =
    if str_eq payload.object_kind (codes "merge_request")
    then some (record {
      project_id = payload.project.id;
      project_name = payload.project.name;
      project_path_with_namespace = payload.project.path_with_namespace;
      mr_iid = payload.object_attributes.iid;
      commit_sha = payload.object_attributes.last_commit.id;
      action = payload.object_attributes.action;
      source_branch = payload.object_attributes.source_branch;
      target_branch = payload.object_attributes.target_branch;
    })
    else none

-- The three readings of a body that the handler asks of the JSON parser.
pub record WebhookJson : Type 0 where
  pub kind_of : Str → Result Str Str
  pub payload_of : Str → Result Str GitLabWebhookPayload
  pub note_payload_of : Str → Result Str GitLabNotePayload

abbrev pub parsed {ℓ} : {A : Type ℓ} → Result Str A → Result AppError A
parsed (ok a) = ok a
parsed (err e) = err (json e)

unfoldable pub parse_merge_request_event :
    WebhookJson → Str → Result AppError (Option MergeRequestEvent)
parse_merge_request_event serde body = do
  payload ← parsed (serde.payload_of body)
  ok (merge_request_of_payload payload)

unfoldable pub parse_merge_request_note_event :
    WebhookJson → Str → Result AppError (Option MergeRequestNoteEvent)
parse_merge_request_note_event serde body = do
  payload ← parsed (serde.note_payload_of body)
  note_of_payload payload

abbrev pub as_event {ℓ} :
    {A : Type ℓ} → (A → GitLabWebhookEvent) → Option A → Option GitLabWebhookEvent
as_event f none = none
as_event f (some event) = some (f event)

-- `match object.object_kind.as_str()`
unfoldable pub parse_kind : WebhookJson → Str → Str → Result AppError (Option GitLabWebhookEvent)
parse_kind serde body kind =
    if str_eq kind (codes "merge_request")
    then (do event ← parse_merge_request_event serde body; ok (as_event merge_request event))
    else if str_eq kind (codes "note")
    then (do
      event ← parse_merge_request_note_event serde body
      ok (as_event merge_request_note event))
    else ok none

unfoldable pub parse_gitlab_webhook_event :
    WebhookJson → Str → Result AppError (Option GitLabWebhookEvent)
parse_gitlab_webhook_event serde body = do
  kind ← parsed (serde.kind_of body)
  parse_kind serde body kind
