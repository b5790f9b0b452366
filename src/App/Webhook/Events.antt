-- ===== src/App/Webhook/Events.antt =====
-- Which requests src/app/webhook.rs accepts, and what an event tells of its payload.
use git_lab_work_runner.Base.{
  ℤ, [], ◌≡◌, ◌≢◌, ◌↔◌, ◌⊎◌, arith, refl, ap, ◌∙◌, subst, inl, inr, true, Option, none, some,
  Bool-cases, Option-cases, Str, str_eq, str_eq_iff, codes, Result, ok, err, ◌>>=◌, >>=-eq-ok,
}
use git_lab_work_runner.App.Error.{AppError}
use git_lab_work_runner.App.Webhook.{
  MergeRequestEvent, MergeRequestNoteEvent, GitLabWebhookEvent, merge_request, merge_request_note,
  NoteMergeRequestPayload, GitLabNotePayload, ProjectPayload, LastCommit, action_of, commit_of,
  validate_token, is_merge_request_note, note_project_id, note_event, note_of_payload, WebhookJson,
  parsed, parse_merge_request_event, parse_merge_request_note_event, as_event, parse_kind,
  parse_gitlab_webhook_event,
}

-- A request is accepted exactly where it carries the expected token.
pub validate_token_iff :
    (expected : Str) (actual : Option Str)
    → (validate_token expected actual ≡ ok tt) ↔ (actual ≡ some expected)
unfolding validate_token
validate_token_iff expected none = ((λ h. cc), (λ h. cc))
validate_token_iff expected (some value) = (
  (λ h. elim (Bool-cases (str_eq value expected)) [
    | inl y ↦ ap (λ s. some s) ((str_eq_iff value expected).0 y)
    | inr n ↦ absurd (refused (rw (n, validate_token) at h))
  ]),
  λ h. rw ((str_eq_iff value expected).1 (same h), validate_token) refl,
)
  where
    refused : {e : AppError} → err e ≢ ok (tt {0})
    refused k = cc

    same : some value ≡ some expected → value ≡ expected
    same k = cc

-- The project that a payload names: its project, or where it has none its project id.
abbrev pub IsProjectOf : GitLabNotePayload → ℤ → Type 0
IsProjectOf payload project_id =
    ((project : ProjectPayload) × (payload.project ≡ some project) × (project_id ≡ project.id))
    ⊎ ((payload.project ≡ none) × (payload.project_id ≡ some project_id))

-- A note without an action counts as created.
abbrev pub IsActionOf : GitLabNotePayload → Str → Type 0
IsActionOf payload action =
    ((payload.object_attributes.action ≡ none) × (action ≡ codes "create"))
    ⊎ (payload.object_attributes.action ≡ some action)

-- The commit is empty where the merge request has none.
abbrev pub IsCommitOf : NoteMergeRequestPayload → Str → Type 0
IsCommitOf mr commit_sha =
    ((mr.last_commit ≡ none) × (commit_sha ≡ []))
    ⊎ ((commit : LastCommit) × (mr.last_commit ≡ some commit) × (commit_sha ≡ commit.id))

-- A note event tells of a note on a merge request.
pub record IsNoteOf (payload : GitLabNotePayload) (event : MergeRequestNoteEvent) : Type 0 where
  pub on_merge_request :
      (payload.object_attributes.noteable_type ≡ codes "MergeRequest")
      ⊎ (payload.object_attributes.noteable_type ≡ codes "merge_request")
  pub of_merge_request :
      (mr : NoteMergeRequestPayload) × (payload.merge_request ≡ some mr)
      × (event.mr_iid ≡ mr.iid)
      × (event.source_project_id ≡ mr.source_project_id)
      × IsCommitOf mr event.commit_sha
  pub of_project : IsProjectOf payload event.project_id
  pub of_note :
      (event.note ≡ payload.object_attributes.note) × (event.note_id ≡ payload.object_attributes.id)
  pub acted : IsActionOf payload event.action

project_id-IsProjectOf :
    (payload : GitLabNotePayload) (project : Option ProjectPayload) (project_id : Option ℤ) {i : ℤ}
    → payload.project ≡ project
    → payload.project_id ≡ project_id
    → note_project_id project project_id ≡ ok i
    → IsProjectOf payload i
project_id-IsProjectOf payload (some project) project_id e e' h = inl (project, e, cc)
project_id-IsProjectOf payload none (some project_id) e e' h = inr (e, cc)
project_id-IsProjectOf payload none none e e' h = cc

action-IsActionOf :
    (payload : GitLabNotePayload) (action : Option Str)
    → payload.object_attributes.action ≡ action
    → IsActionOf payload (action_of action)
action-IsActionOf payload none e = inl (e, refl)
action-IsActionOf payload (some action) e = inr e

commit-IsCommitOf :
    (mr : NoteMergeRequestPayload) (commit : Option LastCommit)
    → mr.last_commit ≡ commit
    → IsCommitOf mr (commit_of commit)
commit-IsCommitOf mr none e = inl (e, refl)
commit-IsCommitOf mr (some commit) e = inr (commit, e, refl)

noteable_type-cases :
    (noteable_type : Str)
    → is_merge_request_note noteable_type ≡ true
    → (noteable_type ≡ codes "MergeRequest") ⊎ (noteable_type ≡ codes "merge_request")
noteable_type-cases noteable_type h =
    elim (Bool-cases (str_eq noteable_type (codes "MergeRequest"))) [
      | inl y ↦ inl ((str_eq_iff noteable_type (codes "MergeRequest")).0 y)
      | inr n ↦ inr ((str_eq_iff noteable_type (codes "merge_request")).0 (ground (arith, h, n)))
    ]

note_event-IsNoteOf :
    (payload : GitLabNotePayload) (mr : NoteMergeRequestPayload) (project_id : ℤ)
    → is_merge_request_note payload.object_attributes.noteable_type ≡ true
    → payload.merge_request ≡ some mr
    → note_project_id payload.project payload.project_id ≡ ok project_id
    → IsNoteOf payload (note_event payload mr project_id)
note_event-IsNoteOf payload mr project_id y m p = record {
  on_merge_request = noteable_type-cases payload.object_attributes.noteable_type y;
  of_merge_request = (mr, m, refl, refl, commit-IsCommitOf mr mr.last_commit refl);
  of_project = project_id-IsProjectOf payload payload.project payload.project_id refl refl p;
  of_note = (refl, refl);
  acted = action-IsActionOf payload payload.object_attributes.action refl;
}

note_of_payload-IsNoteOf :
    (payload : GitLabNotePayload) (event : MergeRequestNoteEvent)
    → note_of_payload payload ≡ ok (some event)
    → IsNoteOf payload event
unfolding note_of_payload
note_of_payload-IsNoteOf payload event h =
    elim (Bool-cases (is_merge_request_note payload.object_attributes.noteable_type)) [
      | inl y ↦ elim (Option-cases payload.merge_request) [
        | inl n ↦ absurd (no_event (ok none) refl (rw (y, n, note_of_payload) at h))
        | inr (mr, m) ↦
            let (project_id, p, e) =
              >>=-eq-ok (note_project_id payload.project payload.project_id)
                (λ i. ok (some (note_event payload mr i))) (rw (y, m, note_of_payload) at h) in
            let same : note_event payload mr project_id ≡ event = cc in
            subst (IsNoteOf payload) same (note_event-IsNoteOf payload mr project_id y m p)
      ]
      | inr n ↦ absurd (no_event (ok none) refl (rw (n, note_of_payload) at h))
    ]
  where
    no_event :
        (r : Result AppError (Option MergeRequestNoteEvent)) → r ≡ ok none → r ≢ ok (some event)
    no_event r n k = cc

event_kind :
    (serde : WebhookJson) (body kind : Str) {event : MergeRequestNoteEvent}
    → parse_kind serde body kind ≡ ok (some (merge_request_note event))
    → (kind ≡ codes "note") × (parse_merge_request_note_event serde body ≡ ok (some event))
unfolding parse_kind
event_kind serde body kind {event} h = elim (Bool-cases (str_eq kind (codes "merge_request"))) [
  | inl y ↦ absurd (by_request (parse_merge_request_event serde body) (rw (y, parse_kind) at h))
  | inr n ↦ elim (Bool-cases (str_eq kind (codes "note"))) [
    | inl y ↦ (
      (str_eq_iff kind (codes "note")).0 y,
      by_note (parse_merge_request_note_event serde body) (rw (n, y, parse_kind) at h),
    )
    | inr m ↦ absurd (no_event (ok none) refl (rw (n, m, parse_kind) at h))
  ]
]
  where
    no_event :
        (r : Result AppError (Option GitLabWebhookEvent))
        → r ≡ ok none
        → r ≢ ok (some (merge_request_note event))
    no_event r n k = cc

    by_request :
        (r : Result AppError (Option MergeRequestEvent))
        → (r >>= (λ e. ok (as_event merge_request e))) ≢ ok (some (merge_request_note event))
    by_request (ok none) k = cc
    by_request (ok (some e)) k = cc
    by_request (err e) k = cc

    by_note :
        (r : Result AppError (Option MergeRequestNoteEvent))
        → (r >>= (λ e. ok (as_event merge_request_note e))) ≡ ok (some (merge_request_note event))
        → r ≡ ok (some event)
    by_note (ok none) k = cc
    by_note (ok (some e)) k = cc
    by_note (err e) k = cc

parsed-ok : {A : Type 0} (r : Result Str A) {a : A} → parsed r ≡ ok a → r ≡ ok a
parsed-ok (ok p) k = cc
parsed-ok (err e) k = cc

payload_of_note :
    (serde : WebhookJson) (body : Str) (event : MergeRequestNoteEvent)
    → parse_merge_request_note_event serde body ≡ ok (some event)
    → (payload : GitLabNotePayload) × (serde.note_payload_of body ≡ ok payload)
      × (note_of_payload payload ≡ ok (some event))
unfolding parse_merge_request_note_event
payload_of_note serde body event h =
    let (payload, e, made) =
      >>=-eq-ok (parsed (serde.note_payload_of body)) (λ p. note_of_payload p) h in
    (payload, parsed-ok (serde.note_payload_of body) e, made)

-- A body that makes a note event is of the kind `note`, and has a payload of a note on a merge request. The event is of that merge
-- request with its source project and its commit (empty where there is none), of the payload's project
-- or else its project id, and has the note's id, text and action; without an action in the payload it
-- counts as created.
pub parse_event-IsNoteOf :
    (serde : WebhookJson) (body : Str) (event : MergeRequestNoteEvent)
    → parse_gitlab_webhook_event serde body ≡ ok (some (merge_request_note event))
    → (serde.kind_of body ≡ ok (codes "note"))
      × (payload : GitLabNotePayload) × (serde.note_payload_of body ≡ ok payload)
      × IsNoteOf payload event
unfolding parse_gitlab_webhook_event
parse_event-IsNoteOf serde body event h =
    let (kind, k, made) =
      >>=-eq-ok (parsed (serde.kind_of body)) (λ kind. parse_kind serde body kind) h in
    let (is_note, noted) = event_kind serde body kind made in
    let (payload, p, e) = payload_of_note serde body event noted in
    (
      parsed-ok (serde.kind_of body) k ∙ ap (λ x. ok x) is_note,
      payload,
      p,
      note_of_payload-IsNoteOf payload event e,
    )
