-- ===== src/Review/Single/Sound.antt =====
-- The conversation that a review by `run_ai_review_single` of src/review/ai.rs reports on: its findings
-- and its use of the tools.
use git_lab_work_runner.Base.{
  ℕ, zero, suc, Bool, true, false, Option, none, some, List, [], ◌∷◌, ◌++◌, ltb, trim, is_empty,
  length, All, Str, ◌∙◌, ◌≤◌, Result, ok, err, ◌>>=◌, ◌≡◌, refl, inr, subst, if_holds, arith,
}
use git_lab_work_runner.App.Error.{AppError}
use git_lab_work_runner.Review.Diff.{Fault}
use git_lab_work_runner.Review.Rules.{Finding}
use git_lab_work_runner.Review.Findings.{filter_findings_to_added_lines}
use git_lab_work_runner.Review.Findings.Added.{IsOnAdded, filter_findings-AreAdded}
use git_lab_work_runner.Review.Batches.{AiReviewSingleResult}
use git_lab_work_runner.Review.Completion.{usize_max}
use git_lab_work_runner.Review.Completion.Requests.{
  ChatRequest, Service, Exchange, response, is_success,
}
use git_lab_work_runner.Review.Completion.Loop.{Completed}
use git_lab_work_runner.Review.Completion.Budgets.{WithinBudgets, complete_response-WithinBudgets}
use git_lab_work_runner.Review.Single.{
  ReviewInput, ModeEnd, settled, tools_rejected, setting_for, first_request, converse, conversed,
  first_attempts, after_json, after_tools, with_client, run_ai_review_single,
}
use git_lab_work_runner.Review.Single.Ends.{after_first-ways}

-- The result `r` of a review with the `requests` that it sent is that of a conversation with the model.
-- It began with the successful answer of the service to a first request, after those `asked` before it;
-- the findings that `ended` it are kept on added lines, and the counts are those of its last state.
pub record IsConversed (service : Service) (input : ReviewInput) (fuel : ℕ)
    (requests : List ChatRequest) (r : AiReviewSingleResult) : Type 0 where
  pub use_tool_calls : Bool
  pub asked : List ChatRequest
  pub status : ℕ
  pub body : Str
  pub last : Exchange
  pub found : List Finding
  pub answered :
      service.answer (length asked) (first_request service input fuel use_tool_calls)
      ≡ response status body
  pub succeeded : is_success status ≡ true
  pub ended :
      converse service input fuel use_tool_calls body
        (asked ++ first_request service input fuel use_tool_calls ∷ [])
      ≡ (last, some (ok found))
  pub requested : requests ≡ last.sent
  pub filtered : filter_findings_to_added_lines input.changes found ≡ ok r.findings
  pub counted : r.tool_calls_used ≡ last.conversation.tool_calls_used
  pub rounds : r.tool_rounds_used ≡ last.conversation.tool_rounds_used

module _ (service : Service) (input : ReviewInput) (fuel : ℕ) where
  abbrev SoundResult : List ChatRequest → Result Fault AiReviewSingleResult → Type 0
  SoundResult sent (err e) = Unit
  SoundResult sent (ok r) = IsConversed service input fuel sent r

  abbrev SoundRun : List ChatRequest × Option (Result Fault AiReviewSingleResult) → Type 0
  SoundRun (sent, none) = Unit
  SoundRun (sent, some result) = SoundResult sent result

  abbrev SoundMode : List ChatRequest × ModeEnd → Type 0
  SoundMode (sent, settled result) = SoundRun (sent, result)
  SoundMode (sent, tools_rejected e) = Unit

  conversed_sound :
      (use_tool_calls : Bool) (asked : List ChatRequest) (status : ℕ) (body : Str) (c : Completed)
      → service.answer (length asked) (first_request service input fuel use_tool_calls)
        ≡ response status body
      → is_success status ≡ true
      → converse service input fuel use_tool_calls body
          (asked ++ first_request service input fuel use_tool_calls ∷ [])
        ≡ c
      → SoundMode (conversed service input fuel c)
  conversed_sound use_tool_calls asked status body (x, none) answered succeeded ended = tt
  conversed_sound use_tool_calls asked status body (x, some (err e)) answered succeeded ended = tt
  conversed_sound use_tool_calls asked status body (x, some (ok findings)) answered succeeded
        ended =
      of_filter (filter_findings_to_added_lines input.changes findings) refl
    where
      of_filter :
          (r : Result Fault (List Finding))
          → filter_findings_to_added_lines input.changes findings ≡ r
          → SoundResult x.sent (do
            kept_findings ← r
            ok (record {
              findings = kept_findings;
              tool_rounds_used = x.conversation.tool_rounds_used;
              tool_calls_used = x.conversation.tool_calls_used;
            }))
      of_filter (err e) h = tt
      of_filter (ok kept_findings) h = record {
        use_tool_calls = use_tool_calls;
        asked = asked;
        status = status;
        body = body;
        last = x;
        found = findings;
        answered = answered;
        succeeded = succeeded;
        ended = ended;
        requested = refl;
        filtered = h;
        counted = refl;
        rounds = refl;
      }

  first_attempts_sound :
      (use_tool_calls : Bool) (left : ℕ) (e : AppError) (sent : List ChatRequest)
      → SoundMode (first_attempts service input fuel use_tool_calls left e sent)
  unfolding first_attempts
  first_attempts_sound use_tool_calls zero e sent = tt
  first_attempts_sound use_tool_calls (suc left) e sent =
      let request = first_request service input fuel use_tool_calls in
      let sent' = sent ++ request ∷ [] in
      after_first-ways service input fuel SoundMode use_tool_calls
        (first_attempts service input fuel use_tool_calls left) sent' (λ e'. tt) (λ y e'. tt)
        (λ e'. first_attempts_sound use_tool_calls left e' sent') (ltb 0 left)
        (service.answer (length sent) request)
        (λ status body e y. conversed_sound use_tool_calls sent status body _ e y refl)

  after_json_sound :
      (r : List ChatRequest × ModeEnd) → SoundMode r → SoundRun (after_json service input fuel r)
  after_json_sound (sent, settled result) h = h
  after_json_sound (sent, tools_rejected e) h = tt

  after_tools_sound :
      (r : List ChatRequest × ModeEnd) → SoundMode r → SoundRun (after_tools service input fuel r)
  after_tools_sound (sent, settled result) h = h
  after_tools_sound (sent, tools_rejected e) h =
      after_json_sound _ (first_attempts_sound false 2 e sent)

  with_client_sound :
      (client : Result AppError (Unit {0})) → SoundRun (with_client service input fuel client)
  with_client_sound (err e) = tt
  with_client_sound (ok u) = after_tools_sound _ (first_attempts_sound true 2 _ [])

  run_sound : SoundRun (run_ai_review_single service input fuel)
  unfolding run_ai_review_single
  run_sound =
      if_holds SoundRun (is_empty (trim input.config.api_key)) _ _ (λ y. tt)
        (λ n. with_client_sound input.client)

  pub run_ai_review_single-IsConversed :
      (r : AiReviewSingleResult)
      → (run_ai_review_single service input fuel).1 ≡ some (ok r)
      → IsConversed service input fuel (run_ai_review_single service input fuel).0 r
  run_ai_review_single-IsConversed r h =
      subst (λ result. SoundRun ((run_ai_review_single service input fuel).0, result)) h run_sound

  -- The findings of a review that succeeds are on lines that its changes add.
  pub run_ai_review_single-AreAdded :
      (r : AiReviewSingleResult)
      → (run_ai_review_single service input fuel).1 ≡ some (ok r)
      → All (IsOnAdded input.changes) r.findings
  run_ai_review_single-AreAdded r h =
      let conversation = run_ai_review_single-IsConversed r h in
      filter_findings-AreAdded input.changes conversation.found r.findings conversation.filtered

  -- The result is that of a conversation whose calls of the tools, by its log, are within the budgets
  -- and are as many as the result says.
  abbrev pub IsSound : AiReviewSingleResult → Type 0
  IsSound r =
      (conversation : IsConversed service input fuel (run_ai_review_single service input fuel).0 r)
      × (r.tool_calls_used ≡ length conversation.last.conversation.calls_made)
      × WithinBudgets (setting_for service input fuel conversation.use_tool_calls)
          conversation.last.conversation

  -- A review that succeeds gives the result of one conversation, which began with a successful answer of
  -- the service to a first request and ended with an accepted answer. The requests of the review are
  -- those sent by its end; its findings are those of that answer that
  -- `filter_findings_to_added_lines` keeps; its `tool_calls_used` is the number of the calls that the
  -- tools carried out there; and these calls and the bytes of their results are within the budgets that
  -- are set, if `max_tool_total_bytes` is a usize.
  pub run_ai_review_single-IsSound :
      input.config.max_tool_total_bytes ≤ usize_max
      → (r : AiReviewSingleResult) → (run_ai_review_single service input fuel).1 ≡ some (ok r)
      → IsSound r
  run_ai_review_single-IsSound fits r h =
      let conversation = run_ai_review_single-IsConversed r h in
      let mode = conversation.use_tool_calls in
      let within =
        subst
          (λ (c : Completed). WithinBudgets (setting_for service input fuel mode) c.0.conversation)
          conversation.ended
          (complete_response-WithinBudgets (setting_for service input fuel mode) fits service fuel
            conversation.body _ ((refl, omega arith), inr (omega arith), inr (omega arith))) in
      (conversation, conversation.counted ∙ within.0.0, within)
