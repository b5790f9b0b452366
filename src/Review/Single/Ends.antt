-- ===== src/Review/Single/Ends.antt =====
-- The end of a review by `run_ai_review_single` of src/review/ai.rs, over both of its modes.
use git_lab_work_runner.Base.{
  ℕ, zero, suc, ◌+◌, ◌*◌, ◌≤◌, ◌<◌, Bool, true, false, ◌&&◌, Option, none, some, List, [], ◌∷◌,
  ◌++◌, ltb, if◌then◌else◌, Str, trim, is_empty, length, length-append, Result, ok, err, ◌≡◌, refl,
  if_holds, arith,
}
use git_lab_work_runner.App.Error.{AppError}
use git_lab_work_runner.Review.Diff.{Fault}
use git_lab_work_runner.Review.Http.{is_tool_call_rejection, is_retryable_ai_http_response}
use git_lab_work_runner.Review.Messages.{preview_log_text}
use git_lab_work_runner.Review.Batches.{AiReviewSingleResult}
use git_lab_work_runner.Review.Completion.Requests.{
  ChatRequest, Service, Outcome, response, failure, guard_timeout, is_success,
  is_retryable_ai_error,
}
use git_lab_work_runner.Review.Completion.Loop.{Completed}
use git_lab_work_runner.Review.Completion.Fuel.{IsLimited, turns_left}
use git_lab_work_runner.Review.Completion.Ends.{EndsWithin, complete_response-ends}
use git_lab_work_runner.Review.Single.{
  ReviewInput, ModeEnd, settled, tools_rejected, setting_for, first_conversation, first_request,
  converse, conversed, after_first, first_attempts, stop_with, after_tools, after_json, with_client,
  run_ai_review_single,
}

-- A predicate holds of what the first request leads to if it holds of each way.
module _ {ℓ} (service : Service) (input : ReviewInput) (fuel : ℕ)
    (P : List ChatRequest × ModeEnd → Type ℓ) (use_tool_calls : Bool)
    (again : AppError → List ChatRequest → List ChatRequest × ModeEnd) (sent : List ChatRequest)
    (stops : (e : AppError) → P (stop_with service input fuel sent e))
    (rejects : use_tool_calls ≡ true → (e : AppError) → P (sent, tools_rejected e))
    (retries : (e : AppError) → P (again e sent)) where
  pub after_first-ways :
      (may_retry : Bool) (outcome : Outcome)
      → (converses : (status : ℕ) (body : Str)
          → outcome ≡ response status body
          → is_success status ≡ true
          → P (conversed service input fuel (converse service input fuel use_tool_calls body sent)))
      → P (after_first service input fuel again may_retry use_tool_calls sent outcome)
  after_first-ways may_retry (response status body) converses =
      if_holds P (is_success status) _ _ (λ y. converses status body refl y)
        (λ n.
          if_holds P (use_tool_calls && is_tool_call_rejection status (preview_log_text body 1000))
            _ _ (λ y. rejects (ground arith) _)
            (λ n'.
              if_holds P (may_retry && is_retryable_ai_http_response status body) _ _
                (λ y. retries _) (λ n''. stops _)))
  after_first-ways may_retry (failure e) converses =
      if_holds P (may_retry && is_retryable_ai_error service e) _ _ (λ y. retries e) (λ n. stops e)
  after_first-ways may_retry guard_timeout converses =
      if_holds P may_retry _ _ (λ y. retries _) (λ n. stops _)

module _ (service : Service) (input : ReviewInput) (fuel : ℕ) where
  -- The turns of the conversation from its first answer, the same in both modes.
  abbrev pub first_turns : ℕ
  first_turns =
      turns_left (setting_for service input fuel true) (first_conversation service input fuel true)

  abbrev ModeEnds : ℕ → List ChatRequest × ModeEnd → Type 0
  ModeEnds requests (sent, settled none) = ⊥
  ModeEnds requests (sent, settled (some result)) = length sent ≤ requests
  ModeEnds requests (sent, tools_rejected e) = length sent + (2 + 2 * first_turns) ≤ requests

  abbrev SingleEnds : ℕ → List ChatRequest × Option (Result Fault AiReviewSingleResult) → Type 0
  SingleEnds requests (sent, none) = ⊥
  SingleEnds requests (sent, some result) = length sent ≤ requests

  conversed-ends :
      (requests : ℕ) (c : Completed)
      → EndsWithin service (setting_for service input fuel true) requests c
      → ModeEnds requests (conversed service input fuel c)
  conversed-ends requests (x, none) h = h
  conversed-ends requests (x, some (err e)) h = h
  conversed-ends requests (x, some (ok findings)) h = h

  abbrev pub IsLimitedInput : Type 0
  IsLimitedInput = IsLimited (setting_for service input fuel true)

  -- One request is spent.
  spend :
      (before after left turns requests : ℕ) (use_tool_calls : Bool)
      → after ≡ before + 1
      → before + suc left + (2 * turns + (if use_tool_calls then 2 + 2 * turns else 0)) ≤ requests
      → (after ≤ requests)
        × (after + 2 * turns ≤ requests)
        × (use_tool_calls ≡ true → after + (2 + 2 * turns) ≤ requests)
  spend before after left turns requests use_tool_calls e short =
      (omega (arith, short), omega (arith, short), λ y. ground arith)

  module _ (limited : IsLimitedInput) (enough : first_turns < fuel) where
    first_attempts-ends :
        (requests : ℕ) (use_tool_calls : Bool) (left : ℕ) (e : AppError) (sent : List ChatRequest)
        → length sent
            + left
            + (2 * first_turns + (if use_tool_calls then 2 + 2 * first_turns else 0))
          ≤ requests
        → ModeEnds requests (first_attempts service input fuel use_tool_calls left e sent)
    unfolding first_attempts
    first_attempts-ends requests use_tool_calls zero e sent short = ground arith
    first_attempts-ends requests use_tool_calls (suc left) e sent short =
        let request = first_request service input fuel use_tool_calls in
        let sent' = sent ++ request ∷ [] in
        let one_more : length sent' ≡ length sent + 1 = length-append sent (request ∷ []) in
        let room =
          spend (length sent) (length sent') left first_turns requests use_tool_calls one_more
            short in
        after_first-ways service input fuel (ModeEnds requests) use_tool_calls
          (first_attempts service input fuel use_tool_calls left) sent' (λ e'. room.0)
          (λ y e'. room.2 y)
          (λ e'.
            first_attempts-ends requests use_tool_calls left e' sent' (omega (arith, one_more)))
          (ltb 0 left) (service.answer (length sent) request)
          (λ status body e y.
            conversed-ends requests (converse service input fuel use_tool_calls body sent') (
              complete_response-ends service (setting_for service input fuel use_tool_calls) fuel
                body _ requests limited enough room.1))

    after_tools-ends :
        (requests : ℕ) (r : List ChatRequest × ModeEnd)
        → ModeEnds requests r
        → SingleEnds requests (after_tools service input fuel r)
    after_tools-ends requests (sent, settled none) h = h
    after_tools-ends requests (sent, settled (some result)) h = h
    after_tools-ends requests (sent, tools_rejected e) h =
        after_json-ends (first_attempts service input fuel false 2 e sent)
          (first_attempts-ends requests false 2 e sent (omega (arith, h)))
      where
        after_json-ends :
            (r : List ChatRequest × ModeEnd)
            → ModeEnds requests r
            → SingleEnds requests (after_json service input fuel r)
        after_json-ends (sent', settled none) h' = h'
        after_json-ends (sent', settled (some result)) h' = h'
        after_json-ends (sent', tools_rejected e') h' = omega (arith, h')

    with_client-ends :
        (client : Result AppError (Unit {0}))
        → SingleEnds (4 + 4 * first_turns) (with_client service input fuel client)
    with_client-ends (err e) = omega arith
    with_client-ends (ok u) =
        after_tools-ends (4 + 4 * first_turns) _
          (first_attempts-ends (4 + 4 * first_turns) true 2 _ [] (omega arith))

  -- Where the configuration limits the rounds or the calls of the tools, a review ends with a result: it
  -- sends four requests at most besides those of the turns of its conversation, in both modes together.
  pub run_ai_review_single-ends :
      IsLimitedInput
      → first_turns < fuel
      → (result : Result Fault AiReviewSingleResult) × ((run_ai_review_single service input fuel).1
          ≡ some result)
        × (length (run_ai_review_single service input fuel).0 ≤ 4 + 4 * first_turns)
  unfolding run_ai_review_single
  run_ai_review_single-ends limited enough = ended (run_ai_review_single service input fuel) (
      if_holds (SingleEnds (4 + 4 * first_turns)) (is_empty (trim input.config.api_key)) _ _
        (λ y. omega arith) (λ n. with_client-ends limited enough input.client))
    where
      ended :
          (r : List ChatRequest × Option (Result Fault AiReviewSingleResult))
          → SingleEnds (4 + 4 * first_turns) r
          → (result : Result Fault AiReviewSingleResult) × (r.1 ≡ some result)
            × (length r.0 ≤ 4 + 4 * first_turns)
      ended (sent, none) h = absurd h
      ended (sent, some result) h = (result, refl, h)
