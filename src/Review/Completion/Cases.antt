-- ===== src/Review/Completion/Cases.antt =====
-- The ways on which the loop of src/review/ai.rs goes on after an answer.
use git_lab_work_runner.Base.{
  ℕ, codes, ltb, leb, Bool, true, false, not, ◌&&◌, ◌||◌, List, [], ◌∷◌, Result, ok, err, Str, ◌≡◌,
  if_holds, is_empty, keep_if, if◌then◌else◌, arith,
}
use git_lab_work_runner.App.Error.{AppError}
use git_lab_work_runner.Review.Findings.{
  OpenAiToolCall, OpenAiMessage, FinalFindingsParseFailure, malformed, protocol,
}
use git_lab_work_runner.Review.Rules.{Finding}
use git_lab_work_runner.Review.Tools.Truncation.{cached_context}
use git_lab_work_runner.Review.Tools.Calls.{source_available}
use git_lab_work_runner.Review.Completion.{
  Conversation, Round, Setting, answer_call, real_call, reply, noticed, limit_result, known,
  bytes_left, budget_exhausted, settle_round, request_finalization, Next, finished, next_request,
  tool_round, use_tools, answer_message, answer_body, run_round, begin_round, retry_malformed,
  request_diff_only_finalization, notice_unavailable, synthesize_context_tool_call_ids,
  call_limit_reported, first_choice, final_answer, after_finalization, without_source,
  has_submit_review_findings, is_context_tool_call,
}
use git_lab_work_runner.Review.Completion.Requests.{
  ChatRequest, Service, Outcome, response, failure, guard_timeout, Exchange, Attempts,
  after_attempt, retry_or_end, close_and,
}

-- A predicate on what comes next holds if it holds of every end and of each of the four ways to go on.
module _ {ℓ} (setting : Setting) (P : Next → Type ℓ) (c : Conversation)
    (ends : (result : Result AppError (List Finding)) → P (finished result))
    (retried : c.malformed_finalization_retry_requested ≡ false
      → P (next_request (retry_malformed c)))
    (closed : c.finalization_requested ≡ true
      → c.diff_only_fallback_requested ≡ false
      → P (next_request (request_diff_only_finalization setting c)))
    (noticed : c.unavailable_context_tool_notice_sent ≡ false
      → P (next_request (notice_unavailable c)))
    (ran : (message : OpenAiMessage) (call : OpenAiToolCall) (rest : List OpenAiToolCall)
      → c.finalization_requested ≡ false
      → P (
          next_request (
            run_round setting message
              (synthesize_context_tool_call_ids 1 (call ∷ rest))
              (begin_round c)))) where
  final_answer-ways :
      (answer : Result FinalFindingsParseFailure (List Finding)) → P (final_answer c answer)
  final_answer-ways (ok findings) = ends (ok findings)
  final_answer-ways (err (protocol e)) = ends (err e)
  final_answer-ways (err (malformed e)) =
      if_holds P c.malformed_finalization_retry_requested _ _ (λ y. ends _) retried

  tool_round-ways :
      (message : OpenAiMessage) (call : OpenAiToolCall) (rest : List OpenAiToolCall)
      → c.finalization_requested ≡ false
      → P (tool_round setting message (call ∷ rest) c)
  unfolding tool_round
  tool_round-ways message call rest going =
      if_holds P (call_limit_reported setting c) _ _ (λ y. ends _)
        (λ n. ran message call rest going)

  after_finalization-ways : c.finalization_requested ≡ true → P (after_finalization setting c)
  after_finalization-ways closing =
      if_holds P c.malformed_finalization_retry_requested _ _ (λ y. ends _)
        (λ n. if_holds P c.diff_only_fallback_requested _ _ (λ y. ends _) (closed closing))

  without_source-ways : P (without_source setting c)
  without_source-ways = if_holds P c.unavailable_context_tool_notice_sent _ _ (λ y. ends _) noticed

  use_tools-ways :
      (message : OpenAiMessage) (call : OpenAiToolCall) (rest : List OpenAiToolCall)
      → P (use_tools setting message (call ∷ rest) c)
  unfolding use_tools
  use_tools-ways message call rest =
      if_holds P c.finalization_requested _ _ after_finalization-ways (λ n.
        if_holds P (not (source_available setting.context)) _ _ (λ y. without_source-ways)
          (λ n'. tool_round-ways message call rest n))

  answer_calls-ways :
      (message : OpenAiMessage) (calls : List OpenAiToolCall)
      → P (
          if has_submit_review_findings message || not setting.use_tool_calls || is_empty calls
          then final_answer c (setting.parse_final message)
          else use_tools setting message calls c)
  answer_calls-ways message calls =
      if_holds P _ _ _ (λ y. final_answer-ways (setting.parse_final message))
        (λ n. some_calls calls (ground arith))
    where
      some_calls :
          (calls : List OpenAiToolCall)
          → is_empty calls ≡ false
          → P (use_tools setting message calls c)
      some_calls [] e = absurd (ground arith)
      some_calls (call ∷ rest) e = use_tools-ways message call rest

  first_choice-ways :
      (response : Result Str (List OpenAiMessage)) → P (first_choice setting response c)
  unfolding answer_message
  first_choice-ways (err e) = ends _
  first_choice-ways (ok []) = ends _
  first_choice-ways (ok (message ∷ rest)) =
      answer_calls-ways message (keep_if is_context_tool_call message.tool_calls)

  pub answer_body-ways : (body : Str) → P (answer_body setting body c)
  answer_body-ways body = first_choice-ways (setting.parse_response body)

-- A predicate on rounds holds after a call if it holds of each of the four replies.
module _ {ℓ} (setting : Setting) (P : Round → Type ℓ) (remaining_tool_calls : ℕ)
    (call : OpenAiToolCall) (r : Round)
    (cached : P (
      reply
        (setting.outside.to_string cached_context)
        call
        (record r { cache_hit_requires_finalization = true })))
    (called : ltb r.real_calls_in_response remaining_tool_calls && bytes_left setting r.conversation
        ≡ true
      → P (real_call setting call r))
    (limited : leb remaining_tool_calls r.real_calls_in_response ≡ true
      → P (reply (limit_result setting (codes "call")) call (noticed r)))
    (full : leb remaining_tool_calls r.real_calls_in_response ≡ false
      → ltb r.real_calls_in_response remaining_tool_calls && bytes_left setting r.conversation
        ≡ false
      → P (
          reply
            (limit_result setting (codes "result byte"))
            call
            (record r { tool_byte_limit_reached = true }))) where
  pub answer_call-ways : P (answer_call setting remaining_tool_calls call r)
  unfolding answer_call
  answer_call-ways =
      if_holds P (known (setting.cache_key call.name call.arguments) r.conversation.tool_cache) _ _
        (λ y. cached)
        (λ n.
          if_holds P
            (ltb r.real_calls_in_response remaining_tool_calls && bytes_left setting r.conversation)
            _ _ called
            (λ n'.
              if_holds P (leb remaining_tool_calls r.real_calls_in_response) _ _ limited
                (λ n''. full n'' n')))

-- After the calls the finalization may be requested.
pub settle_round-ways {ℓ} :
    (setting : Setting) (P : Conversation → Type ℓ) (r : Round)
    → (budget_exhausted setting r ≡ true → P (request_finalization r.conversation))
    → (budget_exhausted setting r ≡ false → P r.conversation)
    → P (settle_round setting r)
settle_round-ways setting P r = if_holds P (budget_exhausted setting r) _ _

-- A predicate holds of what an attempt leads to if it holds of every end, of every further attempt and of
-- every attempt that closes the conversation.
module _ {ℓ} (service : Service) (setting : Setting) (again : Attempts service setting)
    (request : ChatRequest) (x : Exchange) (R : Exchange × Result AppError (ℕ × Str) → Type ℓ)
    (ends : (result : Result AppError (ℕ × Str)) → R (x, result))
    (closes : (e : AppError) → R (close_and service setting again e x))
    (retries : (e : AppError) → R (again request e x)) where
  retry_or_end-ways :
      (retried closing : Bool) (e : AppError) (result : Result AppError (ℕ × Str))
      → R (retry_or_end service setting again retried closing request e x result)
  unfolding retry_or_end
  retry_or_end-ways true true e result = closes e
  retry_or_end-ways true false e result = retries e
  retry_or_end-ways false closing e result = ends result

  pub after_attempt-ways :
      (may_retry : Bool) (outcome : Outcome)
      → R (after_attempt service setting again may_retry request x outcome)
  after_attempt-ways may_retry (response status body) = retry_or_end-ways _ _ _ _
  after_attempt-ways may_retry (failure e) = retry_or_end-ways _ _ _ _
  after_attempt-ways may_retry guard_timeout = retry_or_end-ways _ _ _ _
