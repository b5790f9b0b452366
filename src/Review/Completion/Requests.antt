-- ===== src/Review/Completion/Requests.antt =====
-- The requests of src/review/ai.rs: what a request offers to the model, and the attempts of a follow-up
-- request, with the retry that src/review/ai_http.rs allows.
use git_lab_work_runner.Base.{
  ℕ, zero, suc, Bool, true, false, not, ◌&&◌, ◌||◌, Option, none, some, List, [], ◌∷◌, ◌++◌, ltb,
  leb, ◌==◌, if◌then◌else◌, Str, codes, contains, length, Result, ok, err,
}
use git_lab_work_runner.Base.Decimal.{decimal}
use git_lab_work_runner.App.Error.{
  AppError, ReviewErrorCode, ReviewFailure, ai_review, ai_review_error, review_failure, reqwest,
  ai_request_failed, ai_tool_loop_timeout, permission_denied,
}
use git_lab_work_runner.Review.Http.{
  is_retryable_ai_http_response, should_enter_timeout_finalization,
}
use git_lab_work_runner.Review.Batches.{effective_request_timeout_seconds}
use git_lab_work_runner.Review.Rules.{AiReviewConfig}
use git_lab_work_runner.Review.Messages.{ChatMessage, preview_log_text, timeout_finalization}
use git_lab_work_runner.Review.Completion.{Conversation, Setting}
use git_lab_work_runner.Review.Tools.Calls.{source_available}

-- `OpenAiChatRequest`, with its tools by their names; the JSON mode has no tools.
pub record ChatRequest : Type 0 where
  pub model : Str
  pub json_object : Bool
  pub tools : Option (List Str)
  pub messages : List ChatMessage

abbrev pub context_tool_names : List Str
context_tool_names = codes "read_file" ∷ codes "search_code" ∷ codes "list_files" ∷ []

abbrev offered_tools : Bool → List Str
offered_tools context_tools_enabled =
    (if context_tools_enabled then context_tool_names else [])
    ++ codes "submit_review_findings" ∷ []

unfoldable pub review_request : AiReviewConfig → List ChatMessage → Bool → Bool → ChatRequest
review_request config messages use_tool_calls context_tools_enabled = record {
  model = config.model;
  json_object = not use_tool_calls;
  tools = if use_tool_calls then some (offered_tools context_tools_enabled) else none;
  messages = messages;
}

-- What comes of one attempt: an answer, an error, or the timeout of the guard.
pub data Outcome : Type 0 where
  response : ℕ → Str → Outcome
  failure : AppError → Outcome
  guard_timeout : Outcome

-- The service answers by the number of the requests before and by the request. `error_code` reads the
-- code in the body of an error, and `is_transient` is what reqwest says of its error.
pub record Service : Type 0 where
  pub answer : ℕ → ChatRequest → Outcome
  pub error_code : Str → Option Str
  pub is_transient : Str → Bool

-- The requests that were sent, in order, stand beside the conversation.
pub record Exchange : Type 0 where
  pub conversation : Conversation
  pub sent : List ChatRequest

abbrev pub is_success : ℕ → Bool
is_success status = leb 200 status && ltb status 300

module _ (service : Service) where
  abbrev pub is_retryable_ai_error : AppError → Bool
  is_retryable_ai_error (reqwest text) = service.is_transient text
  is_retryable_ai_error (ai_review f) =
      contains (codes "blocking API request failed") f.message
      || contains (codes "blocking API response body read failed") f.message
      || contains (codes "blocking HTTP task failed") f.message
  is_retryable_ai_error _ = false

  abbrev is_loop_timeout : Option ReviewFailure → Bool
  is_loop_timeout none = false
  is_loop_timeout (some f) = is_loop_timeout_code f.code
    where
      is_loop_timeout_code : ReviewErrorCode → Bool
      is_loop_timeout_code ai_tool_loop_timeout = true
      is_loop_timeout_code _ = false

  module _ (setting : Setting) where
    -- `request_timeout_finalization`.
    unfoldable pub request_timeout_finalization : Exchange → Exchange
    request_timeout_finalization x =
        let c = x.conversation in
        record x {
          conversation = record c {
            messages =
                timeout_finalization c.messages setting.base_message_count setting.use_tool_calls
                  c.malformed_finalization_retry_requested c.diff_only_fallback_requested;
            finalization_requested = true;
          };
        }

    -- The request after a timeout offers no context tools.
    abbrev pub closing_request : Exchange → ChatRequest
    closing_request x =
        review_request setting.config x.conversation.messages setting.use_tool_calls false

    abbrev timeout_error : AppError
    timeout_error = ai_review_error ai_tool_loop_timeout (
        codes "AI review "
        ++ setting.config.id
        ++ codes " timed out after "
        ++ decimal (effective_request_timeout_seconds setting.config)
        ++ codes " seconds")

    abbrev pub status_message : Str → ℕ → Str → Str
    status_message what status body =
        codes "AI review API returned "
        ++ what
        ++ decimal status
        ++ codes ": "
        ++ preview_log_text body 1000

    abbrev pub attempted : ChatRequest → Exchange → Exchange
    attempted request x = record x { sent = x.sent ++ request ∷ [] }

    abbrev pub Attempts : Type 0
    Attempts = ChatRequest → AppError → Exchange → Exchange × Result AppError (ℕ × Str)

    -- The next attempt with the request that closes the conversation.
    abbrev pub close_and : Attempts → AppError → Exchange → Exchange × Result AppError (ℕ × Str)
    close_and again e x =
        let closing = request_timeout_finalization x in again (closing_request closing) e closing

    abbrev pub retry_status : ℕ → Str → AppError
    retry_status status body =
        ai_review_error ai_request_failed
          (status_message (codes "retryable HTTP status ") status body)

    -- One more attempt, which closes the conversation or repeats the request, or the end.
    unfoldable pub retry_or_end :
        Attempts
        → (retried closing : Bool) → ChatRequest
        → AppError
        → Exchange
        → Result AppError (ℕ × Str)
        → Exchange × Result AppError (ℕ × Str)
    retry_or_end again retried closing request e x result =
        if retried
        then (if closing then close_and again e x else again request e x)
        else (x, result)

    -- What an attempt leads to. `again` makes the attempts that are left, `may_retry` tells whether there
    -- are any, and `x` holds the request as sent.
    abbrev pub after_attempt :
        Attempts → Bool → ChatRequest → Exchange → Outcome → Exchange × Result AppError (ℕ × Str)
    after_attempt again may_retry request x (response status body) =
        retry_or_end again
          (not (is_success status) && may_retry && is_retryable_ai_http_response status body)
          (should_enter_timeout_finalization service.error_code status body) request
          (retry_status status body) x (ok (status, body))
    after_attempt again may_retry request x (failure e) =
        retry_or_end again (may_retry && is_retryable_ai_error e)
          (is_loop_timeout (review_failure e)) request e x (err e)
    after_attempt again may_retry request x guard_timeout =
        retry_or_end again may_retry true request timeout_error x (err timeout_error)

    -- The loop over the attempts of a follow-up request; `left` counts those that are left.
    unfoldable pub follow_up : ℕ → Attempts
    follow_up zero request last_error x = (x, err last_error)
    follow_up (suc left) request last_error x =
        after_attempt (follow_up left) (ltb 0 left) request (attempted request x)
          (service.answer (length x.sent) request)

    abbrev no_explicit_error : AppError
    no_explicit_error = ai_review_error ai_request_failed (
        codes "AI review "
        ++ setting.config.id
        ++ codes " context follow-up request failed without an explicit error")

    -- The code of the error for a status that is no success.
    abbrev pub status_code : ReviewErrorCode → ℕ → Str → ReviewErrorCode
    status_code timeout_code status body =
        if status == 401 || status == 403
        then permission_denied
        else if should_enter_timeout_finalization service.error_code status body
        then timeout_code
        else ai_request_failed

    abbrev pub status_error : ReviewErrorCode → ℕ → Str → AppError
    status_error timeout_code status body =
        ai_review_error (status_code timeout_code status body)
          (status_message (codes "HTTP status ") status body)

    abbrev success_body : Result AppError (ℕ × Str) → Result AppError Str
    success_body (err e) = err e
    success_body (ok (status, body)) =
        if is_success status then ok body else err (status_error ai_tool_loop_timeout status body)

    abbrev pub next_of : Conversation → ChatRequest
    next_of c =
        review_request setting.config c.messages setting.use_tool_calls (
          setting.use_tool_calls
          && source_available setting.context
          && not c.finalization_requested)

    -- One more request, with `AI_HTTP_ATTEMPTS = 2`.
    unfoldable pub request_body : Exchange → Exchange × Result AppError Str
    request_body x =
        let r = follow_up 2 (next_of x.conversation) no_explicit_error x in (r.0, success_body r.1)
