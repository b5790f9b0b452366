-- ===== src/Review/Http.antt =====
-- How src/review/ai.rs reads the answers of the AI service: which failures are retried, which end the
-- use of tools, and which errors of a review fall back to the diff alone. The reading of an error body
-- as JSON is a parameter.
pub mod Classes
use git_lab_work_runner.Base.{
  ℕ, ◌≤◌, Bool, true, false, not, ◌&&◌, ◌||◌, Option, none, some, ltb, ◌==◌, if◌then◌else◌, Str,
  codes, str_eq, contains, to_ascii_lowercase,
}
use git_lab_work_runner.App.Error.{
  ReviewErrorCode, review_run_timeout, ai_request_timeout, ai_tool_loop_timeout, ReviewFailure,
  AppError, review_failure,
}

unfoldable pub is_tool_call_rejection : ℕ → Str → Bool
is_tool_call_rejection status body =
    let normalized = to_ascii_lowercase body in
    if not (status == 400) && not (status == 422)
    then false
    else contains (codes "tool") normalized
      || contains (codes "tools") normalized
      || contains (codes "tool_choice") normalized
      || contains (codes "function") normalized

unfoldable pub is_timeout_ai_http_response : ℕ → Str → Bool
is_timeout_ai_http_response status body =
    let normalized = to_ascii_lowercase body in
    if status == 408 || status == 504
    then true
    else if ltb status 500
    then false
    else contains (codes "requesttimeout") normalized
      || contains (codes "request timed out") normalized
      || contains (codes "timed out") normalized
      || contains (codes "timeout") normalized

unfoldable pub is_retryable_ai_http_response : ℕ → Str → Bool
is_retryable_ai_http_response status body =
    is_timeout_ai_http_response status body || status == 429 || status == 502 || status == 503

abbrev is_timeout_code : Option Str → Bool
is_timeout_code none = false
is_timeout_code (some code) =
    str_eq code (codes "request_timeout") || str_eq code (codes "RequestTimeout")

-- `error_code` reads `error.code` of a body that is a JSON object with that text.
unfoldable pub should_enter_timeout_finalization : (Str → Option Str) → ℕ → Str → Bool
should_enter_timeout_finalization error_code status body =
    if status == 408 || status == 504
    then true
    else if not (status == 500)
    then false
    else is_timeout_code (error_code body)

pub data AiReviewExecutionMode : Type 0 where
  context_mode diff_only_fallback : AiReviewExecutionMode

pub data AiReviewFallbackReason : Type 0 where
  archive_limit_exceeded_reason review_run_timeout_reason : AiReviewFallbackReason
  ai_request_timeout_reason ai_tool_loop_timeout_reason : AiReviewFallbackReason

-- `AiReviewFallbackReason::as_str`.
abbrev pub reason_as_str : AiReviewFallbackReason → Str
reason_as_str archive_limit_exceeded_reason = codes "archive_limit_exceeded"
reason_as_str review_run_timeout_reason = codes "review_run_timeout"
reason_as_str ai_request_timeout_reason = codes "ai_request_timeout"
reason_as_str ai_tool_loop_timeout_reason = codes "ai_tool_loop_timeout"

abbrev pub reason_of_code : ReviewErrorCode → Option AiReviewFallbackReason
reason_of_code review_run_timeout = some review_run_timeout_reason
reason_of_code ai_request_timeout = some ai_request_timeout_reason
reason_of_code ai_tool_loop_timeout = some ai_tool_loop_timeout_reason
reason_of_code _ = none

abbrev reason_of_failure : Option ReviewFailure → Option AiReviewFallbackReason
reason_of_failure none = none
reason_of_failure (some failure) = reason_of_code failure.code

unfoldable pub timeout_fallback_reason : AppError → Option AiReviewFallbackReason
timeout_fallback_reason error = reason_of_failure (review_failure error)
