-- ===== src/Review/Http/Classes.antt =====
-- How the classes of answers in src/review/ai.rs relate.
use git_lab_work_runner.Base.{
  ℕ, ◌≡◌, ◌≢◌, ap, inl, inr, Option-cases, true, false, ◌||◌, Option, none, some, arith, ◌==◌, Str,
}
use git_lab_work_runner.App.Error.{
  ReviewErrorCode, review_run_timeout, ai_request_timeout, ai_tool_loop_timeout, as_str,
  ReviewFailure, AppError, review_failure,
}
use git_lab_work_runner.Review.Http.{
  is_tool_call_rejection, is_timeout_ai_http_response, is_retryable_ai_http_response,
  should_enter_timeout_finalization, AiReviewFallbackReason, reason_as_str, reason_of_code,
  timeout_fallback_reason,
}

-- An answer that rejects the tools is of status 400 or 422, is not retried, is not a timeout, and does
-- not end the use of tools as one.
pub is_tool_call_rejection-excludes :
    (error_code : Str → Option Str) (status : ℕ) (body : Str)
    → is_tool_call_rejection status body ≡ true
    → ((status == 400 || status == 422) ≡ true)
      × (is_retryable_ai_http_response status body ≡ false)
      × (is_timeout_ai_http_response status body ≡ false)
      × (should_enter_timeout_finalization error_code status body ≡ false)
unfolding is_tool_call_rejection is_retryable_ai_http_response is_timeout_ai_http_response
    should_enter_timeout_finalization
is_tool_call_rejection-excludes error_code status body h =
    (ground (arith, h), ground (arith, h), ground (arith, h), ground (arith, h))

some_same : {a b : AiReviewFallbackReason} → some a ≡ some b → a ≡ b
some_same h = cc

none_same : {b : AiReviewFallbackReason} → none ≢ some b
none_same h = cc

by_code :
    (code : ReviewErrorCode) {reason : AiReviewFallbackReason}
    → reason_of_code code ≡ some reason
    → as_str code ≡ reason_as_str reason
unfolding as_str
by_code review_run_timeout h = ap reason_as_str (some_same h)
by_code ai_request_timeout h = ap reason_as_str (some_same h)
by_code ai_tool_loop_timeout h = ap reason_as_str (some_same h)
by_code _ h = absurd (none_same h)

-- Where a review falls back to the diff, its error carries a failure, and the reason has the text of
-- that failure's code.
pub timeout_fallback_reason-as_str :
    (error : AppError) (reason : AiReviewFallbackReason)
    → timeout_fallback_reason error ≡ some reason
    → (failure : ReviewFailure) × (review_failure error ≡ some failure)
      × (as_str failure.code ≡ reason_as_str reason)
unfolding timeout_fallback_reason
timeout_fallback_reason-as_str error reason h = elim (Option-cases (review_failure error)) [
  | inl n ↦ absurd (none_same (rw (n, timeout_fallback_reason) at h))
  | inr (failure, e) ↦ (failure, e, by_code failure.code (rw (e, timeout_fallback_reason) at h))
]
