-- ===== src/Review/Single.antt =====
-- `run_ai_review_single` of src/review/ai.rs: the first request of a review in its modes, and the
-- conversation that follows. Prompts, parsers, the HTTP client and the service are parameters.
pub mod Ends
pub mod Sound
use git_lab_work_runner.Base.{
  ℕ, zero, suc, ◌+◌, Bool, true, false, not, ◌&&◌, ◌||◌, Option, none, some, List, [], ◌∷◌, ◌++◌,
  ltb, if◌then◌else◌, Str, codes, trim, is_empty, length, Result, ok, err, ◌>>=◌,
}
use git_lab_work_runner.Base.Decimal.{decimal}
use git_lab_work_runner.App.Error.{
  AppError, ai_review_error, ai_request_failed, ai_request_timeout, invalid_configuration,
}
use git_lab_work_runner.Review.Diff.{Fault, failed}
use git_lab_work_runner.Review.WorkItems.{GitLabChange}
use git_lab_work_runner.Review.Rules.{AiReviewConfig, Finding}
use git_lab_work_runner.Review.Findings.{
  AiFinding, OpenAiMessage, parse_final_findings_candidates, filter_findings_to_added_lines,
}
use git_lab_work_runner.Review.Batches.{AiReviewSingleResult, effective_request_timeout_seconds}
use git_lab_work_runner.Review.Http.{is_tool_call_rejection, is_retryable_ai_http_response}
use git_lab_work_runner.Review.Messages.{ChatMessage, review_chat_messages, preview_log_text}
use git_lab_work_runner.Review.Tools.Paths.{PathNames}
use git_lab_work_runner.Review.Tools.CacheKeys.{Json, context_tool_cache_key}
use git_lab_work_runner.Review.Tools.Calls.{Outside, new_context, source_available}
use git_lab_work_runner.Review.Completion.{Conversation, Setting}
use git_lab_work_runner.Review.Completion.Requests.{
  ChatRequest, Service, Outcome, response, failure, guard_timeout, Exchange, review_request,
  is_success, is_retryable_ai_error, status_message, status_error,
}
use git_lab_work_runner.Review.Completion.Loop.{Completed, complete_response}

-- What a review is made with. `prompt_for` is `build_review_prompt_with_options` by the mode, `quote` and
-- `from_str` are of the JSON library, and `client` is `shared_ai_http_client`.
pub record ReviewInput : Type 0 where
  pub config : AiReviewConfig
  pub changes : List GitLabChange
  pub source_dir : Option PathNames
  pub instruction : Option Str
  pub system_prompt : Str
  pub prompt_for : Bool → Str
  pub outside : Outside
  pub quote : Str → Str
  pub from_str : Str → Option Json
  pub parse_findings : Str → Result Str (List AiFinding)
  pub json_end : Str → Option ℕ
  pub parse_response : Str → Result Str (List OpenAiMessage)
  pub client : Result AppError (Unit {0})

-- The end of the attempts in one mode: the result, or the rejection of the tools.
pub data ModeEnd : Type 0 where
  settled : Option (Result Fault AiReviewSingleResult) → ModeEnd
  tools_rejected : AppError → ModeEnd

module _ (service : Service) (input : ReviewInput) (fuel : ℕ) where
  abbrev pub first_messages : Bool → List ChatMessage
  first_messages use_tool_calls =
      review_chat_messages input.system_prompt (input.prompt_for use_tool_calls) input.instruction

  abbrev pub setting_for : Bool → Setting
  setting_for use_tool_calls = record {
    config = input.config;
    outside = input.outside;
    context = new_context input.config.max_tool_result_bytes input.source_dir;
    cache_key = context_tool_cache_key input.quote input.from_str;
    parse_final =
        parse_final_findings_candidates input.parse_findings input.config.id input.json_end;
    parse_response = input.parse_response;
    use_tool_calls = use_tool_calls;
    base_message_count = length (first_messages use_tool_calls);
  }

  abbrev pub first_conversation : Bool → Conversation
  first_conversation use_tool_calls = record {
    messages = first_messages use_tool_calls;
    tool_call_limit_notice_sent = false;
    unavailable_context_tool_notice_sent = false;
    tool_cache = [];
    tool_result_bytes_used = 0;
    finalization_requested = false;
    diff_only_fallback_requested = false;
    malformed_finalization_retry_requested = false;
    tool_calls_used = 0;
    tool_rounds_used = 0;
    calls_made = [];
  }

  abbrev pub first_request : Bool → ChatRequest
  first_request use_tool_calls =
      review_request input.config (first_messages use_tool_calls) use_tool_calls
        (source_available (new_context input.config.max_tool_result_bytes input.source_dir))

  -- The findings that are kept, with what the tools used.
  abbrev pub kept : Exchange → List Finding → Result Fault AiReviewSingleResult
  kept x findings = do
    filtered ← filter_findings_to_added_lines input.changes findings
    ok (record {
      findings = filtered;
      tool_rounds_used = x.conversation.tool_rounds_used;
      tool_calls_used = x.conversation.tool_calls_used;
    })

  abbrev pub kept_of : Completed → Option (Result Fault AiReviewSingleResult)
  kept_of (x, none) = none
  kept_of (x, some (err e)) = some (err (failed e))
  kept_of (x, some (ok findings)) = some (kept x findings)

  abbrev pub converse : Bool → Str → List ChatRequest → Completed
  converse use_tool_calls body sent =
      complete_response service (setting_for use_tool_calls) fuel body
        (record { conversation = first_conversation use_tool_calls; sent = sent })

  abbrev pub conversed : Completed → List ChatRequest × ModeEnd
  conversed c = (c.0.sent, settled (kept_of c))

  abbrev pub stop_with : List ChatRequest → AppError → List ChatRequest × ModeEnd
  stop_with sent e = (sent, settled (some (err (failed e))))

  abbrev first_timeout : AppError
  first_timeout = ai_review_error ai_request_timeout (
      codes "AI review "
      ++ input.config.id
      ++ codes " timed out after "
      ++ decimal (effective_request_timeout_seconds input.config)
      ++ codes " seconds")

  -- What the first request leads to. `again` makes the attempts that are left.
  abbrev pub after_first :
      (AppError → List ChatRequest → List ChatRequest × ModeEnd)
      → (may_retry use_tool_calls : Bool) → List ChatRequest
      → Outcome
      → List ChatRequest × ModeEnd
  after_first again may_retry use_tool_calls sent (response status body) =
      if is_success status
      then conversed (converse use_tool_calls body sent)
      else if use_tool_calls && is_tool_call_rejection status (preview_log_text body 1000)
      then (
        sent,
        tools_rejected (
            ai_review_error ai_request_failed
              (codes "AI review API rejected tool calls: " ++ preview_log_text body 1000)),
      )
      else if may_retry && is_retryable_ai_http_response status body
      then again
          (ai_review_error ai_request_failed (
            status_message service (setting_for use_tool_calls) (codes "retryable HTTP status ")
              status body))
          sent
      else stop_with sent
          (status_error service (setting_for use_tool_calls) ai_request_timeout status body)
  after_first again may_retry use_tool_calls sent (failure e) =
      if may_retry && is_retryable_ai_error service e then again e sent else stop_with sent e
  after_first again may_retry use_tool_calls sent guard_timeout =
      if may_retry then again first_timeout sent else stop_with sent first_timeout

  -- The loop over the attempts of a mode; `left` counts those that are left.
  unfoldable pub first_attempts :
      Bool → ℕ → AppError → List ChatRequest → List ChatRequest × ModeEnd
  first_attempts use_tool_calls zero last_error sent = stop_with sent last_error
  first_attempts use_tool_calls (suc left) last_error sent =
      after_first (first_attempts use_tool_calls left) (ltb 0 left) use_tool_calls
        (sent ++ first_request use_tool_calls ∷ [])
        (service.answer (length sent) (first_request use_tool_calls))

  abbrev no_review_error : AppError
  no_review_error =
      ai_review_error ai_request_failed
        (codes "AI review " ++ input.config.id ++ codes " failed without an explicit error")

  -- The JSON mode cannot be rejected again; `AI_HTTP_ATTEMPTS = 2`.
  abbrev pub after_json :
      List ChatRequest × ModeEnd → List ChatRequest × Option (Result Fault AiReviewSingleResult)
  after_json (sent, settled result) = (sent, result)
  after_json (sent, tools_rejected e) = (sent, some (err (failed e)))

  abbrev pub after_tools :
      List ChatRequest × ModeEnd → List ChatRequest × Option (Result Fault AiReviewSingleResult)
  after_tools (sent, settled result) = (sent, result)
  after_tools (sent, tools_rejected e) = after_json (first_attempts false 2 e sent)

  abbrev pub with_client :
      Result AppError (Unit {0}) → List ChatRequest × Option (Result Fault AiReviewSingleResult)
  with_client (err e) = ([], some (err (failed e)))
  with_client (ok u) = after_tools (first_attempts true 2 no_review_error [])

  -- The requests that were sent, and the result; there is none where the fuel ends first.
  unfoldable pub run_ai_review_single :
      List ChatRequest × Option (Result Fault AiReviewSingleResult)
  run_ai_review_single =
      if is_empty (trim input.config.api_key)
      then (
        [],
        some (
            err (
              failed (
                ai_review_error invalid_configuration
                  (codes "api_key is empty for AI review " ++ input.config.id)))),
      )
      else with_client input.client
