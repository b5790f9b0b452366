-- ===== src/Review/Completion.antt =====
-- The conversation loop of src/review/ai.rs, `complete_ai_review_response`: what one answer of the
-- model leads to, the tool calls of a round, and the requests that follow. Parameters are the outside
-- of the tools, the JSON parsers, and the service, which answers a request by how many went before it.
pub mod Requests
pub mod Loop
pub mod Cases
pub mod Invariants
pub mod Budgets
pub mod Fuel
pub mod Sent
pub mod Closing
pub mod Ends
use git_lab_work_runner.Base.{
  ℕ, zero, suc, ◌+◌, ◌-◌, ◌^◌, min, max, Bool, true, false, not, ◌&&◌, ◌||◌, Option, none, some,
  List, [], ◌∷◌, ◌++◌, ltb, leb, ◌==◌, if◌then◌else◌, Str, codes, str_eq, trim, is_empty, byte_len,
  length, any, keep_if, Result, ok, err,
}
use git_lab_work_runner.Base.Decimal.{decimal}
use git_lab_work_runner.App.Error.{
  AppError, ai_review_error, ai_request_failed, ai_response_parse_failed,
}
use git_lab_work_runner.Review.Findings.{
  OpenAiToolCall, OpenAiMessage, FinalFindingsParseFailure, malformed, protocol,
}
use git_lab_work_runner.Review.Rules.{AiReviewConfig, Finding}
use git_lab_work_runner.Review.Messages.{
  ChatMessage, text_message, finalization_instruction, malformed_finalization_instruction,
  unavailable_tools_instruction, diff_only_finalization,
}
use git_lab_work_runner.Review.Tools.Truncation.{ToolValue, failed, cached_context}
use git_lab_work_runner.Review.Tools.Calls.{
  Outside, AiReviewToolContext, call_with_result_limit, source_available,
}

abbrev pub usize_max : ℕ
usize_max = 2 ^ 64 - 1

abbrev pub is_context_tool_call : OpenAiToolCall → Bool
is_context_tool_call call =
    str_eq call.name (codes "read_file")
    || str_eq call.name (codes "search_code")
    || str_eq call.name (codes "list_files")

abbrev non_empty_tool_call_id : OpenAiToolCall → Str
non_empty_tool_call_id call =
    if is_empty (trim call.id) then codes "call_" ++ call.name else call.id

abbrev pub has_submit_review_findings : OpenAiMessage → Bool
has_submit_review_findings message =
    any (λ (call : OpenAiToolCall). str_eq call.name (codes "submit_review_findings"))
      message.tool_calls

-- `synthesize_context_tool_call_ids`, with the number of the call from 1.
abbrev pub with_id : ℕ → OpenAiToolCall → OpenAiToolCall
with_id number call =
    if is_empty (trim call.id)
    then record call { id = codes "call_" ++ call.name ++ codes "_" ++ decimal number }
    else call

abbrev pub synthesize_context_tool_call_ids : ℕ → List OpenAiToolCall → List OpenAiToolCall
synthesize_context_tool_call_ids number [] = []
synthesize_context_tool_call_ids number (call ∷ rest) =
    with_id number call ∷ synthesize_context_tool_call_ids (suc number) rest

-- The variables of the conversation, and a log that is no variable of the code: `calls_made`, the calls
-- that the tools carried out with the results they gave, the latest first.
pub record Conversation : Type 0 where
  pub messages : List ChatMessage
  pub tool_call_limit_notice_sent : Bool
  pub unavailable_context_tool_notice_sent : Bool
  pub tool_cache : List Str
  pub tool_result_bytes_used : ℕ
  pub finalization_requested : Bool
  pub diff_only_fallback_requested : Bool
  pub malformed_finalization_retry_requested : Bool
  pub tool_calls_used : ℕ
  pub tool_rounds_used : ℕ
  pub calls_made : List (OpenAiToolCall × Str)

-- The variables of one round of tool calls.
pub record Round : Type 0 where
  pub conversation : Conversation
  pub real_calls_in_response : ℕ
  pub tool_byte_limit_reached : Bool
  pub cache_hit_requires_finalization : Bool

abbrev pub say : ChatMessage → Conversation → Conversation
say m c = record c { messages = c.messages ++ m ∷ [] }

unfoldable pub request_finalization : Conversation → Conversation
request_finalization c = elim c.finalization_requested [
  | true ↦ c
  | false ↦ record (say (text_message (codes "user") finalization_instruction) c) {
    finalization_requested = true;
  }
]

abbrev tool_message : Str → Str → ChatMessage
tool_message result id = record {
  role = codes "tool";
  content = some result;
  tool_call_id = some id;
  tool_calls = none;
}

-- What the loop over an answer leads to: the result of the review, or one more request.
pub data Next : Type 0 where
  finished : Result AppError (List Finding) → Next
  next_request : Conversation → Next

abbrev parse_error : Str → Next
parse_error message = finished (err (ai_review_error ai_response_parse_failed message))

abbrev request_error : Str → Next
request_error message = finished (err (ai_review_error ai_request_failed message))

abbrev pub notice_unavailable : Conversation → Conversation
notice_unavailable c = record (say (text_message (codes "user") unavailable_tools_instruction) c) {
  unavailable_context_tool_notice_sent = true;
}

abbrev pub retry_malformed : Conversation → Conversation
retry_malformed c =
    record (say (text_message (codes "system") malformed_finalization_instruction) c) {
      malformed_finalization_retry_requested = true;
      finalization_requested = true;
    }

abbrev pub begin_round : Conversation → Conversation
begin_round c = record c { tool_rounds_used = c.tool_rounds_used + 1 }

abbrev calls_message : OpenAiMessage → List OpenAiToolCall → ChatMessage
calls_message message calls = record {
  role = codes "assistant";
  content = message.content;
  tool_call_id = none;
  tool_calls = some calls;
}

abbrev pub final_answer : Conversation → Result FinalFindingsParseFailure (List Finding) → Next
final_answer c (ok findings) = finished (ok findings)
final_answer c (err (protocol e)) = finished (err e)
final_answer c (err (malformed e)) =
    if c.malformed_finalization_retry_requested
    then finished (err e)
    else next_request (retry_malformed c)

abbrev pub known : Str → List Str → Bool
known key cache = any (str_eq key) cache

abbrev pub remaining : ℕ → ℕ → ℕ
remaining limit used = if limit == 0 then usize_max else limit - used

abbrev pub reply : Str → OpenAiToolCall → Round → Round
reply result call r = record r {
  conversation = say (tool_message result (non_empty_tool_call_id call)) r.conversation;
}

abbrev pub noticed : Round → Round
noticed r = record r { conversation = record r.conversation { tool_call_limit_notice_sent = true } }

-- The round begins with the calls of the answer.
abbrev pub new_round : OpenAiMessage → List OpenAiToolCall → Conversation → Round
new_round message calls c = record {
  conversation = say (calls_message message calls) c;
  real_calls_in_response = 0;
  tool_byte_limit_reached = false;
  cache_hit_requires_finalization = false;
}

-- What the review is done with: the configuration, the tools, and the parsers. `cache_key` is
-- `context_tool_cache_key` with its JSON library.
pub record Setting : Type 0 where
  pub config : AiReviewConfig
  pub outside : Outside
  pub context : AiReviewToolContext
  pub cache_key : Str → Str → Str
  pub parse_final : OpenAiMessage → Result FinalFindingsParseFailure (List Finding)
  pub parse_response : Str → Result Str (List OpenAiMessage)
  pub use_tool_calls : Bool
  pub base_message_count : ℕ

module _ (setting : Setting) where
  abbrev pub limit_result : Str → Str
  limit_result what = setting.outside.to_string (
      failed (
        codes "AI review context tool "
        ++ what
        ++ codes " limit reached for '"
        ++ setting.config.id
        ++ codes
            "'. Stop calling context tools and submit final findings with submit_review_findings using the context already available."))

  -- The result of a call that the budgets admit.
  abbrev pub real_result : OpenAiToolCall → Conversation → Str
  real_result call c =
      call_with_result_limit setting.outside setting.context call.name call.arguments (
        min setting.config.max_tool_result_bytes
          (remaining setting.config.max_tool_total_bytes c.tool_result_bytes_used))

  abbrev pub real_call : OpenAiToolCall → Round → Round
  real_call call r =
      let c = r.conversation in
      let result = real_result call c in
      record r {
        conversation = record (say (tool_message result (non_empty_tool_call_id call)) c) {
          tool_calls_used = c.tool_calls_used + 1;
          tool_result_bytes_used = min (c.tool_result_bytes_used + byte_len result) usize_max;
          tool_cache = setting.cache_key call.name call.arguments ∷ c.tool_cache;
          calls_made = (call, result) ∷ c.calls_made;
        };
        real_calls_in_response = r.real_calls_in_response + 1;
      }

  abbrev pub bytes_left : Conversation → Bool
  bytes_left c =
      setting.config.max_tool_total_bytes == 0
      || leb 28 (remaining setting.config.max_tool_total_bytes c.tool_result_bytes_used)

  -- One call of the loop; `remaining_tool_calls` is counted before the loop.
  unfoldable pub answer_call : ℕ → OpenAiToolCall → Round → Round
  answer_call remaining_tool_calls call r =
      let c = r.conversation in
      if known (setting.cache_key call.name call.arguments) c.tool_cache
      then reply (setting.outside.to_string cached_context) call
          (record r { cache_hit_requires_finalization = true })
      else if ltb r.real_calls_in_response remaining_tool_calls && bytes_left c
      then real_call call r
      else if leb remaining_tool_calls r.real_calls_in_response
      then reply (limit_result (codes "call")) call (noticed r)
      else reply (limit_result (codes "result byte")) call
          (record r { tool_byte_limit_reached = true })

  unfoldable pub answer_calls : ℕ → List OpenAiToolCall → Round → Round
  answer_calls remaining_tool_calls [] r = r
  answer_calls remaining_tool_calls (call ∷ rest) r =
      answer_calls remaining_tool_calls rest (answer_call remaining_tool_calls call r)

  abbrev pub round_exhausted : Conversation → Bool
  round_exhausted c =
      not (setting.config.max_tool_rounds == 0)
      && leb setting.config.max_tool_rounds c.tool_rounds_used

  abbrev pub budget_exhausted : Round → Bool
  budget_exhausted r =
      (not (setting.config.max_tool_calls == 0)
        && leb setting.config.max_tool_calls r.conversation.tool_calls_used)
      || round_exhausted r.conversation
      || (not (setting.config.max_tool_total_bytes == 0)
          && (leb setting.config.max_tool_total_bytes r.conversation.tool_result_bytes_used
              || r.tool_byte_limit_reached))
      || r.cache_hit_requires_finalization

  abbrev pub settle_round : Round → Conversation
  settle_round r =
      if budget_exhausted r then request_finalization r.conversation else r.conversation

  abbrev pub run_round : OpenAiMessage → List OpenAiToolCall → Conversation → Conversation
  run_round message calls c = settle_round (
      answer_calls (remaining setting.config.max_tool_calls c.tool_calls_used) calls
        (new_round message calls c))

  abbrev pub call_limit_reported : Conversation → Bool
  call_limit_reported c =
      not (setting.config.max_tool_calls == 0)
      && remaining setting.config.max_tool_calls c.tool_calls_used == 0
      && c.tool_call_limit_notice_sent

  unfoldable pub tool_round : OpenAiMessage → List OpenAiToolCall → Conversation → Next
  tool_round message calls c =
      if call_limit_reported c
      then request_error (
          codes "AI review "
          ++ setting.config.id
          ++ codes " exhausted context tool calls before submitting findings")
      else next_request
          (run_round message (synthesize_context_tool_call_ids 1 calls) (begin_round c))

  abbrev pub request_diff_only_finalization : Conversation → Conversation
  request_diff_only_finalization c = record c {
    diff_only_fallback_requested = true;
    messages = diff_only_finalization c.messages setting.base_message_count;
  }

  abbrev pub after_finalization : Conversation → Next
  after_finalization c =
      if c.malformed_finalization_retry_requested
      then parse_error (
          codes "AI review "
          ++ setting.config.id
          ++ codes " requested context tools during malformed findings recovery")
      else if c.diff_only_fallback_requested
      then request_error (
          codes "AI review "
          ++ setting.config.id
          ++ codes
              " failed to submit findings after diff-only finalization fallback and requested another context tool")
      else next_request (request_diff_only_finalization c)

  abbrev pub without_source : Conversation → Next
  without_source c =
      if c.unavailable_context_tool_notice_sent
      then parse_error (
          codes "AI review "
          ++ setting.config.id
          ++ codes " repeatedly requested unavailable context tools")
      else next_request (notice_unavailable c)

  unfoldable pub use_tools : OpenAiMessage → List OpenAiToolCall → Conversation → Next
  use_tools message calls c =
      if c.finalization_requested
      then after_finalization c
      else if not (source_available setting.context)
      then without_source c
      else tool_round message calls c

  unfoldable pub answer_message : OpenAiMessage → Conversation → Next
  answer_message message c =
      let calls = keep_if is_context_tool_call message.tool_calls in
      if has_submit_review_findings message || not setting.use_tool_calls || is_empty calls
      then final_answer c (setting.parse_final message)
      else use_tools message calls c

  -- The answer is the first choice of the body.
  abbrev pub first_choice : Result Str (List OpenAiMessage) → Conversation → Next
  first_choice (err e) c = parse_error e
  first_choice (ok []) c = parse_error (codes "AI review API returned no choices")
  first_choice (ok (message ∷ rest)) c = answer_message message c

  abbrev pub answer_body : Str → Conversation → Next
  answer_body body c = first_choice (setting.parse_response body) c
