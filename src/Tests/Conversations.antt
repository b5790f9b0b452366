-- ===== src/Tests/Conversations.antt =====
-- A review with its tools, on concrete inputs: the model reads a file, then submits a finding.
use git_lab_work_runner.Base.{
  ℕ, ◌+◌, ◌*◌, ◌≡◌, ◌≤◌, ◌≢◌, ◌==◌, if◌then◌else◌, append-nil, sym, refl, inr, true, false, none,
  some, List, [], ◌∷◌, Str, codes, str_eq, length, Result, ok, err, arith, trim, is_whitespace,
  byte_len, split_parts, split_lines, split_words, before,
}
use git_lab_work_runner.Base.Decimal.{parse_u32}
use git_lab_work_runner.Review.Diff.{
  Fault, parse_range, parse_hunk_header, feed, open_hunk, parse_line, parse_lines,
  parse_unified_diff,
}
use git_lab_work_runner.Review.WorkItems.{GitLabChange}
use git_lab_work_runner.Review.Rules.{AiReviewConfig, Finding, error}
use git_lab_work_runner.Review.Findings.{
  AiFinding, OpenAiMessage, normalize_ai_findings, objects_from, finding_le, sort_findings,
  canonical_findings, parse_single_findings_candidate, try_candidates, settle,
  parse_final_findings_candidates, added_lines, filter_findings_to_added_lines,
}
use git_lab_work_runner.Review.Batches.{AiReviewSingleResult}
use git_lab_work_runner.Review.Messages.{ChatMessage, review_chat_messages}
use git_lab_work_runner.Review.Http.{
  is_retryable_ai_http_response, is_timeout_ai_http_response, should_enter_timeout_finalization,
}
use git_lab_work_runner.Review.Tools.Paths.{
  resolve_safe_path, normalize_path, is_sensitive_path, components,
}
use git_lab_work_runner.Review.Tools.Walk.{no_more}
use git_lab_work_runner.Review.Tools.Truncation.{
  ToolValue, failed, truncated_content, truncate_json_result, search_boundary,
}
use git_lab_work_runner.Review.Tools.Calls.{
  Outside, call_with_result_limit, read_file, read_utf8_file_limited, decode_prefix,
}
use git_lab_work_runner.Review.Tools.CacheKeys.{context_tool_cache_key}
use git_lab_work_runner.Review.Completion.{
  Setting, answer_message, use_tools, tool_round, answer_calls, answer_call, request_finalization,
}
use git_lab_work_runner.Review.Completion.Requests.{
  ChatRequest, Service, Outcome, response, Exchange, review_request, request_body, follow_up,
  retry_or_end,
}
use git_lab_work_runner.Review.Completion.Loop.{complete_response}
use git_lab_work_runner.Review.Completion.Budgets.{WithinBudgets, complete_response-WithinBudgets}
use git_lab_work_runner.Review.Completion.Sent.{BeginWithBase, complete_response-BeginWithBase}
use git_lab_work_runner.Review.Completion.Closing.{Closing, complete_response-Closing}
use git_lab_work_runner.Review.Single.{
  ReviewInput, setting_for, first_conversation, first_messages, first_attempts,
  run_ai_review_single,
}
use git_lab_work_runner.Review.Single.Ends.{first_turns, run_ai_review_single-ends}
use git_lab_work_runner.Review.Single.Sound.{IsSound, run_ai_review_single-IsSound}

abbrev pub review_config : AiReviewConfig
review_config = record {
  enabled = true;
  id = codes "default";
  title = codes "Review";
  base_url = codes "http://localhost";
  api_key = codes "key";
  model = codes "m";
  timeout_seconds = 60;
  request_timeout_seconds = none;
  max_batch_diff_bytes = 40;
  max_batches = 0;
  extra_instructions = [];
  max_tool_calls = 2;
  max_tool_rounds = 0;
  max_tool_result_bytes = 60;
  max_tool_total_bytes = 80;
}

abbrev pub adding : GitLabChange
adding = record {
  old_path = codes "src/a.rs";
  new_path = codes "src/a.rs";
  new_file = false;
  renamed_file = false;
  deleted_file = false;
  diff = codes "@@ -1 +1,2 @@\n x\n+y\n";
}

abbrev pub leak : AiFinding
leak = record {
  path = codes "src/a.rs";
  line = 2;
  severity = codes "error";
  title = codes "Leak";
  message = codes "The handle is not closed.";
}

abbrev pub kept_leak : Finding
kept_leak = record {
  rule_id = codes "ai:default";
  severity = error;
  path = codes "src/a.rs";
  new_line = some 2;
  title = codes "Leak";
  message = codes "The handle is not closed.";
}

abbrev plain_value : ToolValue → Str
plain_value (failed message) = message
plain_value (truncated_content content) = content
plain_value _ = codes "{}"

abbrev pub plain_outside : Outside
plain_outside = record {
  read_args = λ text. ok (record { path = codes "src/a.rs"; start_line = none; end_line = none });
  search_args = λ text. err (codes "no JSON");
  list_args = λ text. err (codes "no JSON");
  glob_matcher = λ pattern. err (codes "no glob");
  canonicalize = λ path. ok path;
  entries = λ path. no_more;
  file_len = λ path. some 3;
  read_bytes = λ path. ok (codes "x\ny");
  from_utf8 = λ bytes. ok bytes;
  read_to_string = λ path. ok (codes "x\ny");
  to_string = plain_value;
}

abbrev pub reading : OpenAiMessage
reading = record {
  content = none;
  tool_calls = record { id = []; name = codes "read_file"; arguments = codes "{}" } ∷ [];
}

abbrev pub submitting : OpenAiMessage
submitting = record {
  content = none;
  tool_calls =
      record { id = codes "c"; name = codes "submit_review_findings"; arguments = codes "{}" } ∷ [];
}

abbrev input_one : ReviewInput
input_one = record {
  config = review_config;
  changes = adding ∷ [];
  source_dir = some (codes "srv" ∷ []);
  instruction = none;
  system_prompt = codes "Review.";
  prompt_for = λ use_tool_calls. codes "diff";
  outside = plain_outside;
  quote = λ text. text;
  from_str = λ text. none;
  parse_findings = λ text. ok (leak ∷ []);
  json_end = λ text. none;
  parse_response = λ body. ok ((if str_eq body (codes "read") then reading else submitting) ∷ []);
  client = ok tt;
}

-- The first request is answered by a tool call, the next is refused for a while, and the third is
-- answered by the findings.
abbrev answers : ℕ → ChatRequest → Outcome
answers n request =
    if n == 0
    then response 200 (codes "read")
    else if n == 1
    then response 503 (codes "busy")
    else response 200 (codes "submit")

abbrev pub service_one : Service
service_one = record { answer = answers; error_code = λ body. none; is_transient = λ text. true }

abbrev setting_one : Setting
setting_one = setting_for service_one input_one 40 true

abbrev exchange_one : Exchange
exchange_one = record { conversation = first_conversation service_one input_one 40 true; sent = [] }

complete_response-WithinBudgets_example :
    WithinBudgets setting_one
      (complete_response service_one setting_one 40 (codes "read") exchange_one).0.conversation
complete_response-WithinBudgets_example =
    complete_response-WithinBudgets setting_one (omega arith) service_one 40 (codes "read")
      exchange_one ((refl, omega arith), inr (omega arith), inr (omega arith))

abbrev closing_one : Exchange
closing_one = record exchange_one {
  conversation = record exchange_one.conversation { finalization_requested = true };
}

complete_response-Closing_example :
    Closing service_one setting_one []
      (complete_response service_one setting_one 40 (codes "read") closing_one).0
complete_response-Closing_example =
    complete_response-Closing service_one setting_one 40 (codes "read") closing_one refl

abbrev base_one : List ChatMessage
base_one = first_messages service_one input_one 40 true

complete_response-BeginWithBase_example :
    BeginWithBase setting_one base_one
      (complete_response service_one setting_one 40 (codes "read") exchange_one).0
complete_response-BeginWithBase_example =
    complete_response-BeginWithBase setting_one base_one refl service_one 40 (codes "read")
      exchange_one (([], sym (append-nil base_one)), tt)

calls_limited : review_config.max_tool_calls ≢ 0
calls_limited e = absurd (omega (arith, e))

run_ai_review_single-ends_example :
    (result : Result Fault AiReviewSingleResult) × ((run_ai_review_single service_one input_one
        40).1
      ≡ some result)
    × (length (run_ai_review_single service_one input_one 40).0
        ≤ 4 + 4 * first_turns service_one input_one 40)
run_ai_review_single-ends_example =
    run_ai_review_single-ends service_one input_one 40 (inr calls_limited) (omega arith)

abbrev one_found : AiReviewSingleResult
one_found = record { findings = kept_leak ∷ []; tool_rounds_used = 1; tool_calls_used = 1 }

leak_found : (run_ai_review_single service_one input_one 40).1 ≡ some (ok one_found)
unfolding run_ai_review_single first_attempts review_chat_messages review_request complete_response
    answer_message use_tools tool_round answer_calls answer_call request_finalization
    call_with_result_limit read_file read_utf8_file_limited decode_prefix truncate_json_result
    search_boundary context_tool_cache_key request_body follow_up retry_or_end
    parse_final_findings_candidates try_candidates settle parse_single_findings_candidate
    normalize_ai_findings objects_from trim is_whitespace canonical_findings sort_findings
    finding_le filter_findings_to_added_lines added_lines parse_unified_diff parse_lines parse_line
    parse_hunk_header parse_range feed open_hunk split_lines split_words split_parts before
    parse_u32 byte_len is_retryable_ai_http_response is_timeout_ai_http_response
    should_enter_timeout_finalization resolve_safe_path normalize_path is_sensitive_path components
leak_found = refl

run_ai_review_single-IsSound_example : IsSound service_one input_one 40 one_found
run_ai_review_single-IsSound_example =
    run_ai_review_single-IsSound service_one input_one 40 (omega arith) one_found leak_found
