-- ===== src/Tests/Runs.antt =====
-- A run over batches that the model reviews with its tools, on a concrete change.
use git_lab_work_runner.Base.{
  All, trim, is_whitespace, byte_len, split_parts, split_lines, split_words, before, ◌≡◌, refl,
  none, some, [], ◌∷◌, codes, str_eq, if◌then◌else◌, Option, Result, ok, err,
}
use git_lab_work_runner.Base.Decimal.{parse_u32}
use git_lab_work_runner.Review.Diff.{
  parse_range, parse_hunk_header, feed, open_hunk, parse_line, parse_lines, parse_unified_diff,
  Fault, failed, panicked,
}
use git_lab_work_runner.Review.Findings.{
  normalize_ai_findings, objects_from, finding_le, sort_findings, canonical_findings,
  parse_single_findings_candidate, try_candidates, settle, parse_final_findings_candidates,
  added_lines, filter_findings_to_added_lines,
}
use git_lab_work_runner.Review.Messages.{review_chat_messages}
use git_lab_work_runner.Review.Http.{
  is_retryable_ai_http_response, is_timeout_ai_http_response, should_enter_timeout_finalization,
}
use git_lab_work_runner.Review.Tools.Paths.{
  resolve_safe_path, normalize_path, is_sensitive_path, components,
}
use git_lab_work_runner.Review.Tools.Truncation.{truncate_json_result, search_boundary}
use git_lab_work_runner.Review.Tools.Calls.{
  call_with_result_limit, read_file, read_utf8_file_limited, decode_prefix,
}
use git_lab_work_runner.Review.Tools.CacheKeys.{context_tool_cache_key}
use git_lab_work_runner.Review.Completion.{
  answer_message, use_tools, tool_round, answer_calls, answer_call, request_finalization,
}
use git_lab_work_runner.Review.Completion.Requests.{
  review_request, request_body, follow_up, retry_or_end,
}
use git_lab_work_runner.Review.Completion.Loop.{complete_response}
use git_lab_work_runner.Review.Single.{first_attempts, run_ai_review_single}
use git_lab_work_runner.Review.Batches.{
  AiReviewSingleResult, AiReviewBatchPlan, AiReviewExecution, SingleReview, plan_ai_review_batches,
  plan_of_items, pack, pack_items, pack_item, finish_packing, run_plan, run_batches, complete_batch,
  finish_run, run_batched_ai_review,
}
use git_lab_work_runner.Review.WorkItems.{
  build_review_work_items, split_change_into_review_work_items, review_work_item_from_diff,
}
use git_lab_work_runner.App.Error.{AppError}
use git_lab_work_runner.Review.BatchReview.{RunOptions, batch_input, IsReviewOf}
use git_lab_work_runner.Review.BatchReview.Added.{IsInBatch, run_batched_ai_review-AreAdded}
use git_lab_work_runner.Tests.Conversations.{
  review_config, adding, plain_outside, service_one, leak, reading, submitting, kept_leak,
}

abbrev options_one : RunOptions
options_one = record {
  source_dir = some (codes "srv" ∷ []);
  review_request = none;
  trusted_runtime_instruction = none;
  system_prompt = codes "Review.";
  boundary = λ index use_tool_calls. codes "1f_0";
  outside = plain_outside;
  quote = λ text. text;
  from_str = λ text. none;
  parse_findings = λ text. ok (leak ∷ []);
  json_end = λ text. none;
  parse_response = λ body. ok ((if str_eq body (codes "read") then reading else submitting) ∷ []);
  client = ok tt;
}

-- The review of a batch where it returns.
abbrev returned :
    Option (Result Fault AiReviewSingleResult) → Option (Result AppError AiReviewSingleResult)
returned (some (ok r)) = some (ok r)
returned (some (err (failed e))) = some (err e)
returned (some (err panicked)) = none
returned none = none

abbrev single_one : SingleReview
single_one index count batch_changes =
    returned
      (run_ai_review_single service_one
        (batch_input options_one review_config index count batch_changes) 40).1

returned-ok :
    (x : Option (Result Fault AiReviewSingleResult)) (r : AiReviewSingleResult)
    → returned x ≡ some (ok r)
    → x ≡ some (ok r)
returned-ok (some (ok s)) r h = cc
returned-ok (some (err (failed e))) r h = cc
returned-ok (some (err panicked)) r h = cc
returned-ok none r h = cc

single_one-IsReviewOf : IsReviewOf (λ index. service_one) options_one review_config 40 single_one
single_one-IsReviewOf index count batch_changes r h = returned-ok _ r h

abbrev plan_one : AiReviewBatchPlan
plan_one = plan_of_items (adding ∷ []) 40 0 (review_work_item_from_diff adding adding.diff 20 ∷ [])

abbrev executed : AiReviewExecution
executed = run_plan single_one review_config (adding ∷ []) plan_one

run_executed : run_batched_ai_review single_one review_config (adding ∷ []) ≡ ok executed
unfolding run_batched_ai_review plan_ai_review_batches build_review_work_items
    split_change_into_review_work_items byte_len
run_executed = refl

leak_reported : executed.result ≡ ok (kept_leak ∷ [])
unfolding run_batches run_plan plan_of_items pack pack_items pack_item finish_packing complete_batch
    finish_run batch_input run_ai_review_single first_attempts review_chat_messages review_request
    complete_response answer_message use_tools tool_round answer_calls answer_call
    request_finalization call_with_result_limit read_file read_utf8_file_limited decode_prefix
    truncate_json_result search_boundary context_tool_cache_key request_body follow_up retry_or_end
    parse_final_findings_candidates try_candidates settle parse_single_findings_candidate
    normalize_ai_findings objects_from trim is_whitespace canonical_findings sort_findings
    finding_le filter_findings_to_added_lines added_lines parse_unified_diff parse_lines parse_line
    parse_hunk_header parse_range feed open_hunk split_lines split_words split_parts before
    parse_u32 byte_len is_retryable_ai_http_response is_timeout_ai_http_response
    should_enter_timeout_finalization resolve_safe_path normalize_path is_sensitive_path components
leak_reported = refl

run_batched_ai_review-AreAdded_example :
    (plan : AiReviewBatchPlan) × (plan_ai_review_batches (adding ∷ []) 40 0 ≡ ok plan)
    × All (IsInBatch plan.batches) (kept_leak ∷ [])
run_batched_ai_review-AreAdded_example =
    run_batched_ai_review-AreAdded (λ index. service_one) options_one review_config 40 single_one
      single_one-IsReviewOf (adding ∷ []) executed (kept_leak ∷ []) run_executed leak_reported
