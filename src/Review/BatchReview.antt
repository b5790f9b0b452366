-- ===== src/Review/BatchReview.antt =====
-- A run of src/review/ai.rs with the review of each batch in it: what `run_batched_ai_review` passes to
-- `run_ai_review_single`.
pub mod Added
use git_lab_work_runner.Base.{
  ℕ, ◌≡◌, Bool, true, false, Option, some, List, Str, Result, ok, length,
}
use git_lab_work_runner.App.Error.{AppError}
use git_lab_work_runner.Review.WorkItems.{GitLabChange}
use git_lab_work_runner.Review.Rules.{AiReviewConfig}
use git_lab_work_runner.Review.Findings.{AiFinding, OpenAiMessage}
use git_lab_work_runner.Review.Batches.{AiReviewSingleResult, SingleReview}
use git_lab_work_runner.Review.Prompts.{
  ReviewOutputMode, tool_call, json_content, ReviewBatchInfo, batch_prompt_payload_limit,
  build_review_prompt_with_options, configured_system_prompt,
}
use git_lab_work_runner.Review.Tools.Paths.{PathNames}
use git_lab_work_runner.Review.Tools.CacheKeys.{Json}
use git_lab_work_runner.Review.Tools.Calls.{Outside}
use git_lab_work_runner.Review.Completion.Requests.{Service}
use git_lab_work_runner.Review.Single.{ReviewInput, run_ai_review_single}

-- What all batches of a run share. `boundary` is `diff_boundary` by the batch and the mode, and
-- `system_prompt` is SYSTEM_PROMPT.
pub record RunOptions : Type 0 where
  pub source_dir : Option PathNames
  pub review_request : Option Str
  pub trusted_runtime_instruction : Option Str
  pub system_prompt : Str
  pub boundary : ℕ → Bool → Str
  pub outside : Outside
  pub quote : Str → Str
  pub from_str : Str → Option Json
  pub parse_findings : Str → Result Str (List AiFinding)
  pub json_end : Str → Option ℕ
  pub parse_response : Str → Result Str (List OpenAiMessage)
  pub client : Result AppError (Unit {0})

abbrev pub output_mode : Bool → ReviewOutputMode
output_mode true = tool_call
output_mode false = json_content

-- The arguments of `run_ai_review_single` for the batch at an index from 1, with its prompts.
unfoldable pub batch_input : RunOptions → AiReviewConfig → ℕ → ℕ → List GitLabChange → ReviewInput
batch_input options config index count batch_changes = record {
  config = config;
  changes = batch_changes;
  source_dir = options.source_dir;
  instruction = options.trusted_runtime_instruction;
  system_prompt = configured_system_prompt options.system_prompt config;
  prompt_for = λ use_tool_calls.
      (build_review_prompt_with_options (options.boundary index use_tool_calls) batch_changes
        (batch_prompt_payload_limit batch_changes) options.review_request
        (some (record { index = index; count = count; file_count = length batch_changes }))
        (output_mode use_tool_calls)).0;
  outside = options.outside;
  quote = options.quote;
  from_str = options.from_str;
  parse_findings = options.parse_findings;
  json_end = options.json_end;
  parse_response = options.parse_response;
  client = options.client;
}

-- A result of the review of a batch is one of `run_ai_review_single` with the arguments of the batch.
-- The deadline may pass before there is one.
abbrev pub IsReviewOf : (ℕ → Service) → RunOptions → AiReviewConfig → ℕ → SingleReview → Type 0
IsReviewOf services options config fuel single =
    (index count : ℕ) (batch_changes : List GitLabChange) (r : AiReviewSingleResult)
    → single index count batch_changes ≡ some (ok r)
    → (run_ai_review_single (services index) (batch_input options config index count batch_changes)
        fuel).1
      ≡ some (ok r)
