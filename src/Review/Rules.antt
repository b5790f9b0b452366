-- ===== src/Review/Rules.antt =====
-- The rules file of src/review/rules.rs: its settings, and how `Ruleset::from_toml` checks and compiles
-- them. The TOML parser and the SHA-256 digest are parameters.
pub mod Valid
use git_lab_work_runner.Base.{
  ℕ, Bool, true, false, not, ◌||◌, Option, List, [], ◌∷◌, ◌++◌, map, ◌==◌, if◌then◌else◌, Str,
  codes, str_eq, trim, is_empty, ends_with, is_ascii_alphanumeric, max, length, any, all, keep_if,
  Result, ok, err, ◌>>=◌,
}
use git_lab_work_runner.App.Error.{AppError, config, toml_de}

pub record ScriptTaskConfig : Type 0 where
  pub enabled : Bool
  pub download_archive : Bool
  pub id : Str
  pub title : Str
  pub command : Str
  pub timeout_seconds : ℕ
  pub max_concurrent : ℕ

pub record AiReviewConfig : Type 0 where
  pub enabled : Bool
  pub id : Str
  pub title : Str
  pub base_url : Str
  pub api_key : Str
  pub model : Str
  pub timeout_seconds : ℕ
  pub request_timeout_seconds : Option ℕ
  pub max_batch_diff_bytes : ℕ
  pub max_batches : ℕ
  pub extra_instructions : Str
  pub max_tool_calls : ℕ
  pub max_tool_rounds : ℕ
  pub max_tool_result_bytes : ℕ
  pub max_tool_total_bytes : ℕ

pub record AiReviewPromptConfig : Type 0 where
  pub max_concurrent_reviews : ℕ
  pub extra_instructions : Str
  pub max_tool_calls : ℕ
  pub max_tool_rounds : ℕ
  pub max_tool_result_bytes : ℕ
  pub max_tool_total_bytes : ℕ

pub record RulesFile : Type 0 where
  pub ai_review : AiReviewPromptConfig
  pub ai_reviews : List AiReviewConfig
  pub script_tasks : List ScriptTaskConfig

pub data Severity : Type 0 where
  info warning error : Severity

pub record Finding : Type 0 where
  pub rule_id : Str
  pub severity : Severity
  pub path : Str
  pub new_line : Option ℕ
  pub title : Str
  pub message : Str

-- A `CompiledAiReview` is its `config` alone.
pub record Ruleset : Type 0 where
  pub hash : Str
  pub ai_reviews : List AiReviewConfig
  pub script_tasks : List ScriptTaskConfig
  pub max_concurrent_reviews : ℕ

-- The loop over the ids, with the set of those before.
unfoldable pub check_ids : List Str → List Str → Result AppError (Unit {0})
check_ids seen [] = ok tt
check_ids seen (id ∷ rest) =
    if any (str_eq id) seen
    then err
        (config (codes "duplicate task id `" ++ id ++ codes "` across ai_reviews and script_tasks"))
    else check_ids (id ∷ seen) rest

-- `ch.is_ascii_alphanumeric() || matches!(ch, '-' | '_' | '.')`
abbrev pub is_id_char : ℕ → Bool
is_id_char ch = is_ascii_alphanumeric ch || ch == 45 || ch == 95 || ch == 46

abbrev pub is_bad_id : Str → Bool
is_bad_id id =
    str_eq id (codes ".") || str_eq id (codes "..") || ends_with 46 id || not (all is_id_char id)

-- One round of the loop over the script tasks.
unfoldable pub check_task : ScriptTaskConfig → Result AppError (Unit {0})
check_task task =
    if is_empty (trim task.id) || is_empty (trim task.title) || is_empty (trim task.command)
    then err (config (codes "script task id, title, and command must not be empty"))
    else if is_bad_id task.id
    then err (
        config (
          codes "script task id `"
          ++ task.id
          ++ codes "` may contain only ASCII letters, digits, hyphens, underscores, and dots"))
    else if task.max_concurrent == 0
    then err
        (config (codes "script task `" ++ task.id ++ codes "` max_concurrent must be at least 1"))
    else if task.timeout_seconds == 0
    then err
        (config (codes "script task `" ++ task.id ++ codes "` timeout_seconds must be at least 1"))
    else ok tt

unfoldable pub check_tasks : List ScriptTaskConfig → Result AppError (Unit {0})
check_tasks [] = ok tt
check_tasks (task ∷ rest) = do checked ← check_task task; check_tasks rest

-- The enabled reviews take the shared settings.
abbrev compile_review : AiReviewPromptConfig → AiReviewConfig → AiReviewConfig
compile_review shared review = record review {
  extra_instructions = shared.extra_instructions;
  max_tool_calls = shared.max_tool_calls;
  max_tool_rounds = shared.max_tool_rounds;
  max_tool_result_bytes = shared.max_tool_result_bytes;
  max_tool_total_bytes = shared.max_tool_total_bytes;
}

abbrev pub all_ids : RulesFile → List Str
all_ids parsed =
    map (λ (review : AiReviewConfig). review.id) parsed.ai_reviews
    ++ map (λ (task : ScriptTaskConfig). task.id) parsed.script_tasks

unfoldable pub compile_rules : Str → RulesFile → Result AppError Ruleset
compile_rules hash parsed = do
  distinct ← check_ids [] (all_ids parsed)
  checked ← check_tasks parsed.script_tasks
  ok (record {
    hash = hash;
    ai_reviews =
        map (compile_review parsed.ai_review)
          (keep_if (λ (review : AiReviewConfig). review.enabled) parsed.ai_reviews);
    script_tasks = keep_if (λ (task : ScriptTaskConfig). task.enabled) parsed.script_tasks;
    max_concurrent_reviews = max parsed.ai_review.max_concurrent_reviews 1;
  })

abbrev pub parsed_rules : Result Str RulesFile → Result AppError RulesFile
parsed_rules (ok parsed) = ok parsed
parsed_rules (err e) = err (toml_de e)

-- `toml::from_str` and the hexadecimal `Sha256::digest` are the first two arguments.
unfoldable pub from_toml :
    (Str → Result Str RulesFile) → (Str → Str) → Str → Result AppError Ruleset
from_toml parse_toml sha256_hex text = do
  parsed ← parsed_rules (parse_toml text)
  compile_rules (sha256_hex text) parsed

unfoldable pub script_tasks_by_ids : Ruleset → List Str → List ScriptTaskConfig
script_tasks_by_ids rules requested_ids =
    keep_if (λ (task : ScriptTaskConfig). any (λ id. str_eq id task.id) requested_ids)
      rules.script_tasks

unfoldable pub ai_reviews_by_ids : Ruleset → List Str → List AiReviewConfig
ai_reviews_by_ids rules requested_ids =
    keep_if (λ (review : AiReviewConfig). any (λ id. str_eq id review.id) requested_ids)
      rules.ai_reviews
