-- ===== src/Tests/Reviews.antt =====
-- Plans, runs and rules on concrete inputs.
use git_lab_work_runner.Base.{
  ℕ, ◌+◌, ◌*◌, ◌≡◌, ◌≤◌, refl, true, false, if◌then◌else◌, none, some, List, [], ◌∷◌, ◌==◌, concat,
  Str, codes, lines, byte_len, length, All, min, sum_by, Result, ok, split_lines, trim,
  is_whitespace,
}
use git_lab_work_runner.Review.Diff.Panics.{IsHeaderSafe}
use git_lab_work_runner.Review.WorkItems.{GitLabChange, ReviewWorkItem, build_review_work_items}
use git_lab_work_runner.Review.Coverage.{summarize_planned_work_items}
use git_lab_work_runner.Review.Coverage.Counts.{path_bytes, diff_bytes, covers, summarize_counts}
use git_lab_work_runner.Review.Rules.{
  AiReviewConfig, ScriptTaskConfig, RulesFile, Ruleset, Finding, warning, check_ids, check_task,
  check_tasks, compile_rules, all_ids, from_toml,
}
use git_lab_work_runner.Review.Rules.Valid.{AreDistinct, IsValid, from_toml-IsValid}
use git_lab_work_runner.Review.Batches.{
  AiReviewBatchPlan, AiReviewExecution, SingleReview, pack, plan_ai_review_batches,
  run_batched_ai_review,
}
use git_lab_work_runner.Review.Batches.Packs.{
  batch_bytes, IsBatch, AreTight, pack-IsPacking, length-pack,
}
use git_lab_work_runner.Review.Batches.Plans.{
  IsPlan, plan_ai_review_batches-IsPlan, plan_ai_review_batches-total,
}
use git_lab_work_runner.Review.Batches.Runs.{
  IsEnd, run_batched_ai_review-IsEnd, run_batched_ai_review-total,
}

abbrev change_of : Str → Str → GitLabChange
change_of path diff = record {
  old_path = path;
  new_path = path;
  new_file = false;
  renamed_file = false;
  deleted_file = false;
  diff = diff;
}

-- Two small changes, and one whose lines have to be divided.
abbrev changes : List GitLabChange
changes =
    change_of (codes "a.rs") (codes "@@ -1 +1 @@\n-x\n+y\n")
    ∷ change_of (codes "b.rs") (codes "@@ -1 +1,2 @@\n x\n+z\n")
    ∷ change_of (codes "c.rs") (codes "@@ -1,2 +1,2 @@\n-first line\n+second line\n third line\n")
    ∷ []

changes-AreSafe : All (λ (c : GitLabChange). All IsHeaderSafe (lines c.diff)) changes
unfolding split_lines
changes-AreSafe = (
  (refl, (refl, (refl, tt))),
  ((refl, (refl, (refl, tt))), ((refl, (refl, (refl, (refl, tt)))), tt)),
)

plan_ai_review_batches-total_example :
    (plan : AiReviewBatchPlan) × (plan_ai_review_batches changes 40 2 ≡ ok plan)
plan_ai_review_batches-total_example = plan_ai_review_batches-total changes 40 2 changes-AreSafe

abbrev plan_made : (plan : AiReviewBatchPlan) × (plan_ai_review_batches changes 40 2 ≡ ok plan)
plan_made = plan_ai_review_batches-total changes 40 2 changes-AreSafe

plan_ai_review_batches-IsPlan_example :
    (items : List ReviewWorkItem) × (build_review_work_items changes 40 ≡ ok items)
    × IsPlan changes 40 2 items plan_made.0
plan_ai_review_batches-IsPlan_example =
    plan_ai_review_batches-IsPlan changes 40 2 plan_made.0 plan_made.1

abbrev finding_one : Finding
finding_one = record {
  rule_id = codes "ai:default";
  severity = warning;
  path = codes "a.rs";
  new_line = some 1;
  title = codes "t";
  message = codes "m";
}

-- A service that answers the first batch only.
abbrev single : SingleReview
single index total batch =
    if index == 1
    then some
        (ok (record { findings = finding_one ∷ []; tool_rounds_used = 2; tool_calls_used = 3 }))
    else none

abbrev config_one : AiReviewConfig
config_one = record {
  enabled = true;
  id = codes "default";
  title = codes "Review";
  base_url = codes "http://localhost";
  api_key = [];
  model = codes "m";
  timeout_seconds = 60;
  request_timeout_seconds = none;
  max_batch_diff_bytes = 40;
  max_batches = 0;
  extra_instructions = [];
  max_tool_calls = 30;
  max_tool_rounds = 0;
  max_tool_result_bytes = 60000;
  max_tool_total_bytes = 40000;
}

abbrev run_made : (e : AiReviewExecution) × (run_batched_ai_review single config_one changes ≡ ok e)
run_made = run_batched_ai_review-total single config_one changes changes-AreSafe

run_batched_ai_review-IsEnd_example :
    (plan : AiReviewBatchPlan) × (plan_ai_review_batches changes 40 0 ≡ ok plan)
    × IsEnd single config_one changes plan run_made.0 run_made.0.result
run_batched_ai_review-IsEnd_example =
    run_batched_ai_review-IsEnd single config_one changes run_made.0 run_made.1

abbrev item_of : GitLabChange → ℕ → ReviewWorkItem
item_of change n = record {
  change = change;
  chunk_diff_bytes = n;
  payload_diff_bytes = n;
  reviewable = true;
  incomplete_reason = none;
}

abbrev items : List ReviewWorkItem
items =
    item_of (change_of (codes "a.rs") (codes "0123456789")) 10
    ∷ item_of (change_of (codes "b.rs") (codes "0123456789")) 10
    ∷ item_of (change_of (codes "c.rs") (codes "01234")) 5
    ∷ []

pack-IsPacking_example :
    (concat (pack 16 items) ≡ items)
    × (All (IsBatch 16) (pack 16 items) × AreTight 16 (pack 16 items))
pack-IsPacking_example = pack-IsPacking 16 items

length-pack_example : 16 * length (pack 16 items) ≤ 2 * batch_bytes items + 16
length-pack_example = length-pack 16 items

summarize_counts_example :
    let s = summarize_planned_work_items changes items in
    (s.fully_reviewed_files + s.partially_reviewed_files + s.unreviewed_files ≡ length changes)
    × (s.fully_reviewed_files
        ≡ sum_by
            (λ (c : GitLabChange). if covers (path_bytes c.new_path items) c then 1 else 0)
            changes)
    × (length s.incomplete_files ≡ s.partially_reviewed_files + s.unreviewed_files)
    × (s.reviewed_diff_bytes
        ≡ sum_by
            (λ (c : GitLabChange). min (path_bytes c.new_path items) (byte_len c.diff))
            changes)
    × (s.reviewed_diff_bytes ≤ diff_bytes changes)
summarize_counts_example = summarize_counts changes items

abbrev task_one : ScriptTaskConfig
task_one = record {
  enabled = true;
  download_archive = true;
  id = codes "lint";
  title = codes "Lint";
  command = codes "make lint";
  timeout_seconds = 60;
  max_concurrent = 1;
}

abbrev rules_file : RulesFile
rules_file = record {
  ai_review = record {
    max_concurrent_reviews = 0;
    extra_instructions = [];
    max_tool_calls = 30;
    max_tool_rounds = 0;
    max_tool_result_bytes = 60000;
    max_tool_total_bytes = 40000;
  };
  ai_reviews = config_one ∷ [];
  script_tasks = task_one ∷ [];
}

abbrev rules_made : Ruleset
rules_made = record {
  hash = codes "00";
  ai_reviews = config_one ∷ [];
  script_tasks = task_one ∷ [];
  max_concurrent_reviews = 1;
}

abbrev parse_one : Str → Result Str RulesFile
parse_one text = ok rules_file

rules_load : from_toml parse_one (λ text. codes "00") (codes "[ai_review]") ≡ ok rules_made
unfolding from_toml compile_rules check_ids check_tasks check_task trim is_whitespace
rules_load = refl

from_toml-IsValid_example :
    (parsed : RulesFile) × (parse_one (codes "[ai_review]") ≡ ok parsed)
    × AreDistinct (all_ids parsed)
    × IsValid rules_made
from_toml-IsValid_example =
    from_toml-IsValid parse_one (λ text. codes "00") (codes "[ai_review]") rules_made rules_load

rules_made-IsValid : IsValid rules_made
rules_made-IsValid =
    (from_toml-IsValid parse_one (λ text. codes "00") (codes "[ai_review]") rules_made rules_load).3
