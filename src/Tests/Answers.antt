-- ===== src/Tests/Answers.antt =====
-- The answers of the AI service and its findings, on concrete inputs.
use git_lab_work_runner.Base.{
  ℕ, ◌≡◌, ◌≤◌, refl, true, false, Option, none, some, List, [], ◌∷◌, Str, codes, length, All,
  Result, ok, split_lines, split_words, split_parts, trim, is_whitespace, before,
}
use git_lab_work_runner.Base.Decimal.{parse_u32}
use git_lab_work_runner.Review.Diff.{
  parse_range, parse_hunk_header, feed, open_hunk, parse_line, parse_lines, parse_unified_diff,
}
use git_lab_work_runner.Review.WorkItems.{GitLabChange}
use git_lab_work_runner.Review.Rules.{Finding, error}
use git_lab_work_runner.Review.Findings.{
  AiFinding, OpenAiMessage, normalize_ai_findings, objects_from, finding_le, sort_findings,
  canonical_findings, parse_single_findings_candidate, try_candidates, settle,
  parse_final_findings_candidates, added_lines, filter_findings_to_added_lines,
}
use git_lab_work_runner.Review.Findings.Agreed.{
  valid_of, candidates_of, AreAgreed, parse_final-AreAgreed,
}
use git_lab_work_runner.Review.Findings.Added.{IsOnAdded, filter_findings-AreAdded}
use git_lab_work_runner.Review.Http.{is_tool_call_rejection}

abbrev found : AiFinding
found = record {
  path = codes " src\\a.rs ";
  line = 2;
  severity = codes "Error";
  title = codes "Leak";
  message = codes "The handle is not closed.";
}

abbrev kept_finding : Finding
kept_finding = record {
  rule_id = codes "ai:default";
  severity = error;
  path = codes "src/a.rs";
  new_line = some 2;
  title = codes "Leak";
  message = codes "The handle is not closed.";
}

-- Every candidate reads as the same finding.
abbrev read_found : Str → Result Str (List AiFinding)
read_found text = ok (found ∷ [])

abbrev no_value : Str → Option ℕ
no_value text = some 2

-- The answer submits its findings by the tool, and repeats them in its text.
abbrev answer : OpenAiMessage
answer = record {
  content = some (codes "see {}");
  tool_calls =
      record { id = codes "c1"; name = codes "submit_review_findings"; arguments = codes "{}" }
      ∷ record { id = []; name = codes "read_file"; arguments = codes "{}" }
      ∷ [];
}

answer_parsed :
    parse_final_findings_candidates read_found (codes "default") no_value answer
    ≡ ok (kept_finding ∷ [])
unfolding parse_final_findings_candidates try_candidates settle parse_single_findings_candidate
    normalize_ai_findings objects_from trim is_whitespace canonical_findings sort_findings
    finding_le
answer_parsed = refl

parse_final-AreAgreed_example :
    (rest : List (List Finding)) × (valid_of read_found
        (codes "default")
        (candidates_of read_found (codes "default") no_value answer)
      ≡ (kept_finding ∷ []) ∷ rest)
    × AreAgreed read_found (codes "default") (kept_finding ∷ []) rest
    × (length (candidates_of read_found (codes "default") no_value answer) ≤ 8)
parse_final-AreAgreed_example =
    parse_final-AreAgreed read_found (codes "default") no_value answer (kept_finding ∷ [])
      answer_parsed

abbrev adding : GitLabChange
adding = record {
  old_path = codes "src/a.rs";
  new_path = codes "src/a.rs";
  new_file = false;
  renamed_file = false;
  deleted_file = false;
  diff = codes "@@ -1 +1,2 @@\n x\n+y\n";
}

abbrev elsewhere : Finding
elsewhere = record kept_finding { new_line = some 1 }

one_kept :
    filter_findings_to_added_lines (adding ∷ []) (elsewhere ∷ kept_finding ∷ [])
    ≡ ok (kept_finding ∷ [])
unfolding filter_findings_to_added_lines added_lines trim is_whitespace parse_unified_diff
    parse_lines parse_line parse_hunk_header parse_range feed open_hunk split_lines split_words
    split_parts before parse_u32
one_kept = refl

filter_findings-AreAdded_example : All (IsOnAdded (adding ∷ [])) (kept_finding ∷ [])
filter_findings-AreAdded_example =
    filter_findings-AreAdded (adding ∷ []) (elsewhere ∷ kept_finding ∷ []) (kept_finding ∷ [])
      one_kept

abbrev no_code : Str → Option Str
no_code body = none

tools_refused : is_tool_call_rejection 400 (codes "tools are not supported") ≡ true
unfolding is_tool_call_rejection
tools_refused = refl

abbrev three_findings : List Finding
three_findings = kept_finding ∷ elsewhere ∷ kept_finding ∷ []
