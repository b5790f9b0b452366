-- ===== src/Review/Findings.antt =====
-- The final findings of src/review/ai.rs: how the answer of the model is read, checked and compared,
-- and which findings are kept. The JSON parsers are parameters.
pub mod Added
pub mod Agreed
pub mod Same
pub mod Sound
use git_lab_work_runner.Base.{
  ℕ, zero, suc, ◌+◌, ◌-◌, Bool, true, false, not, ◌&&◌, ◌||◌, Option, none, some, List, [], ◌∷◌,
  ◌++◌, map, ltb, ◌==◌, if◌then◌else◌, Str, codes, str_eq, trim, is_empty, eq_ignore_ascii_case,
  take, any, all, keep_if, Result, ok, err, ◌>>=◌,
}
use git_lab_work_runner.App.Error.{AppError, ai_review_error, ai_response_parse_failed}
use git_lab_work_runner.Review.Diff.{
  DiffLine, DiffHunk, DiffFile, DiffLineKind, added, removed, context, Fault, parse_unified_diff,
}
use git_lab_work_runner.Review.WorkItems.{GitLabChange}
use git_lab_work_runner.Review.Rules.{Finding, Severity, info, warning, error}

-- `AiFinding` and `OpenAiMessage` of src/review/ai_schema.rs, as far as they are read here.
pub record AiFinding : Type 0 where
  pub path : Str
  pub line : ℕ
  pub severity : Str
  pub title : Str
  pub message : Str

pub record OpenAiToolCall : Type 0 where
  pub id : Str
  pub name : Str
  pub arguments : Str

pub record OpenAiMessage : Type 0 where
  pub content : Option Str
  pub tool_calls : List OpenAiToolCall

-- The errors carry the code of a response that cannot be parsed.
abbrev pub parse_failed : Str → AppError
parse_failed message = ai_review_error ai_response_parse_failed message

abbrev pub is_rejected : AiFinding → Bool
is_rejected f =
    is_empty (trim f.path)
    || is_empty (trim f.message)
    || is_empty (trim f.title)
    || f.line == 0
    || not (eq_ignore_ascii_case (trim f.severity) (codes "error"))

-- `.replace('\\', "/")`
abbrev pub forward_slashes : Str → Str
forward_slashes [] = []
forward_slashes (c ∷ s) = (if c == 92 then 47 else c) ∷ forward_slashes s

abbrev pub normal_finding : Str → AiFinding → Finding
normal_finding review_id f = record {
  rule_id = codes "ai:" ++ review_id;
  severity = error;
  path = forward_slashes (trim f.path);
  new_line = some f.line;
  title = trim f.title;
  message = trim f.message;
}

unfoldable pub normalize_ai_findings : Str → List AiFinding → Result AppError (List Finding)
normalize_ai_findings review_id [] = ok []
normalize_ai_findings review_id (f ∷ rest) =
    let later = normalize_ai_findings review_id rest in
    if is_rejected f
    then err (parse_failed (codes "AI review returned a finding that failed semantic validation"))
    else (do findings ← later; ok (normal_finding review_id f ∷ findings))

-- The objects in a text. `json_end` is the JSON stream parser: the number of characters that the value
-- at the beginning of a text takes.
unfoldable pub objects_from : (Str → Option ℕ) → ℕ → Str → List Str
objects_from json_end skip [] = []
objects_from json_end (suc skip) (c ∷ s) = objects_from json_end skip s
objects_from json_end zero (c ∷ s) = elim (if c == 123 then json_end (c ∷ s) else none) [
  | some n ↦ take n (c ∷ s) ∷ objects_from json_end (n - 1) s
  | none ↦ objects_from json_end zero s
]

abbrev pub extract_json_objects : (Str → Option ℕ) → Str → List Str
extract_json_objects json_end content = objects_from json_end 0 content

-- The order of the tuples that `canonical_findings` sorts by: texts by their characters, no line before
-- any line. `before a b next` compares with `next` where `a` and `b` are equal.
abbrev pub text_le : Str → Str → Bool → Bool
text_le [] [] next = next
text_le [] (y ∷ b) next = true
text_le (x ∷ a) [] next = false
text_le (x ∷ a) (y ∷ b) next = ltb x y || (x == y && text_le a b next)

abbrev pub line_le : Option ℕ → Option ℕ → Bool → Bool
line_le none none next = next
line_le none (some n) next = true
line_le (some m) none next = false
line_le (some m) (some n) next = ltb m n || (m == n && next)

unfoldable pub finding_le : Finding → Finding → Bool
finding_le a b = text_le a.path b.path (
    line_le a.new_line b.new_line
      (text_le a.title b.title (text_le a.message b.message (text_le a.rule_id b.rule_id true))))

abbrev severity_eq : Severity → Severity → Bool
severity_eq info info = true
severity_eq warning warning = true
severity_eq error error = true
severity_eq _ _ = false

abbrev pub line_eq : Option ℕ → Option ℕ → Bool
line_eq none none = true
line_eq (some m) (some n) = m == n
line_eq _ _ = false

abbrev pub finding_eq : Finding → Finding → Bool
finding_eq a b =
    str_eq a.rule_id b.rule_id
    && severity_eq a.severity b.severity
    && str_eq a.path b.path
    && line_eq a.new_line b.new_line
    && str_eq a.title b.title
    && str_eq a.message b.message

-- `sort_by`, which is stable: a finding goes before the first that is not smaller.
abbrev insert_sorted : Finding → List Finding → List Finding
insert_sorted f [] = f ∷ []
insert_sorted f (g ∷ rest) = if finding_le f g then f ∷ g ∷ rest else g ∷ insert_sorted f rest

unfoldable pub sort_findings : List Finding → List Finding
sort_findings [] = []
sort_findings (f ∷ rest) = insert_sorted f (sort_findings rest)

-- `Vec::dedup`: of equal neighbours the first stays.
abbrev dedup_from : Finding → List Finding → List Finding
dedup_from f [] = f ∷ []
dedup_from f (g ∷ rest) = if finding_eq g f then dedup_from f rest else f ∷ dedup_from g rest

abbrev dedup : List Finding → List Finding
dedup [] = []
dedup (f ∷ rest) = dedup_from f rest

unfoldable pub canonical_findings : List Finding → List Finding
canonical_findings findings = dedup (sort_findings findings)

abbrev pub findings_eq : List Finding → List Finding → Bool
findings_eq [] [] = true
findings_eq (a ∷ xs) (b ∷ ys) = finding_eq a b && findings_eq xs ys
findings_eq _ _ = false

pub data FinalFindingsParseFailure : Type 0 where
  malformed protocol : AppError → FinalFindingsParseFailure

-- The variables of the two loops over candidates.
pub record Candidates : Type 0 where
  pub last_error : Option AppError
  pub valid_candidates : List (List Finding)
  pub candidate_count : ℕ

abbrev pub no_object : AppError
no_object = parse_failed (codes "AI review assistant content contained no complete JSON object")

abbrev too_many_final_findings_candidates_error : AppError
too_many_final_findings_candidates_error =
    parse_failed (codes "AI review returned more than 8 final findings candidates")

module _ (from_json : Str → Result Str (List AiFinding)) (review_id : Str) where
  abbrev parsed_findings : Result Str (List AiFinding) → Result AppError (List Finding)
  parsed_findings (ok findings) = normalize_ai_findings review_id findings
  parsed_findings (err e) = err (parse_failed e)

  unfoldable pub parse_single_findings_candidate : Str → Result AppError (List Finding)
  parse_single_findings_candidate content = parsed_findings (from_json content)

  abbrev pub note : Candidates → Result AppError (List Finding) → Candidates
  note s (ok findings) = record {
    last_error = s.last_error;
    valid_candidates = s.valid_candidates ++ findings ∷ [];
    candidate_count = s.candidate_count + 1;
  }
  note s (err e) = record {
    last_error = some e;
    valid_candidates = s.valid_candidates;
    candidate_count = s.candidate_count + 1;
  }

  -- A loop over candidates, with `MAX_FINAL_FINDINGS_CANDIDATES = 8`.
  unfoldable pub try_candidates :
      Candidates → List Str → Result FinalFindingsParseFailure Candidates
  try_candidates s [] = ok s
  try_candidates s (content ∷ rest) =
      if ltb 8 (s.candidate_count + 1)
      then err (protocol too_many_final_findings_candidates_error)
      else try_candidates (note s (parse_single_findings_candidate content)) rest

  -- What the valid candidates come to.
  unfoldable pub settle : Candidates → Result FinalFindingsParseFailure (List Finding)
  settle s = elim s.valid_candidates [
    | [] ↦ elim s.last_error [
      | some e ↦ err (malformed e)
      | none ↦ err (protocol (parse_failed (codes "AI review API returned no findings payload")))
    ]
    | first ∷ rest ↦
        if all (λ candidate. findings_eq (canonical_findings candidate) (canonical_findings first))
          rest
        then ok first
        else err
            (malformed (parse_failed (codes "AI review returned conflicting findings payloads")))
  ]

  module _ (json_end : Str → Option ℕ) where
    -- The candidates in the text of the answer; `trimmed` is not empty.
    abbrev pub try_content : Candidates → Str → Result FinalFindingsParseFailure Candidates
    try_content s trimmed =
        let objects = extract_json_objects json_end trimmed in
        if is_empty objects
        then ok (record s { last_error = some no_object })
        else try_candidates s objects

    abbrev pub try_message_content :
        Candidates → Option Str → Result FinalFindingsParseFailure Candidates
    try_message_content s none = ok s
    try_message_content s (some content) =
        if is_empty (trim content) then ok s else try_content s (trim content)

    abbrev pub submitted : OpenAiMessage → List Str
    submitted message =
        map (λ (t : OpenAiToolCall). t.arguments)
          (keep_if (λ (t : OpenAiToolCall). str_eq t.name (codes "submit_review_findings"))
            message.tool_calls)

    unfoldable pub parse_final_findings_candidates :
        OpenAiMessage → Result FinalFindingsParseFailure (List Finding)
    parse_final_findings_candidates message = do
      s ←
          try_candidates (record { last_error = none; valid_candidates = []; candidate_count = 0 })
            (submitted message)
      t ← try_message_content s message.content
      settle t

-- The lines that the changes add, by path.
abbrev pub added_first : Str → DiffLineKind → Option ℕ → List (Str × ℕ) → List (Str × ℕ)
added_first path added (some n) later = (path, n) ∷ later
added_first path added none later = later
added_first path removed new_line later = later
added_first path context new_line later = later

abbrev pub added_of_lines : Str → List DiffLine → List (Str × ℕ)
added_of_lines path [] = []
added_of_lines path (line ∷ rest) =
    added_first path line.kind line.new_line (added_of_lines path rest)

abbrev pub added_of_hunks : Str → List DiffHunk → List (Str × ℕ)
added_of_hunks path [] = []
added_of_hunks path (hunk ∷ rest) = added_of_lines path hunk.lines ++ added_of_hunks path rest

unfoldable pub added_lines : List GitLabChange → Result Fault (List (Str × ℕ))
added_lines [] = ok []
added_lines (change ∷ rest) =
    let later = added_lines rest in
    if change.deleted_file || is_empty (trim change.diff) then later else (do
      diff_file ← parse_unified_diff change.old_path change.new_path change.diff
      lines_added ← later
      ok (added_of_hunks diff_file.new_path diff_file.hunks ++ lines_added))

abbrev pub is_on_added_line : List (Str × ℕ) → Finding → Bool
is_on_added_line lines_added finding = elim finding.new_line [
  | none ↦ false
  | some n ↦ any (λ (entry : Str × ℕ). str_eq entry.0 finding.path && entry.1 == n) lines_added
]

unfoldable pub filter_findings_to_added_lines :
    List GitLabChange → List Finding → Result Fault (List Finding)
filter_findings_to_added_lines changes findings = do
  lines_added ← added_lines changes
  ok (keep_if (is_on_added_line lines_added) findings)
