-- ===== src/Review/Comments.antt =====
-- The comments of src/review/comments.rs: findings grouped by path and line, one draft for each group.
pub mod Groups
pub mod Keys
use git_lab_work_runner.Base.{
  ℕ, Bool, true, false, ◌&&◌, Option, List, [], ◌∷◌, ◌++◌, map, if◌then◌else◌, Str, codes, str_eq,
}
use git_lab_work_runner.Review.Rules.{Severity, info, warning, error, Finding}
use git_lab_work_runner.Review.Findings.{text_le, line_le, line_eq}

pub record CommentDraft : Type 0 where
  pub path : Str
  pub new_line : Option ℕ
  pub body : Str

-- An entry of the `BTreeMap`: its key, and the findings under it.
pub record Group : Type 0 where
  pub path : Str
  pub new_line : Option ℕ
  pub findings : List Finding

abbrev pub is_of : Str → Option ℕ → Finding → Bool
is_of path new_line finding = str_eq path finding.path && line_eq new_line finding.new_line

-- The order of the keys: by path, then no line before any line.
abbrev pub key_lt : Str → Option ℕ → Str → Option ℕ → Bool
key_lt path new_line path' new_line' = text_le path path' (line_le new_line new_line' false)

abbrev pub group_of : Finding → Group
group_of finding = record {
  path = finding.path;
  new_line = finding.new_line;
  findings = finding ∷ [];
}

-- `grouped.entry(…).or_default().push(finding)`, in the order of the keys.
unfoldable pub push_finding : List Group → Finding → List Group
push_finding [] finding = group_of finding ∷ []
push_finding (g ∷ rest) finding =
    let later = push_finding rest finding in
    if is_of g.path g.new_line finding
    then record g { findings = g.findings ++ finding ∷ [] } ∷ rest
    else if key_lt finding.path finding.new_line g.path g.new_line
    then group_of finding ∷ g ∷ rest
    else g ∷ later

unfoldable pub push_findings : List Group → List Finding → List Group
push_findings groups [] = groups
push_findings groups (finding ∷ rest) = push_findings (push_finding groups finding) rest

unfoldable pub severity_label : Severity → Str
severity_label info = codes "信息"
severity_label warning = codes "警告"
severity_label error = codes "错误"

abbrev finding_text : Finding → Str
finding_text finding =
    codes "**["
    ++ severity_label finding.severity
    ++ codes "] "
    ++ finding.title
    ++ codes "**\n\n"
    ++ finding.message
    ++ codes "\n\n<!-- gitlab-work-runner:rule="
    ++ finding.rule_id
    ++ codes " -->"

-- The texts behind the first, each after a separator.
abbrev later_texts : List Finding → Str
later_texts [] = []
later_texts (finding ∷ rest) = codes "\n\n---\n\n" ++ finding_text finding ++ later_texts rest

unfoldable pub build_body : List Finding → Str
build_body [] = []
build_body (finding ∷ rest) = finding_text finding ++ later_texts rest

abbrev pub draft_of : Group → CommentDraft
draft_of g = record { path = g.path; new_line = g.new_line; body = build_body g.findings }

unfoldable pub build_comment_drafts : List Finding → List CommentDraft
build_comment_drafts findings = map draft_of (push_findings [] findings)
