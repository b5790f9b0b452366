-- ===== src/Review/Comments/Groups.antt =====
-- The groups behind the drafts of src/review/comments.rs.
use git_lab_work_runner.Base.{
  ℕ, ◌≡◌, ◌≢◌, Bool, true, ◌&&◌, Option, none, some, List, [], ◌∷◌, if◌then◌else◌, Str, str_eq, All,
}
use git_lab_work_runner.Review.Rules.{Finding}
use git_lab_work_runner.Review.Findings.{line_eq}
use git_lab_work_runner.Review.Comments.{CommentDraft, Group, is_of, key_lt, build_body}

abbrev is_at : Str → Option ℕ → Group → Bool
is_at path new_line g = str_eq path g.path && line_eq new_line g.new_line

-- The findings of the first group at a place.
abbrev found : Str → Option ℕ → List Group → List Finding
found path new_line [] = []
found path new_line (g ∷ rest) =
    if is_at path new_line g then g.findings else found path new_line rest

abbrev added_at : Str → Option ℕ → Finding → List Finding
added_at path new_line finding = if is_of path new_line finding then finding ∷ [] else []

AreFilled : List Group → Type 0
AreFilled groups = All (λ (g : Group). g.findings ≢ []) groups

-- The text of the first draft at a place.
abbrev pub body_at : Str → Option ℕ → List CommentDraft → Option Str
body_at path new_line [] = none
body_at path new_line (d ∷ rest) =
    if str_eq path d.path && line_eq new_line d.new_line
    then some d.body
    else body_at path new_line rest

-- The text that some findings of one place make, if there are any.
abbrev pub body_of : List Finding → Option Str
body_of [] = none
body_of (finding ∷ rest) = some (build_body (finding ∷ rest))

-- The places of the drafts grow, so that no two drafts share one.
abbrev pub AreInOrder : List CommentDraft → Type 0
AreInOrder [] = Unit
AreInOrder (d ∷ []) = Unit
AreInOrder (d ∷ e ∷ rest) =
    (key_lt d.path d.new_line e.path e.new_line ≡ true) × AreInOrder (e ∷ rest)
