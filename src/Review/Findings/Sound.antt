-- ===== src/Review/Findings/Sound.antt =====
-- The findings that `normalize_ai_findings` of src/review/ai.rs accepts, and what it reports of them.
use git_lab_work_runner.Base.{
  ◌≡◌, ◌≢◌, ◌⊎◌, refl, true, some, List, [], ◌∷◌, ◌++◌, Str, codes, trim, is_empty,
  to_ascii_lowercase,
}
use git_lab_work_runner.Review.Rules.{Finding, error}
use git_lab_work_runner.Review.Findings.{AiFinding}

-- An answer's finding with a path, a title and a message besides white space, a line from 1, and the
-- severity `error` in any case of its letters.
pub record IsAcceptable (f : AiFinding) : Type 0 where
  pub under_path : trim f.path ≢ []
  pub titled : trim f.title ≢ []
  pub explained : trim f.message ≢ []
  pub on_line : f.line ≢ 0
  pub severe : to_ascii_lowercase (trim f.severity) ≡ codes "error"

-- The second text is the first with `/` for each backslash.
abbrev pub IsSlashed : Str → Str → Type 0
IsSlashed [] [] = Unit
IsSlashed [] (d ∷ t) = ⊥
IsSlashed (c ∷ s) [] = ⊥
IsSlashed (c ∷ s) (d ∷ t) = (((c ≡ b'\\') × (d ≡ b'/')) ⊎ ((c ≢ b'\\') × (d ≡ c))) × IsSlashed s t

-- What is reported of an answer's finding.
pub record IsReport (review_id : Str) (f : AiFinding) (reported : Finding) : Type 0 where
  pub ruled : reported.rule_id ≡ codes "ai:" ++ review_id
  pub severe : reported.severity ≡ error
  pub located : reported.new_line ≡ some f.line
  pub under_path : IsSlashed (trim f.path) reported.path
  pub titled : reported.title ≡ trim f.title
  pub explained : reported.message ≡ trim f.message

-- One report for each finding, in their order.
abbrev pub AreReports : Str → List AiFinding → List Finding → Type 0
AreReports review_id [] [] = Unit
AreReports review_id [] (g ∷ gs) = ⊥
AreReports review_id (f ∷ fs) [] = ⊥
AreReports review_id (f ∷ fs) (g ∷ gs) = IsReport review_id f g × AreReports review_id fs gs

is_empty-nil : (s : Str) → is_empty s ≡ true → s ≡ []
is_empty-nil [] h = refl
is_empty-nil (c ∷ s) h = cc
