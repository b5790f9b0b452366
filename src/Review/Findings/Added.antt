-- ===== src/Review/Findings/Added.antt =====
-- Which findings are kept: those on lines that the changes add, `filter_findings_to_added_lines` of
-- src/review/ai.rs.
use git_lab_work_runner.Base.{
  ℕ, ◌≡◌, refl, sym, ap, ◌∙◌, subst, ◌⊎◌, inl, inr, Bool, true, false, ◌&&◌, ◌||◌, Option, none,
  some, List, [], ◌∷◌, ◌++◌, arith, ◌==◌, Bool-cases, Str, str_eq, str_eq_iff, is_empty, trim,
  lines, All, any, keep_if, Result, ok, err, ◌>>=◌, >>=-eq-ok,
}
use git_lab_work_runner.Review.Diff.{
  DiffLineKind, DiffLine, DiffHunk, DiffFile, added, removed, context, Fault, parse_lines, initial,
  parse_unified_diff,
}
use git_lab_work_runner.Review.WorkItems.{GitLabChange}
use git_lab_work_runner.Review.Rules.{Finding}
use git_lab_work_runner.Review.Findings.{
  added_first, added_of_lines, added_of_hunks, added_lines, is_on_added_line,
  filter_findings_to_added_lines,
}

-- An element of a list has a property.
abbrev pub Any : {A : Type 0} → (A → Type 0) → List A → Type 0
Any P [] = ⊥
Any P (x ∷ xs) = P x ⊎ Any P xs

abbrev pub IsAddedAt : ℕ → DiffLine → Type 0
IsAddedAt n line = (line.kind ≡ added) × (line.new_line ≡ some n)

-- The change adds the line `n` to the file at the path.
abbrev pub Adds : Str → ℕ → GitLabChange → Type 0
Adds path n change =
    (change.deleted_file ≡ false)
    × (change.new_path ≡ path)
    × (diff_file : DiffFile) × (parse_unified_diff change.old_path change.new_path change.diff
        ≡ ok diff_file)
    × Any (λ (hunk : DiffHunk). Any (IsAddedAt n) hunk.lines) diff_file.hunks

abbrev has : List (Str × ℕ) → Str → ℕ → Bool
has entries path n = any (λ (entry : Str × ℕ). str_eq entry.0 path && entry.1 == n) entries

has-append :
    (a b : List (Str × ℕ)) (path : Str) (n : ℕ)
    → has (a ++ b) path n ≡ (has a path n || has b path n)
has-append [] b path n = refl
has-append (x ∷ a) b path n = ground (arith, has-append a b path n)

has-added_first :
    (file path : Str) (n : ℕ) (k : DiffLineKind) (l : Option ℕ) (later : List (Str × ℕ))
    → has (added_first file k l later) path n ≡ true
    → ((file ≡ path) × (k ≡ added) × (l ≡ some n)) ⊎ (has later path n ≡ true)
has-added_first file path n added (some m) later h =
    elim (Bool-cases (str_eq file path && m == n)) [
      | inl y ↦
          inl (
            (str_eq_iff file path).0 (ground (arith, y)),
            refl,
            ap (λ x. some x) (ground (arith, y)),
          )
      | inr miss ↦ inr (rw (miss) at h)
    ]
has-added_first file path n added none later h = inr h
has-added_first file path n removed l later h = inr h
has-added_first file path n context l later h = inr h

has-added_of_lines :
    (file path : Str) (n : ℕ) (lines : List DiffLine)
    → has (added_of_lines file lines) path n ≡ true
    → (file ≡ path) × Any (IsAddedAt n) lines
has-added_of_lines file path n [] h = absurd (ground (arith, h))
has-added_of_lines file path n (line ∷ rest) h =
    elim (has-added_first file path n line.kind line.new_line (added_of_lines file rest) h) [
      | inl (same, kind, at_line) ↦ (same, inl (kind, at_line))
      | inr later ↦
          (let (same, there) = has-added_of_lines file path n rest later in (same, inr there))
    ]

or_true : (a b : Bool) → (a || b) ≡ true → (a ≡ true) ⊎ (b ≡ true)
or_true true b h = inl refl
or_true false b h = inr h

has-added_of_hunks :
    (file path : Str) (n : ℕ) (hunks : List DiffHunk)
    → has (added_of_hunks file hunks) path n ≡ true
    → (file ≡ path) × Any (λ (hunk : DiffHunk). Any (IsAddedAt n) hunk.lines) hunks
has-added_of_hunks file path n [] h = absurd (ground (arith, h))
has-added_of_hunks file path n (hunk ∷ rest) h =
    let here = added_of_lines file hunk.lines in
    let there = added_of_hunks file rest in
    elim (or_true (has here path n) (has there path n) (sym (has-append here there path n) ∙ h)) [
      | inl y ↦ (let (same, x) = has-added_of_lines file path n hunk.lines y in (same, inl x))
      | inr y ↦ (let (same, x) = has-added_of_hunks file path n rest y in (same, inr x))
    ]

parsed_new_path :
    (old_path new_path text : Str) (diff_file : DiffFile)
    → parse_unified_diff old_path new_path text ≡ ok diff_file
    → diff_file.new_path ≡ new_path
unfolding parse_unified_diff
parsed_new_path old_path new_path text diff_file h =
    let (p, e, made) = >>=-eq-ok (parse_lines initial (lines text)) _ h in ap new_path_or (sym made)
  where
    new_path_or : Result Fault DiffFile → Str
    new_path_or (ok f) = f.new_path
    new_path_or (err e) = []

has-added_lines :
    (changes : List GitLabChange) (entries : List (Str × ℕ)) (path : Str) (n : ℕ)
    → added_lines changes ≡ ok entries
    → has entries path n ≡ true
    → Any (Adds path n) changes
unfolding added_lines
has-added_lines [] entries path n h y =
    let same : [] ≡ entries = cc in
    absurd (ground (arith, subst (λ es. has es path n ≡ true) (sym same) y))
has-added_lines (change ∷ rest) entries path n h y =
    elim (Bool-cases (change.deleted_file || is_empty (trim change.diff))) [
      | inl skipped ↦ inr (has-added_lines rest entries path n (rw (skipped, added_lines) at h) y)
      | inr counted ↦
          let (diff_file, parsed, h1) =
            >>=-eq-ok (parse_unified_diff change.old_path change.new_path change.diff)
              (λ f. added_lines rest >>= (λ es. ok (added_of_hunks f.new_path f.hunks ++ es)))
              (rw (counted, added_lines) at h) in
          let (later, e, made) =
            >>=-eq-ok (added_lines rest)
              (λ es. ok (added_of_hunks diff_file.new_path diff_file.hunks ++ es)) h1 in
          let here = added_of_hunks diff_file.new_path diff_file.hunks in
          let same : here ++ later ≡ entries = cc in
          elim (or_true (has here path n) (has later path n)
            (sym (has-append here later path n) ∙ ap (λ es. has es path n) same ∙ y)) [
              | inl found ↦
                  let (at_path, x) =
                    has-added_of_hunks diff_file.new_path path n diff_file.hunks found in
                  inl (
                    ground (arith, counted),
                    sym (
                          parsed_new_path change.old_path change.new_path change.diff diff_file
                            parsed)
                        ∙ at_path,
                    diff_file,
                    parsed,
                    x,
                  )
              | inr found ↦ inr (has-added_lines rest later path n e found)
            ]
    ]

-- The finding is on a line that one of the changes adds.
abbrev pub IsOnAdded : List GitLabChange → Finding → Type 0
IsOnAdded changes finding =
    (n : ℕ) × (finding.new_line ≡ some n) × Any (Adds finding.path n) changes

kept-IsOnAdded :
    (changes : List GitLabChange) (entries : List (Str × ℕ)) (findings : List Finding)
    → added_lines changes ≡ ok entries
    → All (IsOnAdded changes) (keep_if (is_on_added_line entries) findings)
kept-IsOnAdded changes entries [] h = tt
kept-IsOnAdded changes entries (finding ∷ rest) h =
    let later = kept-IsOnAdded changes entries rest h in
    elim (Bool-cases (is_on_added_line entries finding)) [
      | inl y ↦ rw (y, keep_if) (on_line finding.new_line refl y, later)
      | inr n ↦ rw (n, keep_if) later
    ]
  where
    on_line :
        (l : Option ℕ)
        → finding.new_line ≡ l
        → is_on_added_line entries finding ≡ true
        → IsOnAdded changes finding
    on_line none e y = absurd (ground (arith, e, y))
    on_line (some n) e y = (n, e, has-added_lines changes entries finding.path n h (rw (e) at y))

-- Each finding that is kept is on a line that one of the changes, of a file that is not deleted, adds to
-- the file at the finding's path.
pub filter_findings-AreAdded :
    (changes : List GitLabChange) (findings kept : List Finding)
    → filter_findings_to_added_lines changes findings ≡ ok kept
    → All (IsOnAdded changes) kept
unfolding filter_findings_to_added_lines
filter_findings-AreAdded changes findings kept h =
    let (entries, e, made) =
      >>=-eq-ok (added_lines changes) (λ es. ok (keep_if (is_on_added_line es) findings)) h in
    let same : keep_if (is_on_added_line entries) findings ≡ kept = cc in
    subst (All (IsOnAdded changes)) same (kept-IsOnAdded changes entries findings e)
