-- ===== src/Review/Diff/Numbers.antt =====
-- How src/review/diff.rs numbers the lines of a hunk.
use git_lab_work_runner.Base.{ℕ, ◌≡◌, refl, List, [], ◌∷◌, ◌++◌, Option, none, some}
use git_lab_work_runner.Review.Diff.{DiffLine, DiffLineKind, context, added, removed, incr}

-- The numbers that a line of a kind has when `o` and `n` come next in the two files, and those that
-- come next behind it.
abbrev pub old_number : DiffLineKind → ℕ → Option ℕ
old_number added o = none
old_number removed o = some o
old_number context o = some o

abbrev pub new_number : DiffLineKind → ℕ → Option ℕ
new_number added n = some n
new_number removed n = none
new_number context n = some n

abbrev pub next_old : DiffLineKind → ℕ → ℕ
next_old added o = o
next_old removed o = incr o
next_old context o = incr o

abbrev pub next_new : DiffLineKind → ℕ → ℕ
next_new added n = incr n
next_new removed n = n
next_new context n = incr n

-- The lines are numbered one after the other from `o` and `n`.
abbrev pub AreNumbered : ℕ → ℕ → List DiffLine → Type 0
AreNumbered o n [] = Unit {0}
AreNumbered o n (l ∷ ls) =
    (l.old_line ≡ old_number l.kind o)
    × (l.new_line ≡ new_number l.kind n)
    × AreNumbered (next_old l.kind o) (next_new l.kind n) ls

abbrev pub end_old : ℕ → List DiffLine → ℕ
end_old o [] = o
end_old o (l ∷ ls) = end_old (next_old l.kind o) ls

abbrev pub end_new : ℕ → List DiffLine → ℕ
end_new n [] = n
end_new n (l ∷ ls) = end_new (next_new l.kind n) ls

pub AreNumbered-concat :
    (o n : ℕ) (ls : List DiffLine) (l : DiffLine)
    → AreNumbered o n ls
    → l.old_line ≡ old_number l.kind (end_old o ls)
    → l.new_line ≡ new_number l.kind (end_new n ls)
    → AreNumbered o n (ls ++ l ∷ [])
AreNumbered-concat o n [] l h p q = (p, q, tt)
AreNumbered-concat o n (x ∷ ls) l h p q =
    (h.0, h.1, AreNumbered-concat (next_old x.kind o) (next_new x.kind n) ls l h.2 p q)

pub end_old-concat :
    (o : ℕ) (ls : List DiffLine) (l : DiffLine)
    → end_old o (ls ++ l ∷ []) ≡ next_old l.kind (end_old o ls)
end_old-concat o [] l = refl
end_old-concat o (x ∷ ls) l = end_old-concat (next_old x.kind o) ls l

pub end_new-concat :
    (n : ℕ) (ls : List DiffLine) (l : DiffLine)
    → end_new n (ls ++ l ∷ []) ≡ next_new l.kind (end_new n ls)
end_new-concat n [] l = refl
end_new-concat n (x ∷ ls) l = end_new-concat (next_new x.kind n) ls l
