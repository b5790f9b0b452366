-- ===== src/Review/Tools/Paths/Secrets.antt =====
-- Which paths `is_sensitive_path` of src/review/ai_tools.rs refuses, by the names in them.
use git_lab_work_runner.Base.{
  ◌≡◌, ◌≢◌, refl, ◌⊎◌, Bool, false, ◌||◌, List, [], ◌∷◌, ◌++◌, append_assoc, arith, Str, codes,
  str_eq, starts_with, contains, any, keep_if, not, is_empty,
}
use git_lab_work_runner.Review.Tools.Paths.{Component, not_normal, names_of, ends_with_text}

-- The names of a path, in lower case, with no `.git` before the last one, no `.env` for the last one, and
-- none that begins with `.env.`.
abbrev pub IsPublic : List Str → Type 0
IsPublic [] = Unit
IsPublic (name ∷ []) = (name ≢ codes ".env") × ((rest : Str) → name ≢ codes ".env." ++ rest)
IsPublic (name ∷ next ∷ names) =
    (name ≢ codes ".git") × ((rest : Str) → name ≢ codes ".env." ++ rest) × IsPublic (next ∷ names)

-- The parts with slashes between them.
join : List Str → Str
join [] = []
join (part ∷ []) = part
join (part ∷ next ∷ rest) = part ++ b'/' ∷ join (next ∷ rest)

join-first :
    (part head : Str) (parts : List Str)
    → parts ≢ []
    → join ((head ++ part) ∷ parts) ≡ head ++ join (part ∷ parts)
unfolding join
join-first part head [] h = absurd (h refl)
join-first part head (next ∷ rest) h = append_assoc head part (b'/' ∷ join (next ∷ rest))

-- What `is_sensitive_path` tests of a normalized text in lower case.
abbrev is_secret : Str → Bool
is_secret s =
    str_eq s (codes ".env")
    || starts_with (codes ".env.") s
    || ends_with_text (codes "/.env") s
    || contains (codes "/.env.") s
    || contains (codes "/.git/") s
    || starts_with (codes ".git/") s

-- What stands before a name: nothing, or a text with a slash at its end.
abbrev IsPrefix : Str → Type 0
IsPrefix before = (before ≡ []) ⊎ ((path : Str) × (before ≡ path ++ b'/' ∷ []))

all_fail :
    (a b c d e f : Bool)
    → (a || b || c || d || e || f) ≡ false
    → (a ≡ false) × (b ≡ false) × (c ≡ false) × (d ≡ false) × (e ≡ false) × (f ≡ false)
all_fail a b c d e f h =
    (ground arith, ground arith, ground arith, ground arith, ground arith, ground arith)

module _ (s : Str) (h : is_secret s ≡ false) where
  abbrev fails :
      (str_eq s (codes ".env") ≡ false)
      × (starts_with (codes ".env.") s ≡ false)
      × (ends_with_text (codes "/.env") s ≡ false)
      × (contains (codes "/.env.") s ≡ false)
      × (contains (codes "/.git/") s ≡ false)
      × (starts_with (codes ".git/") s ≡ false)
  fails = all_fail _ _ _ _ _ _ h

-- A part of a path that leads down.
abbrev pub is_step : Str → Bool
is_step part = not (is_empty part || str_eq part (codes "."))

-- Where they are all normal, the components are the parts that lead down.
abbrev AreSteps : List Str → List Component → Type 0
AreSteps parts cs = any not_normal cs ≡ false → names_of cs ≡ keep_if is_step parts
