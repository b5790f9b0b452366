-- ===== src/Review/Tools/Paths/Normal.antt =====
-- `normalize_path` of src/review/ai_tools.rs: it trims once for all.
use git_lab_work_runner.Base.{
  ℕ, ◌≡◌, refl, sym, ap, ◌∙◌, subst, false, [], ◌∷◌, ◌++◌, reverse, ◌==◌, Str, All-append, if_holds,
}
use git_lab_work_runner.Base.Splits.{Without}
use mathlib.Core.List.{reverse-append, reverse-reverse}
use git_lab_work_runner.Review.Findings.{forward_slashes}
use git_lab_work_runner.Review.Tools.Paths.{trim_start_of, trim_slashes, normalize_path}

-- `normalize_path` changes nothing of what it has normalized.
forward_slashes-Without : (s : Str) → Without 92 (forward_slashes s)
forward_slashes-Without [] = tt
forward_slashes-Without (c ∷ s) = (
  if_holds (λ d. (d == 92) ≡ false) (c == 92) _ _ (λ y. refl) (λ n. n),
  forward_slashes-Without s,
)

forward_slashes-same : (s : Str) → Without 92 s → forward_slashes s ≡ s
forward_slashes-same [] h = refl
forward_slashes-same (c ∷ s) h = rw (h.0) (ap (◌∷◌ c) (forward_slashes-same s h.1))

reverse-Without : (c : ℕ) (s : Str) → Without c s → Without c (reverse s)
reverse-Without c [] h = tt
reverse-Without c (x ∷ s) h =
    subst (Without c) (sym (reverse-append (x ∷ []) s))
      (All-append (λ y. (y == c) ≡ false) (reverse s) (x ∷ []) (reverse-Without c s h.1) (h.0, tt))

trim_start_of-Without : (c : ℕ) (s : Str) → Without c s → Without c (trim_start_of s)
trim_start_of-Without c [] h = tt
trim_start_of-Without c (x ∷ s) h =
    if_holds (Without c) (x == b'/') _ _ (λ y. trim_start_of-Without c s h.1) (λ n. h)

-- The text does not begin with a slash.
abbrev IsTrimmed : Str → Type 0
IsTrimmed [] = Unit
IsTrimmed (c ∷ s) = (c == b'/') ≡ false

trim_start_of-IsTrimmed : (s : Str) → IsTrimmed (trim_start_of s)
trim_start_of-IsTrimmed [] = tt
trim_start_of-IsTrimmed (c ∷ s) =
    if_holds IsTrimmed (c == b'/') _ _ (λ y. trim_start_of-IsTrimmed s) (λ n. n)

trim_start_of-same : (s : Str) → IsTrimmed s → trim_start_of s ≡ s
trim_start_of-same [] h = refl
trim_start_of-same (c ∷ s) h = rw h refl

trim_start_of-end : (s : Str) → (before : Str) × (s ≡ before ++ trim_start_of s)
trim_start_of-end [] = ([], refl)
trim_start_of-end (c ∷ s) =
    if_holds (λ t. (before : Str) × (c ∷ s ≡ before ++ t)) (c == b'/') _ _
      (λ y. let (before, e) = trim_start_of-end s in (c ∷ before, ap (◌∷◌ c) e)) (λ n. ([], refl))

IsTrimmed-left : (s t : Str) → IsTrimmed (s ++ t) → IsTrimmed s
IsTrimmed-left [] t h = tt
IsTrimmed-left (c ∷ s) t h = h

trim_slashes-again : (s : Str) → trim_slashes (trim_slashes s) ≡ trim_slashes s
trim_slashes-again s =
    let start = trim_start_of s in
    let back = trim_start_of (reverse start) in
    let (before, e) = trim_start_of-end (reverse start) in
    let whole : start ≡ reverse back ++ reverse before =
      sym (reverse-reverse start) ∙ ap reverse e ∙ reverse-append before back in
    let trimmed =
      IsTrimmed-left (reverse back) (reverse before)
        (subst IsTrimmed whole (trim_start_of-IsTrimmed s)) in
    ap (λ t. reverse (trim_start_of (reverse t))) (trim_start_of-same (reverse back) trimmed)
    ∙ ap (λ t. reverse (trim_start_of t)) (reverse-reverse back)
    ∙ ap reverse (trim_start_of-same back (trim_start_of-IsTrimmed (reverse start)))

pub normalize_path-again : (path : Str) → normalize_path (normalize_path path) ≡ normalize_path path
unfolding normalize_path
normalize_path-again path =
    let slashed = forward_slashes path in
    let clean = reverse-Without 92 _ (
      trim_start_of-Without 92 _
        (reverse-Without 92 _ (trim_start_of-Without 92 slashed (forward_slashes-Without path)))) in
    ap trim_slashes (forward_slashes-same (trim_slashes slashed) clean) ∙ trim_slashes-again slashed
