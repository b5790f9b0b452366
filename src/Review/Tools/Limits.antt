-- ===== src/Review/Tools/Limits.antt =====
-- How many results the walks of src/review/ai_tools.rs collect: both of them against lists that are
-- collected without a limit and then cut.
use git_lab_work_runner.Base.{
  ℕ, zero, suc, ◌≤◌, Bool, Option, List, [], ◌∷◌, ◌++◌, leb, if◌then◌else◌, Str, length, take,
  length-take, length-append, ◌≡◌, refl, sym, ap, ◌∙◌, inl, inr, Bool-cases, append_assoc,
  append-nil, arith,
}
use git_lab_work_runner.Review.Tools.Paths.{PathNames, is_low_value_context_path}
use git_lab_work_runner.Review.Tools.Walk.{
  WalkControl, continue, stop, visible_files, visit_all, collect_files-visible,
}
use git_lab_work_runner.Review.Tools.Calls.{
  Outside, AiReviewToolContext, list_visit, listed_files, glob_matches,
}

module _ {ℓ} {A : Type ℓ} where
  pub take_enough : (n : ℕ) (xs : List A) → length xs ≤ n → take n xs ≡ xs
  take_enough zero [] h = refl
  take_enough zero (x ∷ xs) h = absurd (ground arith)
  take_enough (suc n) [] h = refl
  take_enough (suc n) (x ∷ xs) h = ap (◌∷◌ x) (take_enough n xs (omega arith))

  pub take-append : (n : ℕ) (xs ys : List A) → n ≤ length xs → take n (xs ++ ys) ≡ take n xs
  take-append zero xs ys h = refl
  take-append (suc n) [] ys h = absurd (ground arith)
  take-append (suc n) (x ∷ xs) ys h = ap (◌∷◌ x) (take-append n xs ys (omega arith))

  pub take-take-append : (n : ℕ) (xs ys : List A) → take n (take n xs ++ ys) ≡ take n (xs ++ ys)
  take-take-append zero xs ys = refl
  take-take-append (suc n) [] ys = refl
  take-take-append (suc n) (x ∷ xs) ys = ap (◌∷◌ x) (take-take-append n xs ys)

  pub length-cut : (n : ℕ) (xs : List A) → length (take n xs) ≤ n
  length-cut n xs = omega (arith, length-take n xs)

  -- A list that is full already.
  pub take-full : (n : ℕ) (xs ys : List A) → length xs ≤ n → n ≤ length xs → xs ≡ take n (xs ++ ys)
  take-full n xs ys h h' = sym (take-append n xs ys h' ∙ take_enough n xs h)

  pub take-nothing : (n : ℕ) (xs : List A) → length xs ≤ n → xs ≡ take n (xs ++ [])
  take-nothing n xs h = rw (append-nil xs) (sym (take_enough n xs h))

  -- What files give without a limit.
  abbrev pub gathered : (Str → PathNames → List A) → List (Str × PathNames) → List A
  gathered gives [] = []
  gathered gives ((relative, names) ∷ rest) = gives relative names ++ gathered gives rest

  abbrev pub full : ℕ → List A → WalkControl
  full limit found = if leb limit (length found) then stop else continue

  -- A visit that adds what a file gives, up to a limit, and stops when it is reached.
  abbrev pub AddsUpTo :
      ℕ → (Str → PathNames → List A) → (Str → PathNames → List A → List A × WalkControl) → Type ℓ
  AddsUpTo limit gives visit =
      (relative : Str) (names : PathNames) (found : List A)
      → length found ≤ limit
      → visit relative names found ≡ (
        take limit (found ++ gives relative names),
        full limit (take limit (found ++ gives relative names)),
      )

  pub visit_all-take :
      (limit : ℕ) (gives : Str → PathNames → List A)
      (visit : Str → PathNames → List A → List A × WalkControl)
      → AddsUpTo limit gives visit
      → (files : List (Str × PathNames)) (found : List A) → length found ≤ limit
      → (visit_all visit files found).0 ≡ take limit (found ++ gathered gives files)
  unfolding visit_all
  visit_all-take limit gives visit adds [] found h =
      rw (append-nil found) (sym (take_enough limit found h))
  visit_all-take limit gives visit adds ((relative, names) ∷ rest) found h =
      let found' = take limit (found ++ gives relative names) in
      rw (adds relative names found h) (elim (Bool-cases (leb limit (length found'))) [
        | inl y ↦ rw y (
            sym (take_enough limit found' (length-cut limit (found ++ gives relative names)))
            ∙ sym (take-append limit found' (gathered gives rest) (ground arith))
            ∙ regroup)
        | inr n ↦ rw n (
            visit_all-take limit gives visit adds rest found'
              (length-cut limit (found ++ gives relative names))
            ∙ regroup)
      ])
    where
      regroup :
          take limit (take limit (found ++ gives relative names) ++ gathered gives rest)
          ≡ take limit (found ++ (gives relative names ++ gathered gives rest))
      regroup =
          take-take-append limit (found ++ gives relative names) (gathered gives rest)
          ∙ ap (take limit) (append_assoc found (gives relative names) (gathered gives rest))

  -- The result of a visit by its parts.
  pub visited :
      (w : List A × WalkControl) (limit : ℕ) (ys : List A)
      → w.0 ≡ ys
      → w.1 ≡ full limit w.0
      → w ≡ (ys, full limit ys)
  visited w limit ys e e' =
      let added : List A → List A × WalkControl = λ zs. (zs, full limit zs) in
      ap (λ (c : WalkControl). (w.0, c)) e' ∙ ap added e

module _ (outside : Outside) (context : AiReviewToolContext) where
  -- What one file gives to `list_files`.
  unfoldable pub listed_file : Option (Str → Bool) → Str → PathNames → List Str
  listed_file matcher relative names =
      if is_low_value_context_path relative
      then []
      else if glob_matches matcher relative
      then relative ∷ []
      else []

  list_visit-AddsUpTo :
      (matcher : Option (Str → Bool))
      → AddsUpTo 200 (listed_file matcher) (list_visit outside context matcher)
  unfolding listed_file list_visit
  list_visit-AddsUpTo matcher relative names found h = elim (Bool-cases (leb 200 (length found))) [
    | inl y ↦
        visited (list_visit outside context matcher relative names found) 200 _
          (rw (y, list_visit) (take-full 200 found _ h (ground arith)))
          (rw (y, list_visit) (rw y refl))
    | inr n ↦ elim (Bool-cases (is_low_value_context_path relative)) [
      | inl y ↦
          visited (list_visit outside context matcher relative names found) 200 _
            (rw (n, y, list_visit, listed_file) (take-nothing 200 found h))
            (rw (n, y, list_visit) (rw n refl))
      | inr n' ↦ elim (Bool-cases (glob_matches matcher relative)) [
        | inl y ↦
            visited (list_visit outside context matcher relative names found) 200 _
              (rw (n, n', y, list_visit, listed_file)
                (sym (
                  take_enough 200 (found ++ relative ∷ [])
                    (ground (arith, length-append found (relative ∷ []))))))
              (rw (n, n', y, list_visit) refl)
        | inr n'' ↦
            visited (list_visit outside context matcher relative names found) 200 _
              (rw (n, n', n'', list_visit, listed_file) (take-nothing 200 found h))
              (rw (n, n', n'', list_visit) (rw n refl))
      ]
    ]
  ]

  -- `list_files` lists the first 200 of the visible files that the glob admits.
  pub listed_files-take :
      (root : PathNames) (matcher : Option (Str → Bool))
      → listed_files outside context root matcher
        ≡ take 200 (gathered (listed_file matcher) (visible_files [] (outside.entries root)))
  unfolding listed_files
  listed_files-take root matcher =
      rw
        (
          listed_files,
          collect_files-visible (list_visit outside context matcher) [] (outside.entries root) [],
        )
        (visit_all-take 200 (listed_file matcher) (list_visit outside context matcher)
          (list_visit-AddsUpTo matcher) (visible_files [] (outside.entries root)) [] (omega arith))
