-- ===== src/Review/Tools/Searches.antt =====
-- What the search of src/review/ai_tools.rs collects, against the hits of every file without a limit.
use git_lab_work_runner.Base.{
  ℕ, zero, suc, ◌+◌, ◌≤◌, ◌<◌, Bool, true, false, not, ◌||◌, Option, List, [], ◌∷◌, ◌++◌, leb,
  if◌then◌else◌, Str, contains, lines, length, take, length-append, Result, ok, err, ◌≡◌, refl, sym,
  ap, ◌∙◌, inl, inr, Bool-cases, append_assoc, arith,
}
use git_lab_work_runner.Review.Tools.Paths.{PathNames, is_low_value_context_path}
use git_lab_work_runner.Review.Tools.Walk.{continue, visible_files, collect_files-visible}
use git_lab_work_runner.Review.Tools.Truncation.{CodeMatch}
use git_lab_work_runner.Review.Tools.Calls.{
  Outside, AiReviewToolContext, search_lines, search_visit, search_matches, first_line,
  glob_matches, file_too_large, searched, searched_text,
}
use git_lab_work_runner.Review.Tools.Limits.{
  full, gathered, AddsUpTo, visit_all-take, visited, take_enough, take-full, take-nothing,
}

-- Every line of a file that has the query, with its neighbours.
unfoldable pub line_hits : Str → Str → ℕ → Str → List Str → List CodeMatch
line_hits query relative index before [] = []
line_hits query relative index before (line ∷ rest) = elim (contains query line) [
  | false ↦ line_hits query relative (suc index) line rest
  | true ↦
      record {
        path = relative;
        line = suc index;
        before = before;
        text = line;
        after = first_line rest;
      }
      ∷ line_hits query relative (suc index) line rest
]

-- One hit more, which ends the loop where a limit is reached.
next_hit :
    (found : List CodeMatch) (hit : CodeMatch) (hits next : List CodeMatch) (room file_matches : ℕ)
    → length found < 50
    → file_matches + suc room ≡ 5
    → (length (found ++ hit ∷ []) < 50
        → suc file_matches < 5
        → next ≡ take 50 ((found ++ hit ∷ []) ++ take room hits))
    → (elim (leb 50 (length (found ++ hit ∷ [])) || leb 5 (suc file_matches)) [
      | true ↦ found ++ hit ∷ []
      | false ↦ next
    ])
      ≡ take 50 (found ++ hit ∷ take room hits)
next_hit found hit hits next room file_matches h e continues =
    elim (Bool-cases (leb 50 (length (found ++ hit ∷ [])))) [
      | inl y ↦
          rw y (take-full 50 (found ++ hit ∷ []) (take room hits) short (ground arith) ∙ regroup)
      | inr n ↦ elim (Bool-cases (leb 5 (suc file_matches))) [
        | inl y ↦
            rw (n, y)
              (let none_left : room ≡ 0 = ground arith in
                rw none_left (sym (take_enough 50 (found ++ hit ∷ []) short)))
        | inr n' ↦ rw (n, n') (continues (ground arith) (ground arith) ∙ regroup)
      ]
    ]
  where
    short : length (found ++ hit ∷ []) ≤ 50
    short = omega (arith, length-append found (hit ∷ []))

    regroup :
        take 50 ((found ++ hit ∷ []) ++ take room hits) ≡ take 50 (found ++ hit ∷ take room hits)
    regroup = ap (take 50) (append_assoc found (hit ∷ []) (take room hits))

search_lines-take :
    (query relative : Str) (index : ℕ) (before : Str) (file_lines : List Str)
    (room file_matches : ℕ) (found : List CodeMatch)
    → length found < 50
    → file_matches + suc room ≡ 5
    → search_lines query relative index before file_lines file_matches found
      ≡ take 50 (found ++ take (suc room) (line_hits query relative index before file_lines))
unfolding search_lines line_hits
search_lines-take query relative index before [] room file_matches found h e =
    take-nothing 50 found (omega arith)
search_lines-take query relative index before (line ∷ rest) room file_matches found h e =
    elim (Bool-cases (contains query line)) [
      | inr n ↦
          rw (n, search_lines, line_hits)
            (search_lines-take query relative (suc index) line rest room file_matches found h e)
      | inl y ↦
          rw (y, search_lines, line_hits)
            (next_hit found _ (line_hits query relative (suc index) line rest) _ room file_matches h
              e
              (after_hit room e (λ r e' h'.
                search_lines-take query relative (suc index) line rest r (suc file_matches)
                  (found ++ hit ∷ []) h' e')))
    ]
  where
    hit : CodeMatch
    hit = record {
      path = relative;
      line = suc index;
      before = before;
      text = line;
      after = first_line rest;
    }

    Continues : ℕ → Type 0
    Continues room =
        search_lines query relative (suc index) line rest (suc file_matches) (found ++ hit ∷ [])
        ≡ take 50
            ((found ++ hit ∷ []) ++ take room (line_hits query relative (suc index) line rest))

    after_hit :
        (room : ℕ)
        → file_matches + suc room ≡ 5
        → ((r : ℕ)
            → suc file_matches + suc r ≡ 5
            → length (found ++ hit ∷ []) < 50
            → Continues (suc r))
        → length (found ++ hit ∷ []) < 50
        → suc file_matches < 5
        → Continues room
    after_hit zero e again h' l = absurd (omega arith)
    after_hit (suc room) e again h' l = again room (omega arith) h'

module _ (outside : Outside) (context : AiReviewToolContext) where
  abbrev pub file_hits : Str → Str → Result Str Str → List CodeMatch
  file_hits query relative (err e) = []
  file_hits query relative (ok content) = take 5 (line_hits query relative 0 [] (lines content))

  -- What one file gives to `search_code`.
  unfoldable pub hits : PathNames → Str → Option (Str → Bool) → Str → PathNames → List CodeMatch
  hits root query matcher relative names =
      if is_low_value_context_path relative || file_too_large outside (root ++ names) 1048576
      then []
      else if not (glob_matches matcher relative)
      then []
      else file_hits query relative (outside.read_to_string (root ++ names))

  searched_text-take :
      (query relative : Str) (found : List CodeMatch) (text : Result Str Str)
      → length found < 50
      → searched_text outside context query relative found text ≡ (
        take 50 (found ++ file_hits query relative text),
        full 50 (take 50 (found ++ file_hits query relative text)),
      )
  searched_text-take query relative found (err e) h =
      visited (found, continue) 50 _ (take-nothing 50 found (omega arith)) (ground arith)
  searched_text-take query relative found (ok content) h =
      visited (searched outside context (search_lines query relative 0 [] (lines content) 0 found))
        50 _ (search_lines-take query relative 0 [] (lines content) 4 0 found h refl) refl

  search_visit-AddsUpTo :
      (root : PathNames) (query : Str) (matcher : Option (Str → Bool))
      → AddsUpTo 50 (hits root query matcher) (search_visit outside context root query matcher)
  unfolding hits search_visit
  search_visit-AddsUpTo root query matcher relative names found h =
      elim (Bool-cases (leb 50 (length found))) [
        | inl y ↦
            visited (search_visit outside context root query matcher relative names found) 50 _
              (rw (y, search_visit) (take-full 50 found _ h (ground arith)))
              (rw (y, search_visit) (rw y refl))
        | inr n ↦
            elim (Bool-cases (
              is_low_value_context_path relative
              || file_too_large outside (root ++ names) 1048576)) [
                | inl y ↦
                    visited (search_visit outside context root query matcher relative names found)
                      50 _ (rw (n, y, search_visit, hits) (take-nothing 50 found h))
                      (rw (n, y, search_visit) (rw n refl))
                | inr n' ↦ elim (Bool-cases (not (glob_matches matcher relative))) [
                  | inl y ↦
                      visited (search_visit outside context root query matcher relative names found)
                        50 _ (rw (n, n', y, search_visit, hits) (take-nothing 50 found h))
                        (rw (n, n', y, search_visit) (rw n refl))
                  | inr n'' ↦
                      rw (n, n', n'', search_visit, hits)
                        (searched_text-take query relative found
                          (outside.read_to_string (root ++ names)) (ground arith))
                ]
              ]
      ]

  -- The matches of `search_code` are the first 50 of the hits in the visible files: at most 5 of a file,
  -- none of a file that is large, of low value, unreadable, or not admitted by the glob.
  pub search_matches-take :
      (root : PathNames) (query : Str) (matcher : Option (Str → Bool))
      → search_matches outside context root query matcher
        ≡ take 50 (gathered (hits root query matcher) (visible_files [] (outside.entries root)))
  unfolding search_matches
  search_matches-take root query matcher =
      rw
        (
          search_matches,
          collect_files-visible (search_visit outside context root query matcher) []
              (outside.entries root) [],
        )
        (visit_all-take 50 (hits root query matcher)
          (search_visit outside context root query matcher)
          (search_visit-AddsUpTo root query matcher) (visible_files [] (outside.entries root)) []
          (omega arith))
