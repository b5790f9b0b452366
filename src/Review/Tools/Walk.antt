-- ===== src/Review/Tools/Walk.antt =====
-- The walk over the checkout, `collect_files` of src/review/ai_tools.rs.
use git_lab_work_runner.Base.{
  ◌||◌, List, [], ◌∷◌, ◌++◌, if◌then◌else◌, Str, ◌≡◌, refl, inl, inr, Bool-cases,
}
use git_lab_work_runner.Review.Tools.Paths.{
  PathNames, normalize_path, is_sensitive_path, is_low_value_context_path,
}

pub data WalkControl : Type 0 where
  continue stop : WalkControl

-- What `read_dir` lists, in its order: files, directories with what they list (nothing, where they
-- cannot be read), and entries of another or of no known kind.
pub data Entries : Type 0 where
  no_more : Entries
  file : Str → Entries → Entries
  dir : Str → Entries → Entries → Entries
  other : Entries → Entries

-- The names of a path below the root, as one text.
abbrev pub join_names : PathNames → Str
join_names [] = []
join_names (name ∷ []) = name
join_names (name ∷ next ∷ rest) = name ++ b'/' ∷ join_names (next ∷ rest)

abbrev pub relative_path : PathNames → Str
relative_path names = normalize_path (join_names names)

module _ {ℓ} {S : Type ℓ} where
  abbrev then_walk : S × WalkControl → (S → S × WalkControl) → S × WalkControl
  then_walk (s, stop) rest = (s, stop)
  then_walk (s, continue) rest = rest s

  -- `current` is the path of the directory below the root.
  unfoldable pub collect_files :
      (Str → PathNames → S → S × WalkControl) → PathNames → Entries → S → S × WalkControl
  collect_files visit current no_more s = (s, continue)
  collect_files visit current (other rest) s = collect_files visit current rest s
  collect_files visit current (dir name inside rest) s =
      let names = current ++ name ∷ [] in
      if is_low_value_context_path (relative_path names) || is_sensitive_path (relative_path names)
      then collect_files visit current rest s
      else then_walk (collect_files visit names inside s) (collect_files visit current rest)
  collect_files visit current (file name rest) s =
      let names = current ++ name ∷ [] in
      if is_sensitive_path (relative_path names)
      then collect_files visit current rest s
      else then_walk (visit (relative_path names) names s) (collect_files visit current rest)

-- The files that a walk comes by, in order.
unfoldable pub visible_files : PathNames → Entries → List (Str × PathNames)
visible_files current no_more = []
visible_files current (other rest) = visible_files current rest
visible_files current (dir name inside rest) =
    let names = current ++ name ∷ [] in
    if is_low_value_context_path (relative_path names) || is_sensitive_path (relative_path names)
    then visible_files current rest
    else visible_files names inside ++ visible_files current rest
visible_files current (file name rest) =
    let names = current ++ name ∷ [] in
    if is_sensitive_path (relative_path names)
    then visible_files current rest
    else (relative_path names, names) ∷ visible_files current rest

module _ {ℓ} {S : Type ℓ} (visit : Str → PathNames → S → S × WalkControl) where
  -- The visits to listed files, up to the first that stops.
  unfoldable pub visit_all : List (Str × PathNames) → S → S × WalkControl
  visit_all [] s = (s, continue)
  visit_all ((relative, names) ∷ rest) s = then_walk (visit relative names s) (visit_all rest)

  then_walk-continue :
      (w : S × WalkControl) (f g : S → S × WalkControl)
      → ((s : S) → f s ≡ g s)
      → then_walk w f ≡ then_walk w g
  then_walk-continue (s, stop) f g h = refl
  then_walk-continue (s, continue) f g h = h s

  then_walk_assoc :
      (w : S × WalkControl) (f g : S → S × WalkControl)
      → then_walk (then_walk w f) g ≡ then_walk w (λ s. then_walk (f s) g)
  then_walk_assoc (s, stop) f g = refl
  then_walk_assoc (s, continue) f g = refl

  visit_all-append :
      (xs ys : List (Str × PathNames)) (s : S)
      → visit_all (xs ++ ys) s ≡ then_walk (visit_all xs s) (visit_all ys)
  unfolding visit_all
  visit_all-append [] ys s = refl
  visit_all-append ((relative, names) ∷ xs) ys s =
      rw then_walk_assoc (then_walk-continue (visit relative names s) _ _ (visit_all-append xs ys))

  pub collect_files-visible :
      (current : PathNames) (entries : Entries) (s : S)
      → collect_files visit current entries s ≡ visit_all (visible_files current entries) s
  unfolding collect_files visible_files visit_all
  collect_files-visible current no_more s = refl
  collect_files-visible current (other rest) s = collect_files-visible current rest s
  collect_files-visible current (dir name inside rest) s =
      let relative = relative_path (current ++ name ∷ []) in
      elim (Bool-cases (is_low_value_context_path relative || is_sensitive_path relative)) [
        | inl y ↦ rw (y, collect_files, visible_files) (collect_files-visible current rest s)
        | inr n ↦
            rw (n, collect_files, visible_files)
              (rw (collect_files-visible (current ++ name ∷ []) inside s, visit_all-append)
                (then_walk-continue (visit_all (visible_files (current ++ name ∷ []) inside) s) _ _
                  (collect_files-visible current rest)))
      ]
  collect_files-visible current (file name rest) s =
      elim (Bool-cases (is_sensitive_path (relative_path (current ++ name ∷ [])))) [
        | inl y ↦ rw (y, collect_files, visible_files) (collect_files-visible current rest s)
        | inr n ↦
            rw (n, collect_files, visible_files)
              (then_walk-continue
                (visit (relative_path (current ++ name ∷ [])) (current ++ name ∷ []) s) _ _
                (collect_files-visible current rest))
      ]
