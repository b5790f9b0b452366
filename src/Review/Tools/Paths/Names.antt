-- ===== src/Review/Tools/Paths/Names.antt =====
-- The names that `Path::components` finds in a path, as src/review/ai_tools.rs and
-- src/review/archive.rs put them behind a directory.
use git_lab_work_runner.Base.{
  ℕ, ◌≡◌, ◌≢◌, inl, inr, false, ◌||◌, List, [], ◌∷◌, ◌++◌, ◌==◌, arith, Bool-cases, Str, codes,
  str_eq, str_eq_iff, is_empty, split_at, split_parts, drop, All, All-append, if_holds,
}
use git_lab_work_runner.Base.Splits.{Without}
use git_lab_work_runner.Review.Tools.Paths.{
  Component, root_dir, cur_dir, parent_dir, normal, inner_components, first_components, components,
  names_of,
}

-- A name that leads one directory down: not empty, not `.`, not `..`, and with no slash.
abbrev pub IsName : Str → Type 0
IsName name = (name ≢ []) × (name ≢ codes ".") × (name ≢ codes "..") × Without b'/' name

split_parts-Without :
    (sep : ℕ) (part s : Str) → Without sep part → All (Without sep) (split_parts sep part s)
unfolding split_parts
split_parts-Without sep part [] h = (h, tt)
split_parts-Without sep part (c ∷ s) h = elim (Bool-cases (c == sep)) [
  | inl y ↦ rw (y, split_parts) (h, split_parts-Without sep [] s tt)
  | inr n ↦
      rw (n, split_parts)
        (split_parts-Without sep (part ++ c ∷ []) s
          (All-append (λ x. (x == sep) ≡ false) part (c ∷ []) h (n, tt)))
]

-- A normal component is a name.
abbrev IsProper : Component → Type 0
IsProper (normal name) = IsName name
IsProper _ = Unit

part-IsProper :
    (part : Str)
    → Without b'/' part
    → (is_empty part || str_eq part (codes ".")) ≡ false
    → (str_eq part (codes "..")) ≡ false
    → IsName part
part-IsProper part w h d =
    ((λ e. empty part e (ground (arith, h))), (λ e. dot e (ground (arith, h))), (λ e. dots e d), w)
  where
    empty : (s : Str) → s ≡ [] → is_empty s ≢ false
    empty [] e k = cc
    empty (c ∷ s) e k = cc

    dot : part ≡ codes "." → str_eq part (codes ".") ≢ false
    dot e k = ground (arith, k, (str_eq_iff part (codes ".")).1 e)

    dots : part ≡ codes ".." → str_eq part (codes "..") ≢ false
    dots e k = ground (arith, k, (str_eq_iff part (codes "..")).1 e)

inner_components-IsProper :
    (parts : List Str) → All (Without b'/') parts → All IsProper (inner_components parts)
inner_components-IsProper [] h = tt
inner_components-IsProper (part ∷ rest) h =
    let later = inner_components-IsProper rest h.1 in
    if_holds (All IsProper) (is_empty part || str_eq part (codes ".")) _ _ (λ y. later)
      (λ n. (
        if_holds IsProper (str_eq part (codes "..")) _ _ (λ y. tt)
            (λ d. part-IsProper part h.0 n d),
        later,
      ))

first_components-IsProper :
    (parts : List Str) → All (Without b'/') parts → All IsProper (first_components parts)
first_components-IsProper [] h = tt
first_components-IsProper (part ∷ rest) h =
    if_holds (All IsProper) (is_empty part) _ _ (λ y. (tt, inner_components-IsProper rest h.1))
      (λ n.
        if_holds (All IsProper) (str_eq part (codes ".")) _ _
          (λ y. (tt, inner_components-IsProper rest h.1))
          (λ n'. inner_components-IsProper (part ∷ rest) h))

components-IsProper : (path : Str) → All IsProper (components path)
unfolding components
components-IsProper [] = tt
components-IsProper (c ∷ s) =
    first_components-IsProper (split_at b'/' (c ∷ s)) (split_parts-Without b'/' [] (c ∷ s) tt)

names_of-IsName : (cs : List Component) → All IsProper cs → All IsName (names_of cs)
names_of-IsName [] h = tt
names_of-IsName (normal name ∷ rest) h = (h.0, names_of-IsName rest h.1)
names_of-IsName (root_dir ∷ rest) h = names_of-IsName rest h.1
names_of-IsName (cur_dir ∷ rest) h = names_of-IsName rest h.1
names_of-IsName (parent_dir ∷ rest) h = names_of-IsName rest h.1

All-drop1 : (cs : List Component) → All IsProper cs → All IsProper (drop 1 cs)
All-drop1 [] h = tt
All-drop1 (c ∷ cs) h = h.1

-- The names of a path, and those behind its first component, lead down.
pub components-AreNames : (path : Str) → All IsName (names_of (components path))
components-AreNames path = names_of-IsName (components path) (components-IsProper path)

pub rest-AreNames : (path : Str) → All IsName (names_of (drop 1 (components path)))
rest-AreNames path =
    names_of-IsName (drop 1 (components path))
      (All-drop1 (components path) (components-IsProper path))
