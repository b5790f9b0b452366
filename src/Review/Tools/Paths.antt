-- ===== src/Review/Tools/Paths.antt =====
-- Which paths the context tools of src/review/ai_tools.rs admit. `canonicalize` of the file system is a
-- parameter; a path of the file system is the list of its names.
pub mod Names
pub mod Normal
pub mod Secrets
use git_lab_work_runner.Base.{
  Bool, true, false, ◌&&◌, ◌||◌, Option, none, some, List, [], ◌∷◌, ◌++◌, reverse, ◌==◌,
  if◌then◌else◌, Str, codes, str_eq, starts_with, contains, to_ascii_lowercase, split_at, is_empty,
  any, Result, ok, err, ◌>>=◌,
}
use git_lab_work_runner.Review.Findings.{forward_slashes}

abbrev pub PathNames : Type 0
PathNames = List Str

-- `str::trim_matches` and `str::ends_with`.
abbrev trim_start_of : Str → Str
trim_start_of [] = []
trim_start_of (c ∷ s) = if c == b'/' then trim_start_of s else c ∷ s

abbrev trim_slashes : Str → Str
trim_slashes s = reverse (trim_start_of (reverse (trim_start_of s)))

abbrev ends_with_text : Str → Str → Bool
ends_with_text p s = starts_with (reverse p) (reverse s)

unfoldable pub normalize_path : Str → Str
normalize_path path = trim_slashes (forward_slashes path)

unfoldable pub is_sensitive_path : Str → Bool
is_sensitive_path path =
    let normalized = to_ascii_lowercase (normalize_path path) in
    str_eq normalized (codes ".env")
    || starts_with (codes ".env.") normalized
    || ends_with_text (codes "/.env") normalized
    || contains (codes "/.env.") normalized
    || contains (codes "/.git/") normalized
    || starts_with (codes ".git/") normalized

abbrev is_one_of : List Str → Str → Bool
is_one_of names s = any (str_eq s) names

abbrev low_value_directories : List Str
low_value_directories =
    codes "node_modules"
    ∷ codes "target"
    ∷ codes "dist"
    ∷ codes "build"
    ∷ codes ".next"
    ∷ codes ".nuxt"
    ∷ codes "coverage"
    ∷ codes "vendor"
    ∷ []

abbrev lock_files : List Str
lock_files =
    codes "cargo.lock"
    ∷ codes "package-lock.json"
    ∷ codes "pnpm-lock.yaml"
    ∷ codes "yarn.lock"
    ∷ codes "bun.lockb"
    ∷ codes "composer.lock"
    ∷ codes "poetry.lock"
    ∷ []

-- The last part of a split text, which is never empty.
abbrev last_part : List Str → Str
last_part [] = []
last_part (part ∷ []) = part
last_part (part ∷ next ∷ rest) = last_part (next ∷ rest)

unfoldable pub is_low_value_context_path : Str → Bool
is_low_value_context_path path =
    let parts = split_at b'/' (to_ascii_lowercase (normalize_path path)) in
    any (is_one_of low_value_directories) parts || is_one_of lock_files (last_part parts)

-- `Path::components` on Unix: empty parts and inner `.` go.
pub data Component : Type 0 where
  root_dir cur_dir parent_dir : Component
  normal : Str → Component

abbrev inner_components : List Str → List Component
inner_components [] = []
inner_components (part ∷ rest) =
    if is_empty part || str_eq part (codes ".")
    then inner_components rest
    else (if str_eq part (codes "..") then parent_dir else normal part) ∷ inner_components rest

abbrev first_components : List Str → List Component
first_components [] = []
first_components (part ∷ rest) =
    if is_empty part
    then root_dir ∷ inner_components rest
    else if str_eq part (codes ".")
    then cur_dir ∷ inner_components rest
    else inner_components (part ∷ rest)

unfoldable pub components : Str → List Component
components [] = []
components (c ∷ s) = first_components (split_at b'/' (c ∷ s))

abbrev pub not_normal : Component → Bool
not_normal (normal name) = false
not_normal _ = true

-- The names of a path that has only normal components, which `join` puts behind the root.
abbrev pub names_of : List Component → PathNames
names_of [] = []
names_of (normal name ∷ rest) = name ∷ names_of rest
names_of (_ ∷ rest) = names_of rest

-- `Path::starts_with` compares whole names.
abbrev within : PathNames → PathNames → Bool
within [] path = true
within (name ∷ root) [] = false
within (name ∷ root) (other ∷ path) = str_eq name other && within root path

abbrev inside_root : PathNames → PathNames → Result Str PathNames
inside_root root path =
    if within root path then ok path else err (codes "path escapes source checkout")

module _ (canonicalize : PathNames → Result Str PathNames) where
  unfoldable pub resolve_safe_path : Option PathNames → Str → Result Str PathNames
  resolve_safe_path none raw_path = err (codes "source checkout is not available")
  resolve_safe_path (some root) raw_path =
      let normalized = normalize_path raw_path in
      if is_empty normalized
      then err (codes "path must not be empty")
      else if is_sensitive_path normalized
      then err (codes "path is blocked by AI review tool policy")
      else if any not_normal (components normalized)
      then err (codes "path must be a relative repository file path")
      else (do
        canonical_root ← canonicalize root
        canonical_candidate ← canonicalize (root ++ names_of (components normalized))
        inside_root canonical_root canonical_candidate)
