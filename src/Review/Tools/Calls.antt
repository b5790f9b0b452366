-- ===== src/Review/Tools/Calls.antt =====
-- The three context tools of src/review/ai_tools.rs and the call that chooses one. The reading of
-- arguments, the file system, UTF-8 and the glob library are parameters; `exists` fields hold what the
-- file system answers for a path.
use git_lab_work_runner.Base.{
  ℕ, zero, suc, ◌+◌, ◌-◌, min, max, Bool, true, false, not, ◌&&◌, ◌||◌, Option, none, some, List,
  [], ◌∷◌, ◌++◌, leb, ltb, ◌==◌, if◌then◌else◌, Str, codes, str_eq, contains, trim, is_empty, lines,
  byte_len, length, take, drop, concat, Result, ok, err, ◌>>=◌,
}
use git_lab_work_runner.Base.Decimal.{decimal}
use git_lab_work_runner.Review.WorkItems.{walk_back, cut}
use git_lab_work_runner.Review.Tools.Paths.{
  PathNames, normalize_path, is_low_value_context_path, resolve_safe_path,
}
use git_lab_work_runner.Review.Tools.Walk.{WalkControl, continue, stop, Entries, collect_files}
use git_lab_work_runner.Review.Tools.Truncation.{
  CodeMatch, ToolValue, failed, file_content, line_range, found_matches, found_files,
  truncate_json_result,
}

pub record ReadArgs : Type 0 where
  pub path : Str
  pub start_line : Option ℕ
  pub end_line : Option ℕ

pub record SearchArgs : Type 0 where
  pub query : Str
  pub glob : Option Str

-- Why bytes are no text: how many are valid, and how many are wrong (none, where the end is cut off).
pub record Utf8Error : Type 0 where
  pub valid_up_to : ℕ
  pub error_len : Option ℕ
  pub text : Str

-- What the tools take from serde_json, globset and the file system.
pub record Outside : Type 0 where
  pub read_args : Str → Result Str ReadArgs
  pub search_args : Str → Result Str SearchArgs
  pub list_args : Str → Result Str (Option Str)
  pub glob_matcher : Str → Result Str (Str → Bool)
  pub canonicalize : PathNames → Result Str PathNames
  pub entries : PathNames → Entries
  pub file_len : PathNames → Option ℕ
  pub read_bytes : PathNames → Result Str (List ℕ)
  pub from_utf8 : List ℕ → Result Utf8Error Str
  pub read_to_string : PathNames → Result Str Str
  pub to_string : ToolValue → Str

pub record AiReviewToolContext : Type 0 where
  pub source_dir : Option PathNames
  pub read_file_enabled : Bool
  pub search_code_enabled : Bool
  pub list_files_enabled : Bool
  pub max_result_bytes : ℕ

abbrev is_some {ℓ} : {A : Type ℓ} → Option A → Bool
is_some none = false
is_some (some a) = true

-- `AiReviewToolContext::new`, by the configuration's limit of bytes.
abbrev pub new_context : ℕ → Option PathNames → AiReviewToolContext
new_context max_tool_result_bytes source_dir = record {
  source_dir = source_dir;
  read_file_enabled = is_some source_dir;
  search_code_enabled = is_some source_dir;
  list_files_enabled = is_some source_dir;
  max_result_bytes = max max_tool_result_bytes 1;
}

abbrev pub source_available : AiReviewToolContext → Bool
source_available context = is_some context.source_dir

-- `str::split_inclusive`: a line keeps its line feed.
unfoldable pub split_inclusive : Str → Str → List Str
split_inclusive line [] = if is_empty line then [] else line ∷ []
split_inclusive line (c ∷ s) = elim (c == b'\n') [
  | true ↦ (line ++ c ∷ []) ∷ split_inclusive [] s
  | false ↦ split_inclusive (line ++ c ∷ []) s
]

abbrev read_max_file_bytes : ℕ
read_max_file_bytes = 1048576

abbrev pub glob_matches : Option (Str → Bool) → Str → Bool
glob_matches none relative = true
glob_matches (some matcher) relative = matcher relative

abbrev pub first_line : List Str → Str
first_line [] = []
first_line (line ∷ rest) = line

-- The loop over the lines of a file; `before` is the line before, `index` counts from 0.
unfoldable pub search_lines : Str → Str → ℕ → Str → List Str → ℕ → List CodeMatch → List CodeMatch
search_lines query relative index before [] file_matches found = found
search_lines query relative index before (line ∷ rest) file_matches found =
    elim (contains query line) [
      | false ↦ search_lines query relative (suc index) line rest file_matches found
      | true ↦
          let found' =
            found
            ++ record {
              path = relative;
              line = suc index;
              before = before;
              text = line;
              after = first_line rest;
            }
              ∷ [] in
          elim (leb 50 (length found') || leb 5 (suc file_matches)) [
            | true ↦ found'
            | false ↦ search_lines query relative (suc index) line rest (suc file_matches) found'
          ]
    ]

module _ (outside : Outside) where
  -- `metadata` that fails counts as too large.
  abbrev pub file_too_large : PathNames → ℕ → Bool
  file_too_large path max_bytes = elim (outside.file_len path) [
    | none ↦ true
    | some len ↦ ltb max_bytes len
  ]

  abbrev cut_off : Utf8Error → Bool
  cut_off e = elim e.error_len [ none ↦ true | some n ↦ false ]

  -- The loop that drops a character that the limit cuts; each turn leaves fewer bytes, `fuel` bounds them.
  unfoldable pub decode_prefix : ℕ → Bool → List ℕ → Result Str (Str × Bool)
  decode_prefix zero truncated bytes = err (codes "file is not valid UTF-8")
  decode_prefix (suc fuel) truncated bytes = elim (outside.from_utf8 bytes) [
    | ok text ↦ ok (text, truncated)
    | err e ↦ elim (truncated && cut_off e) [
      | true ↦ decode_prefix fuel truncated (take e.valid_up_to bytes)
      | false ↦ err (codes "file is not valid UTF-8: " ++ e.text)
    ]
  ]

  unfoldable pub read_utf8_file_limited : PathNames → ℕ → Result Str (Str × Bool)
  read_utf8_file_limited path max_bytes =
      let limit = max max_bytes 1 in
      (do
        bytes ← outside.read_bytes path
        let kept = take limit bytes
        decode_prefix (suc (length kept)) (ltb limit (length bytes)) kept)

  abbrev selected_lines : List Str → ℕ → ℕ → Str
  selected_lines all_lines start_line actual_end =
      concat (take (actual_end - (start_line - 1)) (drop (start_line - 1) all_lines))

  abbrev limited_lines : List Str → ℕ → ℕ → ℕ → Result Str (Str × ℕ × Bool)
  limited_lines all_lines start_line end_line max_bytes =
      let actual_end = min end_line (length all_lines) in
      let selected = selected_lines all_lines start_line actual_end in
      if ltb (length all_lines) start_line
      then err (
          codes "start_line "
          ++ decimal start_line
          ++ codes " exceeds file line count "
          ++ decimal (length all_lines))
      else if leb (byte_len selected) (max max_bytes 1)
      then ok (selected, actual_end, false)
      else ok ((cut (walk_back selected (max max_bytes 1)) selected).0, actual_end, true)

  unfoldable pub read_utf8_line_range_limited : PathNames → ℕ → ℕ → ℕ → Result Str (Str × ℕ × Bool)
  read_utf8_line_range_limited path start_line end_line max_bytes =
      if file_too_large path read_max_file_bytes
      then err (codes "file exceeds internal 1048576 byte limit")
      else (do
        content ← outside.read_to_string path
        limited_lines (split_inclusive [] content) start_line end_line max_bytes)

  abbrev or_failed {ℓ} : {A : Type ℓ} → Result Str A → (A → ToolValue) → ToolValue
  or_failed (err e) rest = failed e
  or_failed (ok a) rest = rest a

  abbrev read_failed {ℓ} : {A : Type ℓ} → Result Str A → Result Str A
  read_failed (err e) = err (codes "failed to read file: " ++ e)
  read_failed (ok a) = ok a

  module _ (context : AiReviewToolContext) where
    abbrev read_resolved : ReadArgs → PathNames → Option ℕ → Option ℕ → ToolValue
    read_resolved args path none none =
        or_failed
          (read_failed
            (read_utf8_file_limited path (min context.max_result_bytes read_max_file_bytes)))
          (λ (found : Str × Bool). file_content (normalize_path args.path) found.0 found.1)
    read_resolved args path (some start_line) (some end_line) =
        if start_line == 0 || ltb end_line start_line
        then failed (codes "line range must be one-based and end_line must be at least start_line")
        else if ltb 250 (end_line - start_line + 1)
        then failed (codes "line range must not exceed 250 lines")
        else or_failed
            (read_failed (
              read_utf8_line_range_limited path start_line end_line
                (min context.max_result_bytes read_max_file_bytes)))
            (λ (found : Str × ℕ × Bool).
              line_range (normalize_path args.path) start_line found.1 found.0 found.2)
    read_resolved args path _ _ = failed (codes "start_line and end_line must be supplied together")

    unfoldable pub read_file : Str → ToolValue
    read_file arguments = elim (outside.read_args arguments) [
      | err e ↦ failed (codes "invalid read_file arguments: " ++ e)
      | ok args ↦
          or_failed (resolve_safe_path outside.canonicalize context.source_dir args.path)
            (λ path. read_resolved args path args.start_line args.end_line)
    ]

    abbrev pub searched : List CodeMatch → List CodeMatch × WalkControl
    searched found = (found, if leb 50 (length found) then stop else continue)

    abbrev pub searched_text :
        Str → Str → List CodeMatch → Result Str Str → List CodeMatch × WalkControl
    searched_text query relative found (err e) = (found, continue)
    searched_text query relative found (ok content) =
        searched (search_lines query relative 0 [] (lines content) 0 found)

    -- The visit of `search_code`; `root` is the checkout.
    unfoldable pub search_visit :
        PathNames
        → Str
        → Option (Str → Bool)
        → Str
        → PathNames
        → List CodeMatch
        → List CodeMatch × WalkControl
    search_visit root query matcher relative names found =
        if leb 50 (length found)
        then (found, stop)
        else if is_low_value_context_path relative || file_too_large (root ++ names) 1048576
        then (found, continue)
        else if not (glob_matches matcher relative)
        then (found, continue)
        else searched_text query relative found (outside.read_to_string (root ++ names))

    -- A glob that is missing or blank restricts nothing.
    abbrev optional_glob_matcher : Option Str → Result Str (Option (Str → Bool))
    optional_glob_matcher none = ok none
    optional_glob_matcher (some pattern) =
        if is_empty (trim pattern) then ok none else elim (outside.glob_matcher (trim pattern)) [
          | err e ↦ err (codes "invalid glob: " ++ e)
          | ok matcher ↦ ok (some matcher)
        ]

    unfoldable pub search_matches : PathNames → Str → Option (Str → Bool) → List CodeMatch
    search_matches root query matcher =
        (collect_files (search_visit root query matcher) [] (outside.entries root) []).0

    abbrev search_with : Str → Option PathNames → Option Str → ToolValue
    search_with query none glob = failed (codes "source checkout is not available")
    search_with query (some root) glob = or_failed (optional_glob_matcher glob) (λ matcher.
        let found = search_matches root query matcher in
        found_matches found (leb 50 (length found)))

    unfoldable pub search_code : Str → ToolValue
    search_code arguments = elim (outside.search_args arguments) [
      | err e ↦ failed (codes "invalid search_code arguments: " ++ e)
      | ok args ↦
          if is_empty (trim args.query)
          then failed (codes "query must not be empty")
          else search_with args.query context.source_dir args.glob
    ]

    -- The visit of `list_files`.
    unfoldable pub list_visit :
        Option (Str → Bool) → Str → PathNames → List Str → List Str × WalkControl
    list_visit matcher relative names files =
        if leb 200 (length files)
        then (files, stop)
        else if is_low_value_context_path relative
        then (files, continue)
        else let files' = if glob_matches matcher relative then files ++ relative ∷ [] else files in
          (files', if leb 200 (length files') then stop else continue)

    unfoldable pub listed_files : PathNames → Option (Str → Bool) → List Str
    listed_files root matcher = (collect_files (list_visit matcher) [] (outside.entries root) []).0

    abbrev list_with : Option PathNames → Option Str → ToolValue
    list_with none glob = failed (codes "source checkout is not available")
    list_with (some root) glob = or_failed (optional_glob_matcher glob) (λ matcher.
        let files = listed_files root matcher in found_files files (leb 200 (length files)))

    unfoldable pub list_files : Str → ToolValue
    list_files arguments = elim (outside.list_args arguments) [
      | err e ↦ failed (codes "invalid list_files arguments: " ++ e)
      | ok glob ↦ list_with context.source_dir glob
    ]

    abbrev pub tool_value : Str → Str → ToolValue
    tool_value name arguments =
        if str_eq name (codes "read_file") && context.read_file_enabled
        then read_file arguments
        else if str_eq name (codes "search_code") && context.search_code_enabled
        then search_code arguments
        else if str_eq name (codes "list_files") && context.list_files_enabled
        then list_files arguments
        else failed (codes "tool is not enabled: " ++ name)

    unfoldable pub call_with_result_limit : Str → Str → ℕ → Str
    call_with_result_limit name arguments max_result_bytes =
        truncate_json_result outside.to_string (tool_value name arguments)
          (min context.max_result_bytes (max max_result_bytes 1))
