-- ===== src/Review/Tools/CacheKeys.antt =====
-- The key by which src/review/ai_tools.rs knows that a tool was called before with the same arguments.
-- The JSON parser and the printing of a JSON text are parameters.
use git_lab_work_runner.Base.{
  true, Option, none, some, List, [], ◌∷◌, ◌++◌, map, if◌then◌else◌, Str, codes, str_eq,
}
use git_lab_work_runner.Review.Findings.{text_le}
use git_lab_work_runner.Review.Tools.Paths.{normalize_path}

-- `serde_json::Value`; a scalar is null, a Boolean or a number as it prints.
mutual
  pub data Json : Type 0 where
    scalar string : Str → Json
    array : Items → Json
    object : Fields → Json

  pub data Items : Type 0 where
    no_items : Items
    item : Json → Items → Items

  pub data Fields : Type 0 where
    no_fields : Fields
    field : Str → Json → Fields → Fields

-- Collecting into a `BTreeMap`: by the order of the keys.
abbrev insert_field : Str × Str → List (Str × Str) → List (Str × Str)
insert_field f [] = f ∷ []
insert_field f (g ∷ rest) = if text_le f.0 g.0 true then f ∷ g ∷ rest else g ∷ insert_field f rest

unfoldable pub sort_fields : List (Str × Str) → List (Str × Str)
sort_fields [] = []
sort_fields (f ∷ rest) = insert_field f (sort_fields rest)

abbrev join_commas : List Str → Str
join_commas [] = []
join_commas (part ∷ []) = part
join_commas (part ∷ next ∷ rest) = part ++ b',' ∷ join_commas (next ∷ rest)

-- `quote` prints a JSON text.
module _ (quote : Str → Str) where
  abbrev print_field : Str × Str → Str
  print_field f = quote f.0 ++ b':' ∷ f.1

  unfoldable mutual
    unfolding sort_fields

    pub canonical_json : Json → Str
    canonical_json (scalar text) = text
    canonical_json (string text) = quote text
    canonical_json (array items) = b'[' ∷ join_commas (canonical_items items) ++ codes "]"
    canonical_json (object fields) =
        b'{' ∷ join_commas (map print_field (sort_fields (canonical_fields fields))) ++ codes "}"

    pub canonical_items : Items → List Str
    canonical_items no_items = []
    canonical_items (item value rest) = canonical_json value ∷ canonical_items rest

    pub canonical_fields : Fields → List (Str × Str)
    canonical_fields no_fields = []
    canonical_fields (field key value rest) = (key, canonical_json value) ∷ canonical_fields rest

  -- The path of `read_file` is normalized first.
  abbrev normal_value : Json → Json
  normal_value (string text) = string (normalize_path text)
  normal_value value = value

  abbrev normal_fields : Fields → Fields
  normal_fields no_fields = no_fields
  normal_fields (field key value rest) =
      if str_eq key (codes "path")
      then field key (normal_value value) rest
      else field key value (normal_fields rest)

  abbrev normal_arguments : Json → Json
  normal_arguments (object fields) = object (normal_fields fields)
  normal_arguments value = value

  -- `from_str` is `serde_json::from_str`.
  unfoldable pub context_tool_cache_key : (Str → Option Json) → Str → Str → Str
  context_tool_cache_key from_str tool_name arguments = elim (from_str arguments) [
    | none ↦ tool_name ++ 0 ∷ arguments
    | some value ↦
        tool_name
        ++ 0
          ∷ canonical_json
              (if str_eq tool_name (codes "read_file") then normal_arguments value else value)
  ]
