-- ===== src/Review/Tools/Truncation.antt =====
-- `truncate_json_result` of src/review/ai_tools.rs: the binary search for the longest part of a result
-- that fits a limit of bytes. The JSON printer is a parameter.
use git_lab_work_runner.Base.{
  ℕ, zero, suc, ◌+◌, ◌-◌, ◌/◌, ◌≤◌, max, Bool, true, false, List, leb, ltb, if◌then◌else◌, Str,
  codes, byte_len, length, take, ◌≡◌, ap, sym, ◌∙◌, subst, inl, inr, Bool-cases, arith,
}

-- The JSON values that the tools build, by what their fields hold: one constructor for each `json!`.
pub record CodeMatch : Type 0 where
  pub path : Str
  pub line : ℕ
  pub before : Str
  pub text : Str
  pub after : Str

pub data ToolValue : Type 0 where
  failed : Str → ToolValue
  file_content : (path content : Str) → Bool → ToolValue
  line_range : (path : Str) → (start_line end_line : ℕ) → Str → Bool → ToolValue
  found_matches : List CodeMatch → Bool → ToolValue
  found_files : List Str → Bool → ToolValue
  truncated_content : Str → ToolValue
  truncated_only cached_context : ToolValue

module _ (to_string : ToolValue → Str) where
  abbrev candidate : Str → ℕ → Str
  candidate text boundary = to_string (truncated_content (take boundary text))

  abbrev fits : ℕ → Str → Bool
  fits max_bytes text = leb (byte_len text) max_bytes

  -- The search for a character boundary; `fuel` bounds `high - low`.
  unfoldable pub search_boundary : ℕ → ℕ → Str → ℕ → ℕ → Str → Str
  search_boundary zero max_bytes text low high best = best
  search_boundary (suc fuel) max_bytes text low high best =
      let middle = low + (high - low) / 2 in
      if ltb low high
      then elim (fits max_bytes (candidate text middle)) [
        | true ↦ search_boundary fuel max_bytes text (suc middle) high (candidate text middle)
        | false ↦ search_boundary fuel max_bytes text low middle best
      ]
      else best

  abbrev minimal : Str
  minimal = to_string truncated_only

  -- The boundaries are those of the characters and the end of the text.
  abbrev shortened : ℕ → Str → Str
  shortened max_bytes text =
      if fits max_bytes text
      then text
      else if fits max_bytes minimal
      then search_boundary (length text + 1) max_bytes text 0 (length text + 1) minimal
      else codes "0"

  unfoldable pub truncate_json_result : ToolValue → ℕ → Str
  truncate_json_result value max_bytes = shortened (max max_bytes 1) (to_string value)

  search_boundary_bound :
      (fuel max_bytes : ℕ) (text : Str) (low high : ℕ) (best : Str)
      → byte_len best ≤ max_bytes
      → byte_len (search_boundary fuel max_bytes text low high best) ≤ max_bytes
  unfolding search_boundary
  search_boundary_bound zero max_bytes text low high best h = h
  search_boundary_bound (suc fuel) max_bytes text low high best h =
      let middle = low + (high - low) / 2 in
      ground (
        arith,
        search_boundary_bound fuel max_bytes text (suc middle) high (candidate text middle),
        search_boundary_bound fuel max_bytes text low middle best,
      )

  -- A result is never longer than the limit, or than one byte where the limit is none.
  pub truncate_json_result_bound :
      (value : ToolValue) (max_bytes : ℕ)
      → byte_len (truncate_json_result value max_bytes) ≤ max max_bytes 1
  unfolding truncate_json_result byte_len
  truncate_json_result_bound value max_bytes =
      let text = to_string value in
      let limit = max max_bytes 1 in
      ground (arith, search_boundary_bound (length text + 1) limit text 0 (length text + 1) minimal)

  -- The reference: of the parts of fewer than `count` characters, the longest that fits, else `minimal`.
  unfoldable pub longest_below : ℕ → Str → ℕ → Str
  longest_below max_bytes text zero = minimal
  longest_below max_bytes text (suc count) =
      if fits max_bytes (candidate text count)
      then candidate text count
      else longest_below max_bytes text count

  unfoldable pub truncate_by_scan : ToolValue → ℕ → Str
  truncate_by_scan value max_bytes =
      let limit = max max_bytes 1 in
      let text = to_string value in
      if fits limit text
      then text
      else if fits limit minimal
      then longest_below limit text (length text + 1)
      else codes "0"

  -- One more character of a text makes its truncated result no shorter.
  abbrev pub Grows : Type 0
  Grows = (text : Str) (n : ℕ) → byte_len (candidate text n) ≤ byte_len (candidate text (suc n))

  module _ (grows : Grows) where
    fits_not_later :
        (max_bytes : ℕ) (text : Str) (middle high : ℕ)
        → middle ≤ high
        → fits max_bytes (candidate text middle) ≡ false
        → fits max_bytes (candidate text high) ≡ false
    fits_not_later max_bytes text middle zero le h =
        let e : middle ≡ 0 = omega arith in
        subst (λ n. fits max_bytes (candidate text n) ≡ false) e h
    fits_not_later max_bytes text middle (suc high) le h = elim (Bool-cases (leb middle high)) [
      | inl y ↦
          ground
            (arith, fits_not_later max_bytes text middle high (ground arith) h, grows text high)
      | inr more ↦
          let e : middle ≡ suc high = ground arith in
          subst (λ n. fits max_bytes (candidate text n) ≡ false) e h
    ]

    longest_below-unfit :
        (max_bytes : ℕ) (text : Str) (middle high : ℕ)
        → middle ≤ high
        → fits max_bytes (candidate text middle) ≡ false
        → longest_below max_bytes text middle ≡ longest_below max_bytes text high
    unfolding longest_below
    longest_below-unfit max_bytes text middle zero le h =
        let e : middle ≡ 0 = omega arith in ap (longest_below max_bytes text) e
    longest_below-unfit max_bytes text middle (suc high) le h =
        elim (Bool-cases (leb middle high)) [
          | inl y ↦
              let le' : middle ≤ high = ground arith in
              longest_below-unfit max_bytes text middle high le' h
              ∙ sym (rw (fits_not_later max_bytes text middle high le' h, longest_below))
          | inr more ↦
              let e : middle ≡ suc high = ground arith in ap (longest_below max_bytes text) e
        ]

    search_boundary-longest :
        (fuel max_bytes : ℕ) (text : Str) (low high : ℕ)
        → low ≤ high
        → high ≤ low + fuel
        → search_boundary fuel max_bytes text low high (longest_below max_bytes text low)
          ≡ longest_below max_bytes text high
    unfolding search_boundary longest_below
    search_boundary-longest zero max_bytes text low high le h =
        ap (longest_below max_bytes text) (omega arith)
    search_boundary-longest (suc fuel) max_bytes text low high le h =
        let middle = low + (high - low) / 2 in
        elim (Bool-cases (ltb low high)) [
          | inr n ↦ rw (n, search_boundary) (ap (longest_below max_bytes text) (ground arith))
          | inl y ↦ elim (Bool-cases (fits max_bytes (candidate text middle))) [
            | inl yes_fits ↦
                rw (y, yes_fits, search_boundary)
                  (ap (search_boundary fuel max_bytes text (suc middle) high)
                      (sym (rw (yes_fits, longest_below)))
                    ∙ search_boundary-longest fuel max_bytes text (suc middle) high (ground arith)
                        (omega arith))
            | inr no_fits ↦
                rw (y, no_fits, search_boundary)
                  (search_boundary-longest fuel max_bytes text low middle (omega arith)
                      (omega arith)
                    ∙ longest_below-unfit max_bytes text middle high (omega arith) no_fits)
          ]
        ]

  -- Where more text never prints shorter, the binary search finds what a scan of all parts finds: the
  -- result itself where it fits, else the longest part of it that fits.
  pub truncate_json_result-scan :
      Grows
      → (value : ToolValue) (max_bytes : ℕ)
      → truncate_json_result value max_bytes ≡ truncate_by_scan value max_bytes
  unfolding truncate_json_result truncate_by_scan longest_below
  truncate_json_result-scan grows value max_bytes =
      let text = to_string value in
      let limit = max max_bytes 1 in
      ap (λ s. if fits limit text then text else if fits limit minimal then s else codes "0")
        (search_boundary-longest grows (length text + 1) limit text 0 (length text + 1)
          (omega arith) (omega arith))
