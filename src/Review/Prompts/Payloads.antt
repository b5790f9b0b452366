-- ===== src/Review/Prompts/Payloads.antt =====
-- The payload of a prompt in src/review/ai_prompt.rs: within its limit, and whole where it fits.
use git_lab_work_runner.Base.{
  ℕ, zero, suc, ◌+◌, ◌-◌, ◌≤◌, ◌<◌, ◌≡◌, ◌↔◌, ◌⊎◌, refl, sym, ap, ◌∙◌, inl, inr, true, false,
  Option, List, [], ◌∷◌, ◌++◌, append_assoc, append-nil, arith, leb, ltb, Bool-cases, Str, byte_len,
  byte_len-append, utf8_len, min, max, concat, map, sum_by,
}
use git_lab_work_runner.Review.WorkItems.{GitLabChange, is_char_boundary, walk_back, cut}
use git_lab_work_runner.Review.WorkItems.Chunks.{walk_back-le, byte_len-cut-le}
use git_lab_work_runner.Review.Prompts.{
  LimitedDiffPayload, ReviewOutputMode, ReviewBatchInfo, formatted_change_payload, payload_bytes,
  limit_change, limit_changes, no_payload, prompt_head, prompt_tail, limited_diff_payload_details,
  batch_prompt_payload_limit, build_review_prompt_with_options,
}

abbrev pub payload : GitLabChange → Str
payload change = (formatted_change_payload change).content

end_is_char_boundary : (s : Str) → is_char_boundary s (byte_len s) ≡ true
unfolding is_char_boundary byte_len
end_is_char_boundary [] = refl
end_is_char_boundary (c ∷ s) = ground (arith, same, end_is_char_boundary s)
  where
    same : utf8_len c + byte_len s - utf8_len c ≡ byte_len s
    same = omega arith

walk_back-end : (s : Str) (n : ℕ) → byte_len s ≡ n → walk_back s n ≡ n
unfolding walk_back
walk_back-end s zero e = refl
walk_back-end s (suc n) e = rw (sym (ap (is_char_boundary s) e) ∙ end_is_char_boundary s, walk_back)

cut-end : (s : Str) → (cut (byte_len s) s).0 ≡ s
unfolding cut byte_len
cut-end [] = refl
cut-end (c ∷ s) = rw (y, cut) (ap (◌∷◌ c) (ap (λ n. (cut n s).0) same ∙ cut-end s))
  where
    y : leb (utf8_len c) (utf8_len c + byte_len s) ≡ true
    y = ground arith

    same : utf8_len c + byte_len s - utf8_len c ≡ byte_len s
    same = omega arith

bytes_of : (change : GitLabChange) → payload_bytes change ≡ byte_len (payload change)
unfolding formatted_change_payload
bytes_of change = refl

bytes_positive : (change : GitLabChange) → 1 ≤ payload_bytes change
unfolding formatted_change_payload byte_len
bytes_positive change = omega arith

module _ (max_bytes : ℕ) where
  -- A change that fits is put behind the others in full.
  limit_change-fits :
      (output : LimitedDiffPayload) (change : GitLabChange)
      → byte_len output.content + payload_bytes change ≤ max_bytes
      → limit_change max_bytes output change
        ≡ record { content = output.content ++ payload change; truncated = output.truncated }
  unfolding limit_change
  limit_change-fits output change h =
      let p = payload change in
      let n : leb max_bytes (byte_len output.content) ≡ false =
        ground (arith, h, bytes_positive change) in
      let end : min (max_bytes - byte_len output.content) (payload_bytes change) ≡ byte_len p =
        omega (arith, h, bytes_of change) in
      let whole : walk_back p (byte_len p) ≡ byte_len p = walk_back-end p (byte_len p) refl in
      let kept : ltb (byte_len p) (byte_len p) ≡ false = ground arith in
      rw (n, end, whole, cut-end p, bytes_of change, kept)

  limit_change-over :
      (output : LimitedDiffPayload) (change : GitLabChange)
      → max_bytes < byte_len output.content + payload_bytes change
      → (limit_change max_bytes output change).truncated ≡ true
  unfolding limit_change
  limit_change-over output change h = ground (
    arith,
    walk_back-le (payload change)
        (min (max_bytes - byte_len output.content) (payload_bytes change)),
  )

  limit_change-truncated :
      (output : LimitedDiffPayload) (change : GitLabChange)
      → output.truncated ≡ true
      → (limit_change max_bytes output change).truncated ≡ true
  unfolding limit_change
  limit_change-truncated output change h = ground arith

  limit_change_bound :
      (output : LimitedDiffPayload) (change : GitLabChange)
      → byte_len output.content ≤ max_bytes
      → byte_len (limit_change max_bytes output change).content ≤ max_bytes
  unfolding limit_change
  limit_change_bound output change h =
      let p = payload change in
      let end = walk_back p (min (max_bytes - byte_len output.content) (payload_bytes change)) in
      ground (
        arith,
        walk_back-le p (min (max_bytes - byte_len output.content) (payload_bytes change)),
        byte_len-cut-le end p,
        byte_len-append output.content (cut end p).0,
      )

  limit_changes_bound :
      (output : LimitedDiffPayload) (changes : List GitLabChange)
      → byte_len output.content ≤ max_bytes
      → byte_len (limit_changes max_bytes output changes).content ≤ max_bytes
  unfolding limit_changes
  limit_changes_bound output [] h = h
  limit_changes_bound output (change ∷ rest) h =
      limit_changes_bound (limit_change max_bytes output change) rest
        (limit_change_bound output change h)

  limit_changes-truncated :
      (output : LimitedDiffPayload) (changes : List GitLabChange)
      → output.truncated ≡ true
      → (limit_changes max_bytes output changes).truncated ≡ true
  unfolding limit_changes
  limit_changes-truncated output [] h = h
  limit_changes-truncated output (change ∷ rest) h =
      limit_changes-truncated (limit_change max_bytes output change) rest
        (limit_change-truncated output change h)

  grown :
      (output : LimitedDiffPayload) (change : GitLabChange)
      → byte_len (output.content ++ payload change) ≡ byte_len output.content + payload_bytes change
  grown output change =
      byte_len-append output.content (payload change)
      ∙ ap (λ n. byte_len output.content + n) (sym (bytes_of change))

  limit_changes-fits :
      (output : LimitedDiffPayload) (changes : List GitLabChange)
      → byte_len output.content + sum_by payload_bytes changes ≤ max_bytes
      → limit_changes max_bytes output changes ≡ record {
        content = output.content ++ concat (map payload changes);
        truncated = output.truncated;
      }
  unfolding limit_changes
  limit_changes-fits output [] h =
      ap (λ s. record { content = s; truncated = output.truncated })
        (sym (append-nil output.content))
  limit_changes-fits output (change ∷ rest) h =
      let next : LimitedDiffPayload = record {
        content = output.content ++ payload change;
        truncated = output.truncated;
      } in
      ap (λ o. limit_changes max_bytes o rest) (limit_change-fits output change (omega (arith, h)))
      ∙ limit_changes-fits next rest (omega (arith, h, grown output change))
      ∙ ap (λ s. record { content = s; truncated = output.truncated })
          (append_assoc output.content (payload change) (concat (map payload rest)))

  limit_changes-over :
      (output : LimitedDiffPayload) (changes : List GitLabChange)
      → byte_len output.content ≤ max_bytes
      → max_bytes < byte_len output.content + sum_by payload_bytes changes
      → (limit_changes max_bytes output changes).truncated ≡ true
  unfolding limit_changes
  limit_changes-over output [] small h = absurd (omega (arith, small, h))
  limit_changes-over output (change ∷ rest) small h =
      elim (Bool-cases (ltb max_bytes (byte_len output.content + payload_bytes change))) [
        | inl y ↦
            limit_changes-truncated (limit_change max_bytes output change) rest
              (limit_change-over output change (ground (arith, y)))
        | inr n ↦
            let fits : byte_len output.content + payload_bytes change ≤ max_bytes =
              ground (arith, n) in
            let next : LimitedDiffPayload = record {
              content = output.content ++ payload change;
              truncated = output.truncated;
            } in
            ap (λ o. (limit_changes max_bytes o rest).truncated)
              (limit_change-fits output change fits)
            ∙ limit_changes-over next rest (omega (arith, fits, grown output change))
                (omega (arith, h, grown output change))
      ]

nothing-bytes : byte_len no_payload.content ≡ 0
unfolding byte_len
nothing-bytes = refl

all_bytes :
    (changes : List GitLabChange)
    → byte_len (concat (map payload changes)) ≡ sum_by payload_bytes changes
unfolding byte_len
all_bytes [] = refl
all_bytes (change ∷ rest) = omega (
  arith,
  byte_len-append (payload change) (concat (map payload rest)),
  bytes_of change,
  all_bytes rest,
)

details-fits :
    (changes : List GitLabChange) (max_bytes : ℕ)
    → sum_by payload_bytes changes ≤ max_bytes
    → limited_diff_payload_details changes max_bytes
      ≡ record { content = concat (map payload changes); truncated = false }
unfolding limited_diff_payload_details
details-fits changes max_bytes h =
    limit_changes-fits max_bytes no_payload changes (omega (arith, h, nothing-bytes))

details-over :
    (changes : List GitLabChange) (max_bytes : ℕ)
    → max_bytes < sum_by payload_bytes changes
    → (limited_diff_payload_details changes max_bytes).truncated ≡ true
unfolding limited_diff_payload_details
details-over changes max_bytes h =
    limit_changes-over max_bytes no_payload changes (omega (arith, nothing-bytes))
      (omega (arith, h, nothing-bytes))

-- The payload is never longer than its limit, and counts as truncated exactly where the payloads of
-- all changes together are longer; where it does not, it is all of them in their order.
pub limited_diff_payload-IsExact :
    (changes : List GitLabChange) (max_bytes : ℕ)
    → let limited = limited_diff_payload_details changes max_bytes in
      (byte_len limited.content ≤ max_bytes)
      × ((limited.truncated ≡ true) ↔ (max_bytes < sum_by payload_bytes changes))
      × ((limited.truncated ≡ true) ⊎ (limited.content ≡ concat (map payload changes)))
unfolding limited_diff_payload_details
limited_diff_payload-IsExact changes max_bytes =
    let bound = limit_changes_bound max_bytes no_payload changes (omega (arith, nothing-bytes)) in
    elim (Bool-cases (ltb max_bytes (sum_by payload_bytes changes))) [
      | inl y ↦
          let over : max_bytes < sum_by payload_bytes changes = ground (arith, y) in
          let cut_off = details-over changes max_bytes over in
          (bound, ((λ t. over), (λ o. cut_off)), inl cut_off)
      | inr n ↦
          let small : sum_by payload_bytes changes ≤ max_bytes = ground (arith, n) in
          let whole = details-fits changes max_bytes small in
          (
            bound,
            (
              (λ t. absurd (ground (arith, t, ap (λ o. o.truncated) whole))),
              (λ o. absurd (omega (arith, o, small))),
            ),
            inr (ap (λ o. o.content) whole),
          )
    ]

-- With the limit of its batch, a prompt holds the payload of each change of the batch in full and in
-- their order, reports their bytes together, and reports no truncation.
pub build_review_prompt-whole :
    (boundary : Str) (changes : List GitLabChange) (review_request : Option Str)
    (batch_info : Option ReviewBatchInfo) (output_mode : ReviewOutputMode)
    → let prompt =
        build_review_prompt_with_options boundary changes
          (batch_prompt_payload_limit changes)
          review_request
          batch_info
          output_mode in
      (head : Str) × (tail : Str) × (prompt.0 ≡ head ++ concat (map payload changes) ++ tail)
      × (prompt.1.0 ≡ sum_by payload_bytes changes)
      × (prompt.1.1 ≡ false)
unfolding build_review_prompt_with_options batch_prompt_payload_limit
build_review_prompt-whole boundary changes review_request batch_info output_mode =
    let limited = limited_diff_payload_details changes (max (sum_by payload_bytes changes) 1) in
    let whole = details-fits changes (max (sum_by payload_bytes changes) 1) (omega arith) in
    (
      prompt_head boundary output_mode batch_info review_request limited,
      prompt_tail boundary,
      ap
          (λ (o : LimitedDiffPayload).
            prompt_head boundary output_mode batch_info review_request limited
            ++ o.content
            ++ prompt_tail boundary)
          whole,
      ap (λ (o : LimitedDiffPayload). byte_len o.content) whole ∙ all_bytes changes,
      ap (λ (o : LimitedDiffPayload). o.truncated) whole,
    )
