-- ===== src/Tests/Prompts.antt =====
-- The prompts on concrete inputs.
use git_lab_work_runner.Base.{
  ◌≡◌, ◌≤◌, ◌<◌, ◌↔◌, ◌⊎◌, ◌++◌, refl, true, false, some, List, [], ◌∷◌, Str, codes, byte_len,
  concat, map, sum_by, is_whitespace, split_words,
}
use git_lab_work_runner.Review.WorkItems.{GitLabChange, is_char_boundary, walk_back, cut}
use git_lab_work_runner.Review.Prompts.{
  ReviewBatchInfo, tool_call, formatted_change_payload, payload_bytes, limit_change, limit_changes,
  limited_diff_payload_details, batch_prompt_payload_limit, sanitized_review_request,
  build_review_prompt_with_options,
}
use git_lab_work_runner.Review.Prompts.Payloads.{
  payload, limited_diff_payload-IsExact, build_review_prompt-whole,
}

abbrev change_at : Str → GitLabChange
change_at path = record {
  old_path = path;
  new_path = path;
  new_file = false;
  renamed_file = false;
  deleted_file = false;
  diff = codes "+x\n";
}

abbrev accented : List GitLabChange
accented = change_at (codes "é") ∷ change_at (codes "b") ∷ []

-- The limit falls inside the `é`; the byte that is left takes the first character of the next change.
cut_inside_character :
    limited_diff_payload_details accented 7 ≡ record { content = codes "File: F"; truncated = true }
unfolding limited_diff_payload_details limit_changes limit_change formatted_change_payload walk_back
    is_char_boundary cut byte_len
cut_inside_character = refl

clean_request : sanitized_review_request (some (codes "  only\nlocks ")) ≡ some (codes "only locks")
unfolding split_words is_whitespace
clean_request = refl

limited_diff_payload-IsExact_example :
    (byte_len (limited_diff_payload_details accented 7).content ≤ 7)
    × (((limited_diff_payload_details accented 7).truncated ≡ true)
        ↔ (7 < sum_by payload_bytes accented))
    × (((limited_diff_payload_details accented 7).truncated ≡ true)
        ⊎ ((limited_diff_payload_details accented 7).content ≡ concat (map payload accented)))
limited_diff_payload-IsExact_example = limited_diff_payload-IsExact accented 7

abbrev second_of_three : ReviewBatchInfo
second_of_three = record { index = 2; count = 3; file_count = 2 }

build_review_prompt-whole_example :
    let prompt =
      build_review_prompt_with_options
        (codes "1f_0")
        accented
        (batch_prompt_payload_limit accented)
        (some (codes "locks"))
        (some second_of_three)
        tool_call in
    (head : Str) × (tail : Str) × (prompt.0 ≡ head ++ concat (map payload accented) ++ tail)
    × (prompt.1.0 ≡ sum_by payload_bytes accented)
    × (prompt.1.1 ≡ false)
build_review_prompt-whole_example =
    build_review_prompt-whole (codes "1f_0") accented (some (codes "locks")) (some second_of_three)
      tool_call
