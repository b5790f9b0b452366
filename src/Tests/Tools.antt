-- ===== src/Tests/Tools.antt =====
-- The context tools on a small checkout and with a small printer.
use git_lab_work_runner.Base.{
  ℕ, zero, suc, ◌≡◌, ◌≤◌, max, refl, none, some, [], ◌∷◌, ◌++◌, Str, codes, byte_len,
  byte_len-append, take, split_parts, Result, ok, err, contains, arith,
}
use git_lab_work_runner.Review.Tools.Paths.{
  PathNames, resolve_safe_path, normalize_path, is_sensitive_path, components,
  is_low_value_context_path,
}
use git_lab_work_runner.Review.Tools.Paths.Secrets.{is_step}
use git_lab_work_runner.Base.{split_at, keep_if}
use git_lab_work_runner.Review.Tools.Walk.{
  Entries, no_more, file, dir, visible_files, collect_files,
}
use git_lab_work_runner.Review.Tools.Truncation.{
  ToolValue, failed, truncated_content, truncated_only, truncate_json_result, truncate_by_scan,
  truncate_json_result-scan, Grows, search_boundary,
}
use git_lab_work_runner.Review.Tools.Calls.{
  Outside, AiReviewToolContext, new_context, call_with_result_limit, listed_files, list_visit,
  search_matches,
}
use git_lab_work_runner.Review.Tools.Bounds.{call_with_result_limit_bound}
use git_lab_work_runner.Review.Tools.Limits.{gathered, listed_file, listed_files-take}
use git_lab_work_runner.Review.Tools.Searches.{hits, search_matches-take}

abbrev checkout : PathNames
checkout = codes "srv" ∷ []

abbrev as_it_is : PathNames → Result Str PathNames
as_it_is path = ok path

traversal_rejected :
    resolve_safe_path as_it_is (some checkout) (codes "src/../../etc/passwd")
    ≡ err (codes "path must be a relative repository file path")
unfolding resolve_safe_path normalize_path is_sensitive_path components split_parts
traversal_rejected = refl

env_rejected :
    resolve_safe_path as_it_is (some checkout) (codes "src\\.ENV")
    ≡ err (codes "path is blocked by AI review tool policy")
unfolding resolve_safe_path normalize_path is_sensitive_path components split_parts
env_rejected = refl

-- The repository's own directory is admitted by its bare name.
git_admitted :
    resolve_safe_path as_it_is (some checkout) (codes "sub/.git")
    ≡ ok (codes "srv" ∷ codes "sub" ∷ codes ".git" ∷ [])
unfolding resolve_safe_path normalize_path is_sensitive_path components split_parts
git_admitted = refl

abbrev lib_names : PathNames
lib_names = keep_if is_step (split_at b'/' (normalize_path (codes "/src/lib.rs")))

-- A printer without escapes.
abbrev print_value : ToolValue → Str
print_value (failed message) = codes "{\"error\":\"" ++ message ++ codes "\"}"
print_value (truncated_content content) = codes "{\"content\":\"" ++ content ++ codes "\"}"
print_value truncated_only = codes "{}"
print_value _ = codes "{\"ok\":true}"

take-byte_len : (s : Str) (n : ℕ) → byte_len (take n s) ≤ byte_len (take (suc n) s)
unfolding byte_len
take-byte_len [] zero = omega arith
take-byte_len [] (suc n) = omega arith
take-byte_len (c ∷ s) zero = omega arith
take-byte_len (c ∷ s) (suc n) = omega (arith, take-byte_len s n)

print_value-Grows : Grows print_value
print_value-Grows text n =
    let before = codes "{\"content\":\"" in
    let after = codes "\"}" in
    omega (
      arith,
      byte_len-append (before ++ take n text) after,
      byte_len-append before (take n text),
      byte_len-append (before ++ take (suc n) text) after,
      byte_len-append before (take (suc n) text),
      take-byte_len text n,
    )

abbrev long_error : ToolValue
long_error = failed (codes "failed to read file: No such file or directory")

shortened_error :
    truncate_json_result print_value long_error 30 ≡ codes "{\"content\":\"{\"error\":\"failed\"}"
unfolding truncate_json_result search_boundary byte_len
shortened_error = refl

truncate_json_result-scan_example :
    truncate_json_result print_value long_error 30 ≡ truncate_by_scan print_value long_error 30
truncate_json_result-scan_example =
    truncate_json_result-scan print_value print_value-Grows long_error 30

abbrev tree : Entries
tree = dir (codes "src") (file (codes "lib.rs") (file (codes ".env") no_more)) (
    dir (codes "target") (file (codes "a.o") no_more)
      (file (codes "Cargo.lock") (file (codes "README.md") no_more)))

abbrev small_outside : Outside
small_outside = record {
  read_args = λ text. err (codes "no JSON");
  search_args = λ text. ok (record { query = codes "fn"; glob = none });
  list_args = λ text. ok none;
  glob_matcher = λ pattern. ok (contains pattern);
  canonicalize = as_it_is;
  entries = λ path. tree;
  file_len = λ path. some 40;
  read_bytes = λ path. ok [];
  from_utf8 = λ bytes. ok bytes;
  read_to_string = λ path. ok (codes "fn a() {}\nlet x = 1;\nfn b() {}\n");
  to_string = print_value;
}

abbrev small_context : AiReviewToolContext
small_context = new_context 100 (some checkout)

call_with_result_limit_bound_example :
    (byte_len
        (call_with_result_limit small_outside small_context (codes "read_file") (codes "{}") 20)
      ≤ max 20 1)
    × (byte_len
          (call_with_result_limit small_outside small_context (codes "read_file") (codes "{}") 20)
        ≤ max small_context.max_result_bytes 1)
call_with_result_limit_bound_example =
    call_with_result_limit_bound small_outside small_context (codes "read_file") (codes "{}") 20

files_listed :
    listed_files small_outside small_context checkout none
    ≡ codes "src/lib.rs" ∷ codes "README.md" ∷ []
unfolding listed_files collect_files list_visit is_low_value_context_path is_sensitive_path
    normalize_path split_parts
files_listed = refl

listed_files-take_example :
    listed_files small_outside small_context checkout none
    ≡ take 200 (
        gathered
          (listed_file small_outside small_context none)
          (visible_files [] (small_outside.entries checkout)))
listed_files-take_example = listed_files-take small_outside small_context checkout none

search_matches-take_example :
    search_matches small_outside small_context checkout (codes "fn") none
    ≡ take 50 (
        gathered
          (hits small_outside small_context checkout (codes "fn") none)
          (visible_files [] (small_outside.entries checkout)))
search_matches-take_example =
    search_matches-take small_outside small_context checkout (codes "fn") none
