-- ===== src/Tests/Archives.antt =====
-- The extraction of an archive on a concrete input: the second file is larger than what is left.
use git_lab_work_runner.Base.{
  ◌≡◌, refl, false, none, some, List, [], ◌∷◌, ◌++◌, Str, codes, byte_len, split_parts, Result, ok,
  err,
}
use git_lab_work_runner.App.Error.{archive_error, archive_limit_exceeded}
use git_lab_work_runner.Review.Tools.Paths.{PathNames, components}
use git_lab_work_runner.Review.Archive.{
  ArchiveLimits, default_archive_limits, ZipFile, Effect, create_dir_all, create_file, remove_file,
  write_all, Effects, copy_zip_file_with_limits, extract_entry, extract_entries,
  extract_zip_archive,
}

abbrev file_of : Str → Str → ZipFile
file_of name content = record {
  enclosed_name = some (codes "repo-1/../" ++ name);
  is_dir = false;
  reads = ok content ∷ [];
  unix_mode = none;
}

abbrev small_limits : ArchiveLimits
small_limits = record default_archive_limits { max_extracted_bytes = 5 }

abbrev two_files : Str → Result Str (List (Result Str ZipFile))
two_files bytes =
    ok (ok (file_of (codes "a") (codes "abc")) ∷ ok (file_of (codes "b") (codes "abc")) ∷ [])

abbrev working : Effects → Effect → Result Str (Unit {0})
working done effect = ok tt

abbrev work_dir : PathNames
work_dir = codes "work" ∷ []

second_is_removed : extract_zip_archive working small_limits work_dir two_files (codes "zip") ≡ (
  create_dir_all work_dir
      ∷ create_file (codes "work" ∷ codes "a" ∷ [])
      ∷ write_all (codes "work" ∷ codes "a" ∷ []) (codes "abc")
      ∷ create_dir_all work_dir
      ∷ create_file (codes "work" ∷ codes "b" ∷ [])
      ∷ remove_file (codes "work" ∷ codes "b" ∷ [])
      ∷ [],
  err (
      archive_error archive_limit_exceeded
        (codes "archive extracted bytes exceeded max_extracted_bytes")),
)
unfolding extract_zip_archive extract_entries extract_entry copy_zip_file_with_limits byte_len
    components split_parts
second_is_removed = refl
