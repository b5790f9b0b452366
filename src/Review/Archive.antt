-- ===== src/Review/Archive.antt =====
-- The extraction of a repository archive in src/review/archive.rs. The entries are as the ZIP library
-- reads them, and the file system answers each effect by those before it. A failed effect stands among
-- the effects too.
pub mod Bounds
use git_lab_work_runner.Base.{
  ℕ, ◌+◌, ◌-◌, ◌*◌, Bool, true, false, Option, none, some, List, [], ◌∷◌, ◌++◌, ltb, leb,
  if◌then◌else◌, Str, codes, byte_len, is_empty, length, drop, Result, ok, err,
}
use git_lab_work_runner.Base.Decimal.{decimal}
use git_lab_work_runner.App.Error.{
  AppError, archive_error, archive_extract_failed, archive_limit_exceeded, io,
}
use git_lab_work_runner.Review.Tools.Paths.{PathNames, components, names_of}
use git_lab_work_runner.Review.Tools.Walk.{join_names}

pub record ArchiveLimits : Type 0 where
  pub max_archive_bytes : ℕ
  pub max_extracted_files : ℕ
  pub max_extracted_bytes : ℕ
  pub max_single_file_bytes : ℕ
  pub max_entry_path_bytes : ℕ

abbrev pub default_archive_limits : ArchiveLimits
default_archive_limits = record {
  max_archive_bytes = 100 * 1024 * 1024;
  max_extracted_files = 10000;
  max_extracted_bytes = 200 * 1024 * 1024;
  max_single_file_bytes = 10 * 1024 * 1024;
  max_entry_path_bytes = 512;
}

-- An entry, with its name as the text of a path; `reads` are the results of the reads of its content, up
-- to the end.
pub record ZipFile : Type 0 where
  pub enclosed_name : Option Str
  pub is_dir : Bool
  pub reads : List (Result Str Str)
  pub unix_mode : Option ℕ

pub data Effect : Type 0 where
  create_dir_all create_file remove_file : PathNames → Effect
  write_all : PathNames → Str → Effect
  set_permissions : PathNames → ℕ → Effect

abbrev pub Effects : Type 0
Effects = List Effect

abbrev limit_exceeded : Str → AppError
limit_exceeded = archive_error archive_limit_exceeded

abbrev pub strip_first_component : Str → PathNames
strip_first_component path = names_of (drop 1 (components path))

-- `Path::parent` of a path that is not empty.
abbrev pub parent : PathNames → PathNames
parent [] = []
parent (name ∷ []) = []
parent (name ∷ next ∷ rest) = name ∷ parent (next ∷ rest)

module _ (file_system : Effects → Effect → Result Str (Unit {0})) (limits : ArchiveLimits)
    (destination : PathNames) where
  abbrev pub performed :
      {A : Type 0}
      → (Effects → Effects × Result AppError A)
      → Effects
      → Result Str (Unit {0})
      → Effects × Result AppError A
  performed rest done (err e) = (done, err (io e))
  performed rest done (ok u) = rest done

  -- An effect with the `?` operator: the rest runs where it succeeds.
  abbrev pub perform :
      {A : Type 0}
      → Effect
      → Effects
      → (Effects → Effects × Result AppError A)
      → Effects × Result AppError A
  perform effect done rest = performed rest (done ++ effect ∷ []) (file_system done effect)

  -- The loop of `copy_zip_file_with_limits`; `remaining` is what the whole archive has left.
  unfoldable pub copy_zip_file_with_limits :
      PathNames → ℕ → List (Result Str Str) → ℕ → Effects → Effects × Result AppError ℕ
  copy_zip_file_with_limits path remaining [] copied done = (done, ok copied)
  copy_zip_file_with_limits path remaining (err e ∷ reads) copied done = (done, err (io e))
  copy_zip_file_with_limits path remaining (ok chunk ∷ reads) copied done =
      if is_empty chunk
      then (done, ok copied)
      else if ltb limits.max_single_file_bytes (copied + length chunk)
      then (
        done,
        err (
            limit_exceeded (
              codes "archive file exceeded max_single_file_bytes "
              ++ decimal limits.max_single_file_bytes)),
      )
      else if ltb (remaining - copied) (length chunk)
      then (
        done,
        err (limit_exceeded (codes "archive extracted bytes exceeded max_extracted_bytes")),
      )
      else perform (write_all path chunk) done
          (copy_zip_file_with_limits path remaining reads (copied + length chunk))

  -- `inspect_err`: the file of a copy that fails is removed, whether that succeeds or not.
  abbrev pub removed_on_error :
      PathNames → Effects × Result AppError ℕ → Effects × Result AppError ℕ
  removed_on_error path (done, ok copied) = (done, ok copied)
  removed_on_error path (done, err e) = (done ++ remove_file path ∷ [], err e)

  abbrev pub set_unix_mode :
      PathNames
      → Option ℕ
      → Effects
      → (Effects → Effects × Result AppError ℕ)
      → Effects × Result AppError ℕ
  set_unix_mode path none done rest = rest done
  set_unix_mode path (some mode) done rest = perform (set_permissions path mode) done rest

  abbrev pub after_copy :
      PathNames
      → Option ℕ
      → (ℕ → Effects → Effects × Result AppError ℕ)
      → Effects × Result AppError ℕ
      → Effects × Result AppError ℕ
  after_copy path mode rest (done, err e) = (done, err e)
  after_copy path mode rest (done, ok copied) = set_unix_mode path mode done (rest copied)

  -- An entry below the destination; `rest` reads on behind it, given the bytes it has copied.
  unfoldable pub extract_entry :
      ZipFile
      → PathNames
      → ℕ
      → (ℕ → Effects → Effects × Result AppError ℕ)
      → Effects
      → Effects × Result AppError ℕ
  extract_entry file path remaining rest done =
      if file.is_dir
      then perform (create_dir_all path) done (rest 0)
      else perform (create_dir_all (parent path)) done (λ opened.
        perform (create_file path) opened (λ created.
          after_copy path file.unix_mode rest (
            removed_on_error path (copy_zip_file_with_limits path remaining file.reads 0 created))))

  abbrev pub path_limit : PathNames → AppError
  path_limit relative = limit_exceeded (
      codes "archive entry path length "
      ++ decimal (byte_len (join_names relative))
      ++ codes " exceeded max_entry_path_bytes "
      ++ decimal limits.max_entry_path_bytes
      ++ codes ": "
      ++ join_names relative)

  abbrev pub entry_limit : AppError
  entry_limit = limit_exceeded (
      codes "archive extracted entry count exceeded max_extracted_files "
      ++ decimal limits.max_extracted_files)

  -- An entry of the loop, with the counts of entries and bytes so far; `rest` goes on behind it.
  abbrev pub extract_named :
      ZipFile
      → (ℕ → ℕ → Effects → Effects × Result AppError ℕ)
      → ℕ
      → ℕ
      → Effects
      → Option Str
      → Effects × Result AppError ℕ
  extract_named file rest entries bytes done none = rest entries bytes done
  extract_named file rest entries bytes done (some name) =
      let relative = strip_first_component name in
      if is_empty relative
      then rest entries bytes done
      else if ltb limits.max_entry_path_bytes (byte_len (join_names relative))
      then (done, err (path_limit relative))
      else if leb limits.max_extracted_files entries
      then (done, err entry_limit)
      else extract_entry file (destination ++ relative) (limits.max_extracted_bytes - bytes)
          (λ copied. rest (entries + 1) (bytes + copied)) done

  unfoldable pub extract_entries :
      List (Result Str ZipFile) → ℕ → ℕ → Effects → Effects × Result AppError ℕ
  extract_entries [] entries bytes done = (done, ok entries)
  extract_entries (err e ∷ rest) entries bytes done =
      (done, err (archive_error archive_extract_failed e))
  extract_entries (ok file ∷ rest) entries bytes done =
      extract_named file (extract_entries rest) entries bytes done file.enclosed_name

  abbrev pub extract_opened : Result Str (List (Result Str ZipFile)) → Effects × Result AppError ℕ
  extract_opened (err e) = ([], err (archive_error archive_extract_failed e))
  extract_opened (ok entries) = extract_entries entries 0 0 []

  -- `open_archive` is `ZipArchive::new` with the entries in their order.
  unfoldable pub extract_zip_archive :
      (Str → Result Str (List (Result Str ZipFile))) → Str → Effects × Result AppError ℕ
  extract_zip_archive open_archive bytes =
      if ltb limits.max_archive_bytes (length bytes)
      then (
        [],
        err (
            limit_exceeded (
              codes "repository archive size "
              ++ decimal (length bytes)
              ++ codes " exceeded max_archive_bytes "
              ++ decimal limits.max_archive_bytes)),
      )
      else extract_opened (open_archive bytes)
