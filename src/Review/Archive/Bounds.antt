-- ===== src/Review/Archive/Bounds.antt =====
-- The limits of an extraction of src/review/archive.rs, and where it writes.
use git_lab_work_runner.Base.{ℕ, ◌+◌, ◌≤◌, ◌≡◌, ◌++◌, length, All, sum_by, Str, Result, ok, err}
use git_lab_work_runner.App.Error.{AppError}
use git_lab_work_runner.Review.Tools.Paths.{PathNames}
use git_lab_work_runner.Review.Tools.Paths.Names.{IsName}
use git_lab_work_runner.Review.Archive.{
  ArchiveLimits, Effect, create_dir_all, create_file, remove_file, write_all, set_permissions,
  Effects,
}

abbrev pub written : Effect → ℕ
written (write_all path chunk) = length chunk
written _ = 0

abbrev pub bytes_written : Effects → ℕ
bytes_written done = sum_by written done

abbrev pub path_of : Effect → PathNames
path_of (create_dir_all path) = path
path_of (create_file path) = path
path_of (remove_file path) = path
path_of (write_all path chunk) = path
path_of (set_permissions path mode) = path

-- The path leads from the directory down, by names alone (none of them `..`), or stays there.
abbrev pub LeadsDown : PathNames → PathNames → Type 0
LeadsDown destination path = (rest : PathNames) × (path ≡ destination ++ rest) × All IsName rest

-- The effect is at or below the directory.
abbrev pub IsBelow : PathNames → Effect → Type 0
IsBelow destination effect = LeadsDown destination (path_of effect)

module _ (file_system : Effects → Effect → Result Str (Unit {0})) (limits : ArchiveLimits)
    (destination : PathNames) where
  abbrev AreBelow : Effects → Type 0
  AreBelow done = All (IsBelow destination) done

  -- The bytes of a copy from `before`, where `copied` were copied by then.
  abbrev IsCopied : Effects → ℕ → ℕ → Effects × Result AppError ℕ → Type 0
  IsCopied before copied remaining (done, err e) =
      AreBelow done × (bytes_written done + copied ≤ bytes_written before + remaining)
  IsCopied before copied remaining (done, ok n) =
      AreBelow done × (bytes_written done + copied ≡ bytes_written before + n) × (n ≤ remaining)

  -- Where an extraction ends: below the destination and within its limits.
  abbrev pub IsWithin : Effects × Result AppError ℕ → Type 0
  IsWithin (done, err e) = AreBelow done × (bytes_written done ≤ limits.max_extracted_bytes)
  IsWithin (done, ok n) =
      AreBelow done
      × (bytes_written done ≤ limits.max_extracted_bytes)
      × (n ≤ limits.max_extracted_files)

  -- What is read behind an entry ends within the limits, given what the entry may have copied.
  abbrev EndsWithin : Effects → ℕ → (ℕ → Effects → Effects × Result AppError ℕ) → Type 0
  EndsWithin before remaining rest =
      (copied : ℕ) (done : Effects)
      → AreBelow done
      → bytes_written done ≡ bytes_written before + copied
      → copied ≤ remaining
      → IsWithin (rest copied done)

  -- What goes on from counts that are right and within the limits ends within them.
  abbrev GoesOn : (ℕ → ℕ → Effects → Effects × Result AppError ℕ) → Type 0
  GoesOn rest =
      (entries bytes : ℕ) (done : Effects)
      → AreBelow done
      → bytes_written done ≡ bytes
      → bytes ≤ limits.max_extracted_bytes
      → entries ≤ limits.max_extracted_files
      → IsWithin (rest entries bytes done)
