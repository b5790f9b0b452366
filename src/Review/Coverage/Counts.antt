-- ===== src/Review/Coverage/Counts.antt =====
-- The counts of `summarize_planned_work_items` in src/review/ai.rs, by the bytes under each path.
use git_lab_work_runner.Base.{
  ℕ, ◌+◌, ◌≤◌, ◌≡◌, refl, ap, Bool, ◌&&◌, List, [], ◌∷◌, arith, ltb, leb, ◌==◌, if◌then◌else◌,
  Bool-cases, inl, inr, Str, str_eq, str_equality, str_eq_iff, same-dec, subst, byte_len, min,
  length, length-append, sum_by, Map, get, get-insert, insert,
}
use git_lab_work_runner.Review.WorkItems.{GitLabChange, ReviewWorkItem}
use git_lab_work_runner.Review.Coverage.{
  CoverageSummary, or_zero, reviewed_by_path, reason_by_path, count_change, count_changes,
  empty_summary, summarize_planned_work_items,
}

-- The diff bytes of the items under a path.
abbrev pub path_bytes : Str → List ReviewWorkItem → ℕ
path_bytes path =
    sum_by (λ item. if str_eq item.change.new_path path then item.chunk_diff_bytes else 0)

abbrev pub diff_bytes : List GitLabChange → ℕ
diff_bytes = sum_by (λ change. byte_len change.diff)

insert_add :
    (here path : Str) (b : ℕ) (m : Map Str ℕ)
    → or_zero (get path (insert here (or_zero (get here m) + b) m))
      ≡ or_zero (get path m) + (if str_eq here path then b else 0)
insert_add here path b m = elim (same-dec here path) [
  | inl e ↦
      subst
        (λ p.
          or_zero (get p (insert here (or_zero (get here m) + b) m))
          ≡ or_zero (get p m) + (if str_eq here p then b else 0))
        e (ground (arith, get-insert here here (or_zero (get here m) + b) m, str_eq_iff here here))
  | inr ne ↦ ground (arith, get-insert here path (or_zero (get here m) + b) m, str_eq_iff here path)
]

get-reviewed_by_path :
    (path : Str) (m : Map Str ℕ) (items : List ReviewWorkItem)
    → or_zero (get path (reviewed_by_path m items)) ≡ or_zero (get path m) + path_bytes path items
unfolding reviewed_by_path
get-reviewed_by_path path m [] = omega arith
get-reviewed_by_path path m (item ∷ rest) =
    let here = item.change.new_path in
    let b = item.chunk_diff_bytes in
    omega (
      arith,
      get-reviewed_by_path path (insert here (or_zero (get here m) + b) m) rest,
      insert_add here path b m,
    )

-- Whether `n` bytes of items cover a diff that is not empty.
abbrev pub covers : ℕ → GitLabChange → Bool
covers n change = ltb 0 (byte_len change.diff) && leb (byte_len change.diff) n

-- What one change adds to a summary, from the bytes under its path.
record Adds (n : ℕ) (change : GitLabChange) (s t : CoverageSummary) : Type 0 where
  full : t.fully_reviewed_files ≡ s.fully_reviewed_files + (if covers n change then 1 else 0)
  files :
      t.fully_reviewed_files + t.partially_reviewed_files + t.unreviewed_files
      ≡ s.fully_reviewed_files + s.partially_reviewed_files + s.unreviewed_files + 1
  listed :
      length t.incomplete_files + s.partially_reviewed_files + s.unreviewed_files
      ≡ length s.incomplete_files + t.partially_reviewed_files + t.unreviewed_files
  bytes : t.reviewed_diff_bytes ≡ s.reviewed_diff_bytes + min n (byte_len change.diff)

count_change-Adds :
    (bytes : Map Str ℕ) (reasons : Map Str Str) (s : CoverageSummary) (change : GitLabChange)
    → Adds (or_zero (get change.new_path bytes)) change s (count_change bytes reasons s change)
unfolding count_change
count_change-Adds bytes reasons s change =
    let n = or_zero (get change.new_path bytes) in
    elim (Bool-cases (min n (byte_len change.diff) == 0)) [
      | inl y ↦
          rw (y, count_change)
            (record {
              full = ground arith;
              files = omega arith;
              listed = omega (arith, length-append {0} s.incomplete_files);
              bytes = refl;
            })
      | inr m ↦ elim (Bool-cases (ltb (min n (byte_len change.diff)) (byte_len change.diff))) [
        | inl y ↦
            rw (m, y, count_change)
              (record {
                full = ground arith;
                files = omega arith;
                listed = omega (arith, length-append {0} s.incomplete_files);
                bytes = refl;
              })
        | inr k ↦
            rw (m, k, count_change)
              (record {
                full = ground arith;
                files = omega arith;
                listed = omega arith;
                bytes = refl;
              })
      ]
    ]

-- What the loop over the changes adds.
record AddsAll (n : GitLabChange → ℕ) (changes : List GitLabChange) (s t : CoverageSummary)
    : Type 0 where
  full :
      t.fully_reviewed_files
      ≡ s.fully_reviewed_files + sum_by (λ c. if covers (n c) c then 1 else 0) changes
  files :
      t.fully_reviewed_files + t.partially_reviewed_files + t.unreviewed_files
      ≡ s.fully_reviewed_files + s.partially_reviewed_files + s.unreviewed_files + length changes
  listed :
      length t.incomplete_files + s.partially_reviewed_files + s.unreviewed_files
      ≡ length s.incomplete_files + t.partially_reviewed_files + t.unreviewed_files
  bytes :
      t.reviewed_diff_bytes
      ≡ s.reviewed_diff_bytes + sum_by (λ c. min (n c) (byte_len c.diff)) changes

count_changes-AddsAll :
    (bytes : Map Str ℕ) (reasons : Map Str Str) (changes : List GitLabChange) (s : CoverageSummary)
    → AddsAll
        (λ c. or_zero (get c.new_path bytes))
        changes
        s
        (count_changes bytes reasons s changes)
unfolding count_changes
count_changes-AddsAll bytes reasons [] s = record {
  full = omega arith;
  files = omega arith;
  listed = omega arith;
  bytes = omega arith;
}
count_changes-AddsAll bytes reasons (change ∷ rest) s =
    let first = count_change-Adds bytes reasons s change in
    let later = count_changes-AddsAll bytes reasons rest (count_change bytes reasons s change) in
    record {
      full = omega (arith, first.full, later.full);
      files = omega (arith, first.files, later.files);
      listed = omega (arith, first.listed, later.listed);
      bytes = omega (arith, first.bytes, later.bytes);
    }

sum_by-eq :
    (f g : GitLabChange → ℕ) (changes : List GitLabChange)
    → ((c : GitLabChange) → f c ≡ g c)
    → sum_by f changes ≡ sum_by g changes
sum_by-eq f g [] h = refl
sum_by-eq f g (c ∷ rest) h = omega (arith, h c, sum_by-eq f g rest h)

sum_by-le :
    (f g : GitLabChange → ℕ) (changes : List GitLabChange)
    → ((c : GitLabChange) → f c ≤ g c)
    → sum_by f changes ≤ sum_by g changes
sum_by-le f g [] h = omega arith
sum_by-le f g (c ∷ rest) h = omega (arith, h c, sum_by-le f g rest h)

-- A summary counts every changed file once, as fully reviewed (its diff is not empty, and the items
-- under its path have at least its bytes), partially reviewed or unreviewed; it lists exactly as many
-- files as are not fully reviewed; and its reviewed bytes are the items' bytes under each path, cut to
-- the diff of each change, so at most all bytes of the diffs.
pub summarize_counts :
    (changes : List GitLabChange) (items : List ReviewWorkItem)
    → let s = summarize_planned_work_items changes items in
      (s.fully_reviewed_files + s.partially_reviewed_files + s.unreviewed_files ≡ length changes)
      × (s.fully_reviewed_files
          ≡ sum_by (λ c. if covers (path_bytes c.new_path items) c then 1 else 0) changes)
      × (length s.incomplete_files ≡ s.partially_reviewed_files + s.unreviewed_files)
      × (s.reviewed_diff_bytes
          ≡ sum_by (λ c. min (path_bytes c.new_path items) (byte_len c.diff)) changes)
      × (s.reviewed_diff_bytes ≤ diff_bytes changes)
unfolding summarize_planned_work_items
summarize_counts changes items =
    let bytes = reviewed_by_path [] items in
    let a = count_changes-AddsAll bytes (reason_by_path [] items) changes empty_summary in
    let n = λ (c : GitLabChange). or_zero (get c.new_path bytes) in
    let same : (c : GitLabChange) → n c ≡ path_bytes c.new_path items =
      λ c. omega (arith, get-reviewed_by_path c.new_path [] items) in
    let exact =
      sum_by-eq (λ c. min (n c) (byte_len c.diff))
        (λ c. min (path_bytes c.new_path items) (byte_len c.diff)) changes
        (λ c. ap (λ k. min k (byte_len c.diff)) (same c)) in
    let full_exact =
      sum_by-eq (λ c. if covers (n c) c then 1 else 0)
        (λ c. if covers (path_bytes c.new_path items) c then 1 else 0) changes
        (λ c. ap (λ k. if covers k c then 1 else 0) (same c)) in
    (
      omega (arith, a.files),
      omega (arith, a.full, full_exact),
      omega (arith, a.listed),
      omega (arith, a.bytes, exact),
      omega (
        arith,
        a.bytes,
        sum_by-le (λ c. min (n c) (byte_len c.diff)) (λ c. byte_len c.diff) changes
            (λ c. omega arith),
      ),
    )
