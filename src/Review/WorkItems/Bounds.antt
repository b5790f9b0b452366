-- ===== src/Review/WorkItems/Bounds.antt =====
-- The sizes of the items of a change: `split_change_into_review_work_items` of src/review/ai.rs.
use git_lab_work_runner.Base.{
  ℕ, ◌+◌, ◌≤◌, ◌≡◌, refl, ap, ◌∙◌, inl, inr, List, [], ◌∷◌, ◌++◌, arith, leb, ltb, Bool-cases, Str,
  byte_len, byte_len-append, max, All, All-append, All-map, is_empty, Result, ok, err,
}
use git_lab_work_runner.Review.Diff.{DiffHunk, DiffFile, Fault, failed, panicked}
use git_lab_work_runner.Review.Format.{format_diff_hunk}
use git_lab_work_runner.Review.WorkItems.{
  GitLabChange, ReviewWorkItem, split_change_by_byte_chunks, ChangeSplit, flush_diff, split_hunk,
  split_hunks, split_parsed, split_by_parse, split_change_into_review_work_items,
}
use git_lab_work_runner.Review.WorkItems.Lines.{
  IsItemOf, from_diff-IsItemOf, text_items-IsItemOf, hunk_items-IsItemOf,
}

module _ (change : GitLabChange) (limit : ℕ) where
  -- The invariant of the loop over the hunks: the diff that is open is measured, and fits.
  record HunksInv (s : ChangeSplit) : Type 0 where
    fits : All (IsItemOf change limit) s.items
    measured : s.current_diff_bytes ≡ byte_len s.current_diff
    open_fits : s.current_diff_bytes ≤ limit

  flush_diff-HunksInv : (s : ChangeSplit) → HunksInv s → HunksInv (flush_diff change s)
  unfolding flush_diff byte_len
  flush_diff-HunksInv s i = elim (Bool-cases (is_empty s.current_diff)) [
    | inl y ↦ rw (y, flush_diff) i
    | inr n ↦
        rw (n, flush_diff)
          (record {
            fits = All-append (IsItemOf change limit) s.items _ i.fits (
              from_diff-IsItemOf change limit s.current_diff s.current_diff_bytes
                  (omega (arith, i.measured, i.open_fits)),
              tt,
            );
            measured = refl;
            open_fits = omega arith;
          })
  ]

  flush_diff-closed : (s : ChangeSplit) → HunksInv s → (flush_diff change s).current_diff_bytes ≡ 0
  unfolding flush_diff byte_len
  flush_diff-closed s i = go s.current_diff refl
    where
      go : (d : Str) → s.current_diff ≡ d → (flush_diff change s).current_diff_bytes ≡ 0
      go [] e = rw (e, flush_diff) (i.measured ∙ ap byte_len e)
      go (c ∷ d) e = rw (e, flush_diff)

  join-HunksInv :
      (s : ChangeSplit) (d : Str)
      → HunksInv s
      → s.current_diff_bytes + byte_len d ≤ limit
      → HunksInv (record s {
        current_diff = s.current_diff ++ d;
        current_diff_bytes = s.current_diff_bytes + byte_len d;
      })
  join-HunksInv s d i h = record {
    fits = i.fits;
    measured = omega (arith, i.measured, byte_len-append s.current_diff d);
    open_fits = h;
  }

  split_hunk-HunksInv :
      (s : ChangeSplit) (hunk : DiffHunk) → HunksInv s → HunksInv (split_hunk change limit s hunk)
  unfolding split_hunk
  split_hunk-HunksInv s hunk i =
      let d = format_diff_hunk hunk in
      let flushed = flush_diff change s in
      let f = flush_diff-HunksInv s i in
      elim (Bool-cases (ltb limit (byte_len d))) [
        | inl big ↦
            rw (big, split_hunk)
              (record {
                fits =
                    All-append (IsItemOf change limit) flushed.items _ f.fits
                      (hunk_items-IsItemOf change limit hunk);
                measured = f.measured;
                open_fits = f.open_fits;
              })
        | inr small ↦ elim (Bool-cases (ltb limit (s.current_diff_bytes + byte_len d))) [
          | inl full ↦
              rw (small, full, split_hunk)
                (join-HunksInv flushed d f (ground (arith, flush_diff-closed s i)))
          | inr room ↦ rw (small, room, split_hunk) (join-HunksInv s d i (ground arith))
        ]
      ]

  split_hunks-HunksInv :
      (hunks : List DiffHunk) (s : ChangeSplit)
      → HunksInv s
      → HunksInv (split_hunks change limit s hunks)
  unfolding split_hunks
  split_hunks-HunksInv [] s i = i
  split_hunks-HunksInv (hunk ∷ rest) s i =
      split_hunks-HunksInv rest (split_hunk change limit s hunk) (split_hunk-HunksInv s hunk i)

widen :
    (change : GitLabChange) (limit : ℕ) (i : ReviewWorkItem)
    → IsItemOf change (max limit 1) i
    → IsItemOf change limit i
widen change limit i h = record {
  measured = h.measured;
  bounded = omega (arith, h.bounded);
  old_path_kept = h.old_path_kept;
  new_path_kept = h.new_path_kept;
}

byte_chunks-IsItemOf :
    (change : GitLabChange) (limit : ℕ)
    → All (IsItemOf change limit) (split_change_by_byte_chunks change limit)
byte_chunks-IsItemOf change limit =
    All-map _ (widen change limit) (text_items-IsItemOf change (max limit 1) change.diff)

split_parsed-IsItemOf :
    (change : GitLabChange) (limit : ℕ) (hunks : List DiffHunk)
    → All (IsItemOf change limit) (split_parsed change limit hunks)
unfolding split_parsed byte_len
split_parsed-IsItemOf change limit [] = byte_chunks-IsItemOf change limit
split_parsed-IsItemOf change limit (hunk ∷ rest) =
    let start : ChangeSplit = record { items = []; current_diff = []; current_diff_bytes = 0 } in
    let i : HunksInv change (max limit 1) start = record {
      fits = tt;
      measured = refl;
      open_fits = omega arith;
    } in
    let split = split_hunks-HunksInv change (max limit 1) (hunk ∷ rest) start i in
    All-map _ (widen change limit) (flush_diff-HunksInv change (max limit 1) _ split).fits

abbrev OkItems : GitLabChange → ℕ → Result Fault (List ReviewWorkItem) → Type 0
OkItems change limit (ok items) = All (IsItemOf change limit) items
OkItems change limit (err e) = Unit

split_by_parse-OkItems :
    (change : GitLabChange) (limit : ℕ) (m : Result Fault DiffFile)
    → OkItems change limit (split_by_parse change limit m)
split_by_parse-OkItems change limit (ok f) = split_parsed-IsItemOf change limit f.hunks
split_by_parse-OkItems change limit (err (failed e)) = byte_chunks-IsItemOf change limit
split_by_parse-OkItems change limit (err panicked) = tt

split_change-OkItems :
    (change : GitLabChange) (limit : ℕ)
    → OkItems change limit (split_change_into_review_work_items change limit)
unfolding split_change_into_review_work_items
split_change-OkItems change limit = elim (Bool-cases (leb (byte_len change.diff) limit)) [
  | inl small ↦
      rw (small, split_change_into_review_work_items)
        (
          record {
            measured = refl;
            bounded = ground arith;
            old_path_kept = refl;
            new_path_kept = refl;
          },
          tt,
        )
  | inr large ↦
      rw (large, split_change_into_review_work_items) (split_by_parse-OkItems change limit _)
]

-- However a change is cut (kept whole, by hunks, by lines, or by bytes), each of its items has at most
-- `limit` bytes of diff (or four, where the limit is less than a character), counts them rightly, and
-- is under the paths of the change.
pub split_change-IsItemOf :
    (change : GitLabChange) (limit : ℕ) {items : List ReviewWorkItem}
    → split_change_into_review_work_items change limit ≡ ok items
    → All (IsItemOf change limit) items
split_change-IsItemOf change limit {items} h = rw h at (split_change-OkItems change limit)
