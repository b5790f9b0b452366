-- ===== src/Review/WorkItems/Lines.antt =====
-- The sizes of the items of a text or of a hunk: `split_hunk_into_review_work_items` of
-- src/review/ai.rs.
use git_lab_work_runner.Base.{
  ℕ, ◌≤◌, ◌≡◌, refl, inl, inr, false, ◌&&◌, List, [], ◌∷◌, ◌++◌, arith, ltb, ◌==◌, Bool-cases, Str,
  codes, byte_len, length, length-append, max, All, All-append, is_empty,
}
use git_lab_work_runner.Review.Diff.{DiffLine, DiffHunk}
use git_lab_work_runner.Review.WorkItems.Chunks.{IsChunk, text_chunks-IsChunk}
use git_lab_work_runner.Review.WorkItems.{
  GitLabChange, ReviewWorkItem, review_work_item_from_diff, non_reviewable_work_item, text_chunks,
  items_of_chunks, split_diff_text_into_review_work_items, HunkSplit, push_oversized_diff_line_item,
  chunk_text, too_large, flush_chunk, start_chunk, split_line, split_lines_of_hunk, initial_split,
  finish_split, split_hunk_into_review_work_items,
}

-- An item of a change: its payload is the length of its diff, which fits the limit (or four bytes),
-- and it is under the paths of the change.
pub record IsItemOf (change : GitLabChange) (limit : ℕ) (i : ReviewWorkItem) : Type 0 where
  pub measured : i.payload_diff_bytes ≡ byte_len i.change.diff
  pub bounded : i.payload_diff_bytes ≤ max limit 4
  pub old_path_kept : i.change.old_path ≡ change.old_path
  pub new_path_kept : i.change.new_path ≡ change.new_path

module _ (change : GitLabChange) (limit : ℕ) where
  pub from_diff-IsItemOf :
      (diff : Str) (n : ℕ)
      → byte_len diff ≤ max limit 4
      → IsItemOf change limit (review_work_item_from_diff change diff n)
  from_diff-IsItemOf diff n h = record {
    measured = refl;
    bounded = h;
    old_path_kept = refl;
    new_path_kept = refl;
  }

  non_reviewable-IsItemOf :
      (reason : Str) → IsItemOf change limit (non_reviewable_work_item change reason)
  unfolding byte_len
  non_reviewable-IsItemOf reason = record {
    measured = refl;
    bounded = omega arith;
    old_path_kept = refl;
    new_path_kept = refl;
  }

  items_of_chunks-IsItemOf :
      (chunks : List Str)
      → All (IsChunk limit) chunks
      → All (IsItemOf change limit) (items_of_chunks change chunks)
  items_of_chunks-IsItemOf [] h = tt
  items_of_chunks-IsItemOf (c ∷ chunks) h =
      (from_diff-IsItemOf c (byte_len c) h.0.1, items_of_chunks-IsItemOf chunks h.1)

  pub text_items-IsItemOf :
      (diff : Str)
      → All (IsItemOf change limit) (split_diff_text_into_review_work_items change diff limit)
  unfolding split_diff_text_into_review_work_items
  text_items-IsItemOf diff =
      items_of_chunks-IsItemOf (text_chunks (length diff) limit diff)
        (text_chunks-IsChunk (length diff) limit diff)

  -- The invariant of the loop over the lines of a hunk: the chunk that is open fits the limit.
  record SplitInv (s : HunkSplit) : Type 0 where
    fits : All (IsItemOf change limit) s.items
    open_fits :
        is_empty s.chunk_lines ≡ false
        → byte_len (chunk_text s.chunk_old_start s.chunk_new_start s.chunk_lines) ≤ limit

  push_oversized-SplitInv :
      (s : HunkSplit) (line : DiffLine)
      → All (IsItemOf change limit) s.items
      → s.chunk_lines ≡ []
      → SplitInv (push_oversized_diff_line_item change s line)
  unfolding push_oversized_diff_line_item
  push_oversized-SplitInv s line h e = record {
    fits =
        All-append (IsItemOf change limit) s.items _ h
          (non_reviewable-IsItemOf (codes "single_diff_line_too_large"), tt);
    open_fits = λ p. ground arith;
  }

  flush_chunk-fits :
      (s : HunkSplit)
      → SplitInv s
      → is_empty s.chunk_lines ≡ false
      → All (IsItemOf change limit) (flush_chunk change s).items
  unfolding flush_chunk
  flush_chunk-fits s i ne =
      All-append (IsItemOf change limit) s.items _ i.fits
        (from_diff-IsItemOf _ s.chunk_source_bytes (omega (arith, i.open_fits ne)), tt)

  start_chunk-SplitInv :
      (s : HunkSplit) (line : DiffLine)
      → All (IsItemOf change limit) s.items
      → s.chunk_lines ≡ []
      → SplitInv (start_chunk change limit s line)
  unfolding start_chunk
  start_chunk-SplitInv s line h e =
      elim (Bool-cases (too_large limit s.chunk_old_start s.chunk_new_start (line ∷ []))) [
        | inl y ↦ rw (y, start_chunk) (push_oversized-SplitInv s line h e)
        | inr n ↦ rw (n, start_chunk) (record { fits = h; open_fits = λ p. ground arith })
      ]

  flush_chunk-closed : (s : HunkSplit) → (flush_chunk change s).chunk_lines ≡ []
  unfolding flush_chunk
  flush_chunk-closed s = refl

  split_line-SplitInv :
      (s : HunkSplit) (line : DiffLine) → SplitInv s → SplitInv (split_line change limit s line)
  unfolding split_line
  split_line-SplitInv s line i =
      let candidate = s.chunk_lines ++ line ∷ [] in
      let overflows = too_large limit s.chunk_old_start s.chunk_new_start candidate in
      let count = length-append s.chunk_lines (line ∷ []) in
      elim (Bool-cases (length candidate == 1 && overflows)) [
        | inl alone ↦
            rw (alone, split_line)
              (push_oversized-SplitInv (record s { chunk_lines = []; chunk_source_bytes = 0 }) line
                i.fits refl)
        | inr n ↦ elim (Bool-cases (ltb 1 (length candidate) && overflows)) [
          | inl behind ↦
              rw (n, behind, split_line)
                (start_chunk-SplitInv (flush_chunk change s) line
                  (flush_chunk-fits s i (ground (arith, count))) (flush_chunk-closed s))
          | inr m ↦
              rw (n, m, split_line)
                (record { fits = i.fits; open_fits = λ p. ground (arith, count) })
        ]
      ]

  split_lines_of_hunk-SplitInv :
      (lines : List DiffLine) (s : HunkSplit)
      → SplitInv s
      → SplitInv (split_lines_of_hunk change limit s lines)
  unfolding split_lines_of_hunk
  split_lines_of_hunk-SplitInv [] s i = i
  split_lines_of_hunk-SplitInv (line ∷ rest) s i =
      split_lines_of_hunk-SplitInv rest (split_line change limit s line)
        (split_line-SplitInv s line i)

  finish_split-IsItemOf :
      (s : HunkSplit) → SplitInv s → All (IsItemOf change limit) (finish_split change s)
  unfolding finish_split
  finish_split-IsItemOf s i = elim (Bool-cases (is_empty s.chunk_lines)) [
    | inl none_left ↦ rw (none_left, finish_split) i.fits
    | inr some_left ↦ rw (some_left, finish_split) (flush_chunk-fits s i some_left)
  ]

  pub hunk_items-IsItemOf :
      (hunk : DiffHunk)
      → All (IsItemOf change limit) (split_hunk_into_review_work_items change hunk limit)
  unfolding split_hunk_into_review_work_items
  hunk_items-IsItemOf hunk = finish_split-IsItemOf _ (
      split_lines_of_hunk-SplitInv hunk.lines (initial_split hunk)
        (record { fits = tt; open_fits = λ p. cc }))
