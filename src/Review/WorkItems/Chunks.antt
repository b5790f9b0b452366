-- ===== src/Review/WorkItems/Chunks.antt =====
-- The byte chunks of a text: `split_diff_text_into_review_work_items` of src/review/ai.rs.
use git_lab_work_runner.Base.{
  ℕ, zero, suc, ◌-◌, ◌≤◌, ◌≡◌, ◌≢◌, refl, ap, ◌∙◌, ◌⊎◌, inl, inr, true, List, [], ◌∷◌, ◌++◌, arith,
  leb, Bool-cases, Str, byte_len, utf8_len, utf8_len_bounds, length, length-append, max, min, All,
  concat, map,
}
use git_lab_work_runner.Review.WorkItems.{
  GitLabChange, ReviewWorkItem, is_char_boundary, walk_back, cut, chunk_end, text_chunks,
  items_of_chunks, split_diff_text_into_review_work_items,
}

cut-append : (e : ℕ) (s : Str) → (cut e s).0 ++ (cut e s).1 ≡ s
unfolding cut
cut-append e [] = refl
cut-append e (c ∷ s) = elim (Bool-cases (leb (utf8_len c) e)) [
  | inl y ↦ rw (y, cut) (ap (◌∷◌ c) (cut-append (e - utf8_len c) s))
  | inr n ↦ rw (n, cut)
]

pub byte_len-cut-le : (e : ℕ) (s : Str) → byte_len (cut e s).0 ≤ e
unfolding cut byte_len
byte_len-cut-le e [] = omega arith
byte_len-cut-le e (c ∷ s) = elim (Bool-cases (leb (utf8_len c) e)) [
  | inl y ↦ rw (y, cut) (ground (arith, byte_len-cut-le (e - utf8_len c) s))
  | inr n ↦ rw (n, cut) (omega arith)
]

pub walk_back-le : (s : Str) (e : ℕ) → walk_back s e ≤ e
unfolding walk_back
walk_back-le s zero = omega arith
walk_back-le s (suc e) = ground (arith, walk_back-le s e)

walk_back-is_char_boundary :
    (s : Str) (e : ℕ) → (walk_back s e ≡ 0) ⊎ (is_char_boundary s (walk_back s e) ≡ true)
unfolding walk_back
walk_back-is_char_boundary s zero = inl refl
walk_back-is_char_boundary s (suc e) = elim (Bool-cases (is_char_boundary s (suc e))) [
  | inl y ↦ rw (y, walk_back) (inr y)
  | inr n ↦ rw (n, walk_back) (walk_back-is_char_boundary s e)
]

-- The next chunk takes its first character, and stays in the limit or is that character.
chunk_end_bounds :
    (limit c : ℕ) (s : Str)
    → (utf8_len c ≤ chunk_end limit (c ∷ s)) × (chunk_end limit (c ∷ s) ≤ max limit (utf8_len c))
unfolding chunk_end is_char_boundary
chunk_end_bounds limit c s = ground (
  arith,
  walk_back-le (c ∷ s) (min limit (byte_len (c ∷ s))),
  walk_back-is_char_boundary (c ∷ s) (min limit (byte_len (c ∷ s))),
)

cut-first : (e c : ℕ) (s : Str) → utf8_len c ≤ e → (t : Str) × ((cut e (c ∷ s)).0 ≡ c ∷ t)
unfolding cut
cut-first e c s h = ((cut (e - utf8_len c) s).0, rw (y, cut))
  where
    y : leb (utf8_len c) e ≡ true
    y = ground arith

-- With its length for fuel the loop returns the whole text: the chunks join to it.
pub concat-text_chunks :
    (fuel limit : ℕ) (s : Str) → length s ≤ fuel → concat (text_chunks fuel limit s) ≡ s
unfolding text_chunks
concat-text_chunks zero limit [] h = refl
concat-text_chunks zero limit (c ∷ s) h = absurd (omega arith)
concat-text_chunks (suc fuel) limit [] h = refl
concat-text_chunks (suc fuel) limit (c ∷ s) h =
    let e = chunk_end limit (c ∷ s) in
    let (t, first) = cut-first e c s (chunk_end_bounds limit c s).0 in
    let whole = cut-append e (c ∷ s) in
    ap (λ r. (cut e (c ∷ s)).0 ++ r)
      (concat-text_chunks fuel limit (cut e (c ∷ s)).1 (
        omega (
          arith,
          ap length whole,
          length-append (cut e (c ∷ s)).0 (cut e (c ∷ s)).1,
          ap length first,
          h,
        )))
    ∙ whole

-- A chunk is not empty, and has at most `limit` bytes, or four where the limit is less than a
-- character.
abbrev pub IsChunk : ℕ → Str → Type 0
IsChunk limit s = (s ≢ []) × (byte_len s ≤ max limit 4)

pub text_chunks-IsChunk :
    (fuel limit : ℕ) (s : Str) → All (IsChunk limit) (text_chunks fuel limit s)
unfolding text_chunks
text_chunks-IsChunk zero limit s = tt
text_chunks-IsChunk (suc fuel) limit [] = tt
text_chunks-IsChunk (suc fuel) limit (c ∷ s) =
    let e = chunk_end limit (c ∷ s) in
    let (low, high) = chunk_end_bounds limit c s in
    let (t, first) = cut-first e c s low in
    (
      ((λ empty. cc), omega (arith, byte_len-cut-le e (c ∷ s), high, utf8_len_bounds c)),
      text_chunks-IsChunk fuel limit (cut e (c ∷ s)).1,
    )

items_of_chunks-whole :
    (change : GitLabChange) (limit : ℕ) (chunks : List Str)
    → All (IsChunk limit) chunks
    → (concat (map (λ (i : ReviewWorkItem). i.change.diff) (items_of_chunks change chunks))
        ≡ concat chunks)
      × All
          (λ (i : ReviewWorkItem).
            IsChunk limit i.change.diff × (i.chunk_diff_bytes ≡ byte_len i.change.diff))
          (items_of_chunks change chunks)
items_of_chunks-whole change limit [] h = (refl, tt)
items_of_chunks-whole change limit (chunk ∷ rest) h =
    let (same, later) = items_of_chunks-whole change limit rest h.1 in
    (ap (λ xs. chunk ++ xs) same, ((h.0, refl), later))

-- The items of a text cut by bytes are the whole text, in order; each holds a character at least, has
-- at most `limit` bytes (or four, where the limit is less than a character), and counts its bytes.
pub split_diff_text-whole :
    (change : GitLabChange) (diff : Str) (limit : ℕ)
    → let items = split_diff_text_into_review_work_items change diff limit in
      (concat (map (λ (i : ReviewWorkItem). i.change.diff) items) ≡ diff)
      × All
          (λ (i : ReviewWorkItem).
            IsChunk limit i.change.diff × (i.chunk_diff_bytes ≡ byte_len i.change.diff))
          items
unfolding split_diff_text_into_review_work_items
split_diff_text-whole change diff limit =
    let chunks = text_chunks (length diff) limit diff in
    let (same, sized) =
      items_of_chunks-whole change limit chunks (text_chunks-IsChunk (length diff) limit diff) in
    (same ∙ concat-text_chunks (length diff) limit diff (omega arith), sized)
