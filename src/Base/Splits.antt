-- ===== src/Base/Splits.antt =====
-- How the splitting functions of Base/Text read a text piece by piece.
use git_lab_work_runner.Base.Tests.{◌==◌, if◌then◌else◌}
use git_lab_work_runner.Base.Lists.{All}
use git_lab_work_runner.Base.Text.{
  Str, split_words, split_parts, split_lines, strip_cr, before, starts_with, is_whitespace,
  is_empty,
}
use Prim.Native.Nat.{ℕ}
use mathlib.Core.Path.{◌≡◌, refl, ◌∙◌}
use mathlib.Core.Logic.{◌≢◌}
use mathlib.Core.Bool.{true, false}
use mathlib.Core.Option.{some}
use mathlib.Core.List.{List, [], ◌∷◌, ◌++◌, append_assoc, append-nil}
use native.Mathlib.Omega.{arith}

-- A text with no character `c` in it.
abbrev pub Without : ℕ → Str → Type 0
Without c = All (λ x. (x == c) ≡ false)

-- One part of a split text ends at the separator.
pub split_parts-part :
    (sep : ℕ) (part t s : Str)
    → Without sep t
    → split_parts sep part (t ++ sep ∷ s) ≡ (part ++ t) ∷ split_parts sep [] s
unfolding split_parts
split_parts-part sep part [] s h = ground (arith, append-nil part)
split_parts-part sep part (c ∷ t) s h =
    rw (h.0, split_parts) (split_parts-part sep (part ++ c ∷ []) t s h.1 ∙ simp append_assoc)

pub split_parts-last :
    (sep : ℕ) (part t : Str) → Without sep t → split_parts sep part t ≡ (part ++ t) ∷ []
unfolding split_parts
split_parts-last sep part [] h = ground (arith, append-nil part)
split_parts-last sep part (c ∷ t) h =
    rw (h.0, split_parts) (split_parts-last sep (part ++ c ∷ []) t h.1 ∙ simp append_assoc)

-- A line ends at its line feed.
pub split_lines-line :
    (line t s : Str)
    → Without b'\n' t
    → split_lines line (t ++ b'\n' ∷ s) ≡ strip_cr (line ++ t) ∷ split_lines [] s
unfolding split_lines
split_lines-line line [] s h = ground (arith, append-nil line)
split_lines-line line (c ∷ t) s h =
    rw (h.0, split_lines) (split_lines-line (line ++ c ∷ []) t s h.1 ∙ simp append_assoc)

-- Text with no white space in it.
abbrev pub IsWord : Str → Type 0
IsWord = All (λ x. is_whitespace x ≡ false)

flush :
    (word : Str) (rest : List Str)
    → word ≢ []
    → (if is_empty word then rest else word ∷ rest) ≡ word ∷ rest
flush [] rest ne = absurd (ne refl)
flush (c ∷ word) rest ne = refl

pub split_words-word :
    (word t s : Str) (c : ℕ)
    → IsWord t
    → word ++ t ≢ []
    → is_whitespace c ≡ true
    → split_words word (t ++ c ∷ s) ≡ (word ++ t) ∷ split_words [] s
unfolding split_words
split_words-word word [] s c h ne space =
    rw (space, split_words, append-nil word)
      (flush word (split_words [] s) (rw (append-nil word) at ne))
split_words-word word (d ∷ t) s c h ne space =
    rw (h.0, split_words)
      (split_words-word (word ++ d ∷ []) t s c h.1 (rw append_assoc ne) space ∙ simp append_assoc)

pub split_words-last :
    (word t : Str) → IsWord t → word ++ t ≢ [] → split_words word t ≡ (word ++ t) ∷ []
unfolding split_words
split_words-last word [] h ne = rw append-nil (flush word [] (rw (append-nil word) at ne))
split_words-last word (d ∷ t) h ne =
    rw (h.0, split_words)
      (split_words-last (word ++ d ∷ []) t h.1 (rw append_assoc ne) ∙ simp append_assoc)

-- A text whose first character does not begin the pattern is passed over.
pub before-skip :
    (p : Str) (c : ℕ) (s t : Str)
    → starts_with p (c ∷ s) ≡ false
    → before p s ≡ some t
    → before p (c ∷ s) ≡ some (c ∷ t)
unfolding before
before-skip p c s t h e = rw (h, before) (rw e)
