-- ===== src/Review/Comments/Keys.antt =====
-- The order of the keys of the map in src/review/comments.rs.
use git_lab_work_runner.Base.{
  ℕ, ◌≡◌, ◌↔◌, ==_iff, refl, true, false, ◌&&◌, Option, none, some, List, [], ◌∷◌, arith, Str,
  str_eq,
}
use git_lab_work_runner.Review.Findings.{line_le, line_eq}
use git_lab_work_runner.Review.Comments.{Group, key_lt}

-- Keys that grow from group to group, so that no two groups share one.
abbrev pub AreSorted : List Group → Type 0
AreSorted [] = Unit
AreSorted (g ∷ []) = Unit
AreSorted (g ∷ h ∷ rest) =
    (key_lt g.path g.new_line h.path h.new_line ≡ true) × AreSorted (h ∷ rest)

pub line_eq_iff : (a b : Option ℕ) → (line_eq a b ≡ true) ↔ (a ≡ b)
line_eq_iff none none = ground arith
line_eq_iff none (some n) = ground arith
line_eq_iff (some m) none = ground arith
line_eq_iff (some m) (some n) = ground (arith, ==_iff m n)

pub line_total :
    (a b : Option ℕ) → line_eq a b ≡ false → line_le b a false ≡ false → line_le a b false ≡ true
line_total none none h k = ground (arith, h)
line_total none (some n) h k = refl
line_total (some m) none h k = ground (arith, k)
line_total (some m) (some n) h k = ground (arith, h, k)

pub key_total :
    (p q : Str) (a b : Option ℕ)
    → (str_eq p q && line_eq a b) ≡ false
    → key_lt q b p a ≡ false
    → key_lt p a q b ≡ true
key_total [] [] a b h k = line_total a b h k
key_total [] (y ∷ q) a b h k = refl
key_total (x ∷ p) [] a b h k = absurd (ground (arith, k))
key_total (x ∷ p) (y ∷ q) a b h k = ground (arith, h, k, key_total p q a b)

pub line_trans :
    (a b c : Option ℕ)
    → line_le a b false ≡ true
    → line_le b c false ≡ true
    → line_le a c false ≡ true
line_trans none none c h k = k
line_trans none (some n) none h k = absurd (ground (arith, k))
line_trans none (some n) (some o) h k = refl
line_trans (some m) none c h k = absurd (ground (arith, h))
line_trans (some m) (some n) none h k = absurd (ground (arith, k))
line_trans (some m) (some n) (some o) h k = ground (arith, h, k)

pub key_trans :
    (p q r : Str) (a b c : Option ℕ)
    → key_lt p a q b ≡ true
    → key_lt q b r c ≡ true
    → key_lt p a r c ≡ true
key_trans [] [] [] a b c h k = line_trans a b c h k
key_trans [] [] (z ∷ r) a b c h k = refl
key_trans [] (y ∷ q) [] a b c h k = absurd (ground (arith, k))
key_trans [] (y ∷ q) (z ∷ r) a b c h k = refl
key_trans (x ∷ p) [] r a b c h k = absurd (ground (arith, h))
key_trans (x ∷ p) (y ∷ q) [] a b c h k = absurd (ground (arith, k))
key_trans (x ∷ p) (y ∷ q) (z ∷ r) a b c h k = ground (arith, h, k, key_trans p q r a b c)

pub line_irreflexive : (a : Option ℕ) → line_le a a false ≡ false
line_irreflexive none = refl
line_irreflexive (some n) = ground arith

pub key_irreflexive : (p : Str) (a : Option ℕ) → key_lt p a p a ≡ false
key_irreflexive [] a = line_irreflexive a
key_irreflexive (x ∷ p) a = ground (arith, key_irreflexive p a)
