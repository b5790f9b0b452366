-- ===== src/Base/Decimal.antt =====
-- Decimal print of a number, and Rust's `str::parse::<u32>`.
use Prim.Native.Nat.{ℕ, zero, suc, ◌+◌, ◌-◌, ◌*◌, ◌/◌, ◌%◌, ◌^◌, ◌<◌}
use mathlib.Core.Path.{◌≡◌, refl, sym, ◌∙◌, ap}
use mathlib.Core.Logic.{inl, inr}
use mathlib.Core.Bool.{Bool, true, false, ◌&&◌}
use mathlib.Core.List.{[], ◌∷◌, ◌++◌, append_assoc, append-nil}
use mathlib.Core.Option.{Option, none, some}
use native.Mathlib.Omega.{arith}
use git_lab_work_runner.Base.Tests.{ltb, leb, ◌==◌, if◌then◌else◌, Bool-cases}
use git_lab_work_runner.Base.Lists.{All, All-append}
use git_lab_work_runner.Base.Text.{Str, codes}

abbrev pub u32_mod : ℕ
u32_mod = 2 ^ 32

-- `fuel` bounds the digits; `n < fuel` is enough.
pub digits : ℕ → ℕ → Str
digits zero n = []
digits (suc fuel) n = elim (ltb n 10) [
  | true ↦ (b'0' + n) ∷ []
  | false ↦ digits fuel (n / 10) ++ (b'0' + n % 10) ∷ []
]

-- What `{}` prints for an unsigned integer.
unfoldable pub decimal : ℕ → Str
unfolding digits
decimal n = digits (suc n) n

abbrev pub is_digit : ℕ → Bool
is_digit c = leb b'0' c && leb c b'9'

-- The checked multiplication and addition of `u32::from_str`.
pub scan : Str → ℕ → Option ℕ
scan [] n = some n
scan (c ∷ s) n =
    let m = n * 10 + (c - b'0') in if is_digit c && ltb m u32_mod then scan s m else none

-- One leading `+` is accepted before the digits.
unfoldable pub parse_u32 : Str → Option ℕ
unfolding scan
parse_u32 [] = none
parse_u32 (c ∷ []) = scan (c ∷ []) 0
parse_u32 (c ∷ d ∷ s) = if c == b'+' then scan (d ∷ s) 0 else scan (c ∷ d ∷ s) 0

abbrev pub IsDigits : Str → Type 0
IsDigits = All (λ c. is_digit c ≡ true)

digits-IsDigits : (fuel n : ℕ) → IsDigits (digits fuel n)
unfolding digits
digits-IsDigits zero n = tt
digits-IsDigits (suc fuel) n = elim (Bool-cases (ltb n 10)) [
  | inl y ↦ rw (y, digits) (ground arith, tt)
  | inr m ↦
      rw (m, digits)
        (All-append _ (digits fuel (n / 10)) _ (digits-IsDigits fuel (n / 10)) (ground arith, tt))
]

pub decimal-IsDigits : (n : ℕ) → IsDigits (decimal n)
unfolding decimal
decimal-IsDigits n = digits-IsDigits (suc n) n

pub decimal-cons : (n : ℕ) → (c : ℕ) × (s : Str) × (decimal n ≡ c ∷ s)
unfolding decimal
decimal-cons n = go (digits n (n / 10)) refl
  where
    go : (t : Str) → digits n (n / 10) ≡ t → (c : ℕ) × (s : Str) × (digits (suc n) n ≡ c ∷ s)
    go t e = elim (Bool-cases (ltb n 10)) [
      | inl y ↦ (b'0' + n, [], rw (y, digits))
      | inr m ↦
          elim t as (λ u. t ≡ u → (c : ℕ) × (s : Str) × (digits (suc n) n ≡ c ∷ s)) [
            | [] ↦ λ f. (b'0' + n % 10, [], rw (m, digits) (rw (e, f)))
            | c ∷ s ↦ λ f. (c, s ++ (b'0' + n % 10) ∷ [], rw (m, digits) (rw (e, f)))
          ]
            refl
    ]

scan-digits :
    (fuel n : ℕ) (rest : Str)
    → n < fuel
    → n < u32_mod
    → scan (digits fuel n ++ rest) 0 ≡ scan rest n
unfolding digits scan
scan-digits zero n rest h fits = absurd (omega arith)
scan-digits (suc fuel) n rest h fits = elim (Bool-cases (ltb n 10)) [
  | inl y ↦ rw (y, digits) (ground arith)
  | inr m ↦
      rw (m, digits)
        (rw append_assoc (
          scan-digits fuel (n / 10) ((b'0' + n % 10) ∷ rest) (ground arith) (ground arith)
          ∙ ground arith))
]

pub scan-decimal : (n : ℕ) (rest : Str) → n < u32_mod → scan (decimal n ++ rest) 0 ≡ scan rest n
unfolding decimal
scan-decimal n rest = scan-digits (suc n) n rest (omega arith)

-- A text that begins with a digit is read as it stands.
parse_u32-scan : (c : ℕ) (s : Str) → is_digit c ≡ true → parse_u32 (c ∷ s) ≡ scan (c ∷ s) 0
unfolding parse_u32
parse_u32-scan c [] h = refl
parse_u32-scan c (d ∷ s) h = ground arith

-- Reading a printed `u32` gives it back.
pub parse_u32-decimal : (n : ℕ) → n < u32_mod → parse_u32 (decimal n) ≡ some n
unfolding scan
parse_u32-decimal n fits =
    let (c, s, e) = decimal-cons n in
    let ds : IsDigits (c ∷ s) = rw e at (decimal-IsDigits n) in
    rw e (
      parse_u32-scan c s ds.0
      ∙ ap (λ t. scan t 0) (sym e)
      ∙ ap (λ t. scan t 0) (sym (append-nil (decimal n)))
      ∙ scan-decimal n [] fits)

abbrev pub FitsU32 : Option ℕ → Type 0
FitsU32 none = Unit
FitsU32 (some n) = n < u32_mod

scan-FitsU32 : (s : Str) (n : ℕ) → n < u32_mod → FitsU32 (scan s n)
unfolding scan
scan-FitsU32 [] n fits = fits
scan-FitsU32 (c ∷ s) n fits = ground (arith, scan-FitsU32 s (n * 10 + (c - b'0')))

-- What is read is a `u32`.
pub parse_u32-FitsU32 : (s : Str) → FitsU32 (parse_u32 s)
unfolding parse_u32
parse_u32-FitsU32 [] = tt
parse_u32-FitsU32 (c ∷ []) = scan-FitsU32 (c ∷ []) 0 (omega arith)
parse_u32-FitsU32 (c ∷ d ∷ s) =
    ground (arith, scan-FitsU32 (d ∷ s) 0 (omega arith), scan-FitsU32 (c ∷ d ∷ s) 0 (omega arith))

hunk_start : parse_u32 (codes "+10") ≡ some 10
unfolding parse_u32
hunk_start = refl

no_number :
    (parse_u32 [] ≡ none) × (parse_u32 (codes "+") ≡ none) × (parse_u32 (codes "4294967296") ≡ none)
unfolding parse_u32
no_number = (refl, refl, refl)

print_number : decimal 4294967295 ≡ codes "4294967295"
unfolding decimal
print_number = refl
