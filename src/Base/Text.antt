-- ===== src/Base/Text.antt =====
-- Rust's `&str` as the list of its code points; byte lengths are those of UTF-8.
use Prim.Native.Nat.{ℕ, ◌+◌, ◌≤◌}
use Prim.Native.Char.{code}
use Prim.Native.String.{String}
use mathlib.Core.Path.{◌≡◌}
use mathlib.Core.Logic.{◌↔◌}
use mathlib.Core.Bool.{Bool, true, false, ◌&&◌, ◌||◌}
use mathlib.Core.List.{List, [], ◌∷◌, ◌++◌, map, reverse}
use mathlib.Core.Option.{Option, none, some}
use native.Mathlib.Omega.{arith}
use git_lab_work_runner.Base.Tests.{ltb, leb, ◌==◌, if◌then◌else◌, Equality}

abbrev pub Str : Type 0
Str = List ℕ

-- A literal.
abbrev pub codes : String → Str
codes String.[] = []
codes (String.◌∷◌ c s) = code c ∷ codes s

abbrev pub str_eq : Str → Str → Bool
str_eq [] [] = true
str_eq (x ∷ xs) (y ∷ ys) = x == y && str_eq xs ys
str_eq _ _ = false

pub str_eq_iff : (a b : Str) → (str_eq a b ≡ true) ↔ (a ≡ b)
str_eq_iff (x ∷ a) (y ∷ b) = ground (arith, str_eq_iff a b)
str_eq_iff _ _ = ground arith

instance abbrev pub str_equality : Equality Str
str_equality = record { same = str_eq; same_iff = str_eq_iff }

-- `char::len_utf8` and `str::len`.
abbrev pub utf8_len : ℕ → ℕ
utf8_len c = if ltb c 0x80 then 1 else if ltb c 0x800 then 2 else if ltb c 0x10000 then 3 else 4

pub utf8_len_bounds : (c : ℕ) → (1 ≤ utf8_len c) × (utf8_len c ≤ 4)
utf8_len_bounds c = ground arith

unfoldable pub byte_len : Str → ℕ
byte_len [] = 0
byte_len (c ∷ s) = utf8_len c + byte_len s

pub byte_len-append : (s t : Str) → byte_len (s ++ t) ≡ byte_len s + byte_len t
unfolding byte_len
byte_len-append [] t = omega arith
byte_len-append (c ∷ s) t = omega (arith, byte_len-append s t)

-- `str::starts_with`, `str::strip_prefix` and `str::ends_with` for one character.
abbrev pub starts_with : Str → Str → Bool
starts_with [] s = true
starts_with (y ∷ ys) [] = false
starts_with (y ∷ ys) (x ∷ xs) = y == x && starts_with ys xs

abbrev pub strip_prefix : ℕ → Str → Option Str
strip_prefix c [] = none
strip_prefix c (x ∷ xs) = if x == c then some xs else none

abbrev pub ends_with : ℕ → Str → Bool
ends_with c [] = false
ends_with c (x ∷ []) = x == c
ends_with c (x ∷ y ∷ xs) = ends_with c (y ∷ xs)

-- `str::contains` for a text.
abbrev pub contains : Str → Str → Bool
contains p [] = str_eq p []
contains p (x ∷ xs) = starts_with p (x ∷ xs) || contains p xs

-- `char::is_whitespace`: the White_Space property.
unfoldable pub is_whitespace : ℕ → Bool
is_whitespace c =
    (leb 9 c && leb c 13)
    || c == 32
    || c == 0x85
    || c == 0xa0
    || c == 0x1680
    || (leb 0x2000 c && leb c 0x200a)
    || c == 0x2028
    || c == 0x2029
    || c == 0x202f
    || c == 0x205f
    || c == 0x3000

abbrev pub trim_start : Str → Str
trim_start [] = []
trim_start (c ∷ s) = elim (is_whitespace c) [ true ↦ trim_start s | false ↦ c ∷ s ]

-- `str::trim`.
unfoldable pub trim : Str → Str
unfolding is_whitespace
trim s = reverse (trim_start (reverse (trim_start s)))

-- `str::is_empty`.
abbrev pub is_empty {ℓ} : {A : Type ℓ} → List A → Bool
is_empty [] = true
is_empty (c ∷ s) = false

abbrev pub to_ascii_lower : ℕ → ℕ
to_ascii_lower c = if leb b'A' c && leb c b'Z' then c + 32 else c

-- `str::to_ascii_lowercase` and `str::eq_ignore_ascii_case`.
abbrev pub to_ascii_lowercase : Str → Str
to_ascii_lowercase = map to_ascii_lower

abbrev pub eq_ignore_ascii_case : Str → Str → Bool
eq_ignore_ascii_case a b = str_eq (to_ascii_lowercase a) (to_ascii_lowercase b)

-- `char::is_ascii_alphanumeric`.
abbrev pub is_ascii_alphanumeric : ℕ → Bool
is_ascii_alphanumeric c =
    (leb b'0' c && leb c b'9') || (leb b'a' c && leb c b'z') || (leb b'A' c && leb c b'Z')

-- `str::split_whitespace`; `word` is what is read of the current word.
unfoldable pub split_words : Str → Str → List Str
split_words word [] = if is_empty word then [] else word ∷ []
split_words word (c ∷ s) = elim (is_whitespace c) [
  | true ↦ (if is_empty word then split_words [] s else word ∷ split_words [] s)
  | false ↦ split_words (word ++ c ∷ []) s
]

abbrev pub split_whitespace : Str → List Str
split_whitespace = split_words []

-- `str::split` at a character; `part` is what is read of the current part.
unfoldable pub split_parts : ℕ → Str → Str → List Str
split_parts sep part [] = part ∷ []
split_parts sep part (c ∷ s) = elim (c == sep) [
  | true ↦ part ∷ split_parts sep [] s
  | false ↦ split_parts sep (part ++ c ∷ []) s
]

abbrev pub split_at : ℕ → Str → List Str
split_at sep = split_parts sep []

abbrev pub strip_cr : Str → Str
strip_cr [] = []
strip_cr (c ∷ []) = if c == b'\r' then [] else c ∷ []
strip_cr (c ∷ d ∷ s) = c ∷ strip_cr (d ∷ s)

-- `str::lines`: a line ends at a line feed, with one carriage return before it taken off.
unfoldable pub split_lines : Str → Str → List Str
split_lines line [] = if is_empty line then [] else line ∷ []
split_lines line (c ∷ s) = elim (c == b'\n') [
  | true ↦ strip_cr line ∷ split_lines [] s
  | false ↦ split_lines (line ++ c ∷ []) s
]

abbrev pub lines : Str → List Str
lines = split_lines []

-- The text before the first occurrence of `p`: `&s[..s.find(p)?]`.
unfoldable pub before : Str → Str → Option Str
before p [] = if str_eq p [] then some [] else none
before p (c ∷ s) = elim (starts_with p (c ∷ s)) [
  | true ↦ some []
  | false ↦ elim (before p s) [ none ↦ none | some t ↦ some (c ∷ t) ]
]
