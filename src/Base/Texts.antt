-- ===== src/Base/Texts.antt =====
-- Texts: concatenation, emptiness, trimming and decimal numbers, as Rust's `str` and `format!`.
use native.Mathlib.Omega.{arith}
use mathlib.Core.Logic.{inl, inr}
use Prim.Native.Nat.{ℕ, zero, suc, ◌+◌, ◌/◌, ◌%◌, ◌≤◌}
use Prim.Native.Char.{code}
use Prim.Native.String
use Prim.Native.String.{String}
use mathlib.Core.Bool.{Bool, true, false, ◌&&◌, ◌||◌}
use mathlib.Core.Path.{◌≡◌, refl}
use text.Mathlib.Text.{starts_with}
use k_carrier.Base.Tests.{leb, ltb, nat_eq, if◌then◌else◌, Bool-cases}

infixr 66 ◌<>◌
abbrev pub ◌<>◌ : String → String → String
s <> t = String.◌++◌ s t

abbrev pub is_empty : String → Bool
is_empty String.[] = true
is_empty (String.◌∷◌ c s) = false

-- The code points of Unicode's White_Space, which `trim` removes.
pub is_whitespace : ℕ → Bool
is_whitespace c =
    (leb 9 c && leb c 13)
    || nat_eq c 32
    || nat_eq c 0x85
    || nat_eq c 0xa0
    || nat_eq c 0x1680
    || (leb 0x2000 c && leb c 0x200a)
    || nat_eq c 0x2028
    || nat_eq c 0x2029
    || nat_eq c 0x202f
    || nat_eq c 0x205f
    || nat_eq c 0x3000

pub trim_start : String → String
trim_start String.[] = ""
trim_start (String.◌∷◌ c s) = if is_whitespace (code c) then trim_start s else String.◌∷◌ c s

keep_end : Bool → String → Bool
keep_end white String.[] = white
keep_end white (String.◌∷◌ _ _) = false

pub trim_end : String → String
unfolding keep_end
trim_end String.[] = ""
trim_end (String.◌∷◌ c s) =
    let rest = trim_end s in
    if keep_end (is_whitespace (code c)) rest then "" else String.◌∷◌ c rest

unfoldable pub trim : String → String
unfolding trim_start trim_end is_whitespace
trim s = trim_end (trim_start s)

-- `encode_utf16().count()`: two units beyond the basic plane.
unfoldable pub utf16_count : String → ℕ
utf16_count String.[] = 0
utf16_count (String.◌∷◌ c s) = (if ltb (code c) 0x10000 then 1 else 2) + utf16_count s

digit : ℕ → String
digit d =
    if nat_eq d 0
    then "0"
    else if nat_eq d 1
    then "1"
    else if nat_eq d 2
    then "2"
    else if nat_eq d 3
    then "3"
    else if nat_eq d 4
    then "4"
    else if nat_eq d 5
    then "5"
    else if nat_eq d 6
    then "6"
    else if nat_eq d 7
    then "7"
    else if nat_eq d 8
    then "8"
    else "9"

decimal_from : ℕ → ℕ → String → String
decimal_from zero n acc = acc
decimal_from (suc fuel) n acc =
    let rest = decimal_from fuel (n / 10) (digit (n % 10) <> acc) in
    if ltb n 10 then digit n <> acc else rest

-- `to_string` of an unsigned number; a number has at most as many digits as its value and one.
unfoldable pub decimal : ℕ → String
unfolding decimal_from digit
decimal n = decimal_from (suc n) n ""

decimal_402 : decimal 402 ≡ "402"
unfolding decimal
decimal_402 = refl

trim_example : trim " a b  " ≡ "a b"
unfolding trim
trim_example = refl

-- `str::contains`
unfoldable pub contains : String → String → Bool
contains String.[] t = is_empty t
contains (String.◌∷◌ c s) t =
    let rest = contains s t in if starts_with (String.◌∷◌ c s) t then true else rest

-- `chars().count()`
abbrev pub char_count : String → ℕ
char_count String.[] = 0
char_count (String.◌∷◌ c s) = suc (char_count s)

-- `chars().all(…)`, by code points.
abbrev pub all_chars : (ℕ → Bool) → String → Bool
all_chars test String.[] = true
all_chars test (String.◌∷◌ c s) = test (code c) && all_chars test s

trim_start_shorter : (s : String) → char_count (trim_start s) ≤ char_count s
unfolding trim_start
trim_start_shorter String.[] = ground arith
trim_start_shorter (String.◌∷◌ c s) = elim (Bool-cases (is_whitespace (code c))) [
  | inl white ↦ rw white (ground (arith, trim_start_shorter s))
  | inr other ↦ rw other (ground arith)
]

trim_end_shorter : (s : String) → char_count (trim_end s) ≤ char_count s
unfolding trim_end
trim_end_shorter String.[] = ground arith
trim_end_shorter (String.◌∷◌ c s) =
    elim (Bool-cases (keep_end (is_whitespace (code c)) (trim_end s))) [
      | inl white ↦ rw white (ground arith)
      | inr other ↦ rw other (ground (arith, trim_end_shorter s))
    ]

pub char_count-trim : (s : String) → char_count (trim s) ≤ char_count s
unfolding trim
char_count-trim s = ground (arith, trim_end_shorter (trim_start s), trim_start_shorter s)

trim_start_all :
    (test : ℕ → Bool) (s : String) → all_chars test s ≡ true → all_chars test (trim_start s) ≡ true
unfolding trim_start
trim_start_all test String.[] h = h
trim_start_all test (String.◌∷◌ c s) h = elim (Bool-cases (is_whitespace (code c))) [
  | inl white ↦ rw white (trim_start_all test s (ground (arith, h)))
  | inr other ↦ rw other h
]

trim_end_all :
    (test : ℕ → Bool) (s : String) → all_chars test s ≡ true → all_chars test (trim_end s) ≡ true
unfolding trim_end
trim_end_all test String.[] h = h
trim_end_all test (String.◌∷◌ c s) h =
    elim (Bool-cases (keep_end (is_whitespace (code c)) (trim_end s))) [
      | inl white ↦ rw white refl
      | inr other ↦ rw other (ground (arith, h, trim_end_all test s (ground (arith, h))))
    ]

pub all_chars-trim :
    (test : ℕ → Bool) (s : String) → all_chars test s ≡ true → all_chars test (trim s) ≡ true
unfolding trim
all_chars-trim test s h = trim_end_all test (trim_start s) (trim_start_all test s h)
