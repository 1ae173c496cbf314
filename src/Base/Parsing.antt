-- ===== src/Base/Parsing.antt =====
-- Reading texts as Rust's `str` does: prefixes, separators and unsigned decimal numbers.
use Prim.Native.Nat.{ℕ, ◌+◌, ◌-◌, ◌*◌, ◌<◌}
use Prim.Native.Char.{code}
use Prim.Native.String
use Prim.Native.String.{String}
use mathlib.Core.Bool.{Bool, true, ◌&&◌}
use mathlib.Core.Logic.{inl, inr}
use mathlib.Core.List.{List, [], ◌∷◌}
use mathlib.Core.Option.{Option, none, some}
use native.Mathlib.Omega.{arith}
use k_carrier.Base.Tests.{leb, ltb, nat_eq, if◌then◌else◌, Bool-cases}

-- `str::strip_prefix`
unfoldable pub strip_prefix : String → String → Option String
strip_prefix String.[] s = some s
strip_prefix (String.◌∷◌ p ps) String.[] = none
strip_prefix (String.◌∷◌ p ps) (String.◌∷◌ c s) =
    let rest = strip_prefix ps s in if nat_eq (code p) (code c) then rest else none

abbrev add_front : String → Option (String × String) → Option (String × String)
add_front c none = none
add_front c (some (before, after)) = some (String.◌++◌ c before, after)

-- `str::split_once` at a character, given by its code point.
unfoldable pub split_once : ℕ → String → Option (String × String)
split_once mark String.[] = none
split_once mark (String.◌∷◌ c s) =
    let rest = add_front (String.◌∷◌ c "") (split_once mark s) in
    if nat_eq (code c) mark then some ("", s) else rest

-- `split(mark).next()`: up to the first mark, or everything.
unfoldable pub before : ℕ → String → String
before mark String.[] = ""
before mark (String.◌∷◌ c s) =
    let rest = before mark s in if nat_eq (code c) mark then "" else String.◌∷◌ c rest

abbrev onto_first : String → List String → List String
onto_first c [] = c ∷ []
onto_first c (s ∷ rest) = String.◌++◌ c s ∷ rest

-- `str::split` at a character.
unfoldable pub split : ℕ → String → List String
split mark String.[] = "" ∷ []
split mark (String.◌∷◌ c s) =
    let rest = split mark s in
    if nat_eq (code c) mark then "" ∷ rest else onto_first (String.◌∷◌ c "") rest

abbrev only_marks : ℕ → String → Bool
only_marks mark String.[] = true
only_marks mark (String.◌∷◌ c s) = nat_eq (code c) mark && only_marks mark s

-- `str::trim_end_matches` of a character.
unfoldable pub trim_end_matches : ℕ → String → String
trim_end_matches mark String.[] = ""
trim_end_matches mark (String.◌∷◌ c s) =
    let rest = trim_end_matches mark s in
    if only_marks mark (String.◌∷◌ c s) then "" else String.◌∷◌ c rest

abbrev pub is_digit : ℕ → Bool
is_digit c = leb 48 c && leb c 57

-- The digits after a value already read; the number must stay below the bound.
unfoldable pub parse_digits : ℕ → ℕ → String → Option ℕ
parse_digits bound value String.[] = some value
parse_digits bound value (String.◌∷◌ c s) =
    let rest = parse_digits bound (value * 10 + (code c - 48)) s in
    if is_digit (code c) && ltb (value * 10 + (code c - 48)) bound then rest else none

unfoldable pub parse_unsigned : ℕ → String → Option ℕ
unfolding parse_digits
parse_unsigned bound String.[] = none
parse_unsigned bound (String.◌∷◌ c s) = parse_digits bound 0 (String.◌∷◌ c s)

-- `str::parse` for an unsigned number below the bound: a sign `+` may come first.
unfoldable pub parse_below : ℕ → String → Option ℕ
unfolding parse_unsigned
parse_below bound String.[] = none
parse_below bound (String.◌∷◌ c s) =
    let signed = parse_unsigned bound s in
    let plain = parse_unsigned bound (String.◌∷◌ c s) in
    if nat_eq (code c) 43 then signed else plain

abbrev pub BelowIfRead : ℕ → Option ℕ → Type 0
BelowIfRead bound none = Unit
BelowIfRead bound (some n) = n < bound

parse_digits-BelowIfRead :
    (bound value : ℕ) (s : String) → value < bound → BelowIfRead bound (parse_digits bound value s)
unfolding parse_digits
parse_digits-BelowIfRead bound value String.[] h = h
parse_digits-BelowIfRead bound value (String.◌∷◌ c s) h =
    elim (Bool-cases (is_digit (code c) && ltb (value * 10 + (code c - 48)) bound)) [
      | inl fits ↦
          rw fits
            (parse_digits-BelowIfRead bound (value * 10 + (code c - 48)) s (ground (arith, fits)))
      | inr refused ↦ rw refused tt
    ]

parse_unsigned-BelowIfRead :
    (bound : ℕ) (s : String) → 0 < bound → BelowIfRead bound (parse_unsigned bound s)
unfolding parse_unsigned
parse_unsigned-BelowIfRead bound String.[] h = tt
parse_unsigned-BelowIfRead bound (String.◌∷◌ c s) h =
    parse_digits-BelowIfRead bound 0 (String.◌∷◌ c s) h

pub parse_below-BelowIfRead :
    (bound : ℕ) (s : String) → 0 < bound → BelowIfRead bound (parse_below bound s)
unfolding parse_below
parse_below-BelowIfRead bound String.[] h = tt
parse_below-BelowIfRead bound (String.◌∷◌ c s) h = elim (Bool-cases (nat_eq (code c) 43)) [
  | inl signed ↦ rw signed (parse_unsigned-BelowIfRead bound s h)
  | inr plain ↦ rw plain (parse_unsigned-BelowIfRead bound (String.◌∷◌ c s) h)
]
