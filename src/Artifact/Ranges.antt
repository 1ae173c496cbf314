-- ===== src/Artifact/Ranges.antt =====
-- The bounds that src/artifact.rs computes and parses: transfer budgets and content ranges.
use native.Mathlib.Omega.{div_any}
use native.Mathlib.Nat.{mod-lt}
use k_carrier.Base.{
  ℕ, String, false, ◌||◌, ◌+◌, ◌*◌, ◌%◌, ◌^◌, ◌≤◌, ◌<◌, ◌≡◌, refl, subst, ◌⊎◌, inl, inr, Option,
  none, some, ltb, leb, nat_eq, arith, Bool-cases, BelowIfRead, parse_below-BelowIfRead,
  parse_below, strip_prefix, split_once, min,
}
use k_carrier.Error.{Result, ok, err, gate-ok, ok-injective, ◌>>=◌}
use k_carrier.Artifact.{
  TransferPolicy, Budgets, budgets, div_ceil, parse_content_range, or_invalid_range, check_range,
  parse_span,
}

-- Rounding up reaches the dividend.
div_ceil_reaches : (a b : ℕ) → 0 < b → a ≤ b * div_ceil a b
div_ceil_reaches a b h = elim (Bool-cases (nat_eq (a % b) 0)) [
  | inl exact ↦ rw exact (ground (arith, div_any a b, exact))
  | inr over ↦ rw over (ground (arith, div_any a b, mod-lt a h))
]

-- A budget of response time and of transfer at the slowest rate, cut at the policy's maximum.
abbrev pub Allots : TransferPolicy → ℕ → Budgets → Type 0
Allots p size b =
    (b.response_ms ≡ p.response_ms)
    × (b.idle_ms ≡ p.idle_ms)
    × (b.response_ms ≤ b.overall_ms)
    × (b.overall_ms ≤ p.maximum_overall_ms)
    × ((b.overall_ms ≡ p.maximum_overall_ms)
        ⊎ ((d : ℕ) × (b.overall_ms ≡ d + p.response_ms)
            × (size * 1000 ≤ p.minimum_bytes_per_second * d)))

min_below : (a b : ℕ) → ltb b a ≡ false → min a b ≡ a
min_below a b h = rw h refl

allotted : TransferPolicy → ℕ → ℕ → Budgets
allotted p size overall = record {
  response_ms = p.response_ms;
  idle_ms = p.idle_ms;
  overall_ms = overall;
}

module _ (p : TransferPolicy) (size : ℕ) where
  need : ℕ
  need = div_ceil (size * 1000) p.minimum_bytes_per_second

  allotted-Allots :
      0 < p.minimum_bytes_per_second
      → p.response_ms ≤ p.maximum_overall_ms
      → p.maximum_overall_ms < 2 ^ 64
      → Allots p size (allotted p size (min (need + p.response_ms) p.maximum_overall_ms % 2 ^ 64))
  unfolding need allotted
  allotted-Allots rate room width =
      elim (Bool-cases (ltb p.maximum_overall_ms (need + p.response_ms))) [
        | inl cut ↦ rw cut (
          refl,
          refl,
          ground (arith, room, width),
          ground (arith, width),
          inl (ground (arith, width)),
        )
        | inr fits ↦ rw fits (
          refl,
          refl,
          ground (arith, fits, width),
          ground (arith, fits, width),
          inr (
            need,
            ground (arith, fits, width),
            div_ceil_reaches (size * 1000) p.minimum_bytes_per_second rate,
          ),
        )
      ]

  -- The budgets of a transfer keep the policy's response and idle times; the overall time is no
  -- shorter than the response time, no longer than the policy's maximum, and unless it is that
  -- maximum it leaves, after the response time, time enough for the size at the policy's slowest
  -- rate. The maximum is a number of 64 bits.
  pub budgets-Allots :
      (b : Budgets) → p.maximum_overall_ms < 2 ^ 64 → budgets p size ≡ ok b → Allots p size b
  unfolding budgets allotted need
  budgets-Allots b width h =
      let (fine, same) =
        gate-ok
          (nat_eq p.response_ms 0
            || nat_eq p.idle_ms 0
            || nat_eq p.minimum_bytes_per_second 0
            || ltb p.maximum_overall_ms p.response_ms)
          _ _ h in
      subst (Allots p size) (ok-injective same)
        (allotted-Allots (ground (arith, fine)) (ground (arith, fine)) width)

-- A range lies in its total, which is a number of 64 bits.
abbrev pub InRange64 : Result (ℕ × ℕ × ℕ) → Type 0
InRange64 (ok (first, final, total)) = (first ≤ final) × (final < total) × (total < 2 ^ 64)
InRange64 (err x) = Unit

check_range-InRange64 : (f l t : ℕ) → t < 2 ^ 64 → InRange64 (check_range f l t)
check_range-InRange64 f l t h = elim (Bool-cases (ltb l f || leb t l)) [
  | inl bad ↦ rw bad tt
  | inr good ↦ rw good (ground (arith, good), ground (arith, good), h)
]

totalled :
    (f l : ℕ) (t : Option ℕ)
    → BelowIfRead (2 ^ 64) t
    → InRange64 (or_invalid_range t >>= λ n. check_range f l n)
totalled f l none h = tt
totalled f l (some t) h = check_range-InRange64 f l t h

finalled :
    (f : ℕ) (l t : Option ℕ)
    → BelowIfRead (2 ^ 64) t
    → InRange64 (or_invalid_range l >>= λ m. or_invalid_range t >>= λ n. check_range f m n)
finalled f none t h = tt
finalled f (some l) t h = totalled f l t h

started :
    (f l t : Option ℕ)
    → BelowIfRead (2 ^ 64) t
    → InRange64 (
        or_invalid_range f >>= λ k.
        or_invalid_range l >>= λ m. or_invalid_range t >>= λ n. check_range k m n)
started none l t h = tt
started (some f) l t h = finalled f l t h

parse_span-InRange64 : (f l t : String) → InRange64 (parse_span f l t)
parse_span-InRange64 f l t =
    started (parse_below (2 ^ 64) f) (parse_below (2 ^ 64) l) (parse_below (2 ^ 64) t)
      (parse_below-BelowIfRead (2 ^ 64) t (ground arith))

spans-InRange64 :
    (total : String) (span : Option (String × String))
    → InRange64 (or_invalid_range span >>= λ s. parse_span s.0 s.1 total)
spans-InRange64 total none = tt
spans-InRange64 total (some s) = parse_span-InRange64 s.0 s.1 total

parts-InRange64 :
    (parts : Option (String × String))
    → InRange64 (
        or_invalid_range parts >>= λ p.
        or_invalid_range (split_once 45 p.0) >>= λ s. parse_span s.0 s.1 p.1)
parts-InRange64 none = tt
parts-InRange64 (some p) = spans-InRange64 p.1 (split_once 45 p.0)

value-InRange64 :
    (value : Option String)
    → InRange64 (
        or_invalid_range value >>= λ v. or_invalid_range (split_once 47 v) >>= λ p.
        or_invalid_range (split_once 45 p.0) >>= λ s. parse_span s.0 s.1 p.1)
value-InRange64 none = tt
value-InRange64 (some v) = parts-InRange64 (split_once 47 v)

-- Whatever the text of a `Content-Range`, the range that is read of it starts no later than it
-- ends and ends before its total, a number of 64 bits; its end can be counted on by one.
pub parse_content_range-InRange64 : (s : String) → InRange64 (parse_content_range s)
unfolding parse_content_range
parse_content_range-InRange64 s = value-InRange64 (strip_prefix "bytes " s)
