-- ===== src/Redaction/Bounds.antt =====
-- The reasons that src/host.rs lets through are short and printable.
use Prim.Native.Char.{code}
use k_carrier.Base.{
  ℕ, ◌+◌, ◌≤◌, String, Bool, true, false, not, ◌&&◌, ◌||◌, ◌≡◌, refl, inl, inr, Bool-cases, nat_eq,
  arith, char_count, all_chars, char_count-trim, all_chars-trim,
}
use k_carrier.Redaction.{is_control, shorten, redact_host_error, host_error_detail}

abbrev pub is_printable : ℕ → Bool
is_printable c = not (is_control c)

-- At most 240 characters and an ellipsis, counted with those already there.
shorten_bound :
    (spaced : Bool) (chars : ℕ) (s : String)
    → chars ≤ 240
    → char_count (shorten spaced chars s) + chars ≤ 241
unfolding shorten
shorten_bound spaced chars String.[] h = ground (arith, h)
shorten_bound spaced chars (String.◌∷◌ c s) h =
    elim (Bool-cases ((is_control (code c) || nat_eq (code c) 32) && spaced)) [
      | inl again ↦ rw again (shorten_bound spaced chars s h)
      | inr fresh ↦ rw fresh (elim (Bool-cases (nat_eq chars 240)) [
        | inl full ↦ rw full (ground (arith, h))
        | inr room ↦ rw room (elim (Bool-cases (is_control (code c) || nat_eq (code c) 32)) [
          | inl blank ↦
              rw blank (ground (arith, shorten_bound true (chars + 1) s (ground (arith, h, room))))
          | inr other ↦
              rw other (ground (arith, shorten_bound false (chars + 1) s (ground (arith, h, room))))
        ])
      ])
    ]

shorten_printable :
    (spaced : Bool) (chars : ℕ) (s : String)
    → all_chars is_printable (shorten spaced chars s) ≡ true
unfolding shorten
shorten_printable spaced chars String.[] = refl
shorten_printable spaced chars (String.◌∷◌ c s) =
    elim (Bool-cases ((is_control (code c) || nat_eq (code c) 32) && spaced)) [
      | inl again ↦ rw again (shorten_printable spaced chars s)
      | inr fresh ↦ rw fresh (elim (Bool-cases (nat_eq chars 240)) [
        | inl full ↦ rw full refl
        | inr room ↦ rw room (elim (Bool-cases (is_control (code c) || nat_eq (code c) 32)) [
          | inl blank ↦ rw blank (shorten_printable true (chars + 1) s)
          | inr other ↦ rw other (ground (arith, other, shorten_printable false (chars + 1) s))
        ])
      ])
    ]

-- Whatever a host reports, the reason that is shown has at most 241 characters, an ellipsis
-- included, and no control character.
pub host_error_detail_bound :
    (raw : String)
    → (char_count (host_error_detail raw) ≤ 241)
      × (all_chars is_printable (host_error_detail raw) ≡ true)
unfolding host_error_detail
host_error_detail_bound raw = (
  ground (
    arith,
    char_count-trim (shorten false 0 (redact_host_error raw)),
    shorten_bound false 0 (redact_host_error raw) (ground arith),
  ),
  all_chars-trim is_printable (shorten false 0 (redact_host_error raw))
      (shorten_printable false 0 (redact_host_error raw)),
)
