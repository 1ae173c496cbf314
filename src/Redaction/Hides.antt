-- ===== src/Redaction/Hides.antt =====
-- What the redaction of src/host.rs lets through.
use k_carrier.Base.{
  String, Bool, false, ◌&&◌, ◌||◌, ◌≡◌, ◌⊎◌, inl, inr, refl, List, [], ◌∷◌, ◌++◌, map, leb,
  is_empty, trim, split, char_count, all_chars, Bool-cases, arith,
}
use k_carrier.Redaction.{
  is_opaque_character, redacted, redact_opaque_word, split_whitespace, announces, is_exposed,
  redact_lines, join, redact_host_error,
}

abbrev pub Among : String → List String → Type 0
Among w [] = ⊥
Among w (v ∷ vs) = (w ≡ v) ⊎ Among w vs

abbrev pub Each : (String → Type 0) → List String → Type 0
Each P [] = Unit
Each P (w ∷ ws) = P w × Each P ws

abbrev pub is_opaque : String → Bool
is_opaque word = leb 24 (char_count word) && all_chars is_opaque_character word

-- The word stands for a secret, or is a word of a line that names no credential and carries no
-- user in a URL, and looks like no key.
abbrev pub Harmless : List String → String → Type 0
Harmless lines w =
    (w ≡ redacted)
    ⊎ ((line : String) × Among line lines
        × (is_exposed line ≡ false)
        × Among w (split_whitespace line)
        × (is_opaque w ≡ false))

more_lines :
    (line : String) (lines : List String) (ws : List String)
    → Each (Harmless lines) ws
    → Each (Harmless (line ∷ lines)) ws
more_lines line lines [] h = tt
more_lines line lines (w ∷ ws) (inl same, h) = (inl same, more_lines line lines ws h)
more_lines line lines (w ∷ ws) (inr (l, there, plain, in_it, short), h) =
    (inr (l, inr there, plain, in_it, short), more_lines line lines ws h)

both_parts : (P : String → Type 0) (xs ys : List String) → Each P xs → Each P ys → Each P (xs ++ ys)
both_parts P [] ys h k = k
both_parts P (x ∷ xs) ys (p, h) k = (p, both_parts P xs ys h k)

opaque_word :
    (line : String) (lines : List String) (w : String)
    → is_exposed line ≡ false
    → Among w (split_whitespace line)
    → Harmless (line ∷ lines) (redact_opaque_word w)
unfolding redact_opaque_word
opaque_word line lines w plain there = elim (Bool-cases (is_opaque w)) [
  | inl opaque ↦ rw opaque (inl refl)
  | inr short ↦ rw short (inr (line, inl refl, plain, there, short))
]

words_of :
    (line : String) (lines ws : List String)
    → is_exposed line ≡ false
    → ((w : String) → Among w ws → Among w (split_whitespace line))
    → Each (Harmless (line ∷ lines)) (map redact_opaque_word ws)
words_of line lines [] plain all = tt
words_of line lines (w ∷ ws) plain all = (
  opaque_word line lines w plain (all w (inl refl)),
  words_of line lines ws plain λ v h. all v (inr h),
)

redact_lines-Harmless :
    (carried : Bool) (lines : List String) → Each (Harmless lines) (redact_lines carried lines)
unfolding redact_lines
redact_lines-Harmless carried [] = tt
redact_lines-Harmless carried (line ∷ rest) = elim (Bool-cases (is_empty (trim line))) [
  | inl blank ↦ rw blank (more_lines line rest _ (redact_lines-Harmless carried rest))
  | inr filled ↦ rw filled (elim (Bool-cases (carried || is_exposed line)) [
    | inl hidden ↦
        rw hidden (inl refl, more_lines line rest _ (redact_lines-Harmless (announces line) rest))
    | inr shown ↦ rw shown (
        both_parts (Harmless (line ∷ rest)) _ _
          (words_of line rest (split_whitespace line) (not_exposed carried (is_exposed line) shown)
            λ w h. h)
          (more_lines line rest _ (redact_lines-Harmless (announces line) rest)))
  ])
]
  where
    not_exposed : (a b : Bool) → (a || b) ≡ false → b ≡ false
    not_exposed a b h = ground (arith, h)

-- Every word that is shown of a host's reason is `<redacted>`, or a word of one of its lines
-- that names no credential and carries no user in a URL, and not of 24 or more of the
-- characters that keys are made of.
pub redact_host_error-Harmless :
    (raw : String)
    → (words : List String) × (redact_host_error raw ≡ join words)
      × Each (Harmless (split 10 raw)) words
unfolding redact_host_error
redact_host_error-Harmless raw =
    (redact_lines false (split 10 raw), refl, redact_lines-Harmless false (split 10 raw))
