-- ===== src/Lines/Tail.antt =====
-- What an append to a file of lines leaves to be read.
use k_carrier.Base.{
  ℕ, true, false, ◌≡◌, refl, sym, subst, ap, ◌∙◌, inl, inr, List, [], ◌∷◌, ◌++◌, arith, nat_eq,
  append_nil, Bool-cases, if◌then◌else◌,
}
use k_carrier.Error.{Result, ok, err, ok-injective, ◌>>=◌}
use k_carrier.Lines.{newline, has_newline, committed, scan_lines}

append_step : (xs : List ℕ) (y : ℕ) (ys : List ℕ) → (xs ++ y ∷ []) ++ ys ≡ xs ++ y ∷ ys
append_step [] y ys = refl
append_step (x ∷ xs) y ys = ap (λ zs. x ∷ zs) (append_step xs y ys)

module _ {E : Type 0} (take : List ℕ → List E → Result (List E)) where
  -- Without a newline nothing is taken.
  scan_lines-torn :
      (bs line : List ℕ) (entries : List E)
      → has_newline bs ≡ false
      → scan_lines take line entries bs ≡ ok entries
  unfolding scan_lines
  scan_lines-torn [] line entries h = refl
  scan_lines-torn (b ∷ bs) line entries h =
      rw (the_byte) (scan_lines-torn bs (line ++ b ∷ []) entries (ground (arith, h)))
    where
      the_byte : nat_eq b newline ≡ false
      the_byte = ground (arith, h)

  -- A whole line is taken as one.
  pub scan_lines-newline :
      (bs line rest : List ℕ) (entries : List E)
      → has_newline bs ≡ false
      → scan_lines take line entries (bs ++ newline ∷ rest)
        ≡ (take (line ++ bs) entries >>= λ more. scan_lines take [] more rest)
  unfolding scan_lines
  scan_lines-newline [] line rest entries h = rw (append_nil line) refl
  scan_lines-newline (b ∷ bs) line rest entries h = rw (the_byte) (
      scan_lines-newline bs (line ++ b ∷ []) rest entries (ground (arith, h))
      ∙ ap (λ l. take l entries >>= λ more. scan_lines take [] more rest) (append_step line b bs))
    where
      the_byte : nat_eq b newline ≡ false
      the_byte = ground (arith, h)

  -- What follows the committed part is read after the same entries.
  module _ (rest : List ℕ) where
    through :
        (m : Result (List E)) (bs xs : List ℕ) (es : List E)
        → (m >>= λ more. scan_lines take [] more bs) ≡ ok es
        → ((more : List E)
            → scan_lines take [] more bs ≡ ok es
            → scan_lines take [] more xs ≡ scan_lines take [] es rest)
        → (m >>= λ more. scan_lines take [] more xs) ≡ scan_lines take [] es rest
    through (ok more) bs xs es q k = k more q
    through (err x) bs xs es q k = absurd (ground (arith, q))

    scan_lines-committed :
        (bs line : List ℕ) (entries es : List E)
        → has_newline bs ≡ true
        → scan_lines take line entries bs ≡ ok es
        → scan_lines take line entries (committed bs ++ rest) ≡ scan_lines take [] es rest
    unfolding scan_lines
    scan_lines-committed [] line entries es h q = absurd (ground (arith, h))
    scan_lines-committed (b ∷ bs) line entries es h q = elim (Bool-cases (has_newline bs)) [
      | inl more_lines ↦ elim (Bool-cases (nat_eq b newline)) [
        | inl ends ↦
            rw (more_lines, ends)
              (through (take line entries) bs (committed bs ++ rest) es
                (subst
                  (λ t.
                    (if t
                      then take line entries >>= (λ more. scan_lines take [] more bs)
                      else scan_lines take (line ++ b ∷ []) entries bs)
                    ≡ ok es)
                  ends q)
                λ more q'. scan_lines-committed bs [] more es more_lines q')
        | inr goes ↦
            rw (more_lines, goes)
              (scan_lines-committed bs (line ++ b ∷ []) entries es more_lines (
                subst
                  (λ t.
                    (if t
                      then take line entries >>= (λ more. scan_lines take [] more bs)
                      else scan_lines take (line ++ b ∷ []) entries bs)
                    ≡ ok es)
                  goes q))
      ]
      | inr torn ↦
          let ends : nat_eq b newline ≡ true = ground (arith, h, torn) in
          rw (torn, ends)
            (rw ends (
              through (take line entries) bs rest es
                (subst
                  (λ t.
                    (if t
                      then take line entries >>= (λ more. scan_lines take [] more bs)
                      else scan_lines take (line ++ b ∷ []) entries bs)
                    ≡ ok es)
                  ends q)
                λ more q'.
                  ap (λ l. scan_lines take [] l rest)
                    (ok-injective (sym (scan_lines-torn bs [] more torn) ∙ q'))))
    ]

  pub committed-scan_lines :
      (bs rest : List ℕ) (es : List E)
      → scan_lines take [] [] bs ≡ ok es
      → scan_lines take [] [] (committed bs ++ rest) ≡ scan_lines take [] es rest
  committed-scan_lines bs rest es q = elim (Bool-cases (has_newline bs)) [
    | inl lines ↦ scan_lines-committed rest bs [] [] es lines q
    | inr torn ↦
        ap (λ bytes. scan_lines take [] [] (bytes ++ rest)) (nothing bs torn)
        ∙ ap (λ l. scan_lines take [] l rest)
            (ok-injective (sym (scan_lines-torn bs [] [] torn) ∙ q))
  ]
    where
      nothing : (xs : List ℕ) → has_newline xs ≡ false → committed xs ≡ []
      nothing [] h = refl
      nothing (x ∷ xs) h = ground (arith, h)
