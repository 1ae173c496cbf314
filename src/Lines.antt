-- ===== src/Lines.antt =====
-- Files of one JSON entry on each line, with a tail that a crash may have torn, as
-- src/storage.rs and src/report.rs read them. Bytes are numbers.
pub mod Tail
use k_carrier.Base.{ℕ, Bool, true, false, ◌&&◌, ◌||◌, List, [], ◌∷◌, ◌++◌, nat_eq, if◌then◌else◌}
use k_carrier.Error.{Result, ok, err, ◌>>=◌}

abbrev pub newline : ℕ
newline = 10

-- `u8::is_ascii_whitespace`
abbrev pub is_ascii_whitespace : ℕ → Bool
is_ascii_whitespace b = nat_eq b 32 || nat_eq b 9 || nat_eq b 10 || nat_eq b 12 || nat_eq b 13

abbrev pub is_blank : List ℕ → Bool
is_blank [] = true
is_blank (b ∷ bs) = is_ascii_whitespace b && is_blank bs

abbrev pub has_newline : List ℕ → Bool
has_newline [] = false
has_newline (b ∷ bs) = nat_eq b newline || has_newline bs

-- `bytes[..committed]`: up to the last newline.
abbrev pub committed : List ℕ → List ℕ
committed [] = []
committed (b ∷ bs) =
    let rest = committed bs in
    if has_newline bs then b ∷ rest else if nat_eq b newline then b ∷ [] else []

-- The loop over the bytes, with the line so far and the entries so far; `take` is what is done
-- with a whole line.
module _ {E : Type 0} (take : List ℕ → List E → Result (List E)) where
  unfoldable pub scan_lines : List ℕ → List E → List ℕ → Result (List E)
  scan_lines line entries [] = ok entries
  scan_lines line entries (b ∷ bs) =
      if nat_eq b newline
      then (take line entries >>= λ more. scan_lines [] more bs)
      else scan_lines (line ++ b ∷ []) entries bs
