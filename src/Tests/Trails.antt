-- ===== src/Tests/Trails.antt =====
-- The theorems on the provenance trail of src/report.rs at a concrete file.
use k_carrier.Base.{ℕ, ◌+◌, ◌-◌, ◌≡◌, refl, Option, none, some, List, [], ◌∷◌, arith}
use k_carrier.State.{Provenance}
use k_carrier.Error.{Result, ok, err, io, not_found}
use k_carrier.Provenance.{
  ProvenanceEntry, trail, TrailCodec, entry_of, read_provenance, append_provenance_at,
  summarize_provenance, no_trail, bad_trail,
}
use k_carrier.Provenance.Grows.{
  Grows, read_provenance-Grows, FaithfulEntry, ReadsBack, append_provenance_at-ReadsBack,
  entries_in,
}

abbrev operator : Provenance
operator = record { who = "ops"; carrier = "k" }

-- An entry is written as its number, above the codes of white space.
abbrev decode_number : List ℕ → Result ProvenanceEntry
decode_number [] = err (io not_found "")
decode_number (b ∷ bs) =
    ok (record { seq = b - 65; who = "ops"; carrier = "k"; when = 9; version = "2" })

abbrev numbers : TrailCodec
numbers = record { encode = λ e. (e.seq + 65) ∷ []; decode = decode_number }

number_back : (n : ℕ) → (n + 65) - 65 ≡ n
number_back n = ground arith

numbers-FaithfulEntry : (n : ℕ) → FaithfulEntry numbers (entry_of numbers operator "2" 9 n)
numbers-FaithfulEntry n = record {
  one_line = ground arith;
  not_blank = ground arith;
  reads_back = rw (number_back n) refl;
}

-- Entry 3, and a torn line.
abbrev torn_file : Option (List ℕ)
torn_file = some (68 ∷ 10 ∷ 70 ∷ [])

append_provenance_at-ReadsBack_example :
    ReadsBack numbers none
      (entries_in (read_provenance numbers torn_file))
      (append_provenance_at numbers operator "2" none 9 torn_file)
append_provenance_at-ReadsBack_example =
    append_provenance_at-ReadsBack numbers operator "2" none 9 numbers-FaithfulEntry torn_file

read_provenance-Grows_example : Grows (read_provenance numbers torn_file)
read_provenance-Grows_example = read_provenance-Grows numbers torn_file

summary_example :
    summarize_provenance (no_trail ∷ bad_trail "x" ∷ trail [] ∷ [])
    ≡ record { recorded = 1; reconciles = 0; not_observed = 1; unreadable = 1 }
unfolding summarize_provenance
summary_example = refl
