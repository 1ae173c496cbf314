-- ===== src/Provenance/Grows.antt =====
-- The sequence numbers of the trail in src/report.rs, and reading it back after an append.
use k_carrier.Base.{
  ℕ, ◌<◌, String, false, ◌≡◌, ◌∙◌, refl, Option, none, some, List, [], ◌∷◌, ◌++◌, last, nat_eq,
  arith, Bool-cases, inl, inr,
}
use k_carrier.State.{Provenance}
use k_carrier.Error.{Result, ok, err, ◌>>=◌, ◌>>◌, refuse_if}
use k_carrier.Lines.{newline, is_blank, has_newline, committed, scan_lines}
use k_carrier.Lines.Tail.{committed-scan_lines, scan_lines-newline}
use k_carrier.Provenance.{
  ProvenanceEntry, ProvenanceRead, trail, TrailCodec, is_rewrite, take_entry, scan_file, read_as,
  read_provenance, final_of, or_next, entry_of, append_entry, append_provenance_at,
}

-- Each number is greater than the one before.
abbrev pub Increasing : List ProvenanceEntry → Type 0
Increasing [] = Unit
Increasing (e ∷ []) = Unit
Increasing (e ∷ f ∷ rest) = (e.seq < f.seq) × Increasing (f ∷ rest)

snoc-Increasing :
    (es : List ProvenanceEntry) (e : ProvenanceEntry)
    → Increasing es
    → is_rewrite (last es) e.seq ≡ false
    → Increasing (es ++ e ∷ [])
snoc-Increasing [] e h k = tt
snoc-Increasing (d ∷ []) e h k = (ground (arith, k), tt)
snoc-Increasing (d ∷ f ∷ rest) e (less, h) k = (less, snoc-Increasing (f ∷ rest) e h k)

abbrev pub IncreasingIfRead : Result (List ProvenanceEntry) → Type 0
IncreasingIfRead (ok es) = Increasing es
IncreasingIfRead (err x) = Unit

abbrev pub Grows : ProvenanceRead → Type 0
Grows (trail es) = Increasing es
Grows _ = Unit

-- The entries that there are.
abbrev pub entries_in : ProvenanceRead → List ProvenanceEntry
entries_in (trail es) = es
entries_in _ = []

-- An entry's JSON is on one line that is not blank, and reads back.
pub record FaithfulEntry (codec : TrailCodec) (e : ProvenanceEntry) : Type 0 where
  pub one_line : has_newline (codec.encode e) ≡ false
  pub not_blank : is_blank (codec.encode e) ≡ false
  pub reads_back : codec.decode (codec.encode e) ≡ ok e

module _ (codec : TrailCodec) where
  decoded-Increasing :
      (m : Result ProvenanceEntry) (es : List ProvenanceEntry)
      → Increasing es
      → IncreasingIfRead (
          m >>= λ e.
          refuse_if (is_rewrite (last es) e.seq) "PROVENANCE_SEQ_REWRITE" >> ok (es ++ e ∷ []))
  decoded-Increasing (err x) es h = tt
  decoded-Increasing (ok e) es h = elim (Bool-cases (is_rewrite (last es) e.seq)) [
    | inl again ↦ rw again tt
    | inr fresh ↦ rw fresh (snoc-Increasing es e h fresh)
  ]

  taken-Increasing :
      (line : List ℕ) (es : List ProvenanceEntry)
      → Increasing es
      → IncreasingIfRead (take_entry codec line es)
  unfolding take_entry
  taken-Increasing line es h = elim (Bool-cases (is_blank line)) [
    | inl blank ↦ rw blank h
    | inr filled ↦ rw filled (decoded-Increasing (codec.decode line) es h)
  ]

  onward :
      (m : Result (List ProvenanceEntry)) (bs : List ℕ)
      → IncreasingIfRead m
      → ((es : List ProvenanceEntry)
          → Increasing es
          → IncreasingIfRead (scan_lines (take_entry codec) [] es bs))
      → IncreasingIfRead (m >>= λ es. scan_lines (take_entry codec) [] es bs)
  onward (ok es) bs h k = k es h
  onward (err x) bs h k = tt

  scanned-Increasing :
      (bs line : List ℕ) (es : List ProvenanceEntry)
      → Increasing es
      → IncreasingIfRead (scan_lines (take_entry codec) line es bs)
  unfolding scan_lines
  scanned-Increasing [] line es h = h
  scanned-Increasing (b ∷ bs) line es h = elim (Bool-cases (nat_eq b newline)) [
    | inl ends ↦ rw ends (
        onward (take_entry codec line es) bs (taken-Increasing line es h)
          λ more k. scanned-Increasing bs [] more k)
    | inr goes ↦ rw goes (scanned-Increasing bs (line ++ b ∷ []) es h)
  ]

  shown-Grows :
      (m : Result (List ProvenanceEntry))
      → IncreasingIfRead m
      → Grows (read_as (m >>= λ es. ok (some es)))
  shown-Grows (ok es) h = h
  shown-Grows (err x) h = tt

  -- Whatever bytes the file has, the trail that is read of it has numbers that only grow.
  pub read_provenance-Grows : (file : Option (List ℕ)) → Grows (read_provenance codec file)
  unfolding read_provenance scan_file
  read_provenance-Grows none = tt
  read_provenance-Grows (some bytes) =
      shown-Grows (scan_lines (take_entry codec) [] [] bytes) (scanned-Increasing bytes [] [] tt)

  -- After an append that returned, the file reads as the entries that were there and the new one,
  -- whose number is the one that was asked for, if any.
  abbrev pub ReadsBack :
      Option ℕ → List ProvenanceEntry → Result (ProvenanceEntry × List ℕ) → Type 0
  ReadsBack explicit prior (err x) = Unit
  ReadsBack explicit prior (ok (e, bytes)) =
      (read_provenance codec (some bytes) ≡ trail (prior ++ e ∷ []))
      × (e.seq ≡ or_next explicit (last prior))

  reads_on :
      (bs : List ℕ) (es : List ProvenanceEntry) (e : ProvenanceEntry)
      → FaithfulEntry codec e
      → scan_lines (take_entry codec) [] [] bs ≡ ok es
      → is_rewrite (last es) e.seq ≡ false
      → scan_lines (take_entry codec) [] [] (committed bs ++ (codec.encode e ++ newline ∷ []))
        ≡ ok (es ++ e ∷ [])
  unfolding take_entry scan_lines
  reads_on bs es e laws readable fresh =
      committed-scan_lines (take_entry codec) bs (codec.encode e ++ newline ∷ []) es readable
      ∙ scan_lines-newline (take_entry codec) (codec.encode e) [] [] es (laws.one_line)
      ∙ rw (laws.not_blank, laws.reads_back, fresh) refl

  module _ (identity : Provenance) (version : String) (explicit : Option ℕ) (when : ℕ)
      (faithful : (n : ℕ) → FaithfulEntry codec (entry_of codec identity version when n)) where
    added :
        (bs : List ℕ) (es : List ProvenanceEntry)
        → scan_lines (take_entry codec) [] [] bs ≡ ok es
        → ReadsBack explicit es (
            refuse_if (is_rewrite (last es) (or_next explicit (last es))) "PROVENANCE_SEQ_REWRITE"
            >> ok (
              entry_of codec identity version when (or_next explicit (last es)),
              committed bs
                  ++ (codec.encode
                        (entry_of codec identity version when (or_next explicit (last es)))
                      ++ newline ∷ []),
            ))
    unfolding read_provenance scan_file
    added bs es readable = elim (Bool-cases (is_rewrite (last es) (or_next explicit (last es)))) [
      | inl again ↦ rw again tt
      | inr fresh ↦ rw fresh (
        rw
            (reads_on bs es (entry_of codec identity version when (or_next explicit (last es)))
              (faithful (or_next explicit (last es))) readable fresh)
            refl,
        refl,
      )
    ]

    added_to :
        (bs : List ℕ) (m : Result (List ProvenanceEntry))
        → scan_lines (take_entry codec) [] [] bs ≡ m
        → ReadsBack explicit (entries_in (read_as (m >>= λ es. ok (some es)))) (
            final_of (read_as (m >>= λ es. ok (some es))) >>= λ final.
            refuse_if (is_rewrite final (or_next explicit final)) "PROVENANCE_SEQ_REWRITE"
            >> append_entry codec
                (some bs)
                (entry_of codec identity version when (or_next explicit final)))
    added_to bs (err x) h = tt
    added_to bs (ok es) h = added bs es h

    -- Where the JSON of an entry is on one line and reads back: an append that returns, to a
    -- file that is missing or whose tail may be torn, leaves a file that reads as the entries that
    -- were there and the new one, of the number that was asked for or else the next.
    pub append_provenance_at-ReadsBack :
        (file : Option (List ℕ))
        → ReadsBack explicit
            (entries_in (read_provenance codec file))
            (append_provenance_at codec identity version explicit when file)
    unfolding append_provenance_at read_provenance scan_lines scan_file
    append_provenance_at-ReadsBack none = added [] [] refl
    append_provenance_at-ReadsBack (some bs) = added_to bs _ refl
