-- ===== src/Provenance.antt =====
-- The provenance trail of src/report.rs: one JSON entry on each line of a file, with sequence
-- numbers that only grow. JSON is a parameter; bytes are numbers, and a missing file is `none`.
pub mod Grows
use k_carrier.Base.{
  ℕ, ◌+◌, String, Bool, true, false, Option, none, some, List, [], ◌∷◌, ◌++◌, last, length, leb,
  nat_eq, ◌<>◌, next_u64, if◌then◌else◌,
}
use k_carrier.State.{Provenance}
use k_carrier.Error.{Error, message, invalid, Result, ok, err, refuse_if, ◌>>=◌, ◌>>◌}
use k_carrier.Lines.{newline, is_blank, committed, scan_lines}

pub record ProvenanceEntry : Type 0 where
  pub seq : ℕ
  pub who : String
  pub carrier : String
  pub when : ℕ
  pub version : String

pub data ProvenanceRead : Type 0 where
  no_trail : ProvenanceRead
  trail : List ProvenanceEntry → ProvenanceRead
  bad_trail : String → ProvenanceRead

pub record ProvenanceSummary : Type 0 where
  pub recorded : ℕ
  pub reconciles : ℕ
  pub not_observed : ℕ
  pub unreadable : ℕ

abbrev pub count_read : ProvenanceRead → ProvenanceSummary → ProvenanceSummary
count_read no_trail s = record s { not_observed = s.not_observed + 1 }
count_read (bad_trail reason) s = record s { unreadable = s.unreadable + 1 }
count_read (trail entries) s = record s {
  recorded = s.recorded + 1;
  reconciles = s.reconciles + length entries;
}

abbrev pub summarize_from : ProvenanceSummary → List ProvenanceRead → ProvenanceSummary
summarize_from s [] = s
summarize_from s (read ∷ rest) = summarize_from (count_read read s) rest

unfoldable pub summarize_provenance : List ProvenanceRead → ProvenanceSummary
summarize_provenance reads =
    summarize_from (record { recorded = 0; reconciles = 0; not_observed = 0; unreadable = 0 }) reads

-- `serde_json::{to_vec, from_slice}` of an entry.
pub record TrailCodec : Type 0 where
  pub encode : ProvenanceEntry → List ℕ
  pub decode : List ℕ → Result ProvenanceEntry

-- `last.is_some_and(|n| n >= seq)`
abbrev pub is_rewrite : Option ProvenanceEntry → ℕ → Bool
is_rewrite none seq = false
is_rewrite (some e) seq = leb seq e.seq

abbrev pub read_as : Result (Option (List ProvenanceEntry)) → ProvenanceRead
read_as (ok none) = no_trail
read_as (ok (some entries)) = trail entries
read_as (err x) = bad_trail (message x)

abbrev pub next_after : Option ProvenanceEntry → ℕ
next_after none = 0
next_after (some e) = next_u64 e.seq

abbrev pub or_next : Option ℕ → Option ProvenanceEntry → ℕ
or_next (some seq) final = seq
or_next none final = next_after final

-- What is there before an append: the last entry, if any.
abbrev pub final_of : ProvenanceRead → Result (Option ProvenanceEntry)
final_of no_trail = ok none
final_of (trail entries) = ok (last entries)
final_of (bad_trail reason) = err (invalid ("PROVENANCE_HISTORY_UNREADABLE: " <> reason))

abbrev pub kept_bytes : Option (List ℕ) → List ℕ
kept_bytes none = []
kept_bytes (some bytes) = committed bytes

module _ (codec : TrailCodec) where
  open codec use {encode, decode}

  unfoldable pub take_entry : List ℕ → List ProvenanceEntry → Result (List ProvenanceEntry)
  take_entry line entries =
      if is_blank line
      then ok entries
      else decode line >>= λ e.
          refuse_if (is_rewrite (last entries) e.seq) "PROVENANCE_SEQ_REWRITE"
          >> ok (entries ++ e ∷ [])

  unfoldable pub scan_file : Option (List ℕ) → Result (Option (List ProvenanceEntry))
  unfolding take_entry
  scan_file none = ok none
  scan_file (some bytes) = scan_lines take_entry [] [] bytes >>= λ entries. ok (some entries)

  unfoldable pub read_provenance : Option (List ℕ) → ProvenanceRead
  unfolding scan_file
  read_provenance file = read_as (scan_file file)

  abbrev pub entry_of : Provenance → String → ℕ → ℕ → ProvenanceEntry
  entry_of identity version when seq = record {
    seq = seq;
    who = identity.who;
    carrier = identity.carrier;
    when = when;
    version = version;
  }

  abbrev pub append_entry : Option (List ℕ) → ProvenanceEntry → Result (ProvenanceEntry × List ℕ)
  append_entry file e = ok (e, kept_bytes file ++ (encode e ++ newline ∷ []))

  -- `append_provenance_at`: the entry and the file's bytes afterwards.
  unfoldable pub append_provenance_at :
      Provenance → String → Option ℕ → ℕ → Option (List ℕ) → Result (ProvenanceEntry × List ℕ)
  unfolding read_provenance
  append_provenance_at identity version explicit when file =
      final_of (read_provenance file) >>= λ final.
      refuse_if (is_rewrite final (or_next explicit final)) "PROVENANCE_SEQ_REWRITE"
      >> append_entry file (entry_of identity version when (or_next explicit final))
