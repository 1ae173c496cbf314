-- ===== src/Journal/Tail.antt =====
-- Reading the journal file of src/storage.rs back after an append.
use k_carrier.Base.{ℕ, true, false, ◌≡◌, refl, ◌∙◌, List, [], ◌∷◌, ◌++◌, arith, nat_eq}
use k_carrier.State.{JournalEntry}
use k_carrier.Error.{ok}
use k_carrier.Validate.{validate_entry}
use k_carrier.Engine.{next_seq}
use k_carrier.Lines.{newline, is_blank, has_newline, committed, scan_lines}
use k_carrier.Lines.Tail.{committed-scan_lines, scan_lines-newline}
use k_carrier.Journal.{Codec, take_line, read_file, append_file, append_to}

-- The entry's JSON is on one line that is not blank, and reads back.
pub record Faithful (codec : Codec) (e : JournalEntry) : Type 0 where
  pub one_line : has_newline (codec.encode e) ≡ false
  pub not_blank : is_blank (codec.encode e) ≡ false
  pub reads_back : codec.decode (codec.encode e) ≡ ok e

module _ (codec : Codec) where
  -- Where the entry's JSON is on one line and reads back: an append to a readable file, whatever its
  -- torn tail, of a valid entry with the next number returns, and the file then reads as the entries before it and the new entry.
  pub append-read :
      (e : JournalEntry) (bytes : List ℕ) (prior : List JournalEntry)
      → Faithful codec e
      → read_file codec bytes ≡ ok prior
      → validate_entry e ≡ ok tt
      → e.seq ≡ next_seq prior
      → (out : List ℕ) × (append_file codec e bytes ≡ ok out)
        × (read_file codec out ≡ ok (prior ++ e ∷ []))
  unfolding append_file append_to read_file take_line scan_lines
  append-read e bytes prior laws readable valid next =
      let same : nat_eq e.seq (next_seq prior) ≡ true = ground (arith, next) in
      (
        committed bytes ++ (codec.encode e ++ newline ∷ []),
        rw (valid, readable, same) refl,
        committed-scan_lines (take_line codec) bytes (codec.encode e ++ newline ∷ []) prior readable
            ∙ scan_lines-newline (take_line codec) (codec.encode e) [] [] prior (laws.one_line)
            ∙ rw (laws.not_blank, laws.reads_back, valid, same) refl,
      )
