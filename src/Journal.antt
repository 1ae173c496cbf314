-- ===== src/Journal.antt =====
-- The journal file of src/storage.rs: one JSON entry on each line, and a tail that a crash may
-- have torn. JSON is a parameter; bytes are numbers.
pub mod Tail
use k_carrier.Base.{
  ℕ, Bool, true, false, not, ◌&&◌, ◌||◌, Option, none, some, List, [], ◌∷◌, ◌++◌, last, nat_eq, leb,
  if◌then◌else◌,
}
use k_carrier.State.{JournalEntry}
use k_carrier.Error.{Result, ok, err, invalid, refuse_if, ◌>>=◌, ◌>>◌}
use k_carrier.Validate.{validate_entry}
use k_carrier.Engine.{next_seq}
use k_carrier.Lines.{newline, is_blank, committed, scan_lines}

-- `serde_json::{to_vec, from_slice}` of an entry.
pub record Codec : Type 0 where
  pub encode : JournalEntry → List ℕ
  pub decode : List ℕ → Result JournalEntry

module _ (codec : Codec) where
  open codec use {encode, decode}

  -- A whole line, appended to the entries before it.
  unfoldable pub take_line : List ℕ → List JournalEntry → Result (List JournalEntry)
  take_line line entries =
      if is_blank line
      then ok entries
      else decode line >>= λ e.
          validate_entry e
          >> (refuse_if (not (nat_eq e.seq (next_seq entries))) "journal sequence discontinuity"
              >> ok (entries ++ e ∷ []))

  unfoldable pub read_file : List ℕ → Result (List JournalEntry)
  unfolding take_line
  read_file bytes = scan_lines take_line [] [] bytes

  -- `append` once the file is read: the torn tail is cut off, and the entry's line is written.
  unfoldable pub append_to : JournalEntry → List ℕ → List JournalEntry → Result (List ℕ)
  append_to entry bytes prior =
      refuse_if (not (nat_eq entry.seq (next_seq prior))) "journal sequence discontinuity"
      >> ok (committed bytes ++ (encode entry ++ newline ∷ []))

  -- `append`: the file's bytes afterwards.
  unfoldable pub append_file : JournalEntry → List ℕ → Result (List ℕ)
  unfolding append_to
  append_file entry bytes =
      let after = read_file bytes >>= append_to entry bytes in validate_entry entry >> after
