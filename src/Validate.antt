-- ===== src/Validate.antt =====
-- The `validate` methods of src/state.rs.
use k_carrier.Base.{
  ℕ, String, Bool, false, not, ◌||◌, Option, none, some, ◌==◌, nat_eq, is_empty, lookup,
}
use k_carrier.State.{Evidence, JournalEntry, Operation}
use k_carrier.Error.{Result, refuse_if}

-- `self_pid` is `std::process::id()`.
unfoldable pub validate_evidence : ℕ → Evidence → Result (Unit {0})
validate_evidence self_pid e =
    refuse_if (is_empty e.version || is_empty e.start_id || nat_eq e.pid 0 || nat_eq e.pid self_pid)
      "HOST_EVIDENCE_INVALID"

abbrev pub is_text : String → Option String → Bool
is_text s none = false
is_text s (some t) = t == s

unfoldable pub validate_entry : JournalEntry → Result (Unit {0})
unfolding lookup
validate_entry e =
    refuse_if (not (is_text "1" (lookup "formatVersion" e.detail))) "unsupported journal format"

unfoldable pub validate_operation : Operation → Result (Unit {0})
validate_operation op =
    refuse_if (not (nat_eq op.format_version 1) || is_empty op.id)
      "operation record has an invalid shape"
