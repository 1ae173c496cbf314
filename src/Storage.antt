-- ===== src/Storage.antt =====
-- src/storage.rs: the operation receipts. Reading and writing a JSON file is a parameter, as is
-- the digest that names an archived receipt.
pub mod Receipts
pub mod Archive
use k_carrier.Base.{
  ℕ, String, Bool, true, false, not, ◌||◌, Option, none, some, ◌==◌, ◌<>◌, is_none, if◌then◌else◌,
}
use k_carrier.State.{Operation, OperationRead, genesis, observed, unreadable, Outcome, outcome_eq}
use k_carrier.Error.{
  Error, IoKind, not_found, message, io, invalid, Result, ok, err, refuse_if, ◌>>=◌, ◌>>◌,
}
use k_carrier.Action.{Action, lift, ◌>>=◌ as then_do}
use k_carrier.Validate.{validate_operation}

-- `fs::read` with `serde_json::from_slice`, `write_json` and the hexadecimal SHA-256; paths are
-- below the store's root.
pub record Files (W : Type 0) : Type 0 where
  pub read_json : String → W → Result Operation
  pub write_json : String → Operation → Action W (Unit {0})
  pub digest : String → String

abbrev pub parsed : Result Operation → Result Operation
parsed r = r >>= λ op. validate_operation op >> ok op

abbrev pub read_of : Result Operation → OperationRead
read_of (ok op) = observed op
read_of (err (io not_found m)) = genesis
read_of (err x) = unreadable ("cannot read K receipt: " <> message x)

abbrev pub same_outcome : Option Outcome → Option Outcome → Bool
same_outcome none none = true
same_outcome (some a) (some b) = outcome_eq a b
same_outcome _ _ = false

abbrev pub if_archived : String → OperationRead → OperationRead
if_archived id (observed op) =
    if not (op.id == id) || is_none op.outcome
    then unreadable "invalid archived receipt identity/outcome"
    else observed op
if_archived id other = other

module _ {W : Type 0} (files : Files W) where
  open files use {read_json, write_json, digest}

  unfoldable pub read_operation_file : String → W → OperationRead
  read_operation_file path w = read_of (parsed (read_json path w))

  unfoldable pub read_operation : W → OperationRead
  unfolding read_operation_file
  read_operation w = read_operation_file "operation.json" w

  unfoldable pub persist_operation : Operation → Action W (Unit {0})
  persist_operation op = then_do (lift (validate_operation op)) λ _. write_json "operation.json" op

  abbrev pub archive_path : String → String
  archive_path id = "receipts/" <> digest id <> ".json"

  unfoldable pub read_archive : String → W → OperationRead
  unfolding read_operation_file
  read_archive id w = if_archived id (read_operation_file (archive_path id) w)

  unfoldable pub archive_after : Operation → OperationRead → Action W (Unit {0})
  archive_after op (unreadable reason) w = (err (invalid reason), w)
  archive_after op (observed existing) w =
      if not (existing.target_version == op.target_version)
        || not (same_outcome existing.outcome op.outcome)
      then (err (invalid "OPERATION_ARCHIVE_CONFLICT"), w)
      else (ok tt, w)
  archive_after op genesis w = write_json (archive_path op.id) op w

  unfoldable pub archive : Operation → Action W (Unit {0})
  unfolding archive_after read_archive
  archive op w =
      then_do
        (lift (
          validate_operation op
          >> refuse_if (is_none op.outcome) "cannot archive active operation"))
        (λ _. archive_after op (read_archive op.id w)) w
