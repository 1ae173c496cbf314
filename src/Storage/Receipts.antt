-- ===== src/Storage/Receipts.antt =====
-- The receipts of src/storage.rs that a reader can see.
use k_carrier.Base.{
  String, false, ◌≡◌, ap, inl, inr, arith, ◌==◌, eq_iff, is_none, nat_eq, is_empty, not, ◌||◌,
  Bool-cases,
}
use k_carrier.State.{Operation, OperationRead, genesis, observed, unreadable}
use k_carrier.Error.{
  replay, invalid, uncertain, locked, io, json, http, not_found, already_exists, other_kind,
  refuse_if, Error, Result, ok, err,
}
use k_carrier.Validate.{validate_operation}
use k_carrier.Storage.{
  read_of, parsed, if_archived, Files, read_operation_file, read_operation, read_archive,
  archive_path,
}

-- What a reader sees of a receipt is valid.
abbrev pub Sound : OperationRead → Type 0
Sound (observed op) = validate_operation op ≡ ok tt
Sound _ = Unit

error-Sound : (x : Error) → Sound (read_of (err x))
error-Sound (replay _) = tt
error-Sound (invalid _) = tt
error-Sound (uncertain _) = tt
error-Sound (locked _) = tt
error-Sound (io not_found _) = tt
error-Sound (io already_exists _) = tt
error-Sound (io other_kind _) = tt
error-Sound (json _) = tt
error-Sound (http _) = tt

read_of-Sound : (r : Result Operation) → Sound (read_of (parsed r))
unfolding validate_operation
read_of-Sound (err x) = error-Sound x
read_of-Sound (ok op) = elim (Bool-cases (not (nat_eq op.format_version 1) || is_empty op.id)) [
  | inl bad ↦ rw bad tt
  | inr good ↦ rw good (ap (λ b. refuse_if b "operation record has an invalid shape") good)
]

module _ {W : Type 0} (files : Files W) where
  pub read_operation-Sound : (w : W) → Sound (read_operation files w)
  unfolding read_operation read_operation_file
  read_operation-Sound w = read_of-Sound (files.read_json "operation.json" w)

  -- An archived receipt is the one asked for, and settled.
  abbrev pub Settles : String → OperationRead → Type 0
  Settles id (observed op) =
      (op.id ≡ id) × (is_none op.outcome ≡ false) × (validate_operation op ≡ ok tt)
  Settles id _ = Unit

  archived-Settles : (id : String) (r : OperationRead) → Sound r → Settles id (if_archived id r)
  archived-Settles id genesis h = tt
  archived-Settles id (unreadable reason) h = tt
  archived-Settles id (observed op) h =
      elim (Bool-cases (not (op.id == id) || is_none op.outcome)) [
        | inl bad ↦ rw bad tt
        | inr good ↦ rw good (ground (arith, good, eq_iff op.id id), ground (arith, good), h)
      ]

  -- A receipt that the archive gives for an id is valid, has that id and has an outcome.
  pub read_archive-Settles : (id : String) (w : W) → Settles id (read_archive files id w)
  unfolding read_archive read_operation_file
  read_archive-Settles id w =
      archived-Settles id _ (read_of-Sound (files.read_json (archive_path files id) w))
