-- ===== src/Storage/Archive.antt =====
-- `archive` of src/storage.rs, and what `read_archive` then gives.
use k_carrier.Base.{
  String, true, false, not, ◌||◌, ◌≡◌, refl, sym, subst, ◌⊎◌, inl, inr, Option, none, some, arith,
  ◌==◌, eq_iff, eq_refl, is_none, Bool-cases,
}
use k_carrier.State.{Operation, OperationRead, genesis, observed, unreadable, Outcome}
use k_carrier.Error.{Result-cases, Result, ok, err}
use k_carrier.Action.{◌>>=◌}
use k_carrier.Validate.{validate_operation}
use k_carrier.Storage.{
  Files, same_outcome, read_operation_file, read_archive, archive_path, archive_after, archive,
}
use k_carrier.Storage.Receipts.{Settles, read_archive-Settles}

-- The receipt that is found is of the operation, with its target and its outcome.
abbrev pub Agrees : Operation → OperationRead → Type 0
Agrees op (observed found) =
    (found.id ≡ op.id)
    × (found.target_version ≡ op.target_version)
    × (same_outcome found.outcome op.outcome ≡ true)
Agrees op _ = ⊥

same_outcome_refl : (o : Option Outcome) → same_outcome o o ≡ true
same_outcome_refl none = refl
same_outcome_refl (some Outcome.promoted) = refl
same_outcome_refl (some _) = refl

module _ {W : Type 0} (files : Files W) where
  -- After a success the archive agrees with the operation, and an earlier receipt was left alone;
  -- a failure writes at most where there was no receipt.
  abbrev pub Archived : Operation → W → Result (Unit {0}) × W → Type 0
  Archived op w (ok _, w') =
      Agrees op (read_archive files op.id w') × ((read_archive files op.id w ≡ genesis) ⊎ (w' ≡ w))
  Archived op w (err x, w') = (w' ≡ w) ⊎ (read_archive files op.id w ≡ genesis)

  abbrev pub Keeps : Type 0
  Keeps =
      (path : String) (op : Operation) (w w' : W)
      → files.write_json path op w ≡ (ok tt, w')
      → files.read_json path w' ≡ ok op

  written :
      (op : Operation) (w' : W)
      → validate_operation op ≡ ok tt
      → is_none op.outcome ≡ false
      → files.read_json (archive_path files op.id) w' ≡ ok op
      → read_archive files op.id w' ≡ observed op
  unfolding read_archive read_operation_file
  written op w' valid settled found = rw (found, valid, eq_refl op.id, settled) refl

  fresh-Archived :
      (op : Operation) (w : W)
      → Keeps
      → validate_operation op ≡ ok tt
      → is_none op.outcome ≡ false
      → read_archive files op.id w ≡ genesis
      → (p : Result (Unit {0}) × W) → files.write_json (archive_path files op.id) op w ≡ p
      → Archived op w p
  fresh-Archived op w keeps valid settled empty (ok _, w') same = (
    subst (Agrees op) (sym (written op w' valid settled (keeps _ op w w' same)))
        (refl, refl, same_outcome_refl op.outcome),
    inl empty,
  )
  fresh-Archived op w keeps valid settled empty (err x, w') same = inr empty

  found-Archived :
      (op : Operation) (w : W)
      → Keeps
      → validate_operation op ≡ ok tt
      → is_none op.outcome ≡ false
      → (o : OperationRead) → read_archive files op.id w ≡ o
      → Archived op w (archive_after files op o w)
  unfolding archive_after
  found-Archived op w keeps valid settled genesis same =
      fresh-Archived op w keeps valid settled same _ refl
  found-Archived op w keeps valid settled (unreadable reason) same = inl refl
  found-Archived op w keeps valid settled (observed old) same =
      elim (Bool-cases (
        not (old.target_version == op.target_version)
        || not (same_outcome old.outcome op.outcome))) [
          | inl differs ↦ rw differs (inl refl)
          | inr agrees ↦
              let (named, _, _) =
                subst (Settles files op.id) same (read_archive-Settles files op.id w) in
              rw agrees (
                subst (Agrees op) (sym same) (
                  named,
                  ground (arith, agrees, eq_iff old.target_version op.target_version),
                  ground (arith, agrees),
                ),
                inr refl,
              )
        ]

  -- Where a written file reads back as what was written, archiving an operation that succeeds makes
  -- the archive give a receipt with its id, target and outcome; a receipt that was already there is
  -- never overwritten; and a failure leaves everything as it was unless the archive had nothing.
  pub archive-Archived : (op : Operation) (w : W) → Keeps → Archived op w (archive files op w)
  unfolding archive ◌>>=◌
  archive-Archived op w keeps = elim (Result-cases (validate_operation op)) [
    | inr (x, bad) ↦ rw bad (inl refl)
    | inl valid ↦ elim (Bool-cases (is_none op.outcome)) [
      | inl active ↦ rw (valid, active) (inl refl)
      | inr settled ↦ rw (valid, settled) (found-Archived op w keeps valid settled _ refl)
    ]
  ]
