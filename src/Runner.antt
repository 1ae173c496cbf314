-- ===== src/Runner.antt =====
-- src/runner.rs: policy, recovery, receipts and replay around the engine, and the wire response.
-- The hooks, the release source, the downloader, the lock, the clock and the files are parameters.
pub mod Drive
pub mod Requests
pub mod Locking
pub mod Replays
pub mod Responses
use k_carrier.Base.{
  ℕ, String, Bool, true, false, not, ◌&&◌, ◌||◌, Option, none, some, List, [], ◌∷◌, Dict, insert,
  ◌==◌, ◌<>◌, is_some, is_none, nat_eq, contains, last, if◌then◌else◌,
}
use k_carrier.State.{
  Phase, idle, promoted, rolled_back, phase_eq, at_rest, Slot, Provenance, Operation,
  OperationPhase, Outcome, outcome_eq, OperationRead, genesis, observed, unreadable, read_exit_code,
  JournalEntry,
}
use k_carrier.Error.{
  Error, replay, invalid, uncertain, locked, is_uncertain, message, Result, ok, err, refuse_if,
}
use k_carrier.Action.{Action, pure, raise, lift, gets, attempt, ◌>>=◌, ◌>>◌}
use k_carrier.Invariants.{phase_debug}
use k_carrier.Engine.{
  Engine, Session, EngineOutcome, promoted_to, rolled_back_for, already_current, check_budget,
  on_world, observe_settled, recover, upgrade,
}
use k_carrier.Report.{
  Surface, ConvergenceReport, TxnState, at_rolled_back, phase_of, stable_version_of,
  transaction_state,
}
use k_carrier.Storage.{Files, read_operation, persist_operation, read_archive, archive}
use k_carrier.Protocol.{
  Expected, Request, upgrade_request, recover_request, status_request, Response, expected_of,
  action_of, validate_request,
}

pub data Policy : Type 0 where
  auto confirm notify_only : Policy

pub record OperationDescriptor : Type 0 where
  pub id : String
  pub started_at_ms : ℕ
  pub provenance : Option Provenance
  pub metadata : Dict String

pub record UpgradeOptions : Type 0 where
  pub consented : Bool
  pub provenance : Option Provenance
  pub operation : Option OperationDescriptor

pub data UpgradeOutcome : Type 0 where
  upgraded : ConvergenceReport → UpgradeOutcome
  restored : (reason : String) (report : Option ConvergenceReport) → UpgradeOutcome
  held_back : String → UpgradeOutcome
  nothing_new : UpgradeOutcome

-- `trait Hooks`.
pub record Hooks (W : Type 0) : Type 0 where
  pub managed_elsewhere : W → Bool
  pub compatibility : String → String → Action W (Option String)
  pub prepare_candidate : String → String → Action W (Unit {0})
  pub notify : String → Dict String → Action W (Unit {0})
  pub progress : String → Option String → W → W

-- `trait ReleaseSource` and `Downloader`, for a release of a kind of their own. A context is the
-- current version; the platform's key is fixed.
pub record Releases (W : Type 0) : Type 1 where
  pub Release : Type 0
  pub version_of : Release → String
  pub fetch : String → String → Action W Release
  pub check : String → Action W (Option Release)
  pub download : Release → Action W String

-- `UpgradeLock`: taken at a time, then released or kept until the process exits.
pub record Lock (W : Type 0) : Type 0 where
  pub acquire : ℕ → Action W (Unit {0})
  pub release : Action W (Unit {0})
  pub retain : W → W

-- `struct Runner`, with the engine that it makes over its store, its host and its convergence.
pub record Runner (W : Type 0) : Type 1 where
  pub engine : Engine W
  pub files : Files W
  pub version : Slot → W → Result (Option String)
  pub write_artifact : String → Action W String
  pub append_provenance : Provenance → String → ℕ → Action W (Unit {0})
  pub persist_report : ConvergenceReport → Action W (Unit {0})
  pub convergence_report : String → W → ConvergenceReport × W
  pub surfaces : List (Surface W)
  pub hooks : Hooks W
  pub releases : Releases W
  pub lock : Lock W
  pub policy : Policy
  pub provenance_enabled : Bool
  pub provenance_identity : Provenance

abbrev pub or_option : {A : Type 0} → Option A → Option A → Option A
or_option (some a) o = some a
or_option none o = o

abbrev pub option_or : {A : Type 0} → Option A → A → A
option_or (some a) b = a
option_or none b = b

abbrev pub read_as_option : OperationRead → Result (Option Operation)
read_as_option genesis = ok none
read_as_option (observed op) = ok (some op)
read_as_option (unreadable reason) = err (invalid reason)

abbrev pub prior_receipt : OperationRead → Option Operation → Result (Option Operation)
prior_receipt (unreadable reason) current = err (invalid reason)
prior_receipt (observed op) current = ok (some op)
prior_receipt genesis current = ok current

abbrev pub not_found_if : Bool → Result (Unit {0})
not_found_if recovering = refuse_if recovering "RECOVERY_OPERATION_NOT_FOUND"

-- The `match prior` of `prior`.
unfoldable pub judge_prior : Expected → Bool → Option Operation → Result (Unit {0})
judge_prior expected recovering none = not_found_if recovering
judge_prior expected recovering (some op) =
    if op.id == expected.id
    then if not (op.target_version == expected.target_version)
      then err (invalid "OPERATION_ID_CONFLICT")
      else if is_some op.outcome
      then err (replay op)
      else ok tt
    else not_found_if recovering

abbrev pub settle_reason : TxnState → String
settle_reason (at_rolled_back _ (some r)) = r
settle_reason state =
    "recovery settled at "
    <> phase_debug (phase_of state)
    <> " with stable "
    <> stable_version_of state

abbrev pub descriptor_id : OperationDescriptor → Option String → Expected
descriptor_id desc target = record { id = desc.id; target_version = option_or target "" }

abbrev pub advanced : Operation → OperationPhase → ℕ → Option Outcome → Option String → Operation
advanced op phase now outcome reason = record op {
  phase = phase;
  updated_at_ms = now;
  outcome = or_option outcome op.outcome;
  reason = or_option reason op.reason;
}

module _ {W : Type 0} (r : Runner W) where
  open r use {engine, files, hooks, releases, lock, policy}

  unfoldable pub clock : Action W ℕ
  clock w = (ok (engine.now w).0, (engine.now w).1)

  pub emit : String → Option String → Action W (Unit {0})
  emit stage version w = (ok tt, hooks.progress stage version w)

  unfoldable pub read_required : Action W (Option Operation)
  read_required w = (read_as_option (read_operation files w), w)

  -- `store.transaction_state()`; an in-flight phase alone looks at the experiment.
  pub read_state : Action W TxnState
  read_state = do
    entries ← attempt engine.effects.read_journal
    state ←
        gets
          (λ w. transaction_state entries (r.version Slot.stable w) (r.version Slot.experiment w))
    lift state

  unfoldable pub prior : Expected → Bool → Action W (Unit {0})
  prior expected recovering = do
    current ← read_required
    archived ← gets (λ w. prior_receipt (read_archive files expected.id w) current)
    found ← lift archived
    lift (judge_prior expected recovering found)

  pub transition :
      Option Operation
      → OperationPhase
      → Option Outcome
      → Option String
      → Action W (Option Operation)
  transition none phase outcome reason = pure none
  transition (some op) phase outcome reason = do
    now ← clock
    let op' : Operation = advanced op phase now outcome reason
    persist_operation files op'
    pure (some op')

  complete : Operation → OperationPhase → Outcome → Option String → Action W (Unit {0})
  complete op phase outcome reason = do
    _ ← transition (some op) phase (some outcome) reason
    pure tt

  pub settle_at : Operation → TxnState → Action W (Unit {0})
  settle_at op state =
      if phase_eq (phase_of state) promoted && (stable_version_of state == op.target_version)
      then complete op OperationPhase.promoted Outcome.promoted none
      else if at_rest (phase_of state)
      then complete op OperationPhase.rolled_back Outcome.rolled_back (some (settle_reason state))
      else pure tt

  settle_found : Option Operation → Action W (Unit {0})
  settle_found none = pure tt
  settle_found (some op) =
      if is_some op.outcome then pure tt else (do state ← read_state; settle_at op state)

  pub settle : Action W (Unit {0})
  settle = do op ← read_required; settle_found op
