-- ===== src/Runner/Drive.antt =====
-- `drive` of src/runner.rs: an upgrade under the lock, from the receipts to the engine and back.
use k_carrier.Base.{
  ℕ, String, Bool, true, false, not, ◌&&◌, ◌||◌, Option, none, some, [], ◌∷◌, Dict, insert, ◌==◌,
  is_some, is_none, contains, if◌then◌else◌,
}
use k_carrier.State.{at_rest, Provenance, Operation, OperationPhase, Outcome, outcome_eq}
use k_carrier.Error.{Error, replay, invalid, is_uncertain, message, Result, ok, err, refuse_if}
use k_carrier.Action.{Action, pure, raise, lift, gets, attempt, ◌>>=◌, ◌>>◌}
use k_carrier.Engine.{
  Session, EngineOutcome, promoted_to, rolled_back_for, already_current, check_budget, on_world,
  observe_settled,
}
use k_carrier.Report.{check_ids, phase_of, stable_version_of}
use k_carrier.Storage.{persist_operation, archive}
use k_carrier.Protocol.{Expected}
use k_carrier.Runner.{
  Policy, auto, confirm, notify_only, OperationDescriptor, UpgradeOptions, UpgradeOutcome, upgraded,
  restored, held_back, nothing_new, Runner, or_option, option_or, descriptor_id, clock, emit,
  read_required, read_state, prior, transition, settle,
}

abbrev pub settled_version : Operation → Outcome → String
settled_version op outcome =
    if outcome_eq outcome Outcome.promoted then op.target_version else op.from_version

abbrev pub new_operation :
    OperationDescriptor → UpgradeOptions → Option String → String → ℕ → Operation
new_operation desc options target current now = record {
  format_version = 1;
  id = desc.id;
  started_at_ms = desc.started_at_ms;
  updated_at_ms = now;
  from_version = current;
  target_version = option_or target current;
  previous_stable_version = current;
  phase = OperationPhase.checking;
  outcome = none;
  reason = none;
  provenance = or_option desc.provenance options.provenance;
  metadata = desc.metadata;
}

abbrev pub held_detail : Option Operation → String → Dict String
unfolding insert
held_detail none reason = ("reason", reason) ∷ []
held_detail (some op) reason =
    insert "current" op.from_version (insert "version" op.target_version (("reason", reason) ∷ []))

module _ {W : Type 0} (r : Runner W) where
  open r use {engine, files, hooks, releases, lock, policy}
  open releases use {Release}

  -- `recover_engine`: a settled operation is checked, and another one is recovered.
  pub recover_found : Option Operation → Option Outcome → Action (Session W) (Unit {0})
  recover_found (some op) (some outcome) = do
    state ← on_world (read_state r)
    lift (
        refuse_if
          (not (at_rest (phase_of state))
            || not (stable_version_of state == settled_version op outcome))
          "SETTLED_OPERATION_STATE_MISMATCH")
    observe_settled engine
  recover_found _ _ = k_carrier.Engine.recover engine

  abbrev outcome_of : Option Operation → Option Outcome
  outcome_of none = none
  outcome_of (some op) = op.outcome

  pub recover_engine : Action (Session W) (Unit {0})
  recover_engine = do found ← on_world (read_required r); recover_found found (outcome_of found)

  -- `self.convergence()?` and `Engine::new(…)?`; the engine's own number starts at 0.
  pub new_engine : Action W (Unit {0})
  new_engine = do lift (check_ids r.surfaces []); lift (check_budget engine.budget)

  pub hold : Option Operation → String → String → Action W UpgradeOutcome
  hold op reason kind = do
    held ← transition r op OperationPhase.held (some Outcome.held) (some reason)
    hooks.notify kind (held_detail held reason)
    pure (held_back reason)

  fail_with : Option Operation → String → Error → Action W UpgradeOutcome
  fail_with op reason x = do
    _ ← transition r op OperationPhase.failed (some Outcome.failed) (some reason)
    raise x

  -- The final `match outcome`.
  pub conclude : Option Operation → String → EngineOutcome → Action W UpgradeOutcome
  conclude op release_version (promoted_to version) = do
    emit r "promoted" (some version)
    report ← (λ w. (ok (r.convergence_report version w).0, (r.convergence_report version w).1))
    hooks.notify "promoted" (("version", version) ∷ [])
    r.persist_report report
    _ ← transition r op OperationPhase.promoted (some Outcome.promoted) none
    pure (upgraded report)
  conclude op release_version (rolled_back_for reason) = do
    emit r "rolled-back" (some release_version)
    hooks.notify "rolled-back" (("reason", reason) ∷ [])
    _ ← transition r op OperationPhase.rolled_back (some Outcome.rolled_back) (some reason)
    pure (restored reason none)
  conclude op release_version already_current = do
    _ ← transition r op OperationPhase.up_to_date (some Outcome.up_to_date) none
    pure nothing_new

  after_engine : Option Operation → String → Result EngineOutcome → Action W UpgradeOutcome
  after_engine op version (ok outcome) = conclude op version outcome
  after_engine op version (err x) = do
    _ ← transition r op OperationPhase.recovering none (some (message x))
    raise x

  -- The preparation within the budget.
  prepared : String → Release → W → Result (Unit {0}) × W
  prepared artifact release w = prepared_in (
      engine.timer.elapsed _ engine.budget
        (hooks.prepare_candidate artifact (releases.version_of release)) w)
    where
      prepared_in : Option W → Result (Unit {0}) × W
      prepared_in none = hooks.prepare_candidate artifact (releases.version_of release) w
      prepared_in (some w') = (err (invalid "CANDIDATE_PREPARATION_TIMEOUT"), w')

  record_provenance : Option Provenance → String → Action W (Unit {0})
  record_provenance who version =
      if r.provenance_enabled
      then (do now ← clock r; r.append_provenance (option_or who r.provenance_identity) version now)
      else pure tt

  -- From the handover on: the engine's upgrade in the session that recovered.
  hand_to_engine :
      Option Operation → UpgradeOptions → Release → String → Action (Session W) UpgradeOutcome
  hand_to_engine op options release artifact = do
    on_world (record_provenance options.provenance (releases.version_of release))
    op' ← on_world (transition r op OperationPhase.handing_over none none)
    on_world (emit r "handing-over" (some (releases.version_of release)))
    outcome ← attempt (k_carrier.Engine.upgrade engine (releases.version_of release) artifact)
    on_world (after_engine op' (releases.version_of release) outcome)

  after_preparation :
      Option Operation
      → UpgradeOptions
      → Release
      → String
      → Result (Unit {0})
      → Action (Session W) UpgradeOutcome
  after_preparation op options release artifact (ok _) = hand_to_engine op options release artifact
  after_preparation op options release artifact (err x) = on_world (fail_with op (message x) x)

  -- The download, the candidate and its preparation.
  acquire_candidate :
      Option Operation → UpgradeOptions → Release → Action (Session W) UpgradeOutcome
  acquire_candidate op options release = do
    let version : String = releases.version_of release
    downloading ← on_world (transition r op OperationPhase.downloading none none)
    on_world (emit r "downloading" (some version))
    bytes ← on_world (releases.download release)
    verifying ← on_world (transition r downloading OperationPhase.verifying none none)
    on_world (emit r "verifying" (some version))
    staging ← on_world (transition r verifying OperationPhase.staging none none)
    on_world (emit r "staging" (some version))
    artifact ← on_world (r.write_artifact bytes)
    preparation ← attempt (on_world (prepared artifact release))
    after_preparation staging options release artifact preparation

  if_compatible :
      Option Operation
      → UpgradeOptions
      → Release
      → Option String
      → Action (Session W) UpgradeOutcome
  if_compatible op options release (some reason) = on_world (hold op reason "held")
  if_compatible op options release none = acquire_candidate op options release

  proceed : Option Operation → UpgradeOptions → String → Release → Action (Session W) UpgradeOutcome
  proceed op options current release = do
    refusal ← on_world (hooks.compatibility current (releases.version_of release))
    if_compatible op options release refusal

  -- The policy, which a consent overrides.
  pub by_policy :
      Policy
      → Option Operation
      → UpgradeOptions
      → String
      → Release
      → Action (Session W) UpgradeOutcome
  by_policy auto op options current release = proceed op options current release
  by_policy notify_only op options current release =
      if options.consented
      then proceed op options current release
      else on_world (hold op "notify-only" "held")
  by_policy confirm op options current release =
      if options.consented
      then proceed op options current release
      else on_world (hold op "confirmation-required" "confirm-request")

  abbrev differs : Option String → String → Bool
  differs none version = false
  differs (some v) version = not (version == v)

  pub with_release :
      Option Operation
      → UpgradeOptions
      → Option String
      → String
      → Option Release
      → Action (Session W) UpgradeOutcome
  with_release op options target current none = do
    _ ← on_world (transition r op OperationPhase.up_to_date (some Outcome.up_to_date) none)
    pure nothing_new
  with_release op options target current (some release) =
      if differs target (releases.version_of release)
      then on_world (fail_with op "target-version-mismatch" (invalid "PINNED_VERSION_MISMATCH"))
      else by_policy policy op options current release

  with_picked :
      Option Operation
      → UpgradeOptions
      → Option String
      → String
      → Result (Option Release)
      → Action (Session W) UpgradeOutcome
  with_picked op options target current (ok release) =
      with_release op options target current release
  with_picked op options target current (err x) =
      if options.consented && contains (message x) "PINNED_VERSION_MISMATCH"
      then on_world (hold op "consented-version-unavailable" "held")
      else on_world (fail_with op (message x) x)

  pick : Option String → String → Action W (Option Release)
  pick none current = releases.check current
  pick (some version) current = do release ← releases.fetch version current; pure (some release)

  -- The previous receipt gives way to a new operation only when it is settled and archived.
  pub make_way : Option OperationDescriptor → Option Operation → Action W (Unit {0})
  make_way (some desc) (some old) =
      if old.id == desc.id
      then if is_some old.outcome then raise (replay old) else pure tt
      else if is_none old.outcome
      then raise (invalid "OPERATION_IN_PROGRESS")
      else archive files old
  make_way _ _ = pure tt

  begin :
      Option OperationDescriptor
      → UpgradeOptions
      → Option String
      → String
      → Action W (Option Operation)
  begin none options target current = pure none
  begin (some desc) options target current = do
    now ← clock r
    persist_operation files (new_operation desc options target current now)
    pure (some (new_operation desc options target current now))

  unfoldable pub check_prior : Option OperationDescriptor → Option String → Action W (Unit {0})
  check_prior none target = pure tt
  check_prior (some desc) target = prior r (descriptor_id desc target) false

  -- `drive_locked` after the first two reads.
  pub drive_session : Option String → UpgradeOptions → Action (Session W) UpgradeOutcome
  drive_session target options = do
    on_world new_engine
    recover_engine
    on_world (settle r)
    previous ← on_world (read_required r)
    on_world (make_way options.operation previous)
    state ← on_world (read_state r)
    let current : String = stable_version_of state
    op ← on_world (begin options.operation options target current)
    on_world (emit r "checking" none)
    picked ← attempt (on_world (pick target current))
    with_picked op options target current picked

  pub run_session : {A : Type 0} → Action (Session W) A → Action W A
  run_session m w =
      ((m (record { seq = 0; world = w })).0, (m (record { seq = 0; world = w })).1.world)

  unfoldable pub drive_locked : Option String → UpgradeOptions → Action W UpgradeOutcome
  drive_locked target options = do
    _ ← read_required r
    check_prior options.operation target
    run_session (drive_session target options)

  unfoldable pub settle_lock : {A : Type 0} → Result A → Action W (Unit {0})
  settle_lock (ok _) = lock.release
  settle_lock (err x) = if is_uncertain x then (λ w. (ok tt, lock.retain w)) else lock.release

  -- The lock around a call; an uncertain failure keeps it until the process exits.
  unfoldable pub with_lock : {A : Type 0} → Action W A → Action W A
  with_lock body = do
    now ← clock r
    lock.acquire now
    result ← attempt body
    settle_lock result
    lift result

  pub drive : Option String → UpgradeOptions → Action W UpgradeOutcome
  drive target options = do
    managed ← gets hooks.managed_elsewhere
    if managed
        then (do
          hooks.notify "held" (("reason", "managed-elsewhere") ∷ [])
          pure (held_back "this install is managed by another manager"))
        else with_lock (drive_locked target options)

  expect : Option Expected → Action W (Unit {0})
  expect none = pure tt
  expect (some expected) = prior r expected true

  pub recover_locked : Option Expected → Action W (Unit {0})
  recover_locked expected = do
    _ ← read_required r
    expect expected
    new_engine
    run_session recover_engine
    settle r

  pub recover_runner : Option Expected → Action W (Unit {0})
  recover_runner expected = with_lock (recover_locked expected)
