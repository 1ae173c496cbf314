-- ===== src/Runner/Requests.antt =====
-- `execute` and `rollback` of src/runner.rs: the wire requests, their exit codes, and the
-- operator's rollback.
use k_carrier.Base.{
  ℕ, String, Bool, true, false, not, ◌&&◌, ◌||◌, Option, none, some, [], ◌∷◌, ◌==◌, is_none, nat_eq,
  last, if◌then◌else◌,
}
use k_carrier.State.{at_rest, OperationRead, observed, unreadable, read_exit_code, JournalEntry}
use k_carrier.Error.{Error, replay, locked, is_uncertain, message, Result, ok, err}
use k_carrier.Action.{Action, pure, lift, gets, attempt, ◌>>=◌, ◌>>◌}
use k_carrier.Storage.{read_operation}
use k_carrier.Protocol.{
  Request, upgrade_request, recover_request, status_request, Response, action_of, validate_request,
}
use k_carrier.Runner.{UpgradeOutcome, upgraded, restored, held_back, nothing_new, Runner, clock}
use k_carrier.Runner.Drive.{new_engine, run_session, with_lock, drive, recover_runner}

-- A result's name and its exit code.
abbrev pub Verdict : Type 0
Verdict = String × ℕ

abbrev pub outcome_verdict : UpgradeOutcome → Verdict
outcome_verdict (upgraded _) = ("promoted", 0)
outcome_verdict (restored _ _) = ("rolled-back", 1)
outcome_verdict (held_back _) = ("held", 2)
outcome_verdict nothing_new = ("up-to-date", 0)

abbrev pub is_active : OperationRead → Bool
is_active (observed op) = is_none op.outcome
is_active _ = false

abbrev pub is_unreadable : OperationRead → Bool
is_unreadable (unreadable _) = true
is_unreadable _ = false

abbrev pub is_receipt_of : String → String → OperationRead → Bool
is_receipt_of id target (observed op) = (op.id == id) && (op.target_version == target)
is_receipt_of id target _ = false

pub record Finding : Type 0 where
  pub result : String
  pub code : ℕ
  pub error : Option String
  pub operation : OperationRead

abbrev failure : Error → Bool → OperationRead → Finding
failure x unresolved operation = record {
  result = if unresolved then "recovery-required" else "failed";
  code = if unresolved then 3 else 1;
  error = some (message x);
  operation = operation;
}

-- The first `match result` of `execute`, with the operation as it was read afterwards.
unfoldable pub find : Result Verdict → OperationRead → Finding
find (ok (result, code)) operation = record {
  result = result;
  code = code;
  error = none;
  operation = operation;
}
find (err (replay op)) operation = record {
  result = "replayed";
  code = read_exit_code (observed op);
  error = none;
  operation = observed op;
}
find (err (locked pid)) operation = record {
  result = "busy";
  code = 2;
  error = some (message (locked pid));
  operation = operation;
}
find (err x) operation =
    failure x (is_active operation || is_uncertain x || is_unreadable operation) operation

abbrev pub is_status : Request → Bool
is_status (status_request _) = true
is_status _ = false

-- The receipt that an upgrade's success has to show.
abbrev pub receipt_missing : Request → Finding → Bool
receipt_missing (upgrade_request _ id target _) f =
    nat_eq f.code 0 && not (is_receipt_of id target f.operation)
receipt_missing _ f = false

abbrev code_of_operation : Request → Finding → ℕ
code_of_operation request f =
    if not (is_status request) && nat_eq f.code 0 then read_exit_code f.operation else f.code

abbrev code_if_unreadable : Request → OperationRead → ℕ → ℕ
code_if_unreadable request operation code =
    if is_unreadable operation && not (nat_eq code 2)
    then (if is_status request then 1 else 3)
    else code

-- The end of `execute`.
unfoldable pub respond : Request → Finding → Response
respond request f =
    if receipt_missing request f
    then record {
      protocol_version = 1;
      action = action_of request;
      exit_code = 1;
      result = "failed";
      operation = f.operation;
      error = some "RUNNER_RECEIPT_MISMATCH";
    }
    else record {
      protocol_version = 1;
      action = action_of request;
      exit_code = code_if_unreadable request f.operation (code_of_operation request f);
      result = f.result;
      operation = f.operation;
      error = f.error;
    }

module _ {W : Type 0} (r : Runner W) where
  open r use {engine, files, hooks}

  -- What `execute` runs for each request.
  unfoldable pub serve : Request → Action W Verdict
  serve (status_request _) = pure ("observed", 0)
  serve (recover_request _ expected) = do recover_runner r expected; pure ("recovered", 0)
  serve (upgrade_request _ id target consented) = do
    now ← clock r
    outcome ← drive r (some target) (record {
      consented = consented;
      provenance = none;
      operation = some (record {
        id = id;
        started_at_ms = now;
        provenance = some (record { who = "local-operator"; carrier = "external-runner" });
        metadata = [];
      });
    })
    pure (outcome_verdict outcome)

  unfoldable pub execute : Request → Action W Response
  execute request = do
    lift (validate_request request)
    result ← attempt (serve request)
    operation ← gets (λ w. read_operation files w)
    pure (respond request (find result operation))

  abbrev in_flight_at : Option JournalEntry → Bool
  in_flight_at none = false
  in_flight_at (some e) = not (at_rest e.intent)

  recover_and_clear : String → Action W UpgradeOutcome
  recover_and_clear reason = do
    new_engine r
    run_session r (k_carrier.Engine.recover engine)
    engine.effects.clear
    hooks.notify "rolled-back" (("reason", reason) ∷ [])
    pure (restored reason none)

  rollback_locked : String → Action W UpgradeOutcome
  rollback_locked reason = do
    entries ← engine.effects.read_journal
    managed ← gets hooks.managed_elsewhere
    if not (in_flight_at (last entries)) && managed
        then pure (held_back "managed-elsewhere")
        else recover_and_clear reason

  pub rollback : String → Action W UpgradeOutcome
  rollback reason = with_lock r (rollback_locked reason)
