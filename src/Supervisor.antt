-- ===== src/Supervisor.antt =====
-- src/supervisor.rs: the process that starts the runner's workers and waits for a settled answer.
-- Processes, files, the clock and JSON are parameters; times are in nanoseconds where they are
-- not named `ms`.
pub mod Launch
pub mod Agrees
pub mod Settles
pub mod Resolves
pub mod Resumes
use k_carrier.Base.{
  ℕ, zero, suc, ◌+◌, ◌-◌, ◌*◌, String, Bool, true, false, not, ◌&&◌, ◌||◌, Option, none, some, List,
  length, ltb, nat_eq, ◌==◌, ◌<>◌, is_none, if◌then◌else◌,
}
use k_carrier.State.{
  Operation, OperationRead, genesis, observed, unreadable, Outcome, outcome_exit_code,
}
use k_carrier.Error.{Error, invalid, Result, ok, err, refuse_if}
use k_carrier.Action.{Action, pure, lift, ◌>>=◌, ◌>>◌}
use k_carrier.Protocol.{
  Expected, Request, upgrade_request, recover_request, status_request, Response, Json, action_of,
  expected_of, validate_request, parse_response,
}
use k_carrier.Artifact.{Release, verify}

-- The environment `env` is the worker's, which is a parameter.
pub record LaunchOptions : Type 0 where
  pub execution_ms : ℕ
  pub recovery_ms : ℕ
  pub total_ms : ℕ
  pub recovery_attempts : ℕ

abbrev pub default_options : LaunchOptions
default_options = record {
  execution_ms = 600000;
  recovery_ms = 120000;
  total_ms = 840000;
  recovery_attempts = 2;
}

abbrev pub out_of_budget : ℕ → Bool
out_of_budget n = nat_eq n 0 || ltb 2147483647 n

-- `LaunchOptions::validate`
unfoldable pub validate_options : LaunchOptions → Result (Unit {0})
validate_options o =
    refuse_if
      (out_of_budget o.execution_ms
        || out_of_budget o.recovery_ms
        || out_of_budget o.total_ms
        || ltb 10 o.recovery_attempts)
      "invalid runner budget"

pub record LaunchResult : Type 0 where
  pub exit_code : ℕ
  pub response : Option Response
  pub recovery_file : Option String
  pub error : Option String
  pub attempts : ℕ

pub record RecoveryDescriptor : Type 0 where
  pub file : String
  pub sha256 : String
  pub size : ℕ
  pub request : Request

pub record Attempt : Type 0 where
  pub code : ℕ
  pub response : Option Response
  pub fenced : Bool

-- The worker's process and its pipes: `spawn`, then writing the request and reading what it
-- prints (at most 65537 bytes) and its exit status within the budget, then `start_kill` and
-- waiting a second. An exit status is a 32-bit number, in two's complement, or a signal.
pub record Worker (W : Type 0) : Type 0 where
  pub spawn : String → W → Bool × W
  pub exchange : Request → ℕ → Action W (List ℕ)
  pub wait : Action W (Option ℕ)
  pub kill_and_wait : W → Bool × W

-- `status.code().filter(…).unwrap_or(1)`
abbrev pub code_of : Option ℕ → ℕ
code_of none = 1
code_of (some n) = if ltb n 256 then n else 1

-- A response is taken if it is to the request and of the worker's own exit code.
abbrev pub accept : Request → ℕ → Result Response → Option Response
accept request code (err x) = none
accept request code (ok r) =
    if (r.action == action_of request) && nat_eq r.exit_code code then some r else none

module _ {W : Type 0} (j : Json) (worker : Worker W) where
  abbrev pub killed : Bool × W → Attempt × W
  killed (fenced, w) = (record { code = 3; response = none; fenced = fenced }, w)

  abbrev pub ended : Request → List ℕ → Result (Option ℕ) × W → Attempt × W
  ended request bytes (err x, w) = killed (worker.kill_and_wait w)
  ended request bytes (ok status, w) = (
    record {
      code = code_of status;
      response = accept request (code_of status) (parse_response j bytes);
      fenced = true;
    },
    w,
  )

  abbrev pub exchanged : Request → Result (List ℕ) × W → Attempt × W
  exchanged request (err x, w) = killed (worker.kill_and_wait w)
  exchanged request (ok bytes, w) =
      if ltb 65536 (length bytes)
      then killed (worker.kill_and_wait w)
      else ended request bytes (worker.wait w)

  abbrev pub spawned : Request → ℕ → Bool × W → Attempt × W
  spawned request budget (false, w) = (record { code = 1; response = none; fenced = true }, w)
  spawned request budget (true, w) = exchanged request (worker.exchange request budget w)

  unfoldable pub run : String → Request → ℕ → W → Attempt × W
  run file request budget w = spawned request budget (worker.spawn file w)

abbrev pub is_upgrade : Request → Bool
is_upgrade (upgrade_request _ _ _ _) = true
is_upgrade _ = false

abbrev pub is_status : Request → Bool
is_status (status_request _) = true
is_status _ = false

-- `outcome.is_some_and(|o| o.exit_code() == code)`
abbrev pub ended_with : ℕ → Option Outcome → Bool
ended_with code none = false
ended_with code (some o) = nat_eq (outcome_exit_code o) code

abbrev pub shows : Expected → ℕ → OperationRead → Bool
shows e code (observed op) =
    (op.id == e.id) && (op.target_version == e.target_version) && ended_with code op.outcome
shows e code _ = false

abbrev pub at_rest_read : OperationRead → Bool
at_rest_read genesis = true
at_rest_read (observed op) = not (is_none op.outcome)
at_rest_read (unreadable _) = false

abbrev pub matches_expected : Option Expected → Response → Bool
matches_expected (some e) r = shows e r.exit_code r.operation
matches_expected none r = not (nat_eq r.exit_code 3) && at_rest_read r.operation

unfoldable pub settled : Response → Request → Bool
settled r request =
    if is_upgrade request && (r.action == "upgrade") && (r.result == "busy") && nat_eq r.exit_code 2
    then true
    else if not (is_none r.error)
    then false
    else matches_expected (expected_of request) r
