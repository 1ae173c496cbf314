-- ===== src/Supervisor/Launch.antt =====
-- `supervise_bytes` and `resume_runner` of src/supervisor.rs: the loop of attempts.
use k_carrier.Base.{
  ℕ, zero, suc, ◌+◌, ◌-◌, ◌*◌, String, Bool, false, not, ◌&&◌, ◌||◌, Option, none, some, List,
  length, ltb, nat_eq, ◌<>◌, is_none, if◌then◌else◌, min,
}
use k_carrier.Error.{invalid, Result, ok, err, refuse_if}
use k_carrier.Action.{Action, pure, lift, ◌>>=◌, ◌>>◌}
use k_carrier.Protocol.{Request, recover_request, Response, Json, expected_of, validate_request}
use k_carrier.Artifact.{Release, verify}
use k_carrier.Supervisor.{
  LaunchOptions, validate_options, LaunchResult, RecoveryDescriptor, Attempt, Worker, run,
  is_status, settled,
}

-- Files, the clock (`Instant::now`), fresh names and the digest.
pub record Launch (W : Type 0) : Type 0 where
  pub isolate_standard_handles : Action W (Unit {0})
  pub ensure_dir : String → Action W (Unit {0})
  pub new_uuid : W → String × W
  pub write_durable : String → List ℕ → Action W (Unit {0})
  pub write_descriptor : String → RecoveryDescriptor → Action W (Unit {0})
  pub read_descriptor : String → Action W RecoveryDescriptor
  pub read : String → Action W (List ℕ)
  pub sync_dir : String → Action W (Unit {0})
  pub remove_dir : String → Action W (Unit {0})
  pub remove_file : String → Action W (Unit {0})
  pub now : W → ℕ × W
  pub digest : List ℕ → String
  pub windows : Bool
  pub parent : String → Option String

abbrev pub nanos : ℕ → ℕ
nanos ms = ms * 1000000

abbrev pub recover_of : Request → Request
recover_of request = recover_request 1 (expected_of request)

-- Whether an attempt ends the loop: with its response, or without.
unfoldable pub done_by : Request → Option Response → Bool
unfolding settled
done_by request none = false
done_by request (some r) = settled r request

unfoldable pub resolves : Request → Attempt → Bool
unfolding done_by
resolves request attempt = attempt.fenced && (is_status request || done_by request attempt.response)

abbrev pub gives_up : Request → Attempt → Bool
gives_up request attempt = not attempt.fenced || is_none (expected_of request)

unfoldable pub resolved : Attempt → ℕ → LaunchResult
resolved attempt attempts = record {
  exit_code = if is_none attempt.response && nat_eq attempt.code 0 then 1 else attempt.code;
  response = attempt.response;
  recovery_file = none;
  error = none;
  attempts = attempts;
}

unfoldable pub unresolved : String → Option Response → ℕ → LaunchResult
unresolved recovery_file response attempts = record {
  exit_code = 3;
  response = response;
  recovery_file = some recovery_file;
  error =
      some "RECOVERY_UNRESOLVED: retained helper and invocation; transaction evidence is unchanged";
  attempts = attempts;
}

module _ {W : Type 0} (j : Json) (worker : Worker W) (launch : Launch W) where
  module _ (dir file recovery_file : String) (request : Request) (options : LaunchOptions) where
    abbrev pub request_at : ℕ → Request
    request_at index = if nat_eq index 0 then request else recover_of request

    abbrev pub budget_at : ℕ → ℕ
    budget_at index = nanos (if nat_eq index 0 then options.execution_ms else options.recovery_ms)

    -- The loop of `supervise_bytes`: the attempts that are left, the index of the next (as many
    -- were made), the deadline, and the last response.
    unfoldable pub attempts_from : ℕ → ℕ → ℕ → Option Response → Action W LaunchResult
    unfolding done_by resolves
    attempts_from zero index deadline response w = (ok (unresolved recovery_file response index), w)
    attempts_from (suc left) index deadline response w =
        let (time, w₁) = launch.now w in
        let (attempt, w₂) =
          run j worker file (request_at index) (min (budget_at index) (deadline - time)) w₁ in
        let rest = attempts_from left (suc index) deadline attempt.response w₂ in
        if ltb deadline time
        then (ok (unresolved recovery_file response index), w₁)
        else if resolves request attempt
        then ((launch.remove_dir dir >> pure (resolved attempt (suc index))) w₂)
        else if gives_up request attempt
        then (ok (unresolved recovery_file attempt.response (suc index)), w₂)
        else rest

    -- `supervise_bytes` once the worker's file and the descriptor are written.
    unfoldable pub supervise_written : Action W LaunchResult
    supervise_written w =
        let (start, w₁) = launch.now w in
        attempts_from (suc options.recovery_attempts) 0 (start + nanos options.total_ms) none w₁

  abbrev pub descriptor_of : String → List ℕ → Request → RecoveryDescriptor
  descriptor_of file bytes request = record {
    file = file;
    sha256 = launch.digest bytes;
    size = length bytes;
    request = recover_of request;
  }

  abbrev pub runner_name : Bool → String
  runner_name windows = if windows then "runner.exe" else "runner.bin"

  -- What `supervise_bytes` does in its own directory.
  unfoldable pub supervise_in : String → List ℕ → Request → LaunchOptions → Action W LaunchResult
  supervise_in dir bytes request options = do
    launch.ensure_dir dir
    launch.write_durable (dir <> "/" <> runner_name launch.windows) bytes
    launch.write_descriptor (dir <> "/recovery.json")
        (descriptor_of (dir <> "/" <> runner_name launch.windows) bytes request)
    launch.sync_dir dir
    supervise_written dir (dir <> "/" <> runner_name launch.windows) (dir <> "/recovery.json")
        request options

  abbrev pub in_fresh_dir : String → (String → Action W LaunchResult) → Action W LaunchResult
  in_fresh_dir scratch work w =
      let (uuid, w₁) = launch.new_uuid w in work (scratch <> "/k-runner-" <> uuid) w₁

  unfoldable pub supervise_bytes : List ℕ → Request → String → LaunchOptions → Action W LaunchResult
  unfolding supervise_in
  supervise_bytes bytes request scratch options = do
    lift (validate_request request)
    launch.isolate_standard_handles
    lift (validate_options options)
    launch.ensure_dir scratch
    in_fresh_dir scratch λ dir. supervise_in dir bytes request options

  unfoldable pub supervise_release :
      (Release → Action W (List ℕ))
      → Release
      → Request
      → String
      → LaunchOptions
      → Action W LaunchResult
  supervise_release download release request scratch options = do
    lift (validate_request request)
    launch.isolate_standard_handles
    lift (validate_options options)
    bytes ← download release
    supervise_bytes bytes request scratch options

  abbrev pub is_recovery_of_one : Request → Bool
  is_recovery_of_one (recover_request _ e) = not (is_none e)
  is_recovery_of_one _ = false

  abbrev pub or_mismatch : Result (Unit {0}) → Result (Unit {0})
  or_mismatch (ok _) = ok tt
  or_mismatch (err _) = err (invalid "RECOVERY_ARTIFACT_MISMATCH")

  abbrev pub need_scratch : Option String → Result String
  need_scratch none = err (invalid "INVALID_RECOVERY_DESCRIPTOR")
  need_scratch (some s) = ok s

  abbrev pub scratch_of : Option String → Option String
  scratch_of none = none
  scratch_of (some dir) = launch.parent dir

  -- Whether the run it resumed settled: then its files go.
  unfoldable pub clean_up : RecoveryDescriptor → String → LaunchResult → Action W LaunchResult
  clean_up descriptor recovery_file result =
      if is_none result.recovery_file
      then (launch.remove_file descriptor.file >> (launch.remove_file recovery_file >> pure result))
      else pure result

  unfoldable pub resume_runner : String → LaunchOptions → Action W LaunchResult
  resume_runner recovery_file options = do
    descriptor ← launch.read_descriptor recovery_file
    lift (validate_request descriptor.request)
    lift (refuse_if (not (is_recovery_of_one descriptor.request)) "INVALID_RECOVERY_DESCRIPTOR")
    bytes ← launch.read descriptor.file
    lift (or_mismatch (verify launch.digest bytes descriptor.size descriptor.sha256))
    scratch ← lift (need_scratch (scratch_of (launch.parent recovery_file)))
    result ← supervise_bytes bytes descriptor.request scratch options
    clean_up descriptor recovery_file result
