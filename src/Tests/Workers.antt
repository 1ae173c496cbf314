-- ===== src/Tests/Workers.antt =====
-- The theorems on src/supervisor.rs at a worker that fails first and then recovers.
use k_carrier.Base.{ℕ, ◌+◌, true, false, none, some, List, [], ◌∷◌}
use k_carrier.State.{Operation, observed, OperationPhase, Outcome}
use k_carrier.Error.{Result, ok, err, invalid}
use k_carrier.Protocol.{Request, upgrade_request, Response, Json}
use k_carrier.Supervisor.{default_options, Worker}
use k_carrier.Supervisor.Launch.{
  Launch, supervise_bytes, supervise_written, resume_runner, recover_of, nanos,
}
use k_carrier.Supervisor.Settles.{TruthfulAtSome, supervise_bytes-Truthful}
use k_carrier.Supervisor.Resolves.{Concluded, supervise_written-Concluded}
use k_carrier.Supervisor.Resumes.{Resumes, resume_runner-Resumes}

abbrev asked : Request
asked = upgrade_request 1 "op-1" "2" true

abbrev restored_receipt : Operation
restored_receipt = record {
  format_version = 1;
  id = "op-1";
  started_at_ms = 1;
  updated_at_ms = 2;
  from_version = "1";
  target_version = "2";
  previous_stable_version = "1";
  phase = OperationPhase.rolled_back;
  outcome = some Outcome.rolled_back;
  reason = none;
  provenance = none;
  metadata = [];
}

abbrev recovered_answer : Response
recovered_answer = record {
  protocol_version = 1;
  action = "recover";
  exit_code = 1;
  result = "recovered";
  operation = observed restored_receipt;
  error = none;
}

abbrev answers_recovered : Json
answers_recovered = record {
  Value = ℕ;
  from_slice = λ bytes. ok 0;
  get = λ value key. none;
  is_one = λ value. true;
  is_null = λ value. false;
  to_request = λ value. ok asked;
  response_from_slice = λ bytes. ok recovered_answer;
}

-- The upgrading worker is killed; the recovering one answers and ends with exit code 1.
abbrev exchanges : Request → Result (List ℕ)
exchanges (upgrade_request _ _ _ _) = err (invalid "timeout")
exchanges _ = ok (123 ∷ [])

abbrev worker : Worker (Unit {0})
worker = record {
  spawn = λ file w. (true, w);
  exchange = λ request budget w. (exchanges request, w);
  wait = λ w. (ok (some 1), w);
  kill_and_wait = λ w. (true, w);
}

abbrev written_file : List ℕ
written_file = 127 ∷ []

abbrev launch : Launch (Unit {0})
launch = record {
  isolate_standard_handles = λ w. (ok tt, w);
  ensure_dir = λ dir w. (ok tt, w);
  new_uuid = λ w. ("u", w);
  write_durable = λ path bytes w. (ok tt, w);
  write_descriptor = λ path d w. (ok tt, w);
  read_descriptor =
      λ path w. (ok (record { file = "f"; sha256 = "d"; size = 1; request = recover_of asked }), w);
  read = λ path w. (ok written_file, w);
  sync_dir = λ dir w. (ok tt, w);
  remove_dir = λ dir w. (ok tt, w);
  remove_file = λ path w. (ok tt, w);
  now = λ w. (5, w);
  digest = λ bytes. "d";
  windows = false;
  parent = λ path. some "up";
}

supervise_bytes-Truthful_example :
    TruthfulAtSome asked
      (2 + 1)
      (supervise_bytes answers_recovered worker launch written_file asked "/tmp" default_options tt)
supervise_bytes-Truthful_example =
    supervise_bytes-Truthful answers_recovered worker launch written_file asked "/tmp"
      default_options tt

supervise_written-Concluded_example :
    Concluded answers_recovered worker launch "d" "d/f" "d/r" asked default_options
      (5 + nanos 840000)
      tt
      (supervise_written answers_recovered worker launch "d" "d/f" "d/r" asked default_options tt)
supervise_written-Concluded_example =
    supervise_written-Concluded answers_recovered worker launch "d" "d/f" "d/r" asked
      default_options tt

resume_runner-Resumes_example :
    Resumes answers_recovered worker launch "r" default_options tt
      (resume_runner answers_recovered worker launch "r" default_options tt)
resume_runner-Resumes_example =
    resume_runner-Resumes answers_recovered worker launch "r" default_options tt
