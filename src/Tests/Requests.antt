-- ===== src/Tests/Requests.antt =====
-- The protocol of src/protocol.rs, the readback of src/report.rs, the receipts of src/storage.rs
-- and the requests of src/runner.rs at concrete inputs.
use k_carrier.Base.{
  nat_eq, Bool, true, false, Option, ap, sym, ◌∙◌, eq_refl, ℕ, String, true, false, ◌≡◌, refl, inr,
  none, some, List, [], ◌∷◌, ◌==◌, ◌≤◌, if◌then◌else◌, length,
}
use k_carrier.State.{Phase, JournalEntry, Evidence, Operation, OperationPhase, Outcome}
use k_carrier.Action.{Action}
use k_carrier.Error.{uncertain, Result, replay, io, not_found, ok, err}
use k_carrier.Engine.{Timer}
use k_carrier.Protocol.{
  Request, upgrade_request, Json, parse_request, read_request, validate_request, is_identity,
  version_of, expected_of,
}
use k_carrier.Protocol.Accepts.{Identified, parse_request-Identified}
use k_carrier.Report.State.{Described, transaction_state-Described}
use k_carrier.Report.{transaction_state, Surface, Watch, evaluate_convergence}
use k_carrier.Report.Converges.{Judged, evaluate-Judged}
use k_carrier.Journal.{Codec, read_file, append_file, take_line}
use k_carrier.Lines.{scan_lines}
use k_carrier.Journal.Tail.{append-read}
use k_carrier.Validate.{validate_entry, validate_operation}
use k_carrier.Storage.Archive.{Archived, Keeps, archive-Archived}
use k_carrier.Storage.{archive, Files, read_archive, read_operation, read_operation_file}
use k_carrier.Storage.Receipts.{Settles, read_archive-Settles}
use k_carrier.Runner.{Runner, Hooks, Releases, Lock, auto, OperationDescriptor, UpgradeOptions}
use k_carrier.Runner.Drive.{with_lock, drive_locked}
use k_carrier.Runner.Requests.{execute}
use k_carrier.Runner.Responses.{Answered, execute-Answered}
use k_carrier.Runner.Locking.{Lawful, Unlocked, with_lock-Unlocked}
use k_carrier.Runner.Replays.{drive_locked-Decides}
use k_carrier.Harness.{World, new_world, fake_engine}

-- A decoder that knows one request.
abbrev asked : Request
asked = upgrade_request 1 "op-1" "2" true

abbrev one_request : Json
one_request = record {
  Value = ℕ;
  from_slice = λ bytes. ok (length bytes);
  get = λ value key. if key == "protocolVersion" then some 1 else none;
  is_one = λ value. true;
  is_null = λ value. false;
  to_request = λ value. ok asked;
  response_from_slice = λ bytes. err (io not_found "");
}

abbrev one_byte : List ℕ
one_byte = 123 ∷ []

parse_request-Identified_example :
    (version_of asked ≡ 1) × Identified (expected_of asked) × (length one_byte ≤ 65536)
unfolding parse_request read_request validate_request is_identity
parse_request-Identified_example = parse_request-Identified one_request one_byte asked refl

abbrev launch_agent : Surface (Unit {0})
launch_agent = record { id = "launchd"; read = λ w. (ok ("/slots/experiment/artifact.bin", ""), w) }

abbrev evidence : Evidence
evidence = record { version = "2"; pid = 40; start_id = "boot-40" }

abbrev watch : Watch (Unit {0})
watch = record { evidence = none; lifecycle = none; world = tt }

evaluate-Judged_example :
    Judged 7
      (launch_agent ∷ [])
      "/slots/experiment/artifact.bin"
      (λ w. (9, w))
      evidence
      "2"
      watch
      10
      (evaluate_convergence 7
        (launch_agent ∷ [])
        "/slots/experiment/artifact.bin"
        (λ w. (9, w))
        evidence
        "2"
        watch)
evaluate-Judged_example =
    evaluate-Judged 7 (launch_agent ∷ []) "/slots/experiment/artifact.bin" (λ w. (9, w)) evidence
      "2" watch 10

-- An operation that ended promoted.
abbrev done : Operation
done = record {
  format_version = 1;
  id = "op-1";
  started_at_ms = 1;
  updated_at_ms = 2;
  from_version = "1";
  target_version = "2";
  previous_stable_version = "1";
  phase = OperationPhase.promoted;
  outcome = some Outcome.promoted;
  reason = none;
  provenance = none;
  metadata = [];
}

-- A store whose current receipt is that one, and whose archive is empty.
abbrev one_receipt : Files World
one_receipt = record {
  read_json = λ path w. if path == "operation.json" then ok done else err (io not_found path);
  write_json = λ path op w. (ok tt, w);
  digest = λ id. id;
}

abbrev one_archived : Files World
one_archived = record {
  read_json = λ path w. if path == "receipts/op-1.json" then ok done else err (io not_found path);
  write_json = λ path op w. (ok tt, w);
  digest = λ id. id;
}

read_archive-Settles_example :
    Settles one_archived "op-1" (read_archive one_archived "op-1" (new_world "1"))
read_archive-Settles_example = read_archive-Settles one_archived "op-1" (new_world "1")

abbrev patient : Timer World
patient = record { elapsed = λ A budget call w. none }

abbrev quiet : Hooks World
quiet = record {
  managed_elsewhere = λ w. false;
  compatibility = λ from to w. (ok none, w);
  prepare_candidate = λ artifact version w. (ok tt, w);
  notify = λ kind detail w. (ok tt, w);
  progress = λ stage version w. w;
}

abbrev only_two : Releases World
only_two = record {
  Release = String;
  version_of = λ v. v;
  fetch = λ version current w. (ok "2", w);
  check = λ current w. (ok (some "2"), w);
  download = λ release w. (ok "bytes", w);
}

abbrev free : Lock World
free = record { acquire = λ now w. (ok tt, w); release = λ w. (ok tt, w); retain = λ w. w }

abbrev runner : Runner World
runner = record {
  engine = fake_engine patient 77 false 1;
  files = one_receipt;
  version = λ slot w. ok (some "1");
  write_artifact = λ bytes w. (ok "incoming/artifact.bin", w);
  append_provenance = λ who version now w. (ok tt, w);
  persist_report = λ report w. (ok tt, w);
  convergence_report = λ version w. (
    record {
      version = version;
      binary_at_target = record { passed = true; source = ""; observed_at_ms = 1; detail = [] };
      host_lifecycle_converged = none;
    },
    w,
  );
  surfaces = [];
  hooks = quiet;
  releases = only_two;
  lock = free;
  policy = auto;
  provenance_enabled = false;
  provenance_identity = record { who = "local"; carrier = "auto" };
}

execute-Answered_example : Answered asked (execute runner asked (new_world "1"))
execute-Answered_example = execute-Answered runner asked (new_world "1")

abbrev descriptor : OperationDescriptor
descriptor = record { id = "op-1"; started_at_ms = 5; provenance = none; metadata = [] }

abbrev options : UpgradeOptions
options = record { consented = true; provenance = none; operation = some descriptor }

drive_locked-Decides_example :
    drive_locked runner (some "2") options (new_world "1") ≡ (err (replay done), new_world "1")
unfolding read_operation read_archive read_operation_file validate_operation
drive_locked-Decides_example =
    drive_locked-Decides runner descriptor options "2" (some done) done (replay done)
      (new_world "1") refl refl refl refl (inr (refl, refl, refl))

abbrev handing : JournalEntry
handing = record {
  seq = 1;
  timestamp_ms = 1;
  intent = Phase.handing_over;
  detail = ("formatVersion", "1") ∷ [];
}

transaction_state-Described_example :
    Described Phase.handing_over "1"
      (ok (some "2"))
      (transaction_state (ok (handing ∷ [])) (ok (some "1")) (ok (some "2")))
transaction_state-Described_example =
    transaction_state-Described (handing ∷ []) (some "1") (ok (some "2"))

-- A store that keeps one receipt.
abbrev kept_at : Option (String × Operation) → String → Result Operation
kept_at none path = err (io not_found path)
kept_at (some (at, op)) path = if at == path then ok op else err (io not_found path)

abbrev one_kept : Files (Option (String × Operation))
one_kept = record {
  read_json = λ path w. kept_at w path;
  write_json = λ path op w. (ok tt, some (path, op));
  digest = λ id. id;
}

one_kept-Keeps : Keeps one_kept
one_kept-Keeps path op w w' h =
    ap (λ (p : Result (Unit {0}) × Option (String × Operation)). kept_at p.1 path) (sym h)
    ∙ ap (λ b. if b then ok op else err (io not_found path)) (eq_refl path)

archive-Archived_example : Archived one_kept done none (archive one_kept done none)
archive-Archived_example = archive-Archived one_kept done none one_kept-Keeps

-- A lock whose holder shows in the world, and a call that fails uncertain.
abbrev is_held : World → Bool
is_held w = w.parked

abbrev by_flag : Lock World
by_flag = record {
  acquire = λ now w. (ok tt, record w { parked = true });
  release = λ w. (ok tt, record w { parked = false });
  retain = λ w. w;
}

by_flag-Lawful : Lawful by_flag is_held
by_flag-Lawful = record {
  frees = λ w w' h. ap (λ (p : Result (Unit {0}) × World). p.1.parked) (sym h);
  retains = λ w h. h;
  takes = λ n w w' h. ap (λ (p : Result (Unit {0}) × World). p.1.parked) (sym h);
}

abbrev flagged_runner : Runner World
flagged_runner = record runner { lock = by_flag }

abbrev times_out : Action World (Unit {0})
times_out w = (err (uncertain "HOST_CALL_TIMEOUT: stop"), w)

with_lock-Unlocked_example :
    Unlocked flagged_runner is_held (with_lock flagged_runner times_out (new_world "1"))
with_lock-Unlocked_example =
    with_lock-Unlocked flagged_runner is_held times_out (new_world "1") by_flag-Lawful (λ v h. h)

abbrev starting : JournalEntry
starting = record {
  seq = 0;
  timestamp_ms = 1;
  intent = Phase.staged;
  detail = ("formatVersion", "1") ∷ [];
}

-- A codec of two entries, each written as one byte.
abbrev decode_byte : List ℕ → Result JournalEntry
decode_byte [] = err (io not_found "")
decode_byte (b ∷ _) = if nat_eq b 123 then ok starting else ok handing

abbrev two_entries : Codec
two_entries = record { encode = λ e. 124 ∷ []; decode = decode_byte }

-- One whole line, and a tail that a crash has torn.
abbrev torn_file : List ℕ
torn_file = 123 ∷ 10 ∷ 124 ∷ []

append-read_example :
    (out : List ℕ) × (append_file two_entries handing torn_file ≡ ok out)
    × (read_file two_entries out ≡ ok (starting ∷ handing ∷ []))
unfolding read_file scan_lines take_line validate_entry
append-read_example =
    append-read two_entries handing torn_file (starting ∷ [])
      (record { one_line = refl; not_blank = refl; reads_back = refl }) refl refl refl
