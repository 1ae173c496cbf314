-- ===== src/Tests/Hosts.antt =====
-- The theorems on src/host.rs at concrete reasons and controllers.
use k_carrier.Base.{
  ℕ, ◌≡◌, ◌≤◌, true, false, String, none, some, List, [], ◌∷◌, char_count, all_chars, split,
}
use k_carrier.Error.{ok}
use k_carrier.Redaction.{redact_host_error, host_error_detail, join}
use k_carrier.Redaction.Bounds.{is_printable, host_error_detail_bound}
use k_carrier.Redaction.Hides.{Each, Harmless, redact_host_error-Harmless}
use k_carrier.Controller.{Values, Process, call, probe}
use k_carrier.Controller.Fences.{FailsOr, call-FailsOr}
use k_carrier.Controller.Vouches.{InTime, Vouched, call-Vouched, KeepsPid, Attested, probe-Attested}
use k_carrier.Tests.Transfers.{timed_run, let_through}

abbrev refused : String
refused = "connection refused"

host_error_detail_bound_example :
    (char_count (host_error_detail refused) ≤ 241)
    × (all_chars is_printable (host_error_detail refused) ≡ true)
host_error_detail_bound_example = host_error_detail_bound refused

redact_host_error-Harmless_example :
    (words : List String) × (redact_host_error refused ≡ join words)
    × Each (Harmless (split 10 refused)) words
redact_host_error-Harmless_example = redact_host_error-Harmless refused

-- A value is the pid of its evidence; the controller runs as process 40.
abbrev pids : Values
pids = record {
  Value = ℕ;
  from_slice = λ bytes. ok 77;
  get = λ v key. some v;
  is_one = λ v. true;
  is_true = λ v. true;
  is_false = λ v. false;
  as_str = λ v. none;
  evidence_pid = λ v. some v;
  to_evidence = λ v. ok (record { version = "2"; pid = v; start_id = "boot" });
}

abbrev controller : Process (Unit {0}) ℕ
controller = record {
  isolate_standard_handles = λ w. (ok tt, w);
  ensure_dir = λ w. (ok tt, w);
  spawn = λ w. (ok 40, w);
  write_record = λ pid w. (ok tt, w);
  exchange = λ action slot w. (ok (123 ∷ []), w);
  wait = λ w. (ok (record { success = true; code = some "0" }), w);
  within = λ m w. timed_run (m w);
  is_running = λ w. (ok false, w);
  start_kill = λ w. w;
  exited = λ w. (true, w);
  remove_record = λ w. (ok tt, w);
  sync_dir = λ w. (ok tt, w);
  self_pid = 10;
}

controller-InTime : InTime pids controller
controller-InTime m w w' r h = let_through (m w) r w' h

call-Vouched_example : Vouched pids controller "stop" none tt (call pids controller "stop" none tt)
call-Vouched_example = call-Vouched pids controller "stop" none tt controller-InTime

controller-KeepsPid : KeepsPid pids controller
controller-KeepsPid v found e there decoded = cc

probe-Attested_example : Attested pids controller tt (probe pids controller tt)
probe-Attested_example = probe-Attested pids controller tt controller-InTime controller-KeepsPid

-- The same controller, which does not exit.
abbrev stubborn : Process (Unit {0}) ℕ
stubborn = record controller { exited = λ w. (false, w) }

call-FailsOr_example : FailsOr pids stubborn "stop" none tt (call pids stubborn "stop" none tt)
call-FailsOr_example = call-FailsOr pids stubborn "stop" none tt
