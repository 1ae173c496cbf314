-- ===== src/Controller.antt =====
-- `CommandHost` of src/host.rs: one call of the controller, a process that is started for it. The
-- process, its record, JSON and the timer are parameters.
pub mod Fences
pub mod Hears
pub mod Vouches
use k_carrier.Base.{
  ℕ, String, Bool, true, false, not, ◌&&◌, ◌||◌, Option, none, some, List, length, ltb, nat_eq,
  ◌==◌, ◌<>◌, is_empty, is_none, is_some, if◌then◌else◌, [], ◌∷◌,
}
use k_carrier.State.{Slot, Evidence}
use k_carrier.Validate.{validate_evidence}
use k_carrier.Error.{
  Error, uncertain, invalid, Result, ok, err, is_err, refuse_if, ◌>>=◌ as and_then,
  ◌>>◌ as and_check,
}
use k_carrier.Action.{Action, pure, lift, raise, attempt, ◌>>=◌, ◌>>◌}
use k_carrier.Protocol.{holds_in}
use k_carrier.Redaction.{host_error_detail}

abbrev pub no_program : List String → Bool
no_program [] = true
no_program (program ∷ arguments) = is_empty program

-- The tests of `CommandHost::new`.
unfoldable pub check_controller : List String → ℕ → Result (Unit {0})
check_controller command timeout_ms =
    refuse_if (no_program command || nat_eq timeout_ms 0 || ltb 120000 timeout_ms)
      "invalid controller configuration"

-- A controller's exit status: success, and its code as text unless a signal ended it.
pub record Status : Type 0 where
  pub success : Bool
  pub code : Option String

-- serde_json's values, as far as `call` and `probe` look at them.
pub record Values : Type 1 where
  pub Value : Type 0
  pub from_slice : List ℕ → Result Value
  pub get : Value → String → Option Value
  pub is_one : Value → Bool
  pub is_true : Value → Bool
  pub is_false : Value → Bool
  pub as_str : Value → Option String
  pub evidence_pid : Value → Option ℕ
  pub to_evidence : Value → Result Evidence

pub record Process (W V : Type 0) : Type 0 where
  pub isolate_standard_handles : Action W (Unit {0})
  pub ensure_dir : Action W (Unit {0})
  pub spawn : Action W ℕ
  -- Creating the record durably, then sending the request and reading at most 65537 bytes.
  pub write_record : ℕ → Action W (Unit {0})
  pub exchange : String → Option Slot → Action W (List ℕ)
  pub wait : Action W Status
  pub within : Action W V → Action W (Option (Result V))
  pub is_running : Action W Bool
  pub start_kill : W → W
  pub exited : W → Bool × W
  pub remove_record : Action W (Unit {0})
  pub sync_dir : Action W (Unit {0})
  pub self_pid : ℕ

abbrev pub code_text : Status → String
code_text s = elim s.code [ none ↦ "signal" | some c ↦ c ]

abbrev pub equals_pid : ℕ → Option ℕ → Bool
equals_pid pid none = false
equals_pid pid (some n) = nat_eq n pid

module _ (j : Values) where
  open j use {Value, from_slice, get, is_one, is_true, is_false, as_str, evidence_pid, to_evidence}

  abbrev pub detail_of : Option String → String
  detail_of none = ""
  detail_of (some reason) =
      if is_empty (host_error_detail reason) then "" else ": " <> host_error_detail reason

  abbrev pub reason_of : Option Value → Option String
  reason_of none = none
  reason_of (some v) = as_str v

  abbrev pub is_unresolved : Value → Bool
  is_unresolved v =
      holds_in is_one (get v "protocolVersion")
      && holds_in is_false (get v "ok")
      && holds_in is_true (get v "uncertain")

  abbrev pub is_accepted : Value → Bool
  is_accepted v = holds_in is_one (get v "protocolVersion") && holds_in is_true (get v "ok")

  -- What `call` makes of a value and the exit status.
  unfoldable pub judge_value : String → ℕ → Status → Value → Result Value
  judge_value action pid status v =
      if is_unresolved v
      then err (uncertain ("HOST_EFFECT_UNRESOLVED: " <> action))
      else if not status.success
      then err (
          invalid (
            "HOST_COMMAND_FAILED: "
            <> action
            <> " (exit "
            <> code_text status
            <> ")"
            <> detail_of (reason_of (get v "error"))))
      else and_check (refuse_if (not (is_accepted v)) ("HOST_PROTOCOL_INVALID: " <> action)) (
          and_check
            (refuse_if ((action == "probe") && equals_pid pid (evidence_pid v))
              "HOST_EVIDENCE_INVALID: controller cannot attest itself")
            (ok v))

  unfoldable pub judge_response : String → ℕ → Status → Result Value → Result Value
  unfolding judge_value
  judge_response action pid status (err x) =
      if status.success
      then err x
      else err (
          invalid (
            "HOST_COMMAND_FAILED: "
            <> action
            <> " (exit "
            <> code_text status
            <> "): host response was not valid JSON"))
  judge_response action pid status (ok v) = judge_value action pid status v

  module _ {W : Type 0} (process : Process W Value) where
    unfoldable pub converse : String → Option Slot → ℕ → Action W Value
    converse action slot pid = do
      process.write_record pid
      bytes ← process.exchange action slot
      lift (if ltb 65536 (length bytes) then err (uncertain "HOST_RESPONSE_TOO_LARGE") else ok tt)
      status ← process.wait
      lift (judge_response action pid status (from_slice bytes))

    abbrev pub or_timeout : String → Option (Result Value) → Result Value
    or_timeout action none = err (uncertain ("HOST_CALL_TIMEOUT: " <> action))
    or_timeout action (some r) = r

    abbrev pub if_exited : String → Result Value → Bool × W → Result Value × W
    if_exited action outcome (false, w) =
        (err (uncertain ("HOST_PROCESS_UNRESOLVED: " <> action)), w)
    if_exited action outcome (true, w) =
        (process.remove_record >> (process.sync_dir >> lift outcome)) w

    -- The end of `call`: the controller is killed if it still runs, and must have exited.
    unfoldable pub end_call : String → Result Value → Action W Value
    end_call action outcome = process.is_running >>= λ running w.
        if_exited action outcome (process.exited (if running then process.start_kill w else w))

    unfoldable pub call : String → Option Slot → Action W Value
    unfolding converse end_call
    call action slot = do
      process.isolate_standard_handles
      process.ensure_dir
      pid ← process.spawn
      outcome ← process.within (converse action slot pid)
      end_call action (or_timeout action outcome)

    abbrev pub or_no_evidence : Option Value → Result Value
    or_no_evidence none = err (invalid "HOST_EVIDENCE_INVALID")
    or_no_evidence (some v) = ok v

    unfoldable pub probe : Action W Evidence
    unfolding call
    probe = do
      v ← call "probe" none
      found ← lift (or_no_evidence (get v "evidence"))
      e ← lift (to_evidence found)
      lift (validate_evidence process.self_pid e)
      pure e
