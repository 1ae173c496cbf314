-- ===== src/State.antt =====
-- src/state.rs: phases, slots, evidence, journal entries and operation receipts.
use k_carrier.Base.{ℕ, String, Bool, true, false, Option, none, some, List, [], ◌∷◌, Dict}

pub data Phase : Type 0 where
  idle staged handing_over running_experiment readback promoted rolled_back : Phase

pub Phase-discrete : Discrete Phase
Phase-discrete = hlevel

abbrev pub phase_eq : Phase → Phase → Bool
phase_eq idle idle = true
phase_eq staged staged = true
phase_eq handing_over handing_over = true
phase_eq running_experiment running_experiment = true
phase_eq readback readback = true
phase_eq promoted promoted = true
phase_eq rolled_back rolled_back = true
phase_eq _ _ = false

abbrev pub at_rest : Phase → Bool
at_rest idle = true
at_rest promoted = true
at_rest rolled_back = true
at_rest _ = false

-- The `kebab-case` names under which `serde` writes the phases.
abbrev pub phase_name : Phase → String
phase_name idle = "idle"
phase_name staged = "staged"
phase_name handing_over = "handing-over"
phase_name running_experiment = "running-experiment"
phase_name readback = "readback"
phase_name promoted = "promoted"
phase_name rolled_back = "rolled-back"

pub data Slot : Type 0 where
  stable experiment : Slot

abbrev pub slot_eq : Slot → Slot → Bool
slot_eq stable stable = true
slot_eq experiment experiment = true
slot_eq _ _ = false

abbrev pub slot_name : Slot → String
slot_name stable = "stable"
slot_name experiment = "experiment"

pub record Evidence : Type 0 where
  pub version : String
  pub pid : ℕ
  pub start_id : String

pub record JournalEntry : Type 0 where
  pub seq : ℕ
  pub timestamp_ms : ℕ
  pub intent : Phase
  pub detail : Dict String

pub record Provenance : Type 0 where
  pub who : String
  pub carrier : String

pub data OperationPhase : Type 0 where
  checking downloading verifying staging : OperationPhase
  handing_over probing recovering : OperationPhase
  promoted rolled_back held up_to_date failed : OperationPhase

pub data Outcome : Type 0 where
  promoted rolled_back held up_to_date failed : Outcome

abbrev pub outcome_eq : Outcome → Outcome → Bool
outcome_eq Outcome.promoted Outcome.promoted = true
outcome_eq Outcome.rolled_back Outcome.rolled_back = true
outcome_eq Outcome.held Outcome.held = true
outcome_eq Outcome.up_to_date Outcome.up_to_date = true
outcome_eq Outcome.failed Outcome.failed = true
outcome_eq _ _ = false

pub outcome_phase : Outcome → OperationPhase
outcome_phase Outcome.promoted = OperationPhase.promoted
outcome_phase Outcome.rolled_back = OperationPhase.rolled_back
outcome_phase Outcome.held = OperationPhase.held
outcome_phase Outcome.up_to_date = OperationPhase.up_to_date
outcome_phase Outcome.failed = OperationPhase.failed

abbrev pub outcome_exit_code : Outcome → ℕ
outcome_exit_code Outcome.promoted = 0
outcome_exit_code Outcome.up_to_date = 0
outcome_exit_code Outcome.held = 2
outcome_exit_code _ = 1

pub record Operation : Type 0 where
  pub format_version : ℕ
  pub id : String
  pub started_at_ms : ℕ
  pub updated_at_ms : ℕ
  pub from_version : String
  pub target_version : String
  pub previous_stable_version : String
  pub phase : OperationPhase
  pub outcome : Option Outcome
  pub reason : Option String
  pub provenance : Option Provenance
  pub metadata : Dict String

pub data OperationRead : Type 0 where
  genesis : OperationRead
  observed : Operation → OperationRead
  unreadable : String → OperationRead

abbrev outcome_or_active : Option Outcome → ℕ
outcome_or_active none = 3
outcome_or_active (some o) = outcome_exit_code o

abbrev pub read_exit_code : OperationRead → ℕ
read_exit_code genesis = 0
read_exit_code (unreadable _) = 1
read_exit_code (observed op) = outcome_or_active op.outcome

abbrev pub transitions : List (Phase × Phase × String)
transitions =
    (Phase.idle, Phase.staged, "stage-experiment")
    ∷ (Phase.staged, Phase.handing_over, "handover-to-experiment")
    ∷ (Phase.handing_over, Phase.running_experiment, "probe-experiment")
    ∷ (Phase.running_experiment, Phase.readback, "evaluate-predicates")
    ∷ (Phase.readback, Phase.promoted, "promote-experiment")
    ∷ (Phase.staged, Phase.rolled_back, "restore-stable")
    ∷ (Phase.handing_over, Phase.rolled_back, "restore-stable")
    ∷ (Phase.running_experiment, Phase.rolled_back, "restore-stable")
    ∷ (Phase.readback, Phase.rolled_back, "restore-stable")
    ∷ []
