-- ===== src/Report.antt =====
-- src/report.rs: the lifecycle readback, its report, and the state of the transaction as it is
-- read from the journal and the slots.
pub mod Converges
pub mod State
use k_carrier.Base.{
  ℕ, String, Bool, true, false, not, Option, none, some, List, [], ◌∷◌, ◌++◌, last, Dict, insert,
  lookup, ◌==◌, ◌<>◌, is_empty, decimal, contains, if◌then◌else◌,
}
use k_carrier.State.{
  Phase, idle, staged, handing_over, running_experiment, readback, promoted, rolled_back, Evidence,
  JournalEntry, Slot,
}
use k_carrier.Error.{Error, message, Result, ok, err, invalid, refuse_if, ◌>>=◌, ◌>>◌}
use k_carrier.Action.{Action}
use k_carrier.Validate.{validate_evidence}

pub record PredicateResult : Type 0 where
  pub passed : Bool
  pub source : String
  pub observed_at_ms : ℕ
  pub detail : Dict String

pub record ConvergenceReport : Type 0 where
  pub version : String
  pub binary_at_target : PredicateResult
  pub host_lifecycle_converged : Option PredicateResult

pub data ReportRead : Type 0 where
  genesis : ReportRead
  observed : ConvergenceReport → ReportRead
  unreadable : String → ReportRead

-- `trait ReadbackSurface`; its world is the host's.
pub record Surface (W : Type 0) : Type 0 where
  pub id : String
  pub read : Action W (String × String)

pub data SurfaceVerdict : Type 0 where
  converges : String → SurfaceVerdict
  fails : Dict String → SurfaceVerdict

-- `Convergence.observed`, with the world that the surfaces read.
pub record Watch (W : Type 0) : Type 0 where
  pub evidence : Option Evidence
  pub lifecycle : Option PredicateResult
  pub world : W

abbrev pub mem : String → List String → Bool
mem s [] = false
mem s (t ∷ ts) = if s == t then true else mem s ts

pub check_ids : {W : Type 0} → List (Surface W) → List String → Result (Unit {0})
check_ids [] seen = ok tt
check_ids (s ∷ ss) seen =
    refuse_if (if is_empty s.id then true else mem s.id seen)
      "duplicate or empty readback surface id"
    >> check_ids ss (s.id ∷ seen)

abbrev pub join : String → List String → String
join sep [] = ""
join sep (s ∷ []) = s
join sep (s ∷ t ∷ ts) = s <> sep <> join sep (t ∷ ts)

abbrev pub no_surfaces : {W : Type 0} → List (Surface W) → Bool
no_surfaces [] = true
no_surfaces (_ ∷ _) = false

abbrev pub evidence_detail : Option Evidence → Dict String
evidence_detail none = []
evidence_detail (some e) =
    ("version", e.version) ∷ ("pid", decimal e.pid) ∷ ("startId", e.start_id) ∷ []

abbrev pub at_version : String → Option Evidence → Bool
at_version version none = false
at_version version (some e) = e.version == version

abbrev pub lifecycle_or : Option PredicateResult → Bool → ℕ → Option PredicateResult
lifecycle_or (some r) undeclared now = some r
lifecycle_or none true now = none
lifecycle_or none false now =
    some (record { passed = false; source = "not-converged"; observed_at_ms = now; detail = [] })

abbrev pub failed_at : String → ℕ → Dict String → PredicateResult
failed_at id now detail = record {
  passed = false;
  source = id;
  observed_at_ms = now;
  detail = detail;
}

abbrev refusal_of : PredicateResult → Option String
refusal_of r =
    if r.passed then none else some ("lifecycle surface " <> r.source <> " did not converge")

module _ {W : Type 0} (self_pid : ℕ) (surfaces : List (Surface W)) (expected_target : String)
    (clock : W → ℕ × W) where
  -- `Convergence::report`; `now` is what the clock reads.
  pub report : String → Watch W → ℕ → ConvergenceReport
  report version watch now = record {
    version = version;
    binary_at_target = record {
      passed = at_version version watch.evidence;
      source = "host.healthProbe";
      observed_at_ms = now;
      detail = evidence_detail watch.evidence;
    };
    host_lifecycle_converged = lifecycle_or watch.lifecycle (no_surfaces surfaces) now;
  }

  pub surface_verdict : Result (String × String) → SurfaceVerdict
  unfolding contains
  surface_verdict (ok (value, _)) =
      if contains value expected_target
      then converges value
      else fails (("expected", expected_target) ∷ ("got", value) ∷ [])
  surface_verdict (err x) = fails (("error", message x) ∷ [])

  -- The loop of `evaluate` over the surfaces.
  pub read_surfaces : List (Surface W) → ℕ → Dict String → List String → W → PredicateResult × W
  read_surfaces [] now detail sources w = (
    record { passed = true; source = join "," sources; observed_at_ms = now; detail = detail },
    w,
  )
  read_surfaces (s ∷ ss) now detail sources w = elim (surface_verdict (s.read w).0) [
    | converges value ↦
        read_surfaces ss now (insert s.id value detail) (sources ++ s.id ∷ []) (s.read w).1
    | fails why ↦ (failed_at s.id now why, (s.read w).1)
  ]

  keep_lifecycle : Watch W → PredicateResult × W → Result (Option String) × Watch W
  keep_lifecycle watch (r, w) =
      (ok (refusal_of r), record { evidence = watch.evidence; lifecycle = some r; world = w })

  -- `Convergence::evaluate` of an evidence that is well formed.
  unfoldable pub evaluate_valid : Evidence → String → Action (Watch W) (Option String)
  unfolding keep_lifecycle read_surfaces surface_verdict
  evaluate_valid evidence target before =
      let watch : Watch W = record before { evidence = some evidence } in
      if not (evidence.version == target)
      then (
        ok (some ("live process reports " <> evidence.version <> ", expected " <> target)),
        watch,
      )
      else if no_surfaces surfaces
      then (ok none, watch)
      else keep_lifecycle watch
          (read_surfaces surfaces (clock watch.world).0 [] [] (clock watch.world).1)

  abbrev if_valid :
      Result (Unit {0})
      → Result (Option String) × Watch W
      → Watch W
      → Result (Option String) × Watch W
  if_valid (ok _) after before = after
  if_valid (err x) after before = (err x, before)

  unfoldable pub evaluate_convergence : Evidence → String → Action (Watch W) (Option String)
  unfolding evaluate_valid
  evaluate_convergence evidence target watch =
      if_valid (validate_evidence self_pid evidence) (evaluate_valid evidence target watch) watch

-- `enum TxnState`
pub data TxnState : Type 0 where
  at_idle at_promoted : (stable_version : String) → TxnState
  at_rolled_back : (stable_version : String) (rollback_reason : Option String) → TxnState
  at_staged at_handing_over : (stable_version experiment_version : String) → TxnState
  at_running_experiment at_readback : (stable_version experiment_version : String) → TxnState

-- `TxnState::phase`
unfoldable pub phase_of : TxnState → Phase
phase_of (at_idle _) = idle
phase_of (at_promoted _) = promoted
phase_of (at_rolled_back _ _) = rolled_back
phase_of (at_staged _ _) = staged
phase_of (at_handing_over _ _) = handing_over
phase_of (at_running_experiment _ _) = running_experiment
phase_of (at_readback _ _) = readback

-- `TxnState::stable`
unfoldable pub stable_version_of : TxnState → String
stable_version_of (at_idle s) = s
stable_version_of (at_promoted s) = s
stable_version_of (at_rolled_back s _) = s
stable_version_of (at_staged s _) = s
stable_version_of (at_handing_over s _) = s
stable_version_of (at_running_experiment s _) = s
stable_version_of (at_readback s _) = s

-- `TxnState::experiment`
unfoldable pub experiment_version_of : TxnState → Option String
experiment_version_of (at_staged _ x) = some x
experiment_version_of (at_handing_over _ x) = some x
experiment_version_of (at_running_experiment _ x) = some x
experiment_version_of (at_readback _ x) = some x
experiment_version_of _ = none

abbrev pub phase_at : Option JournalEntry → Phase
phase_at none = idle
phase_at (some e) = e.intent

abbrev pub reason_at : Option JournalEntry → Option String
unfolding lookup
reason_at none = none
reason_at (some e) = lookup "reason" e.detail

abbrev pub version_or_zero : Option String → String
version_or_zero none = "0.0.0"
version_or_zero (some v) = v

-- `in_flight` finds the candidate's version, which an in-flight phase needs.
abbrev pub with_experiment : (String → TxnState) → Result (Option String) → Result TxnState
with_experiment make (ok (some x)) = ok (make x)
with_experiment make (ok none) =
    err (invalid "TXN_STATE_INCONSISTENT: in-flight phase has no experiment")
with_experiment make (err x) = err x

unfoldable pub state_at : Phase → String → Option String → Result (Option String) → Result TxnState
state_at idle s why experiment = ok (at_idle s)
state_at promoted s why experiment = ok (at_promoted s)
state_at rolled_back s why experiment = ok (at_rolled_back s why)
state_at staged s why experiment = with_experiment (at_staged s) experiment
state_at handing_over s why experiment = with_experiment (at_handing_over s) experiment
state_at running_experiment s why experiment = with_experiment (at_running_experiment s) experiment
state_at readback s why experiment = with_experiment (at_readback s) experiment

-- `FileStore::transaction_state`: the journal and the two slots as they were read.
unfoldable pub transaction_state :
    Result (List JournalEntry) → Result (Option String) → Result (Option String) → Result TxnState
unfolding state_at reason_at
transaction_state journal stable experiment = journal >>= λ entries. stable >>= λ held.
    state_at (phase_at (last entries)) (version_or_zero held) (reason_at (last entries)) experiment

abbrev lifecycle_verdict : Option PredicateResult → Result (Unit {0})
lifecycle_verdict none = err (invalid "cannot retire: no OS-lifecycle surface was observed")
lifecycle_verdict (some p) =
    refuse_if (not p.passed) "cannot retire: host_lifecycle_converged did not pass"

-- `retire_reason`; its error is the text alone.
unfoldable pub retire_reason : ReportRead → Result (Unit {0})
retire_reason genesis = err (invalid "cannot retire: no upgrade has converged yet")
retire_reason (unreadable reason) =
    err (invalid ("cannot retire: last convergence report cannot be read (" <> reason <> ")"))
retire_reason (observed r) = lifecycle_verdict r.host_lifecycle_converged
