-- ===== src/Invariants.antt =====
-- src/invariants.rs: the checks over snapshots of one managed installation.
pub mod Reports
pub mod Sound
use k_carrier.Base.{
  ℕ, zero, suc, String, Bool, true, false, not, ◌&&◌, ◌||◌, Option, none, some, List, [], ◌∷◌,
  length, last, ◌==◌, ◌<>◌, decimal, ltb, leb, if◌then◌else◌, is_some, is_none,
}
use k_carrier.State.{
  Phase, idle, staged, handing_over, running_experiment, readback, promoted, rolled_back, phase_eq,
  Slot,
}

pub record LiveProcess : Type 0 where
  pub slot : Slot
  pub pid : ℕ
  pub start_id : String
  pub version : String

pub record Slots : Type 0 where
  pub stable : Option String
  pub experiment : Option String

pub data Ownership : Type 0 where
  self_owned managed_elsewhere : Ownership

pub record WorldSnapshot : Type 0 where
  pub phase : Phase
  pub slots : Slots
  pub live_processes : List LiveProcess
  pub journal_intents : List Phase
  pub workload_digest : Option String
  pub prior_incarnation_start_id : Option String
  pub install_ownership : Option Ownership

pub data HostAssumption : Type 0 where
  quiesce_resume_inverse probe_from_live_process compatibility_declared : HostAssumption
  data_format_backward_compatible exclusive_handoff resident_service : HostAssumption

pub record Invariant : Type 0 where
  pub id : String
  pub assumes : List HostAssumption
  pub check : WorldSnapshot → Option String

pub record Violation : Type 0 where
  pub invariant_id : String
  pub reason : String

-- `{:?}` of a phase.
pub phase_debug : Phase → String
phase_debug idle = "Idle"
phase_debug staged = "Staged"
phase_debug handing_over = "HandingOver"
phase_debug running_experiment = "RunningExperiment"
phase_debug readback = "Readback"
phase_debug promoted = "Promoted"
phase_debug rolled_back = "RolledBack"

-- `bool::then`
abbrev pub when : Bool → String → Option String
when true reason = some reason
when false reason = none

abbrev pub contains_phase : List Phase → Phase → Bool
contains_phase [] p = false
contains_phase (q ∷ qs) p = phase_eq q p || contains_phase qs p

unfoldable pub never_dual_run : WorldSnapshot → Option String
never_dual_run s =
    when (ltb 1 (length s.live_processes))
      (decimal (length s.live_processes) <> " live incarnations")

unfoldable pub never_bricked : WorldSnapshot → Option String
never_bricked s = when (is_none s.slots.stable && is_none s.slots.experiment) "both slots empty"

abbrev pub slot_version : Slots → Slot → Option String
slot_version slots Slot.stable = slots.stable
slot_version slots Slot.experiment = slots.experiment

abbrev pub mismatch_of : Option String → String → Option String
mismatch_of none reported = none
mismatch_of (some held) reported =
    if held == reported
    then none
    else some ("slot holds " <> held <> " but live process reports " <> reported)

-- `find_map` over the live processes.
abbrev pub first_some : Option String → Option String → Option String
first_some none rest = rest
first_some (some reason) rest = some reason

unfoldable pub first_mismatch : Slots → List LiveProcess → Option String
first_mismatch slots [] = none
first_mismatch slots (p ∷ ps) =
    first_some (mismatch_of (slot_version slots p.slot) p.version) (first_mismatch slots ps)

unfoldable pub live_process_matches_slot : WorldSnapshot → Option String
unfolding first_mismatch
live_process_matches_slot s = first_mismatch s.slots s.live_processes

unfoldable pub journal_precedes_phase : WorldSnapshot → Option String
journal_precedes_phase s =
    when (not (phase_eq s.phase idle) && not (contains_phase s.journal_intents s.phase))
      ("phase " <> phase_debug s.phase <> " has no journal intent")

abbrev pub is_end : Phase → Bool
is_end promoted = true
is_end rolled_back = true
is_end _ = false

unfoldable pub terminal_leaves_no_experiment : WorldSnapshot → Option String
terminal_leaves_no_experiment s =
    when (is_end s.phase && is_some s.slots.experiment) "terminal transaction retains experiment"

abbrev pub is_managed : Option Ownership → Bool
is_managed (some managed_elsewhere) = true
is_managed _ = false

unfoldable pub managed_copy_never_self_upgrades : WorldSnapshot → Option String
managed_copy_never_self_upgrades s =
    when (is_managed s.install_ownership && not (phase_eq s.phase idle))
      "externally managed installation entered a transaction"

unfoldable pub built_in_invariants : List Invariant
unfolding never_dual_run never_bricked live_process_matches_slot journal_precedes_phase
    terminal_leaves_no_experiment managed_copy_never_self_upgrades
built_in_invariants =
    record { id = "k.never-dual-run"; assumes = exclusive_handoff ∷ []; check = never_dual_run }
    ∷ record { id = "k.never-bricked"; assumes = []; check = never_bricked }
    ∷ record { id = "k.live-process-matches-slot"; assumes = []; check = live_process_matches_slot }
    ∷ record { id = "k.journal-precedes-phase"; assumes = []; check = journal_precedes_phase }
    ∷ record {
      id = "k.terminal-leaves-no-experiment";
      assumes = [];
      check = terminal_leaves_no_experiment;
    }
    ∷ record {
      id = "k.managed-copy-never-self-upgrades";
      assumes = [];
      check = managed_copy_never_self_upgrades;
    }
    ∷ []

abbrev pub add_violation : String → Option String → List Violation → List Violation
add_violation id none rest = rest
add_violation id (some reason) rest = record { invariant_id = id; reason = reason } ∷ rest

unfoldable pub check_invariants : WorldSnapshot → List Invariant → List Violation
check_invariants s [] = []
check_invariants s (i ∷ is) = add_violation i.id (i.check s) (check_invariants s is)

abbrev digest_changed : Option String → Option String → Option String
digest_changed (some a) (some b) =
    if a == b then none else some "workload digest changed across transition"
digest_changed _ _ = none

unfoldable pub workload_preserved : WorldSnapshot → WorldSnapshot → Option String
workload_preserved before after = digest_changed before.workload_digest after.workload_digest

abbrev pub terminal : Phase → Bool
terminal idle = true
terminal promoted = true
terminal rolled_back = true
terminal _ = false

abbrev ends_terminal : Option Phase → Bool
ends_terminal none = false
ends_terminal (some p) = terminal p

unfoldable pub reaches_terminal_within : List Phase → ℕ → Option String
reaches_terminal_within trace max_steps =
    if ends_terminal (last trace)
    then none
    else when (leb max_steps (length trace)) (
        "transaction has not reached terminal after "
        <> decimal (length trace)
        <> " steps (limit "
        <> decimal max_steps
        <> ")")

abbrev pub any_reports : List LiveProcess → String → Bool
any_reports [] v = false
any_reports (p ∷ ps) v = p.version == v || any_reports ps v

abbrev lives_stable_as : Option String → List LiveProcess → Bool
lives_stable_as none live = false
lives_stable_as (some v) live = any_reports live v

abbrev pub lives_stable : WorldSnapshot → Bool
lives_stable s = lives_stable_as s.slots.stable s.live_processes

-- The loop over `observations.iter().skip(first).take(max_observations)`.
unfoldable pub settled_among : List WorldSnapshot → ℕ → Bool
settled_among [] n = false
settled_among (s ∷ ss) zero = false
settled_among (s ∷ ss) (suc n) = lives_stable s || settled_among ss n

unfoldable pub from_terminal : List WorldSnapshot → Option (List WorldSnapshot)
from_terminal [] = none
from_terminal (s ∷ ss) = if terminal s.phase then some (s ∷ ss) else from_terminal ss

abbrev pub unsettled : ℕ → Option (List WorldSnapshot) → Option String
unsettled max none = none
unsettled max (some observed) =
    if settled_among observed max
    then none
    else some (
        "terminal transaction has no live stable incarnation within "
        <> decimal max
        <> " observations")

unfoldable pub service_settles_live : List WorldSnapshot → ℕ → Option String
unfolding settled_among from_terminal
service_settles_live observations max = unsettled max (from_terminal observations)
