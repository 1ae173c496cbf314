-- ===== src/Harness/Clean.antt =====
-- Worlds in which no built-in invariant is violated: a step of the harness crashes where it was
-- told to, and otherwise counts its boundary.
use k_carrier.Base.{ℕ, String, ◌≡◌, ◌⊎◌, none, some, [], arith}
use k_carrier.Error.{Error, uncertain, ok, err}
use k_carrier.Invariants.{
  check_invariants, built_in_invariants, never_dual_run, never_bricked, live_process_matches_slot,
  journal_precedes_phase, terminal_leaves_no_experiment,
}
use k_carrier.Harness.{World, no_mutation, snapshot_of, tick, crash_message, step}

pub record Clean (w : World) : Type 0 where
  pub unmutated : w.mutation ≡ no_mutation
  pub working : w.workload ≡ "synthetic-workload"
  pub single : never_dual_run (snapshot_of w) ≡ none
  pub stocked : never_bricked (snapshot_of w) ≡ none
  pub matched : live_process_matches_slot (snapshot_of w) ≡ none
  pub logged : journal_precedes_phase (snapshot_of w) ≡ none
  pub cleared : terminal_leaves_no_experiment (snapshot_of w) ≡ none

abbrev pub crashed : String → World → World
crashed label w = record (tick label w) { fail_at = none }

-- No violation is reported for a clean world.
pub check_invariants-Clean :
    (w : World) → Clean w → check_invariants (snapshot_of w) built_in_invariants ≡ []
unfolding check_invariants built_in_invariants
check_invariants-Clean w h = ground arith

abbrev pub Crash : World → Error → Type 0
Crash w x =
    ((n : ℕ) × (w.fail_at ≡ some n)) × ((label : String) × (x ≡ uncertain (crash_message label)))

pub step_cases :
    (label : String) (w : World)
    → Clean w
    → (step label w ≡ (ok tt, tick label w))
      ⊎ ((step label w ≡ (err (uncertain (crash_message label)), crashed label w))
          × ((n : ℕ) × (w.fail_at ≡ some n)))
unfolding step
step_cases label w h = ground (arith, check_invariants-Clean (tick label w))
