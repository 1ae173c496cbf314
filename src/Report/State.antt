-- ===== src/Report/State.antt =====
-- The transaction state of src/report.rs, as it is read from the journal and the slots.
use k_carrier.Base.{
  String, true, false, ◌≡◌, ◌≢◌, refl, ◌⊎◌, inl, inr, Option, none, some, List, last, arith,
}
use k_carrier.State.{
  Phase, idle, staged, handing_over, running_experiment, readback, promoted, rolled_back, at_rest,
  JournalEntry,
}
use k_carrier.Error.{Result, ok, err}
use k_carrier.Report.{
  TxnState, at_staged, at_handing_over, at_running_experiment, at_readback, phase_of,
  stable_version_of, experiment_version_of, phase_at, version_or_zero, with_experiment, state_at,
  transaction_state, reason_at,
}

-- A state says the phase and the stable version that were read; in flight it has the version that
-- the experiment slot holds, and at rest none. Only an in-flight phase without one is an error.
abbrev pub Described : Phase → String → Result (Option String) → Result TxnState → Type 0
Described p s experiment (ok state) =
    (phase_of state ≡ p)
    × (stable_version_of state ≡ s)
    × (((at_rest p ≡ true) × (experiment_version_of state ≡ none))
        ⊎ ((at_rest p ≡ false)
            × ((x : String) × (experiment ≡ ok (some x)) × (experiment_version_of state ≡ some x))))
Described p s experiment (err x) = (at_rest p ≡ false) × ((v : String) → experiment ≢ ok (some v))

in_flight-Described :
    (p : Phase) (s : String) (make : String → TxnState) (experiment : Result (Option String))
    → at_rest p ≡ false
    → ((x : String)
        → (phase_of (make x) ≡ p)
          × (stable_version_of (make x) ≡ s)
          × (experiment_version_of (make x) ≡ some x))
    → Described p s experiment (with_experiment make experiment)
in_flight-Described p s make (ok (some x)) moving made =
    let (phased, stays, tried) = made x in (phased, stays, inr (moving, (x, refl, tried)))
in_flight-Described p s make (ok none) moving made = (moving, λ v q. ground (arith, q))
in_flight-Described p s make (err x) moving made = (moving, λ v q. ground (arith, q))

state_at-Described :
    (p : Phase) (s : String) (why : Option String) (experiment : Result (Option String))
    → Described p s experiment (state_at p s why experiment)
unfolding state_at phase_of stable_version_of experiment_version_of
state_at-Described idle s why experiment = (refl, refl, inl (refl, refl))
state_at-Described promoted s why experiment = (refl, refl, inl (refl, refl))
state_at-Described rolled_back s why experiment = (refl, refl, inl (refl, refl))
state_at-Described staged s why experiment =
    in_flight-Described staged s (at_staged s) experiment refl λ x. (refl, refl, refl)
state_at-Described handing_over s why experiment =
    in_flight-Described handing_over s (at_handing_over s) experiment refl λ x. (refl, refl, refl)
state_at-Described running_experiment s why experiment =
    in_flight-Described running_experiment s (at_running_experiment s) experiment refl
      λ x. (refl, refl, refl)
state_at-Described readback s why experiment =
    in_flight-Described readback s (at_readback s) experiment refl λ x. (refl, refl, refl)

-- With a readable journal and stable slot, the transaction's state is the last intent's phase with
-- the stable version; in flight it carries the experiment's version, whose absence is the only
-- error.
pub transaction_state-Described :
    (entries : List JournalEntry) (held : Option String) (experiment : Result (Option String))
    → Described
        (phase_at (last entries))
        (version_or_zero held)
        experiment
        (transaction_state (ok entries) (ok held) experiment)
unfolding transaction_state
transaction_state-Described entries held experiment =
    state_at-Described (phase_at (last entries)) (version_or_zero held) (reason_at (last entries))
      experiment
