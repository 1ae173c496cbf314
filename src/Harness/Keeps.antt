-- ===== src/Harness/Keeps.antt =====
-- The model world keeps the engine's contract.
use k_carrier.Base.{
  ℕ, String, Bool, ◌≡◌, refl, sym, subst, ◌⊎◌, inl, inr, none, some, Bool-cases, arith, lookup,
  true, false, ◌||◌, nat_eq, is_empty,
}
use k_carrier.State.{staged, handing_over, promoted, rolled_back, Slot, Evidence}
use k_carrier.Error.{Error, invalid}
use k_carrier.Action.{Action}
use k_carrier.Validate.{validate_evidence}
use k_carrier.Engine.{Timer, version_predicate}
use k_carrier.Engine.View.{View, Ends, Runs, last_intent}
use k_carrier.Engine.Contract.{
  Contract, Never, Unchanged, Appends, Stages, Promotes, Clears, Parks, Stops, Starts, MayStart,
  Probes,
}
use k_carrier.Harness.{
  World, modify, push_entry, stage_version, promote_experiment, clear_experiment, park, kill,
  start_process, observe, resume_service, simulation_predicates, fake_engine,
}
use k_carrier.Harness.Clean.{Clean}
use k_carrier.Harness.Boundary.{view_of, fake_observer, Works, around-Ends}
use k_carrier.Harness.Works.{
  append-Works, stage-Works, clear-Works, park-Works, kill-Works, resume-Works,
}
use k_carrier.Harness.Processes.{promote-Works, start-Works, observe-Works}

-- The one error that the simulation's predicates raise.
abbrev pub BadEvidence : Error → Type 0
BadEvidence x = x ≡ invalid "HOST_EVIDENCE_INVALID"

-- A call of the model world is ready at once, so its budget never runs out.
abbrev pub AtOnce : Timer World → Type 1
AtOnce timer =
    (A : Type 0) (budget : ℕ) (call : Action World A) (w : World)
    → timer.elapsed A budget call w ≡ none

-- An effect whose premises depend on the view alone.
pub effect-Ends :
    {A : Type 0} (name : String) (effect : Action World A) (Step : A → View → View → Type 0)
    (P : View → Type 0) (w : World)
    → Clean w
    → P (view_of w)
    → ((w₁ : World) → Clean w₁ → P (view_of w₁) → Works effect Step w₁)
    → Ends fake_observer Never Step w (k_carrier.Harness.around name effect w)
effect-Ends name effect Step P w h p works =
    around-Ends name effect Step w h λ w₁ h₁ same. works w₁ h₁ (subst P (sym same) p)

pub evaluate-Ends :
    (self_pid : ℕ) (refuse : Bool) (evidence : Evidence) (target : String) (w : World)
    → Clean w
    → Ends fake_observer BadEvidence Unchanged w
        (simulation_predicates self_pid refuse evidence target w)
unfolding simulation_predicates version_predicate validate_evidence
evaluate-Ends self_pid refuse evidence target w h =
    elim (Bool-cases (
      is_empty evidence.version
      || is_empty evidence.start_id
      || nat_eq evidence.pid 0
      || nat_eq evidence.pid self_pid)) [
        | inl bad ↦ rw bad (h, inl refl, inr refl, λ x b. b)
        | inr good ↦ rw good (h, refl, λ x b. b)
      ]

module _ (timer : Timer World) (self_pid : ℕ) (refuse : Bool) (now : ℕ)
    (at_once : AtOnce timer) where
  -- The model world keeps the contract, with an error of its predicates for malformed evidence.
  unfoldable pub fake_contract : Contract (fake_engine timer self_pid refuse now) BadEvidence
  unfolding lookup
  fake_contract = record {
    observer = fake_observer;
    read_journal = λ w h. (h, (refl, refl), λ x b. b);
    versions = λ w h. (h, (refl, refl), λ x b. b);
    append = λ entry w h _.
        around-Ends "journal" (modify (push_entry entry)) (Appends entry) w h
          λ w₁ h₁ _. append-Works entry w₁ h₁;
    stage = λ version bytes w h intent runs.
        effect-Ends "stage" _ (Stages version)
          (λ v. (last_intent v.journal ≡ some staged) × ((x : String) × Runs Slot.stable x v.live))
          w h (intent, runs) λ w₁ h₁ p. stage-Works version w₁ h₁ p.0 p.1;
    promote = λ w h intent from.
        effect-Ends "promote" _ Promotes
          (λ v.
            (last_intent v.journal ≡ some promoted)
            × (((x : String) × (Runs Slot.experiment x v.live × (v.experiment ≡ some x)))
                ⊎ ((v.experiment ≡ none)
                    × ((x : String) × (Runs Slot.stable x v.live × (v.stable ≡ some x))))))
          w h (intent, from) λ w₁ h₁ p. promote-Works w₁ h₁ p.0 p.1;
    clear = λ w h intent runs.
        effect-Ends "clear" _ Clears
          (λ v.
            (last_intent v.journal ≡ some rolled_back)
            × ((x : String) × (Runs Slot.stable x v.live × (v.stable ≡ some x))))
          w h (intent, runs) λ w₁ h₁ p. clear-Works w₁ h₁ p.0 p.1;
    fence = λ w h. (h, refl, λ x b. b);
    quiesce = λ w h intent.
        effect-Ends "quiesce" _ (Parks true) (λ v. last_intent v.journal ≡ some handing_over) w h
          intent λ w₁ h₁ p. park-Works w₁ h₁ p;
    stop = λ slot w h.
        around-Ends "stop" (modify kill) (Stops slot) w h λ w₁ h₁ _. kill-Works slot w₁ h₁;
    start = λ slot w h may.
        effect-Ends "start" _ (Starts slot) (MayStart slot) w h may
          λ w₁ h₁ p. start-Works slot w₁ h₁ p;
    probe = λ w h runs.
        effect-Ends "probe" _ Probes (λ v. (slot : Slot) × (x : String) × Runs slot x v.live) w h
          runs λ w₁ h₁ p. observe-Works w₁ h₁ p;
    resume = λ w h.
        around-Ends "resume" (modify resume_service) (Parks false) w h
          λ w₁ h₁ _. resume-Works w₁ h₁;
    evaluate = λ evidence target w h. evaluate-Ends self_pid refuse evidence target w h;
    now = λ w h. (h, refl, λ x b. b);
    cut = λ A label call w w' h late. absurd (ground (arith, at_once A 1000 call w));
  }
