-- ===== src/Harness/Works.antt =====
-- Each effect of the model world keeps it clean and does to the view what the contract says.
use k_carrier.Base.{
  String, true, false, ◌≡◌, refl, ◌∙◌, inl, Option, none, some, List, [], ◌∷◌, ◌++◌, arith, eq_refl,
  ltb, length,
}
use k_carrier.State.{Phase, idle, staged, handing_over, rolled_back, phase_eq, Slot, JournalEntry}
use k_carrier.Invariants.{
  LiveProcess, Slots, slot_version, first_mismatch, contains_phase, never_dual_run, never_bricked,
  live_process_matches_slot, journal_precedes_phase, terminal_leaves_no_experiment,
}
use k_carrier.Harness.{
  World, modify, intents, push_entry, stage_version, clear_experiment, park, kill, resume_service,
}
use k_carrier.Harness.Clean.{Clean}
use k_carrier.Harness.Boundary.{Works}
use k_carrier.Engine.View.{last_intent, Runs}
use k_carrier.Engine.Contract.{Appends, Stages, Clears, Parks, Stops}

contains-append :
    (es : List JournalEntry) (e : JournalEntry) (p : Phase)
    → contains_phase (intents es) p ≡ true
    → contains_phase (intents (es ++ e ∷ [])) p ≡ true
contains-append [] e p h = cc
contains-append (a ∷ es) e p h = ground (arith, contains-append es e p)

phase_eq_refl : (p : Phase) → phase_eq p p ≡ true
phase_eq_refl idle = refl
phase_eq_refl _ = refl

-- The last intent is among the intents.
pub contains-last :
    (es : List JournalEntry) (p : Phase)
    → last_intent es ≡ some p
    → contains_phase (intents es) p ≡ true
contains-last [] p h = cc
contains-last (e ∷ []) p h = ground (arith, phase_eq_refl p)
contains-last (e ∷ f ∷ es) p h = ground (arith, contains-last (f ∷ es) p h)

pub append-Works :
    (entry : JournalEntry) (w : World)
    → Clean w
    → Works (modify (push_entry entry)) (Appends entry) w
unfolding never_dual_run never_bricked live_process_matches_slot journal_precedes_phase
    terminal_leaves_no_experiment
append-Works entry w h = (
  tt,
  record w { journal = w.journal ++ entry ∷ [] },
  ground arith,
  record {
    unmutated = h.unmutated;
    working = h.working;
    single = h.single;
    stocked = h.stocked;
    matched = h.matched;
    logged = ground (arith, contains-append w.journal entry w.phase);
    cleared = h.cleared;
  },
  refl,
  refl,
)

-- Only the stable slot matters to a process of the stable slot.
stable_only :
    (x : String) (live : List LiveProcess) (a b c : Option String)
    → Runs Slot.stable x live
    → first_mismatch (record { stable = a; experiment = b }) live
      ≡ first_mismatch (record { stable = a; experiment = c }) live
unfolding first_mismatch
stable_only x [] a b c h = refl
stable_only x (p ∷ []) a b c h = ground arith
stable_only x (p ∷ q ∷ ps) a b c h = absurd h

pub matched-Runs :
    (slot : Slot) (x : String) (live : List LiveProcess) (slots : Slots)
    → Runs slot x live
    → slot_version slots slot ≡ some x
    → first_mismatch slots live ≡ none
unfolding first_mismatch
matched-Runs slot x [] slots h q = refl
matched-Runs slot x (p ∷ []) slots h q = ground (arith, eq_refl x)
matched-Runs slot x (p ∷ r ∷ ps) slots h q = absurd h

pub short-Runs :
    (slot : Slot) (x : String) (live : List LiveProcess)
    → Runs slot x live
    → ltb 1 (length live) ≡ false
short-Runs slot x [] h = refl
short-Runs slot x (p ∷ []) h = refl
short-Runs slot x (p ∷ r ∷ ps) h = absurd h

pub stage-Works :
    (version : String) (w : World)
    → Clean w
    → last_intent w.journal ≡ some staged
    → ((x : String) × Runs Slot.stable x w.live)
    → Works (modify (stage_version version)) (Stages version) w
unfolding never_dual_run never_bricked live_process_matches_slot journal_precedes_phase
    terminal_leaves_no_experiment
stage-Works version w h intent (x, runs) = (
  tt,
  record w { experiment = some version; phase = staged },
  ground arith,
  record {
    unmutated = h.unmutated;
    working = h.working;
    single = h.single;
    stocked = ground arith;
    matched = stable_only x w.live w.stable (some version) w.experiment runs ∙ h.matched;
    logged = ground (arith, contains-last w.journal staged intent);
    cleared = refl;
  },
  refl,
  refl,
)

pub clear-Works :
    (w : World)
    → Clean w
    → last_intent w.journal ≡ some rolled_back
    → ((x : String) × (Runs Slot.stable x w.live × (w.stable ≡ some x)))
    → Works (modify clear_experiment) Clears w
unfolding never_dual_run never_bricked live_process_matches_slot journal_precedes_phase
    terminal_leaves_no_experiment
clear-Works w h intent (x, (runs, held)) = (
  tt,
  clear_experiment w,
  refl,
  record {
    unmutated = h.unmutated;
    working = h.working;
    single = h.single;
    stocked = ground (arith, held);
    matched = stable_only x w.live w.stable none w.experiment runs ∙ h.matched;
    logged = ground (arith, contains-last w.journal rolled_back intent);
    cleared = refl;
  },
  refl,
  refl,
)

pub park-Works :
    (w : World)
    → Clean w
    → last_intent w.journal ≡ some handing_over
    → Works (modify park) (Parks true) w
unfolding never_dual_run never_bricked live_process_matches_slot journal_precedes_phase
    terminal_leaves_no_experiment
park-Works w h intent = (
  tt,
  park w,
  refl,
  record {
    unmutated = h.unmutated;
    working = h.working;
    single = h.single;
    stocked = h.stocked;
    matched = h.matched;
    logged = ground (arith, contains-last w.journal handing_over intent);
    cleared = refl;
  },
  refl,
  refl,
)

pub kill-Works : (slot : Slot) (w : World) → Clean w → Works (modify kill) (Stops slot) w
unfolding never_dual_run never_bricked live_process_matches_slot journal_precedes_phase
    terminal_leaves_no_experiment
kill-Works slot w h = (
  tt,
  record w { live = [] },
  ground arith,
  record {
    unmutated = h.unmutated;
    working = h.working;
    single = refl;
    stocked = h.stocked;
    matched = refl;
    logged = h.logged;
    cleared = h.cleared;
  },
  (refl, inl refl),
  refl,
)

pub resume-Works : (w : World) → Clean w → Works (modify resume_service) (Parks false) w
resume-Works w h = (
  tt,
  record w { parked = false },
  ground (arith, h.unmutated),
  record {
    unmutated = h.unmutated;
    working = h.working;
    single = h.single;
    stocked = h.stocked;
    matched = h.matched;
    logged = h.logged;
    cleared = h.cleared;
  },
  refl,
  refl,
)
