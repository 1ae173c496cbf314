-- ===== src/Harness/Processes.antt =====
-- The effects of the model world on its processes: promoting, starting and observing them.
use k_carrier.Base.{
  String, false, ◌≡◌, refl, subst, ap, ◌∙◌, ◌⊎◌, inl, inr, Option, none, some, List, [], ◌∷◌, arith,
}
use k_carrier.State.{promoted, Slot, Evidence}
use k_carrier.Error.{ok}
use k_carrier.Invariants.{
  LiveProcess, slot_version, first_mismatch, never_dual_run, never_bricked,
  live_process_matches_slot, journal_precedes_phase, terminal_leaves_no_experiment,
}
use k_carrier.Harness.{
  World, modify, promote_experiment, all_stable, take_experiment, none_in, held_in, start_process,
  observe, spawn, evidence_of,
}
use k_carrier.Harness.Clean.{Clean}
use k_carrier.Harness.Boundary.{view_of, Works}
use k_carrier.Engine.View.{last_intent, Runs, to_stable, or_else, version_in}
use k_carrier.Engine.Contract.{Promotes, Starts, MayStart, Probes, Describes}
use k_carrier.Harness.Works.{contains-last, matched-Runs, short-Runs}

all_stable-Runs :
    (slot : Slot) (x : String) (live : List LiveProcess)
    → Runs slot x live
    → Runs Slot.stable x (all_stable live)
all_stable-Runs slot x [] h = h
all_stable-Runs slot x (p ∷ []) h = (refl, h.1)
all_stable-Runs slot x (p ∷ q ∷ ps) h = absurd h

all_stable-to_stable : (live : List LiveProcess) → all_stable live ≡ to_stable live
all_stable-to_stable [] = refl
all_stable-to_stable (p ∷ ps) =
    ap (λ qs. record p { slot = Slot.stable } ∷ qs) (all_stable-to_stable ps)

take_experiment-or_else : (x y : Option String) → take_experiment x y ≡ or_else x y
take_experiment-or_else none y = refl
take_experiment-or_else (some x) y = refl

promoted-Clean :
    (slot : Slot) (x : String) (w : World)
    → Clean w
    → last_intent w.journal ≡ some promoted
    → Runs slot x w.live
    → take_experiment w.experiment w.stable ≡ some x
    → Clean (promote_experiment w)
unfolding never_dual_run never_bricked live_process_matches_slot journal_precedes_phase
    terminal_leaves_no_experiment
promoted-Clean slot x w h intent runs held =
    let restarted = all_stable-Runs slot x w.live runs in
    record {
      unmutated = h.unmutated;
      working = h.working;
      single = ground (arith, short-Runs Slot.stable x (all_stable w.live) restarted);
      stocked = ground (arith, held);
      matched = matched-Runs Slot.stable x (all_stable w.live) _ restarted held;
      logged = ground (arith, contains-last w.journal promoted intent);
      cleared = refl;
    }

pub promote-Works :
    (w : World)
    → Clean w
    → last_intent w.journal ≡ some promoted
    → ((x : String) × (Runs Slot.experiment x w.live × (w.experiment ≡ some x)))
      ⊎ ((w.experiment ≡ none) × ((x : String) × (Runs Slot.stable x w.live × (w.stable ≡ some x))))
    → Works (modify promote_experiment) Promotes w
promote-Works w h intent from = (tt, promote_experiment w, refl, clean from, moved, refl)
  where
    clean :
        ((x : String) × (Runs Slot.experiment x w.live × (w.experiment ≡ some x)))
          ⊎ ((w.experiment ≡ none)
              × ((x : String) × (Runs Slot.stable x w.live × (w.stable ≡ some x))))
        → Clean (promote_experiment w)
    clean (inl (x, (runs, held))) =
        promoted-Clean Slot.experiment x w h intent runs (ap (λ o. take_experiment o w.stable) held)
    clean (inr (gone, (x, (runs, held)))) =
        promoted-Clean Slot.stable x w h intent runs
          (ap (λ o. take_experiment o w.stable) gone ∙ held)

    moved : Promotes tt (view_of w) (view_of (promote_experiment w))
    moved = rw (take_experiment-or_else w.experiment w.stable, all_stable-to_stable w.live) refl

none_in-Runs :
    (slot : Slot) (x : String) (live : List LiveProcess)
    → Runs slot x live
    → none_in slot live ≡ false
none_in-Runs slot x [] h = absurd h
none_in-Runs slot x (p ∷ []) h = ground arith
none_in-Runs slot x (p ∷ q ∷ ps) h = absurd h

version_in-held :
    (slot : Slot) (w : World) (x : String)
    → version_in slot (view_of w) ≡ some x
    → (held_in slot w ≡ some x)
      × (slot_version (record { stable = w.stable; experiment = w.experiment }) slot ≡ some x)
version_in-held Slot.stable w x h = (h, h)
version_in-held Slot.experiment w x h = (h, h)

same_version :
    (slot : Slot) (w : World) (x y : String)
    → version_in slot (view_of w) ≡ some x
    → version_in slot (view_of w) ≡ some y
    → x ≡ y
same_version slot w x y p q = cc

spawned-Runs :
    (slot : Slot) (x : String) (w : World) → w.live ≡ [] → Runs slot x (spawn slot x w).live
spawned-Runs slot x w h = rw h (refl, refl)

pub start-Works :
    (slot : Slot) (w : World)
    → Clean w
    → MayStart slot (view_of w)
    → Works (start_process slot) (Starts slot) w
unfolding start_process never_dual_run never_bricked live_process_matches_slot
    journal_precedes_phase terminal_leaves_no_experiment first_mismatch
start-Works slot w h (x, held, inl empty) =
    let (found, listed) = version_in-held slot w x held in
    let w' : World = spawn slot x w in
    let spawned = spawned-Runs slot x w empty in
    (
      tt,
      w',
      rw (found, ap (none_in slot) empty) refl,
      record {
        unmutated = h.unmutated;
        working = h.working;
        single = ground (arith, short-Runs slot x w'.live spawned);
        stocked = h.stocked;
        matched = matched-Runs slot x w'.live _ spawned listed;
        logged = h.logged;
        cleared = h.cleared;
      },
      (refl, λ y q. subst (λ z. Runs slot z w'.live) (same_version slot w x y held q) spawned),
      refl,
    )
start-Works slot w h (x, held, inr runs) = (
  tt,
  w,
  rw (none_in-Runs slot x w.live runs) refl,
  h,
  (refl, λ y q. subst (λ z. Runs slot z w.live) (same_version slot w x y held q) runs),
  refl,
)

observed :
    (slot : Slot) (x : String) (live : List LiveProcess)
    → Runs slot x live
    → (e : Evidence) × (evidence_of live ≡ ok e) × Describes e live
observed slot x [] h = absurd h
observed slot x (p ∷ []) h =
    (record { version = p.version; pid = p.pid; start_id = p.start_id }, refl, (refl, refl, refl))
observed slot x (p ∷ q ∷ ps) h = absurd h

pub observe-Works :
    (w : World)
    → Clean w
    → ((slot : Slot) × (x : String) × Runs slot x w.live)
    → Works observe Probes w
unfolding observe
observe-Works w h (slot, x, runs) =
    let (e, found, described) = observed slot x w.live runs in
    (e, w, ap (λ r. (r, w)) found, h, (refl, described), refl)
