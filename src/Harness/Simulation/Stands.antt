-- ===== src/Harness/Simulation/Stands.antt =====
-- The simulation of src/harness.rs in the unmutated model world.
use k_carrier.Base.{
  ℕ, zero, suc, ◌+◌, String, Bool, true, ◌≡◌, refl, sym, ap, ◌⊎◌, inl, inr, Option, none, some,
  List, [], ◌∷◌, arith, ◌<>◌, eq_refl, eq_iff,
}
use text.Mathlib.TextLemmas.{append_assoc}
use text.Mathlib.TextPositions.{starts_with_of_prefix}
use k_carrier.State.{Slot}
use k_carrier.Error.{Error, message, uncertain, Result, ok, err}
use k_carrier.Action.{Action, continue, ◌>>=◌}
use k_carrier.Invariants.{
  any_reports, settled_among, never_dual_run, never_bricked, live_process_matches_slot,
  journal_precedes_phase, terminal_leaves_no_experiment, first_mismatch, from_terminal,
  WorldSnapshot, LiveProcess, workload_preserved, service_settles_live,
}
use k_carrier.Engine.{
  Session, Timer, EngineOutcome, promoted_to, rolled_back_for, already_current, upgrade,
  check_budget, validate_entries,
}
use k_carrier.Engine.View.{Runs}
use k_carrier.Engine.Safe.{Settled, Safe, settled}
use k_carrier.Engine.Recovery.{Recovered, recover_restores}
use k_carrier.Engine.Upgrade.{Upgraded, upgrade_ends}
use k_carrier.Harness.{
  World, no_mutation, new_world, inject_crash, mutate, crash_message, fake_engine,
}
use k_carrier.Harness.Clean.{Clean, Crash}
use k_carrier.Harness.Boundary.{view_of}
use k_carrier.Harness.Keeps.{BadEvidence, AtOnce, fake_contract}
use k_carrier.Harness.Simulation.{
  Tally, count_crash, in_session, judge_round, try_upgrade, recover_round, close_round, play_round,
  play_rounds, refuses, simulate,
}

abbrev pub Crashed : Error → Type 0
Crashed x = (label : String) × (x ≡ uncertain (crash_message label))

abbrev pub Rests : World → Type 0
Rests w = Clean w × ((d : String) × Settled d (view_of w))

-- A world that a recovery can bring to rest.
abbrev pub Saved : World → Type 0
Saved w = Clean w × ((d : String) × Safe d (view_of w))

pub inject_crash-Clean : (at : Option ℕ) (w : World) → Clean w → Clean (inject_crash at w)
unfolding inject_crash
inject_crash-Clean at w h = record {
  unmutated = h.unmutated;
  working = h.working;
  single = h.single;
  stocked = h.stocked;
  matched = h.matched;
  logged = h.logged;
  cleared = h.cleared;
}

abbrev Attempted : {A : Type 0} → Result A × Session World → Type 0
Attempted (ok _, s) = Saved s.world
Attempted (err x, s) = Saved s.world × (Crashed x ⊎ BadEvidence x)

-- A round is played to the end, or stopped by malformed evidence.
abbrev pub Played : {A : Type 0} → Result A × World → Type 0
Played (ok _, w) = Rests w
Played (err x, w) = BadEvidence x

count-Crashed : (n : ℕ) (x : Error) → Crashed x → count_crash n (err x) ≡ ok (n + 1)
unfolding count_crash message
count-Crashed n x (label, same) =
    rw
      (
        same,
        starts_with_of_prefix "synthetic crash" (crash_message label)
            (" at " <> label, sym (append_assoc "synthetic crash" " at " label)),
      )
      refl

module _ (timer : Timer World) (self_pid : ℕ) (refuse : Bool) (at_once : AtOnce timer) where
  finished :
      (d t : String) (w : World) (r : Result EngineOutcome × Session World)
      → Upgraded (fake_contract timer self_pid refuse 1 at_once) d t w r
      → Attempted r
  unfolding fake_contract
  finished d t w (ok (promoted_to v), u) (inv, (_, rest), _, _) = (inv, (t, settled rest))
  finished d t w (ok (rolled_back_for r), u) (inv, rest, _, _) = (inv, (d, settled rest))
  finished d t w (ok already_current, u) (inv, (_, rest), _, _) = (inv, (d, settled rest))
  finished d t w (err x, u) (inv, inl safe, why) = ((inv, (d, safe)), cause why)
    where
      cause : Crash w x ⊎ BadEvidence x → Crashed x ⊎ BadEvidence x
      cause (inl c) = inl c.1
      cause (inr b) = inr b
  finished d t w (err x, u) (inv, inr safe, why) = ((inv, (t, safe)), cause why)
    where
      cause : Crash w x ⊎ BadEvidence x → Crashed x ⊎ BadEvidence x
      cause (inl c) = inl c.1
      cause (inr b) = inr b

  upgrade_after :
      (d t bytes : String) (w : World) (r : Result (Unit {0}) × Session World)
      → Recovered (fake_contract timer self_pid refuse 1 at_once) d w r
      → Attempted (continue (λ _. upgrade (fake_engine timer self_pid refuse 1) t bytes) r)
  unfolding fake_contract
  upgrade_after d t bytes w (ok _, u) (inv, rest, number, _) =
      finished d t u.world _
        (upgrade_ends (fake_contract timer self_pid refuse 1 at_once) d t bytes u inv rest number)
  upgrade_after d t bytes w (err x, u) (inv, safe, (_, why)) = ((inv, (d, safe)), inl why)

  try-Attempted :
      (initial : WorldSnapshot) (round : ℕ) (w : World)
      → Rests w
      → Attempted (try_upgrade timer self_pid refuse initial round (record { seq = 0; world = w }))
  unfolding try_upgrade ◌>>=◌ fake_contract
  try-Attempted initial round w (clean, (d, rest)) = upgrade_after d _ _ w _ (
      recover_restores (fake_contract timer self_pid refuse 1 at_once) d
        (record { seq = 0; world = w }) clean (settled rest))

  -- Without a fault to blame, a recovery returns.
  calm :
      (d : String) (w : World) (r : Result (Unit {0}) × Session World)
      → w.fail_at ≡ none
      → Recovered (fake_contract timer self_pid refuse 2 at_once) d w r
      → (s : Session World) × (r ≡ (ok tt, s)) × Clean s.world × Settled d (view_of s.world)
  unfolding fake_contract
  calm d w (ok _, s) unset (inv, rest, _, _) = (s, refl, inv, rest)
  calm d w (err x, s) unset (inv, safe, ((n, set), _)) = absurd (ground (arith, unset, set))

  reports-Runs :
      (d : String) (live : List LiveProcess) → Runs Slot.stable d live → any_reports live d ≡ true
  reports-Runs d [] h = absurd h
  reports-Runs d (p ∷ []) h = ground (arith, eq_refl d)
  reports-Runs d (p ∷ q ∷ ps) h = absurd h

  judged-Rests :
      (initial : WorldSnapshot) (w : World) (d : String)
      → initial.workload_digest ≡ some "synthetic-workload"
      → Clean w
      → Settled d (view_of w)
      → judge_round initial w ≡ ok tt
  unfolding judge_round workload_preserved service_settles_live settled_among from_terminal
  judged-Rests initial w d known h rest = ground (
    arith,
    known,
    h.working,
    rest.shape.stable,
    eq_iff "synthetic-workload" w.workload,
    reports-Runs d w.live rest.shape.live,
  )

  recover_round-Rests :
      (initial : WorldSnapshot) (w : World)
      → initial.workload_digest ≡ some "synthetic-workload"
      → Saved w
      → (w' : World) × (recover_round timer self_pid refuse initial w ≡ (ok tt, w')) × Rests w'
  unfolding recover_round ◌>>=◌ fake_contract check_budget in_session inject_crash
  recover_round-Rests initial w known (clean, (d, safe)) =
      let w₁ : World = inject_crash none w in
      let (s, returns, clean', rest) = calm d w₁ _ refl (
        recover_restores (fake_contract timer self_pid refuse 2 at_once) d
          (record { seq = 0; world = w₁ }) (inject_crash-Clean none w clean) safe) in
      (
        s.world,
        rw
            (
              ap {B = Result (Unit {0}) × World}
                  (λ (r : Result (Unit {0}) × Session World). (r.0, r.1.world)) returns,
              rest.shape.parked,
              judged-Rests initial s.world d known clean' rest,
            )
            refl,
        (clean', (d, rest)),
      )

  close_round-Played :
      (initial : WorldSnapshot) (random : ℕ) (tally : Tally)
      → initial.workload_digest ≡ some "synthetic-workload"
      → (r : Result EngineOutcome × Session World) → Attempted r
      → Played (close_round timer self_pid refuse initial random tally r.0 r.1.world)
  unfolding close_round ◌>>=◌ count_crash message
  close_round-Played initial random tally known (ok o, s) saved =
      let (w', returns, rests) = recover_round-Rests initial s.world known saved in rw returns rests
  close_round-Played initial random tally known (err x, s) (saved, inl crashed) =
      let (w', returns, rests) = recover_round-Rests initial s.world known saved in
      rw (count-Crashed tally.crashes x crashed, returns) rests
  close_round-Played initial random tally known (err x, s) (saved, inr bad) = rw bad refl

  play_round-Played :
      (initial : WorldSnapshot) (round : ℕ) (tally : Tally) (w : World)
      → initial.workload_digest ≡ some "synthetic-workload"
      → Rests w
      → Played (play_round timer self_pid refuse initial round tally w)
  unfolding play_round ◌>>=◌ check_budget in_session inject_crash
  play_round-Played initial round tally w known (clean, (d, rest)) =
      close_round-Played initial _ tally known _
        (try-Attempted initial round _ (inject_crash-Clean _ w clean, (d, rest)))

  continue-Played :
      {A B : Type 0} (f : A → Action World B) (r : Result A × World)
      → Played r
      → ((a : A) (w : World) → Rests w → Played (f a w))
      → Played (continue f r)
  continue-Played f (ok a, w) rests k = k a w rests
  continue-Played f (err x, w) bad k = bad

  play_rounds-Played :
      (initial : WorldSnapshot) (n round : ℕ) (tally : Tally) (w : World)
      → initial.workload_digest ≡ some "synthetic-workload"
      → Rests w
      → Played (play_rounds timer self_pid refuse initial n round tally w)
  unfolding play_rounds ◌>>=◌
  play_rounds-Played initial zero round tally w known rests = rests
  play_rounds-Played initial (suc n) round tally w known rests =
      continue-Played _ _ (play_round-Played initial round tally w known rests)
        λ next w' rests'. play_rounds-Played initial n (round + 1) next w' known rests'

pub new_world-Clean : Clean (mutate no_mutation (new_world "1"))
unfolding mutate new_world never_dual_run never_bricked live_process_matches_slot
    journal_precedes_phase terminal_leaves_no_experiment first_mismatch validate_entries
new_world-Clean = record {
  unmutated = refl;
  working = refl;
  single = refl;
  stocked = refl;
  matched = refl;
  logged = refl;
  cleared = refl;
}

pub new_world-Settled : Settled "1" (view_of (mutate no_mutation (new_world "1")))
unfolding mutate new_world validate_entries
new_world-Settled = record {
  last_phase = none;
  at_rest = refl;
  shape = record {
    valid = refl;
    intent = refl;
    stable = refl;
    experiment = refl;
    live = (refl, refl);
    parked = refl;
  };
}

pub new_world-Rests : Rests (mutate no_mutation (new_world "1"))
new_world-Rests = (new_world-Clean, ("1", new_world-Settled))

-- Over any number of rounds and any seed, the simulation of the unmutated world passes, and ends
-- with the service settled at one version and no invariant violated, unless the predicates found
-- an evidence malformed: no round ends parked, with a changed workload, without a live stable
-- service, or with an error that is not an injected crash.
pub simulate_passes :
    (timer : Timer World) (self_pid seed rounds : ℕ)
    → AtOnce timer
    → Played (simulate timer self_pid seed rounds no_mutation)
unfolding simulate ◌>>=◌ mutate new_world
simulate_passes timer self_pid seed rounds at_once =
    continue-Played timer self_pid (refuses seed) at_once _ _
      (play_rounds-Played timer self_pid (refuses seed) at_once _ rounds 0 _ _ refl new_world-Rests)
      λ tally w rests. rests
