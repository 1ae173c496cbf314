-- ===== src/Tests/Crashes.antt =====
-- src/engine.rs in the model world of src/harness.rs: after a crash in the handover, and through
-- an upgrade that crashes.
use k_carrier.Base.{◌≡◌, ◌↔◌, ◌⊎◌, ℕ, true, false, refl, inl, none, some, [], ◌∷◌}
use k_carrier.State.{Phase, staged, handing_over, JournalEntry}
use k_carrier.Engine.{Session, Timer, recover, upgrade, validate_entries}
use k_carrier.Engine.Safe.{Safe, switching}
use k_carrier.Engine.Recovery.{Recovered, recover_restores}
use k_carrier.Engine.Upgrade.{Upgraded, upgrade_ends}
use k_carrier.Engine.Survival.{Restored, recovery, born, OneService, life-OneService}
use k_carrier.Invariants.Reports.{SettlesLive, service_settles_live-SettlesLive}
use k_carrier.Invariants.Sound.{Sound, check_invariants-Sound}
use k_carrier.Invariants.{
  check_invariants, built_in_invariants, service_settles_live, never_dual_run, never_bricked,
  live_process_matches_slot, journal_precedes_phase, terminal_leaves_no_experiment, first_mismatch,
}
use k_carrier.Harness.{
  snapshot_of, World, new_world, mutate, no_mutation, inject_crash, fake_engine,
}
use k_carrier.Harness.Clean.{Clean}
use k_carrier.Harness.Boundary.{view_of}
use k_carrier.Harness.Keeps.{AtOnce, fake_contract}
use k_carrier.Harness.Simulation.{simulate}
use k_carrier.Harness.Survival.{crash-recover}
use k_carrier.Harness.Simulation.Stands.{
  Played, inject_crash-Clean, new_world-Clean, new_world-Settled, simulate_passes,
}

abbrev prompt : Timer World
prompt = record { elapsed = λ A budget call w. none }

abbrev prompt_at_once : AtOnce prompt
prompt_at_once A budget call w = refl

abbrev entry : ℕ → Phase → JournalEntry
entry n intent = record {
  seq = n;
  timestamp_ms = 1;
  intent = intent;
  detail = ("version", "2") ∷ ("formatVersion", "1") ∷ [];
}

-- The process of version 1 was stopped, and the one of version 2 was not started yet.
abbrev handed_over : World
unfolding new_world
handed_over = record (new_world "1") {
  phase = handing_over;
  experiment = some "2";
  journal = entry 0 staged ∷ entry 1 handing_over ∷ [];
  live = [];
  parked = true;
}

handed_over-Clean : Clean handed_over
unfolding never_dual_run never_bricked live_process_matches_slot journal_precedes_phase
    terminal_leaves_no_experiment first_mismatch new_world
handed_over-Clean = record {
  unmutated = refl;
  working = refl;
  single = refl;
  stocked = refl;
  matched = refl;
  logged = refl;
  cleared = refl;
}

handed_over-Safe : Safe "1" (view_of handed_over)
unfolding validate_entries new_world k_carrier.Validate.validate_entry
handed_over-Safe = switching {t = "2"} refl (record {
  valid = refl;
  intent = refl;
  stable = refl;
  experiment = refl;
  live = inl refl;
  parked = tt;
})

abbrev session_of : World → Session World
session_of w = record { seq = 0; world = w }

recover_restores_example :
    Recovered
      (fake_contract prompt 77 false 1 prompt_at_once)
      "1"
      handed_over
      (recover (fake_engine prompt 77 false 1) (session_of handed_over))
unfolding fake_contract
recover_restores_example =
    recover_restores (fake_contract prompt 77 false 1 prompt_at_once) "1" (session_of handed_over)
      handed_over-Clean handed_over-Safe

abbrev first_world : World
first_world = mutate no_mutation (new_world "1")

abbrev crashing_world : World
crashing_world = inject_crash (some 15) first_world

upgrade_ends_example :
    Upgraded
      (fake_contract prompt 77 false 1 prompt_at_once)
      "1"
      "2"
      crashing_world
      (upgrade (fake_engine prompt 77 false 1) "2" "bytes" (session_of crashing_world))
unfolding inject_crash mutate new_world fake_contract
upgrade_ends_example =
    upgrade_ends (fake_contract prompt 77 false 1 prompt_at_once) "1" "2" "bytes"
      (session_of crashing_world) (inject_crash-Clean (some 15) first_world new_world-Clean)
      new_world-Settled refl

crash-recover_example :
    Restored (fake_contract prompt 77 false 1 prompt_at_once) "1" (
      recover (fake_engine prompt 77 false 1) (
        session_of (
          inject_crash none
            (upgrade
              (fake_engine prompt 77 false 1)
              "2"
              "bytes"
              (session_of crashing_world)).1.world)))
    ⊎ Restored (fake_contract prompt 77 false 1 prompt_at_once) "2" (
        recover (fake_engine prompt 77 false 1) (
          session_of (
            inject_crash none
              (upgrade
                (fake_engine prompt 77 false 1)
                "2"
                "bytes"
                (session_of crashing_world)).1.world)))
unfolding fake_contract inject_crash mutate new_world
crash-recover_example =
    crash-recover prompt 77 false 1 prompt_at_once "1" "2" "bytes" (some 15) first_world
      new_world-Clean new_world-Settled

life-OneService_example :
    OneService (view_of (recover (fake_engine prompt 77 false 1) (session_of handed_over)).1.world)
unfolding fake_contract
life-OneService_example =
    life-OneService (fake_contract prompt 77 false 1 prompt_at_once) "1" handed_over _
      handed_over-Clean handed_over-Safe (recovery (session_of handed_over) born)

simulate_passes_example : Played (simulate prompt 77 5 3 no_mutation)
simulate_passes_example = simulate_passes prompt 77 5 3 prompt_at_once

check_invariants-Sound_example :
    (check_invariants (snapshot_of handed_over) built_in_invariants ≡ [])
    ↔ Sound (snapshot_of handed_over)
check_invariants-Sound_example = check_invariants-Sound (snapshot_of handed_over)

service_settles_live-SettlesLive_example :
    (service_settles_live (snapshot_of handed_over ∷ snapshot_of first_world ∷ []) 1 ≡ none)
    ↔ SettlesLive 1 (snapshot_of handed_over ∷ snapshot_of first_world ∷ [])
service_settles_live-SettlesLive_example =
    service_settles_live-SettlesLive (snapshot_of handed_over ∷ snapshot_of first_world ∷ []) 1
