-- ===== src/Harness.antt =====
-- src/harness.rs: the model world that crashes at every effect boundary, and the simulation that
-- runs the engine in it.
pub mod Clean
pub mod Boundary
pub mod Works
pub mod Processes
pub mod Keeps
pub mod Simulation
pub mod Survival
use k_carrier.Base.{
  ℕ, zero, suc, ◌+◌, ◌*◌, ◌/◌, ◌%◌, ◌^◌, String, Bool, true, false, not, ◌&&◌, ◌||◌, Option, none,
  some, List, [], ◌∷◌, ◌++◌, map, Dict, ◌<>◌, ◌==◌, decimal, nat_eq, next_u64, if◌then◌else◌,
  length,
}
use k_carrier.State.{
  Phase, idle, staged, handing_over, promoted, rolled_back, Slot, slot_eq, Evidence, JournalEntry,
}
use k_carrier.Error.{Error, invalid, uncertain, Result, ok, err, ◌>>=◌ as bind_result}
use k_carrier.Action.{Action, pure, raise, lift, gets, require, ◌>>=◌, ◌>>◌}
use k_carrier.Invariants.{
  LiveProcess, Slots, Ownership, self_owned, WorldSnapshot, Violation, check_invariants,
  built_in_invariants,
}
use k_carrier.Engine.{Engine, Effects, Host, Timer, version_predicate}

pub data Mutation : Type 0 where
  no_mutation lose_stable drop_journal dual_run lose_workload never_resume : Mutation

abbrev pub mutation_eq : Mutation → Mutation → Bool
mutation_eq no_mutation no_mutation = true
mutation_eq lose_stable lose_stable = true
mutation_eq drop_journal drop_journal = true
mutation_eq dual_run dual_run = true
mutation_eq lose_workload lose_workload = true
mutation_eq never_resume never_resume = true
mutation_eq _ _ = false

-- `struct State`.
pub record World : Type 0 where
  pub phase : Phase
  pub stable : Option String
  pub experiment : Option String
  pub journal : List JournalEntry
  pub live : List LiveProcess
  pub incarnation : ℕ  -- u32
  pub parked : Bool
  pub workload : String
  pub boundary : ℕ  -- usize
  pub fail_at : Option ℕ
  pub trace : List String
  pub mutation : Mutation

-- `FakeHost::new`
unfoldable pub new_world : String → World
new_world version = record {
  phase = idle;
  stable = some version;
  experiment = none;
  journal = [];
  live = record { slot = Slot.stable; pid = 1; start_id = "boot-1"; version = version } ∷ [];
  incarnation = 1;
  parked = false;
  workload = "synthetic-workload";
  boundary = 0;
  fail_at = none;
  trace = [];
  mutation = no_mutation;
}

unfoldable pub inject_crash : Option ℕ → World → World
inject_crash at w = record w { boundary = 0; fail_at = at }

unfoldable pub mutate : Mutation → World → World
mutate m w = record w { mutation = m }

abbrev pub intents : List JournalEntry → List Phase
intents [] = []
intents (e ∷ es) = e.intent ∷ intents es

abbrev pub snapshot_of : World → WorldSnapshot
snapshot_of w = record {
  phase = w.phase;
  slots = record { stable = w.stable; experiment = w.experiment };
  live_processes = w.live;
  journal_intents = intents w.journal;
  workload_digest = some w.workload;
  prior_incarnation_start_id = none;
  install_ownership = some self_owned;
}

abbrev pub fails_here : Option ℕ → ℕ → Bool
fails_here none n = false
fails_here (some k) n = nat_eq k n

abbrev pub tick : String → World → World
tick label w = record w { boundary = next_u64 w.boundary; trace = w.trace ++ label ∷ [] }

abbrev pub crash_message : String → String
crash_message label = "synthetic crash at " <> label

abbrev report_violation : List Violation → Result (Unit {0})
report_violation [] = ok tt
report_violation (v ∷ _) =
    err (uncertain ("HARNESS_INVARIANT: " <> v.invariant_id <> ": " <> v.reason))

unfoldable pub step : String → Action World (Unit {0})
step label w =
    let w' = tick label w in
    if fails_here w.fail_at w'.boundary
    then (err (uncertain (crash_message label)), record w' { fail_at = none })
    else (report_violation (check_invariants (snapshot_of w') built_in_invariants), w')

-- Each effect is an action between two boundaries.
pub around : {A : Type 0} → String → Action World A → Action World A
around name effect = do step ("before:" <> name); a ← effect; step ("after:" <> name); pure a

abbrev pub modify : (World → World) → Action World (Unit {0})
modify f w = (ok tt, f w)

abbrev pub is_mutation : Mutation → World → Bool
is_mutation m w = mutation_eq w.mutation m

-- The bodies of the effects.
abbrev pub push_entry : JournalEntry → World → World
push_entry entry w =
    if is_mutation drop_journal w then w else record w { journal = w.journal ++ entry ∷ [] }

abbrev pub stage_version : String → World → World
stage_version version w =
    let staged_world = record w { experiment = some version; phase = staged } in
    if is_mutation lose_stable w
    then record staged_world { stable = none; experiment = none }
    else staged_world

abbrev pub take_experiment : Option String → Option String → Option String
take_experiment none stable = stable
take_experiment (some v) stable = some v

abbrev pub all_stable : List LiveProcess → List LiveProcess
all_stable [] = []
all_stable (p ∷ ps) = record p { slot = Slot.stable } ∷ all_stable ps

abbrev pub promote_experiment : World → World
promote_experiment w = record w {
  stable = take_experiment w.experiment w.stable;
  experiment = none;
  live = all_stable w.live;
  phase = promoted;
}

abbrev pub clear_experiment : World → World
clear_experiment w = record w { experiment = none; phase = rolled_back }

abbrev pub park : World → World
park w = record w { parked = true; phase = handing_over }

abbrev pub kill : World → World
kill w = if is_mutation dual_run w then w else record w { live = [] }

abbrev pub none_in : Slot → List LiveProcess → Bool
none_in slot [] = true
none_in slot (p ∷ ps) = not (slot_eq p.slot slot) && none_in slot ps

abbrev pub held_in : Slot → World → Option String
held_in Slot.stable w = w.stable
held_in Slot.experiment w = w.experiment

abbrev pub spawn : Slot → String → World → World
spawn slot version w =
    let pid : ℕ = (w.incarnation + 1) % 2 ^ 32 in
    record w {
      incarnation = pid;
      live =
          w.live
          ++ record { slot = slot; pid = pid; start_id = "boot-" <> decimal pid; version = version }
            ∷ [];
    }

abbrev spawn_held : Slot → Option String → Action World (Unit {0})
spawn_held slot none w = (err (invalid "missing model slot"), w)
spawn_held slot (some version) w = (ok tt, spawn slot version w)

unfoldable pub start_process : Slot → Action World (Unit {0})
start_process slot w =
    if none_in slot w.live then spawn_held slot (held_in slot w) w else (ok tt, w)

abbrev pub evidence_of : List LiveProcess → Result Evidence
evidence_of [] = err (invalid "model service stopped")
evidence_of (p ∷ _) = ok (record { version = p.version; pid = p.pid; start_id = p.start_id })

unfoldable pub observe : Action World Evidence
observe w = (evidence_of w.live, w)

abbrev pub resume_service : World → World
resume_service w =
    let resumed = if is_mutation never_resume w then w else record w { parked = false } in
    if is_mutation lose_workload w then record resumed { workload = "lost" } else resumed

abbrev pub slot_versions : World → Dict (Option String)
slot_versions w = ("stable", w.stable) ∷ ("experiment", w.experiment) ∷ []

-- `impl Effects for FakeHost`
abbrev pub fake_effects : Effects World
fake_effects = record {
  read_journal = λ w. (ok w.journal, w);
  append = λ entry. around "journal" (modify (push_entry entry));
  versions = λ w. (ok (slot_versions w), w);
  stage = λ version bytes. around "stage" (modify (stage_version version));
  promote = around "promote" (modify promote_experiment);
  clear = around "clear" (modify clear_experiment);
}

-- `impl Host for FakeHost`; `fence` is the trait's default.
abbrev pub fake_host : Host World
fake_host = record {
  fence = λ w. (ok tt, w);
  quiesce = around "quiesce" (modify park);
  stop = λ slot. around "stop" (modify kill);
  start = λ slot. around "start" (start_process slot);
  probe = around "probe" observe;
  resume = around "resume" (modify resume_service);
}

abbrev or_refuse : Bool → Option String → Option String
or_refuse refuse (some reason) = some reason
or_refuse true none = some "synthetic readback refusal"
or_refuse false none = none

-- `SimulationPredicates::evaluate`
unfoldable pub simulation_predicates : ℕ → Bool → Evidence → String → Action World (Option String)
simulation_predicates self_pid refuse evidence target w = (
  bind_result (version_predicate self_pid evidence target) λ reason. ok (or_refuse refuse reason),
  w,
)

-- `Engine::new(&world, &world, &predicates, &|| now, 1000)`
abbrev pub fake_engine : Timer World → ℕ → Bool → ℕ → Engine World
fake_engine timer self_pid refuse now = record {
  effects = fake_effects;
  host = fake_host;
  evaluate = simulation_predicates self_pid refuse;
  now = λ w. (now, w);
  budget = 1000;
  timer = timer;
}
