-- ===== src/Harness/Simulation.antt =====
-- `simulate` of src/harness.rs: rounds of upgrades with a crash injected into each.
pub mod Stands
use k_carrier.Base.{
  ℕ, zero, suc, ◌+◌, ◌*◌, ◌/◌, ◌%◌, ◌^◌, String, Bool, true, false, Option, none, some, List, [],
  ◌∷◌, nat_eq, decimal, starts_with, bit_xor, if◌then◌else◌,
}
use k_carrier.Error.{Error, message, Result, ok, err, refuse_if, invalid}
use k_carrier.Action.{Action, pure, lift, gets, attempt, ◌>>=◌, ◌>>◌}
use k_carrier.Invariants.{first_some, WorldSnapshot, workload_preserved, service_settles_live}
use k_carrier.Engine.{Engine, Session, Timer, EngineOutcome, check_budget, recover, upgrade}
use k_carrier.Harness.{
  World, Mutation, new_world, inject_crash, mutate, modify, snapshot_of, fake_engine,
}

pub record SimulationReceipt : Type 0 where
  pub seed : ℕ
  pub scenario : String
  pub rounds : ℕ
  pub crashes : ℕ
  pub boundaries : ℕ
  pub result : String

-- What the loop counts.
pub record Tally : Type 0 where
  pub random : ℕ  -- u32
  pub crashes : ℕ
  pub boundaries : ℕ

-- `random ^= random << 13; random ^= random >> 17; random ^= random << 5` on `u32`.
pub next_random : ℕ → ℕ
next_random r =
    let a : ℕ = bit_xor r (r * 2 ^ 13 % 2 ^ 32) in
    let b : ℕ = bit_xor a (a / 2 ^ 17) in bit_xor b (b * 2 ^ 5 % 2 ^ 32)

abbrev pub crash_boundary : ℕ → Option ℕ
crash_boundary random = let at : ℕ = random % 44 in if nat_eq at 0 then none else some at

-- An injected crash is counted; another error ends the simulation.
unfoldable pub count_crash : ℕ → Result EngineOutcome → Result ℕ
count_crash n (ok _) = ok n
count_crash n (err x) = if starts_with (message x) "synthetic crash" then ok (n + 1) else err x

-- A new engine's session over the world; its number starts at 0.
unfoldable pub in_session : {A : Type 0} → Action (Session World) A → Action World A
in_session m w = let r = m (record { seq = 0; world = w }) in (r.0, r.1.world)

abbrev refuse_for : Option String → Result (Unit {0})
refuse_for none = ok tt
refuse_for (some reason) = err (invalid reason)

unfoldable pub judge_round : WorldSnapshot → World → Result (Unit {0})
judge_round initial w =
    let snapshot = snapshot_of w in
    refuse_for
      (first_some (workload_preserved initial snapshot) (service_settles_live (snapshot ∷ []) 1))

module _ (timer : Timer World) (self_pid : ℕ) (refuse : Bool) (initial : WorldSnapshot) where
  pub try_upgrade : ℕ → Action (Session World) EngineOutcome
  try_upgrade round = do
    recover (fake_engine timer self_pid refuse 1)
    upgrade (fake_engine timer self_pid refuse 1) (decimal (round + 2)) "synthetic-artifact"

  -- The second half of a round: the recovery without a fault, and the checks after it.
  pub recover_round : Action World (Unit {0})
  recover_round = do
    modify (inject_crash none)
    lift (check_budget 1000)
    in_session (recover (fake_engine timer self_pid refuse 2))
    parked ← gets (λ w. w.parked)
    lift (refuse_if parked "HARNESS_PARKED: recovery did not resume")
    judged ← gets (judge_round initial)
    lift judged

  pub close_round : ℕ → Tally → Result EngineOutcome → Action World Tally
  close_round random tally outcome = do
    crashes ← lift (count_crash tally.crashes outcome)
    boundaries ← gets (λ w. w.boundary)
    recover_round
    pure (record { random = random; crashes = crashes; boundaries = tally.boundaries + boundaries })

  pub play_round : ℕ → Tally → Action World Tally
  play_round round tally = do
    let random : ℕ = next_random tally.random
    modify (inject_crash (crash_boundary random))
    lift (check_budget 1000)
    outcome ← attempt (in_session (try_upgrade round))
    close_round random tally outcome

  pub play_rounds : ℕ → ℕ → Tally → Action World Tally
  play_rounds zero round tally = pure tally
  play_rounds (suc n) round tally = do next ← play_round round tally; play_rounds n (round + 1) next

abbrev seed_of : ℕ → ℕ
seed_of seed = if nat_eq seed 0 then 1 else seed

abbrev pub refuses : ℕ → Bool
refuses seed = nat_eq (seed % 5) 0

-- The receipt and the world at the end; `self_pid` is the process that simulates.
unfoldable pub simulate : Timer World → ℕ → ℕ → ℕ → Mutation → Result SimulationReceipt × World
simulate timer self_pid seed rounds mutation =
    let world = mutate mutation (new_world "1") in
    let start : Tally = record { random = seed_of seed; crashes = 0; boundaries = 0 } in
    (play_rounds timer self_pid (refuses seed) (snapshot_of world) rounds 0 start >>= λ tally.
    pure (record {
      seed = seed;
      scenario = if refuses seed then "predicate-rollback" else "promote";
      rounds = rounds;
      crashes = tally.crashes;
      boundaries = tally.boundaries;
      result = "pass";
    }))
      world
