-- ===== src/Engine/Safe.antt =====
-- The states between two calls of the engine, seen through the contract.
pub mod Moves
pub mod Restore
pub mod Cases
use k_carrier.Base.{
  String, Bool, true, false, ◌≡◌, refl, sym, subst, ◌∙◌, ap, ◌⊎◌, inl, inr, Option, none, some,
  List, [], ◌∷◌, ◌++◌, last-snoc, arith, if◌then◌else◌,
}
use k_carrier.State.{
  Phase, idle, staged, handing_over, running_experiment, readback, promoted, rolled_back, Slot,
  JournalEntry,
}
use k_carrier.Error.{ok, err}
use k_carrier.Validate.{validate_entry}
use k_carrier.Engine.{validate_entries}
use k_carrier.Invariants.{LiveProcess}
use k_carrier.Engine.View.{
  View, intent_of, last_intent, Runs, others, to_stable, version_in, or_else,
}
use k_carrier.Engine.Contract.{
  Unchanged, Appends, Stages, Promotes, Clears, Parks, Stops, Starts, MayStart,
}

abbrev pub AllValid : List JournalEntry → Type 0
AllValid entries = validate_entries entries ≡ ok tt

abbrev pub AnyParked : Bool → Type 0
AnyParked b = Unit

abbrev pub Unparked : Bool → Type 0
Unparked b = b ≡ false

-- The last intent, the version in each slot, and what is said of the processes and the workload.
pub record Shape (i : Option Phase) (s : String) (x : Option String) (L : List LiveProcess → Type 0)
    (K : Bool → Type 0) (v : View) : Type 0 where
  pub valid : AllValid v.journal
  pub intent : last_intent v.journal ≡ i
  pub stable : v.stable ≡ some s
  pub experiment : v.experiment ≡ x
  pub live : L v.live
  pub parked : K v.parked

-- Nothing is live, or one process of one of the slots.
abbrev pub Between : String → Option String → List LiveProcess → Type 0
Between s x live =
    (live ≡ [])
    ⊎ (Runs Slot.stable s live ⊎ ((t : String) × (x ≡ some t) × Runs Slot.experiment t live))

abbrev pub StableOrNone : String → List LiveProcess → Type 0
StableOrNone s live = (live ≡ []) ⊎ Runs Slot.stable s live

abbrev pub is_rest : Option Phase → Bool
is_rest none = true
is_rest (some idle) = true
is_rest (some promoted) = true
is_rest (some rolled_back) = true
is_rest _ = false

abbrev pub is_switch : Option Phase → Bool
is_switch (some handing_over) = true
is_switch (some running_experiment) = true
is_switch (some readback) = true
is_switch _ = false

-- At rest: the stable service alone is live, its workload resumed, and no experiment is left.
pub record Settled (s : String) (v : View) : Type 0 where
  pub last_phase : Option Phase
  pub at_rest : is_rest last_phase ≡ true
  pub shape : Shape last_phase s none (Runs Slot.stable s) Unparked v

-- What a crash may leave behind, and the version `d` that a recovery from there restores.
pub data Safe (d : String) (v : View) : Type 0 where
  settled : Settled d v → Safe d v
  staging : {x : Option String} → Shape (some staged) d x (Runs Slot.stable d) Unparked v → Safe d v
  switching :
      {i : Option Phase} {t : String}
      → is_switch i ≡ true
      → Shape i d (some t) (Between d (some t)) AnyParked v
      → Safe d v
  restoring :
      {x : Option String} → Shape (some rolled_back) d x (Between d x) AnyParked v → Safe d v
  committing :
      {s : String}
      → Shape (some promoted) s (some d) (Runs Slot.experiment d) AnyParked v
      → Safe d v
  committed : Shape (some promoted) d none (Runs Slot.stable d) AnyParked v → Safe d v
