-- ===== src/Engine/Safe/Restore.antt =====
-- The states of a rollback, from its intent to its end, and the calls that lead through them.
use k_carrier.Base.{String, Bool, true, false, ◌≡◌, refl, subst, ap, inl, inr, Option, some, List}
use k_carrier.State.{Phase, staged, rolled_back, Slot}
use k_carrier.Error.{Error}
use k_carrier.Invariants.{LiveProcess}
use k_carrier.Engine.View.{View, Runs}
use k_carrier.Engine.Contract.{Never, Stops, Starts, Parks, Clears}
use k_carrier.Engine.Safe.{
  AnyParked, Unparked, Shape, Between, StableOrNone, is_switch, Settled, Safe, settled, staging,
  switching, restoring,
}
use k_carrier.Engine.Safe.Moves.{
  Appends-Shape, Clears-Shape, Parks-Shape, live-Shape, weaken-Shape, stop_experiment,
}
use k_carrier.Engine.Leads.{Moves, Logs}

-- Between the intent to roll back and the end of it.
abbrev pub Restoring :
    String → Option String → (List LiveProcess → Type 0) → (Bool → Type 0) → View → Type 0
Restoring s x L K = Shape (some rolled_back) s x L K

pub never : (C : Error → Type 0) (x : Error) → Never x → C x
never C x z = absurd z

none_or_stable :
    (s : String) {x : Option String} (live : List LiveProcess)
    → StableOrNone s live
    → Between s x live
none_or_stable s live (inl down) = inl down
none_or_stable s live (inr r) = inr (inl r)

stop_after :
    (s : String) (x : Option String) (a : Unit {0}) (v v' : View)
    → Restoring s x (Between s x) AnyParked v
    → Stops Slot.experiment a v v'
    → Restoring s x (StableOrNone s) AnyParked v' × Safe s v' × (v'.journal ≡ v.journal)
stop_after s x a v v' h d =
    let left : StableOrNone s v'.live = stop_experiment s {v = v} h.live d in
    (
      live-Shape h d.0 left,
      restoring (live-Shape {M = Between s x} h d.0 (none_or_stable s v'.live left)),
      ap (λ (u : View). u.journal) d.0,
    )

start_after :
    (s : String) (x : Option String) (a : Unit {0}) (v v' : View)
    → Restoring s x (StableOrNone s) AnyParked v
    → Starts Slot.stable a v v'
    → Restoring s x (Runs Slot.stable s) AnyParked v' × Safe s v' × (v'.journal ≡ v.journal)
start_after s x a v v' h d =
    let runs : Runs Slot.stable s v'.live = d.1 s h.stable in
    (
      live-Shape h d.0 runs,
      restoring (live-Shape {M = Between s x} h d.0 (inr (inl runs))),
      ap (λ (u : View). u.journal) d.0,
    )

resume_after :
    (s : String) (x : Option String) (a : Unit {0}) (v v' : View)
    → Restoring s x (Runs Slot.stable s) AnyParked v
    → Parks false a v v'
    → Restoring s x (Runs Slot.stable s) Unparked v' × Safe s v' × (v'.journal ≡ v.journal)
resume_after s x a v v' h d =
    let parked = Parks-Shape false h d in
    (
      parked,
      restoring (weaken-Shape {L = Runs Slot.stable s} {M = Between s x} (λ r. inr (inl r)) parked),
      ap (λ (u : View). u.journal) d,
    )

clear_after :
    (s : String) (x : Option String) (a : Unit {0}) (v v' : View)
    → Restoring s x (Runs Slot.stable s) Unparked v
    → Clears a v v'
    → Settled s v' × Safe s v' × (v'.journal ≡ v.journal)
clear_after s x a v v' h d =
    let done : Settled s v' = record {
      last_phase = some rolled_back;
      at_rest = refl;
      shape = Clears-Shape h d;
    } in
    (done, settled done, ap (λ (u : View). u.journal) d)

module _ (s : String) (x : Option String) where
  may_restore : (v : View) → Restoring s x (Runs Slot.stable s) Unparked v → Safe s v
  may_restore v p = restoring (weaken-Shape {L = Runs Slot.stable s} (λ r. inr (inl r)) p)

  pub stop-Moves :
      Moves
        (Safe s)
        (Restoring s x (Between s x) AnyParked)
        (λ _. Restoring s x (StableOrNone s) AnyParked)
        (Stops Slot.experiment)
  stop-Moves = record { before = λ v p. restoring p; after = stop_after s x }

  pub start-Moves :
      Moves
        (Safe s)
        (Restoring s x (StableOrNone s) AnyParked)
        (λ _. Restoring s x (Runs Slot.stable s) AnyParked)
        (Starts Slot.stable)
  start-Moves = record {
    before = λ v p. restoring (weaken-Shape (none_or_stable s v.live) p);
    after = start_after s x;
  }

  pub resume-Moves :
      Moves
        (Safe s)
        (Restoring s x (Runs Slot.stable s) AnyParked)
        (λ _. Restoring s x (Runs Slot.stable s) Unparked)
        (Parks false)
  resume-Moves = record {
    before = λ v p. restoring (weaken-Shape {L = Runs Slot.stable s} (λ r. inr (inl r)) p);
    after = resume_after s x;
  }

  pub clear-Moves :
      Moves (Safe s) (Restoring s x (Runs Slot.stable s) Unparked) (λ _. Settled s) Clears
  clear-Moves = record { before = may_restore; after = clear_after s x }

  -- The intent to roll back, before and after the service has been touched.
  pub early-Logs :
      Logs
        (Safe s)
        (Shape (some staged) s x (Runs Slot.stable s) Unparked)
        (Restoring s x (Runs Slot.stable s) Unparked)
        rolled_back
  early-Logs = record {
    before = λ v p. staging p;
    after = λ entry v v' same good p d.
        let h =
          subst (λ k. Shape (some k) s x (Runs Slot.stable s) Unparked v') same
            (Appends-Shape entry good p d) in
        (h, may_restore v' h);
  }

pub rolled_back-Logs :
    (s t : String) (i : Option Phase)
    → is_switch i ≡ true
    → Logs
        (Safe s)
        (Shape i s (some t) (Between s (some t)) AnyParked)
        (Restoring s (some t) (Between s (some t)) AnyParked)
        rolled_back
rolled_back-Logs s t i on = record {
  before = λ v p. switching on p;
  after = λ entry v v' same good p d.
      let h =
        subst (λ k. Shape (some k) s (some t) (Between s (some t)) AnyParked v') same
          (Appends-Shape entry good p d) in
      (h, restoring h);
}
