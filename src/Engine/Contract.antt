-- ===== src/Engine/Contract.antt =====
-- What the engine relies on: the contract of `trait Effects`, `trait Host`, the predicates, the
-- clock and the timer, for any world.
use k_carrier.Base.{
  String, Bool, true, false, ◌≡◌, ◌⊎◌, Option, none, some, List, [], ◌∷◌, ◌++◌, Dict, lookup, ◌<>◌,
}
use k_carrier.State.{Phase, Slot, Evidence, JournalEntry}
use k_carrier.Error.{Error, uncertain, ok}
use k_carrier.Action.{Action}
use k_carrier.Validate.{validate_entry}
use k_carrier.Engine.{Engine, next_seq}
use k_carrier.Invariants.{LiveProcess}
use k_carrier.Engine.View.{
  View, last_intent, Runs, others, to_stable, version_in, or_else, Observer, Fewer, Ends,
}

abbrev pub Never : Error → Type 0
Never x = ⊥

abbrev pub Unchanged : {A : Type 0} → A → View → View → Type 0
Unchanged a v v' = v' ≡ v

abbrev pub Reads : List JournalEntry → View → View → Type 0
Reads entries v v' = (v' ≡ v) × (entries ≡ v.journal)

abbrev pub Lists : Dict (Option String) → View → View → Type 0
Lists versions v v' = (v' ≡ v) × (lookup "stable" versions ≡ some v.stable)

abbrev pub Appends : JournalEntry → Unit {0} → View → View → Type 0
Appends entry _ v v' = v' ≡ record v { journal = v.journal ++ entry ∷ [] }

abbrev pub Stages : String → Unit {0} → View → View → Type 0
Stages version _ v v' = v' ≡ record v { experiment = some version }

abbrev pub Promotes : Unit {0} → View → View → Type 0
Promotes _ v v' = v' ≡ record v {
  stable = or_else v.experiment v.stable;
  experiment = none;
  live = to_stable v.live;
}

abbrev pub Clears : Unit {0} → View → View → Type 0
Clears _ v v' = v' ≡ record v { experiment = none }

abbrev pub Parks : Bool → Unit {0} → View → View → Type 0
Parks b _ v v' = v' ≡ record v { parked = b }

-- `stop` leaves no process of the slot; it may stop the other one as well.
abbrev pub Stops : Slot → Unit {0} → View → View → Type 0
Stops slot _ v v' =
    (v' ≡ record v { live = v'.live }) × ((v'.live ≡ []) ⊎ (v'.live ≡ others slot v.live))

abbrev pub Starts : Slot → Unit {0} → View → View → Type 0
Starts slot _ v v' =
    (v' ≡ record v { live = v'.live })
    × ((x : String) → version_in slot v ≡ some x → Runs slot x v'.live)

-- `start` is called with nothing live, or with the slot's own process live.
abbrev pub MayStart : Slot → View → Type 0
MayStart slot v = (x : String) × (version_in slot v ≡ some x) × ((v.live ≡ []) ⊎ Runs slot x v.live)

abbrev pub Describes : Evidence → List LiveProcess → Type 0
Describes evidence [] = ⊥
Describes evidence (p ∷ ps) =
    (evidence.version ≡ p.version) × (evidence.pid ≡ p.pid) × (evidence.start_id ≡ p.start_id)

abbrev pub Probes : Evidence → View → View → Type 0
Probes evidence v v' = (v' ≡ v) × Describes evidence v.live

abbrev pub IsNext : JournalEntry → View → Type 0
IsNext entry v = (entry.seq ≡ next_seq v.journal) × (validate_entry entry ≡ ok tt)

-- Each call is promised its effect where the engine has to make it: after the matching intent,
-- and a start only where no other incarnation is live.
pub record Contract {W : Type 0} (e : Engine W) (Excuse : Error → Type 0) : Type 1 where
  pub observer : Observer W
  pub open observer use *
  pub read_journal : (w : W) → Inv w → Ends observer Never Reads w (e.effects.read_journal w)
  pub versions : (w : W) → Inv w → Ends observer Never Lists w (e.effects.versions w)
  pub append :
      (entry : JournalEntry) (w : W)
      → Inv w
      → IsNext entry (view w)
      → Ends observer Never (Appends entry) w (e.effects.append entry w)
  pub stage :
      (version bytes : String) (w : W)
      → Inv w
      → last_intent (view w).journal ≡ some Phase.staged
      → ((x : String) × Runs Slot.stable x (view w).live)
      → Ends observer Never (Stages version) w (e.effects.stage version bytes w)
  pub promote :
      (w : W)
      → Inv w
      → last_intent (view w).journal ≡ some Phase.promoted
      → ((x : String) × (Runs Slot.experiment x (view w).live × ((view w).experiment ≡ some x)))
        ⊎ (((view w).experiment ≡ none)
            × ((x : String) × (Runs Slot.stable x (view w).live × ((view w).stable ≡ some x))))
      → Ends observer Never Promotes w (e.effects.promote w)
  pub clear :
      (w : W)
      → Inv w
      → last_intent (view w).journal ≡ some Phase.rolled_back
      → ((x : String) × (Runs Slot.stable x (view w).live × ((view w).stable ≡ some x)))
      → Ends observer Never Clears w (e.effects.clear w)
  pub fence : (w : W) → Inv w → Ends observer Never Unchanged w (e.host.fence w)
  pub quiesce :
      (w : W)
      → Inv w
      → last_intent (view w).journal ≡ some Phase.handing_over
      → Ends observer Never (Parks true) w (e.host.quiesce w)
  pub stop : (slot : Slot) (w : W) → Inv w → Ends observer Never (Stops slot) w (e.host.stop slot w)
  pub start :
      (slot : Slot) (w : W)
      → Inv w
      → MayStart slot (view w)
      → Ends observer Never (Starts slot) w (e.host.start slot w)
  pub probe :
      (w : W)
      → Inv w
      → ((slot : Slot) × (x : String) × Runs slot x (view w).live)
      → Ends observer Never Probes w (e.host.probe w)
  pub resume : (w : W) → Inv w → Ends observer Never (Parks false) w (e.host.resume w)
  pub evaluate :
      (evidence : Evidence) (target : String) (w : W)
      → Inv w
      → Ends observer Excuse Unchanged w (e.evaluate evidence target w)
  pub now :
      (w : W) → Inv w → Inv (e.now w).1 × (view (e.now w).1 ≡ view w) × Fewer observer w (e.now w).1
  -- A call that is cut off has had no effect on the view, or all of it.
  pub cut :
      (A : Type 0) (label : String) (call : Action W A) (w w' : W)
      → Inv w
      → e.timer.elapsed A e.budget call w ≡ some w'
      → Inv w'
        × ((view w' ≡ view w) ⊎ (view w' ≡ view (call w).1))
        × Blame w (uncertain ("HOST_CALL_TIMEOUT: " <> label))
        × Fewer observer w w'
