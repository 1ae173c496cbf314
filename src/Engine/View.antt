-- ===== src/Engine/View.antt =====
-- What the engine's world shows to an observer: the two slots, the live processes, whether the
-- workload is parked, and the journal.
use k_carrier.Base.{String, Bool, ◌≡◌, ◌⊎◌, Option, none, some, List, [], ◌∷◌, last, if◌then◌else◌}
use k_carrier.Invariants.{LiveProcess}
use k_carrier.State.{Phase, Slot, slot_eq, JournalEntry}
use k_carrier.Error.{Error, Result, ok, err}

pub record View : Type 0 where
  pub stable : Option String
  pub experiment : Option String
  pub live : List LiveProcess
  pub parked : Bool
  pub journal : List JournalEntry

abbrev pub intent_of : Option JournalEntry → Option Phase
intent_of none = none
intent_of (some e) = some e.intent

abbrev pub last_intent : List JournalEntry → Option Phase
last_intent entries = intent_of (last entries)

-- Exactly one process is live, started from this slot and with this version.
abbrev pub Runs : Slot → String → List LiveProcess → Type 0
Runs slot version (p ∷ []) = (p.slot ≡ slot) × (p.version ≡ version)
Runs slot version _ = ⊥

-- The processes that were not started from the slot.
abbrev pub others : Slot → List LiveProcess → List LiveProcess
others slot [] = []
others slot (p ∷ ps) = if slot_eq p.slot slot then others slot ps else p ∷ others slot ps

abbrev pub to_stable : List LiveProcess → List LiveProcess
to_stable [] = []
to_stable (p ∷ ps) = record p { slot = Slot.stable } ∷ to_stable ps

abbrev pub version_in : Slot → View → Option String
version_in Slot.stable v = v.stable
version_in Slot.experiment v = v.experiment

abbrev pub or_else : Option String → Option String → Option String
or_else (some x) y = some x
or_else none y = y

-- How a world is observed. `Inv` is the implementation's own invariant; `Blame w e` says that a
-- fault which is present in `w` explains the error `e`.
pub record Observer (W : Type 0) : Type 1 where
  pub view : W → View
  pub Inv : W → Type 0
  pub Blame : W → Error → Type 0

module _ {W : Type 0} (o : Observer W) where
  -- No fault appears that was not there before.
  abbrev pub Fewer : W → W → Type 0
  Fewer w w' = (x : Error) → o.Blame w' x → o.Blame w x

  -- A call has its effect on the view, or fails for a reason with none of it or all of it.
  abbrev pub Ends :
      {A : Type 0} → (Error → Type 0) → (A → View → View → Type 0) → W → Result A × W → Type 0
  Ends Excuse Step w (ok a, w') = o.Inv w' × Step a (o.view w) (o.view w') × Fewer w w'
  Ends {A} Excuse Step w (err x, w') =
      o.Inv w'
      × ((o.view w' ≡ o.view w) ⊎ ((a : A) × Step a (o.view w) (o.view w')))
      × (o.Blame w x ⊎ Excuse x)
      × Fewer w w'
