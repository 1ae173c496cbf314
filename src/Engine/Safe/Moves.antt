-- ===== src/Engine/Safe/Moves.antt =====
-- How each effect of the contract changes the shape of the view.
use k_carrier.Base.{
  String, Bool, true, ◌≡◌, refl, sym, subst, ◌∙◌, ap, inl, inr, Option, none, some, List, [], ◌∷◌,
  ◌++◌, last-snoc, arith,
}
use k_carrier.State.{
  Phase, idle, staged, handing_over, running_experiment, readback, promoted, rolled_back, Slot,
  JournalEntry,
}
use k_carrier.Error.{ok}
use k_carrier.Validate.{validate_entry}
use k_carrier.Engine.{validate_entries}
use k_carrier.Invariants.{LiveProcess}
use k_carrier.Engine.View.{View, intent_of, Runs, others, to_stable, or_else}
use k_carrier.Engine.Contract.{Appends, Stages, Promotes, Clears, Parks, Stops}
use k_carrier.Engine.Safe.{AllValid, AnyParked, Shape, Between, StableOrNone}

validate_entries-snoc :
    (es : List JournalEntry) (e : JournalEntry)
    → AllValid es
    → validate_entry e ≡ ok tt
    → AllValid (es ++ e ∷ [])
unfolding validate_entries
validate_entries-snoc [] e h k = rw k
validate_entries-snoc (a ∷ es) e h k = ground (arith, validate_entries-snoc es e)

module _ {s : String} {x : Option String} {v v' : View} where
  pub Appends-Shape :
      {i : Option Phase} {L : List LiveProcess → Type 0} {K : Bool → Type 0} (entry : JournalEntry)
      → validate_entry entry ≡ ok tt
      → Shape i s x L K v
      → Appends entry tt v v'
      → Shape (some entry.intent) s x L K v'
  Appends-Shape entry good h p = subst (Shape _ _ _ _ _) (sym p) (record {
    valid = validate_entries-snoc v.journal entry h.valid good;
    intent = ap intent_of (last-snoc v.journal entry);
    stable = h.stable;
    experiment = h.experiment;
    live = h.live;
    parked = h.parked;
  })

  pub Stages-Shape :
      {i : Option Phase} {L : List LiveProcess → Type 0} {K : Bool → Type 0} (t : String)
      → Shape i s x L K v
      → Stages t tt v v'
      → Shape i s (some t) L K v'
  Stages-Shape t h p = subst (Shape _ _ _ _ _) (sym p) (record {
    valid = h.valid;
    intent = h.intent;
    stable = h.stable;
    experiment = refl;
    live = h.live;
    parked = h.parked;
  })

  pub Clears-Shape :
      {i : Option Phase} {L : List LiveProcess → Type 0} {K : Bool → Type 0}
      → Shape i s x L K v
      → Clears tt v v'
      → Shape i s none L K v'
  Clears-Shape h p = subst (Shape _ _ _ _ _) (sym p) (record {
    valid = h.valid;
    intent = h.intent;
    stable = h.stable;
    experiment = refl;
    live = h.live;
    parked = h.parked;
  })

  pub Parks-Shape :
      {i : Option Phase} {L : List LiveProcess → Type 0} {K : Bool → Type 0} (b : Bool)
      → Shape i s x L K v
      → Parks b tt v v'
      → Shape i s x L (λ k. k ≡ b) v'
  Parks-Shape b h p = subst (Shape _ _ _ _ _) (sym p) (record {
    valid = h.valid;
    intent = h.intent;
    stable = h.stable;
    experiment = h.experiment;
    live = h.live;
    parked = refl;
  })

  -- The processes change, and all else stays.
  pub live-Shape :
      {i : Option Phase} {L M : List LiveProcess → Type 0} {K : Bool → Type 0}
      → Shape i s x L K v
      → v' ≡ record v { live = v'.live }
      → M v'.live
      → Shape i s x M K v'
  live-Shape {M} h p m = subst (Shape _ _ _ M _) (sym p) (record {
    valid = h.valid;
    intent = h.intent;
    stable = h.stable;
    experiment = h.experiment;
    live = m;
    parked = h.parked;
  })

-- A weaker account of the same view.
pub weaken-Shape :
    {i : Option Phase} {s : String} {x : Option String} {v : View} {L M : List LiveProcess → Type 0}
    {K : Bool → Type 0}
    → (L v.live → M v.live)
    → Shape i s x L K v
    → Shape i s x M AnyParked v
weaken-Shape f h = record {
  valid = h.valid;
  intent = h.intent;
  stable = h.stable;
  experiment = h.experiment;
  live = f h.live;
  parked = tt;
}

Runs-to_stable :
    (t : String) (live : List LiveProcess)
    → Runs Slot.experiment t live
    → Runs Slot.stable t (to_stable live)
Runs-to_stable t [] h = h
Runs-to_stable t (p ∷ []) h = (refl, h.1)
Runs-to_stable t (p ∷ q ∷ ps) h = absurd h

to_stable-Runs :
    (s : String) (live : List LiveProcess)
    → Runs Slot.stable s live
    → Runs Slot.stable s (to_stable live)
to_stable-Runs s [] h = h
to_stable-Runs s (p ∷ []) h = (refl, h.1)
to_stable-Runs s (p ∷ q ∷ ps) h = absurd h

-- The commit moves the candidate and its process to the stable slot.
pub Promotes-Shape :
    {i : Option Phase} {s t : String} {K : Bool → Type 0} {v v' : View}
    → Shape i s (some t) (Runs Slot.experiment t) K v
    → Promotes tt v v'
    → Shape i t none (Runs Slot.stable t) K v'
Promotes-Shape {t} {v} h p = subst (Shape _ _ _ _ _) (sym p) (record {
  valid = h.valid;
  intent = h.intent;
  stable = ap (λ y. or_else y v.stable) h.experiment;
  experiment = refl;
  live = Runs-to_stable t v.live h.live;
  parked = h.parked;
})

-- A commit that is made again changes nothing.
pub Promotes-Shape_again :
    {i : Option Phase} {s : String} {K : Bool → Type 0} {v v' : View}
    → Shape i s none (Runs Slot.stable s) K v
    → Promotes tt v v'
    → Shape i s none (Runs Slot.stable s) K v'
Promotes-Shape_again {s} {v} h p = subst (Shape _ _ _ _ _) (sym p) (record {
  valid = h.valid;
  intent = h.intent;
  stable = ap (λ y. or_else y v.stable) h.experiment ∙ h.stable;
  experiment = refl;
  live = to_stable-Runs s v.live h.live;
  parked = h.parked;
})

others-Runs :
    (a b : Slot) (s : String) (live : List LiveProcess)
    → Runs a s live
    → k_carrier.State.slot_eq a b ≡ true
    → others b live ≡ []
others-Runs a b s [] h q = refl
others-Runs a b s (p ∷ []) h q = ground arith
others-Runs a b s (p ∷ r ∷ ps) h q = absurd h

others-Runs_other :
    (s : String) (live : List LiveProcess)
    → Runs Slot.stable s live
    → others Slot.experiment live ≡ live
others-Runs_other s [] h = refl
others-Runs_other s (p ∷ []) h = ground arith
others-Runs_other s (p ∷ r ∷ ps) h = absurd h

-- Stopping the service's own slot leaves nothing live.
pub stop_stable :
    (s : String) (v : View) {v' : View}
    → Runs Slot.stable s v.live
    → Stops Slot.stable tt v v'
    → v'.live ≡ []
stop_stable s v h (_, inl none_left) = none_left
stop_stable s v h (_, inr rest) = rest ∙ others-Runs Slot.stable Slot.stable s v.live h refl

-- Stopping the experiment leaves the stable process or nothing.
pub stop_experiment :
    (s : String) {x : Option String} {v v' : View}
    → Between s x v.live
    → Stops Slot.experiment tt v v'
    → StableOrNone s v'.live
stop_experiment s {v = v} h (_, inl none_left) = inl none_left
stop_experiment s {v = v} (inl down) (_, inr rest) = inl (rest ∙ ap (others Slot.experiment) down)
stop_experiment s {v = v} (inr (inl r)) (_, inr rest) =
    inr (subst (Runs Slot.stable s) (sym (rest ∙ others-Runs_other s v.live r)) r)
stop_experiment s {v = v} (inr (inr (t, _, r))) (_, inr rest) =
    inl (rest ∙ others-Runs Slot.experiment Slot.experiment t v.live r refl)
