-- ===== src/Engine/Safe/Cases.antt =====
-- What a safe state looks like, by the last intent of its journal.
use k_carrier.Base.{String, true, ◌≡◌, ◌⊎◌, Option, none, some, inl, inr, arith}
use k_carrier.State.{Phase, idle, staged, promoted, rolled_back, Slot}
use k_carrier.Engine.View.{View, last_intent, Runs}
use k_carrier.Engine.Safe.{
  AllValid, AnyParked, Unparked, Shape, Between, is_switch, Settled, Safe, settled, staging,
  switching, restoring, committing, committed,
}

pub valid_if_Safe : {d : String} {v : View} → Safe d v → AllValid v.journal
valid_if_Safe (settled h) = h.shape.valid
valid_if_Safe (staging h) = h.valid
valid_if_Safe (switching _ h) = h.valid
valid_if_Safe (restoring h) = h.valid
valid_if_Safe (committing h) = h.valid
valid_if_Safe (committed h) = h.valid

-- With no intent, or an idle one, nothing has begun.
pub rest_if_Safe :
    {d : String} {v : View}
    → Safe d v
    → (last_intent v.journal ≡ none) ⊎ (last_intent v.journal ≡ some idle)
    → Settled d v
rest_if_Safe (settled h) q = h
rest_if_Safe (staging h) q = ground (arith, h.intent)
rest_if_Safe (switching on h) q = ground (arith, h.intent)
rest_if_Safe (restoring h) q = ground (arith, h.intent)
rest_if_Safe (committing h) q = ground (arith, h.intent)
rest_if_Safe (committed h) q = ground (arith, h.intent)

pub staging_if_Safe :
    {d : String} {v : View}
    → Safe d v
    → last_intent v.journal ≡ some staged
    → (x : Option String) × Shape (some staged) d x (Runs Slot.stable d) Unparked v
staging_if_Safe (settled h) q = absurd (ground (arith, h.shape.intent, h.at_rest))
staging_if_Safe (staging {x} h) q = (x, h)
staging_if_Safe (switching on h) q = absurd (ground (arith, h.intent))
staging_if_Safe (restoring h) q = absurd (ground (arith, h.intent))
staging_if_Safe (committing h) q = absurd (ground (arith, h.intent))
staging_if_Safe (committed h) q = absurd (ground (arith, h.intent))

pub switching_if_Safe :
    {d : String} {v : View} (i : Phase)
    → is_switch (some i) ≡ true
    → Safe d v
    → last_intent v.journal ≡ some i
    → (t : String) × Shape (some i) d (some t) (Between d (some t)) AnyParked v
switching_if_Safe i k (settled h) q = absurd (ground (arith, h.shape.intent, h.at_rest))
switching_if_Safe i k (staging h) q = absurd (ground (arith, h.intent))
switching_if_Safe i k (switching {t} on h) q = (
  t,
  record {
    valid = h.valid;
    intent = q;
    stable = h.stable;
    experiment = h.experiment;
    live = h.live;
    parked = tt;
  },
)
switching_if_Safe i k (restoring h) q = absurd (ground (arith, h.intent))
switching_if_Safe i k (committing h) q = absurd (ground (arith, h.intent))
switching_if_Safe i k (committed h) q = absurd (ground (arith, h.intent))

pub restoring_if_Safe :
    {d : String} {v : View}
    → Safe d v
    → last_intent v.journal ≡ some rolled_back
    → (x : Option String) × Shape (some rolled_back) d x (Between d x) AnyParked v
restoring_if_Safe (settled h) q = (
  none,
  record {
    valid = h.shape.valid;
    intent = q;
    stable = h.shape.stable;
    experiment = h.shape.experiment;
    live = inr (inl h.shape.live);
    parked = tt;
  },
)
restoring_if_Safe (staging h) q = absurd (ground (arith, h.intent))
restoring_if_Safe (switching on h) q = absurd (ground (arith, h.intent))
restoring_if_Safe (restoring {x} h) q = (x, h)
restoring_if_Safe (committing h) q = absurd (ground (arith, h.intent))
restoring_if_Safe (committed h) q = absurd (ground (arith, h.intent))

pub committing_if_Safe :
    {d : String} {v : View}
    → Safe d v
    → last_intent v.journal ≡ some promoted
    → ((s : String) × Shape (some promoted) s (some d) (Runs Slot.experiment d) AnyParked v)
      ⊎ Shape (some promoted) d none (Runs Slot.stable d) AnyParked v
committing_if_Safe (settled h) q = inr (record {
  valid = h.shape.valid;
  intent = q;
  stable = h.shape.stable;
  experiment = h.shape.experiment;
  live = h.shape.live;
  parked = tt;
})
committing_if_Safe (staging h) q = absurd (ground (arith, h.intent))
committing_if_Safe (switching on h) q = absurd (ground (arith, h.intent))
committing_if_Safe (restoring h) q = absurd (ground (arith, h.intent))
committing_if_Safe (committing {s} h) q = inl (s, h)
committing_if_Safe (committed h) q = inr h
