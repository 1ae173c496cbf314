-- ===== src/Slots/Refines.antt =====
-- `promote` of src/storage.rs against what a promotion is to be: one step on two versions.
use k_carrier.Action.{lift, ◌>>=◌}
use k_carrier.Base.{String, ◌≡◌, ◌⊎◌, inl, inr, refl, Option, none, some, Bool, List, [], ◌∷◌}
use k_carrier.Error.{Result, ok, err}
use k_carrier.Slots.{
  Entry, missing, broken, whole, Disk, promote, works, fails_early, fails_midway, fails_after,
  Fault, remove_dir, call, version,
}
use k_carrier.Slots.Promotes.{
  Promoting, before, aside, committed, Promoted, StaysPromoting, promote-StaysPromoting,
}

-- The versions of the two slots, for whoever may complete a promotion: a stable slot that is set
-- aside still counts.
pub record Versions : Type 0 where
  pub stable_version : Option String
  pub candidate : Option String

abbrev pub version_at : Entry → Option String
version_at (whole v) = some v
version_at _ = none

abbrev pub stable_or_backup : Entry → Entry → Option String
stable_or_backup (whole v) old = some v
stable_or_backup missing old = version_at old
stable_or_backup broken old = none

abbrev pub view_of : Disk → Versions
view_of d = record {
  stable_version = stable_or_backup d.stable_dir d.old;
  candidate = version_at d.experiment_dir;
}

-- The candidate becomes the stable version, in one step; without one there is nothing to do.
abbrev pub promoted_view : Versions → Versions
promoted_view v = elim v.candidate [
  | none ↦ v
  | some t ↦ record { stable_version = some t; candidate = none }
]

-- A call that returned did the step; one that failed did it or did nothing.
abbrev pub Refines : Versions → Result (Unit {0}) × Disk → Type 0
Refines v (ok _, d) = view_of d ≡ promoted_view v
Refines v (err x, d) = (view_of d ≡ v) ⊎ (view_of d ≡ promoted_view v)

done_view :
    (s t : String) (d : Disk)
    → Promoting s t d
    → Promoted t d
    → view_of d ≡ record { stable_version = some t; candidate = none }
done_view s t d h (stable, experiment, old) = rw (stable, experiment) refl

module _ (s t : String) where
  abbrev both : Versions
  both = record { stable_version = some s; candidate = some t }

  abbrev one : Versions
  one = record { stable_version = some t; candidate = none }

  seen : (d : Disk) → Promoting s t d → (view_of d ≡ both) ⊎ (view_of d ≡ one)
  seen d before = inl refl
  seen d aside = inl refl
  seen d committed = inr refl

  from_both : (p : Result (Unit {0}) × Disk) → StaysPromoting s t p → Refines both p
  from_both (ok _, d) (h, done) = done_view s t d h done
  from_both (err x, d) h = seen d h

  at_end : (o g b : Entry) (j : Bool) (f : List Fault) → Disk
  at_end o g b j f = record {
    stable_dir = whole t;
    experiment_dir = missing;
    old = o;
    staging = g;
    bootstrap = b;
    journal = j;
    faults = f;
  }

  -- After the commit only the backup is at stake.
  from_one : (o g b : Entry) (j : Bool) (f : List Fault) → Refines one (promote (at_end o g b j f))
  unfolding at_end promote remove_dir call version ◌>>=◌ lift
  from_one missing g b j f = refl
  from_one broken g b j [] = refl
  from_one broken g b j (works ∷ f) = refl
  from_one broken g b j (fails_early ∷ f) = inl refl
  from_one broken g b j (fails_midway ∷ f) = inl refl
  from_one broken g b j (fails_after ∷ f) = inl refl
  from_one (whole v) g b j [] = refl
  from_one (whole v) g b j (works ∷ f) = refl
  from_one (whole v) g b j (fails_early ∷ f) = inl refl
  from_one (whole v) g b j (fails_midway ∷ f) = inl refl
  from_one (whole v) g b j (fails_after ∷ f) = inl refl

  -- Seen by the versions of its slots, a promotion that may be in progress is one step, whatever
  -- calls of the file system fail in it: a call that returns has made the candidate the stable
  -- version, and one that fails has done that or nothing. Once it is done, another call changes
  -- nothing.
  pub promote-Refines : (d : Disk) → Promoting s t d → Refines (view_of d) (promote d)
  unfolding at_end
  promote-Refines d before = from_both _ (promote-StaysPromoting s t d before)
  promote-Refines d aside = from_both _ (promote-StaysPromoting s t d aside)
  promote-Refines d (committed {o = o} {g = g} {b = b} {j = j} {f = f}) = from_one o g b j f
