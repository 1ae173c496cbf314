-- ===== src/Slots/Promotes.antt =====
-- `promote` of src/storage.rs is atomic and can be repeated, whatever fails in it.
use k_carrier.Base.{String, Bool, ◌≡◌, refl, List, [], ◌∷◌}
use k_carrier.Error.{Result, ok, err}
use k_carrier.Action.{Action, lift, continue, ◌>>=◌, ◌>>◌}
use k_carrier.Slots.{
  Entry, missing, broken, whole, Fault, works, fails_early, fails_midway, fails_after, Disk, call,
  remove_dir, rename_durable, version, set_aside, promote, at_old, at_stable, at_experiment,
}

-- Where a promotion from version `s` to `t` may be: not begun, with the stable slot set aside, or
-- committed; whatever else is there.
pub data Promoting (s t : String) : Disk → Type 0 where
  before :
      {o g b : Entry} {j : Bool} {f : List Fault}
      → Promoting s t (record {
        stable_dir = whole s;
        experiment_dir = whole t;
        old = o;
        staging = g;
        bootstrap = b;
        journal = j;
        faults = f;
      })
  aside :
      {g b : Entry} {j : Bool} {f : List Fault}
      → Promoting s t (record {
        stable_dir = missing;
        experiment_dir = whole t;
        old = whole s;
        staging = g;
        bootstrap = b;
        journal = j;
        faults = f;
      })
  committed :
      {o g b : Entry} {j : Bool} {f : List Fault}
      → Promoting s t (record {
        stable_dir = whole t;
        experiment_dir = missing;
        old = o;
        staging = g;
        bootstrap = b;
        journal = j;
        faults = f;
      })

-- The promotion is done, and its backup is gone.
abbrev pub Promoted : String → Disk → Type 0
Promoted t d = (d.stable_dir ≡ whole t) × (d.experiment_dir ≡ missing) × (d.old ≡ missing)

abbrev pub StaysPromoting : String → String → Result (Unit {0}) × Disk → Type 0
StaysPromoting s t (ok _, d) = Promoting s t d × Promoted t d
StaysPromoting s t (err x, d) = Promoting s t d

-- The call returned, and the promotion is done.
abbrev pub Returned : String → Result (Unit {0}) × Disk → Type 0
Returned t (ok _, d) = Promoted t d
Returned t (err x, d) = ⊥

module _ (s t : String) (g b : Entry) (j : Bool) where
  at_end : (o : Entry) (f : List Fault) → Disk
  at_end o f = record {
    stable_dir = whole t;
    experiment_dir = missing;
    old = o;
    staging = g;
    bootstrap = b;
    journal = j;
    faults = f;
  }

  dropped : (o : Entry) (f : List Fault) → StaysPromoting s t (remove_dir at_old (at_end o f))
  unfolding at_end remove_dir call
  dropped missing f = (committed, (refl, refl, refl))
  dropped broken [] = (committed, (refl, refl, refl))
  dropped (whole v) [] = (committed, (refl, refl, refl))
  dropped broken (works ∷ f) = (committed, (refl, refl, refl))
  dropped broken (fails_early ∷ f) = committed
  dropped broken (fails_midway ∷ f) = committed
  dropped broken (fails_after ∷ f) = committed
  dropped (whole v) (works ∷ f) = (committed, (refl, refl, refl))
  dropped (whole v) (fails_early ∷ f) = committed
  dropped (whole v) (fails_midway ∷ f) = committed
  dropped (whole v) (fails_after ∷ f) = committed

  set_apart : (f : List Fault) → Disk
  set_apart f = record {
    stable_dir = missing;
    experiment_dir = whole t;
    old = whole s;
    staging = g;
    bootstrap = b;
    journal = j;
    faults = f;
  }

  at_start : (o : Entry) (f : List Fault) → Disk
  at_start o f = record {
    stable_dir = whole s;
    experiment_dir = whole t;
    old = o;
    staging = g;
    bootstrap = b;
    journal = j;
    faults = f;
  }

  -- The commit rename and the end.
  commit_it : Action Disk (Unit {0})
  commit_it = rename_durable at_experiment at_stable >> remove_dir at_old

  commits : (f : List Fault) → StaysPromoting s t (commit_it (set_apart f))
  unfolding commit_it set_apart rename_durable call ◌>>=◌ remove_dir at_end
  commits [] = dropped (whole s) []
  commits (works ∷ f) = dropped (whole s) f
  commits (fails_early ∷ f) = aside
  commits (fails_midway ∷ f) = aside
  commits (fails_after ∷ f) = committed

  sets_aside :
      (f : List Fault)
      → StaysPromoting s t
          (continue (λ _. commit_it) (rename_durable at_stable at_old (at_start missing f)))
  unfolding at_start rename_durable call set_apart
  sets_aside [] = commits []
  sets_aside (works ∷ f) = commits f
  sets_aside (fails_early ∷ f) = before
  sets_aside (fails_midway ∷ f) = before
  sets_aside (fails_after ∷ f) = aside

  clears_old :
      (o : Entry) (f : List Fault) → StaysPromoting s t ((set_aside >> commit_it) (at_start o f))
  unfolding at_start set_aside remove_dir call ◌>>=◌
  clears_old missing f = sets_aside f
  clears_old broken [] = sets_aside []
  clears_old (whole v) [] = sets_aside []
  clears_old broken (works ∷ f) = sets_aside f
  clears_old broken (fails_early ∷ f) = before
  clears_old broken (fails_midway ∷ f) = before
  clears_old broken (fails_after ∷ f) = before
  clears_old (whole v) (works ∷ f) = sets_aside f
  clears_old (whole v) (fails_early ∷ f) = before
  clears_old (whole v) (fails_midway ∷ f) = before
  clears_old (whole v) (fails_after ∷ f) = before

  from_start : (o : Entry) (f : List Fault) → StaysPromoting s t (promote (at_start o f))
  unfolding promote ◌>>=◌ lift version at_start commit_it
  from_start o f = clears_old o f

  from_aside : (f : List Fault) → StaysPromoting s t (promote (set_apart f))
  unfolding promote ◌>>=◌ lift version set_apart set_aside commit_it
  from_aside f = commits f

  from_end : (o : Entry) (f : List Fault) → StaysPromoting s t (promote (at_end o f))
  unfolding promote ◌>>=◌ lift version at_end
  from_end o f = dropped o f

-- Whatever calls fail in it, a promotion from `s` to `t` keeps both versions until it is
-- committed: one that fails leaves the stable version in its place or set aside beside the whole
-- experiment, or the experiment in its place; one that returns has put the experiment in place
-- and left no backup. It may be called again wherever an earlier call was interrupted.
pub promote-StaysPromoting :
    (s t : String) (d : Disk) → Promoting s t d → StaysPromoting s t (promote d)
unfolding at_start set_apart at_end
promote-StaysPromoting s t d (before {o = o} {g = g} {b = b} {j = j} {f = f}) =
    from_start s t g b j o f
promote-StaysPromoting s t d (aside {g = g} {b = b} {j = j} {f = f}) = from_aside s t g b j f
promote-StaysPromoting s t d (committed {o = o} {g = g} {b = b} {j = j} {f = f}) =
    from_end s t g b j o f

-- Promotions one after the other, each with faults of its own.
unfoldable pub repeatedly : List (List Fault) → Disk → Disk
repeatedly [] d = d
repeatedly (f ∷ rounds) d = repeatedly rounds (promote (record d { faults = f })).1

refaulted :
    (s t : String) (d : Disk) (f : List Fault)
    → Promoting s t d
    → Promoting s t (record d { faults = f })
refaulted s t d f before = before
refaulted s t d f aside = aside
refaulted s t d f committed = committed

left_behind :
    (s t : String) (p : Result (Unit {0}) × Disk) → StaysPromoting s t p → Promoting s t p.1
left_behind s t (ok _, d) (h, _) = h
left_behind s t (err x, d) h = h

repeatedly-Promoting :
    (s t : String) (rounds : List (List Fault)) (d : Disk)
    → Promoting s t d
    → Promoting s t (repeatedly rounds d)
unfolding repeatedly
repeatedly-Promoting s t [] d h = h
repeatedly-Promoting s t (f ∷ rounds) d h =
    repeatedly-Promoting s t rounds _
      (left_behind s t _ (promote-StaysPromoting s t _ (refaulted s t d f h)))

returned :
    (t : String) (d : Disk) (s : String)
    → Promoting s t d
    → Returned t (promote (record d { faults = [] }))
unfolding promote set_aside remove_dir rename_durable call version ◌>>=◌ lift
returned t d s (before {o = missing}) = (refl, refl, refl)
returned t d s (before {o = broken}) = (refl, refl, refl)
returned t d s (before {o = whole v}) = (refl, refl, refl)
returned t d s aside = (refl, refl, refl)
returned t d s (committed {o = missing}) = (refl, refl, refl)
returned t d s (committed {o = broken}) = (refl, refl, refl)
returned t d s (committed {o = whole v}) = (refl, refl, refl)

-- After any number of promotions that were interrupted anywhere, one without a fault returns and
-- completes: the experiment is the stable version, and there is neither an experiment nor a
-- backup.
pub repeatedly-Returned :
    (s t : String) (rounds : List (List Fault)) (d : Disk)
    → Promoting s t d
    → Returned t (promote (record (repeatedly rounds d) { faults = [] }))
repeatedly-Returned s t rounds d h = returned t _ s (repeatedly-Promoting s t rounds d h)
