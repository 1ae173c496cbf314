-- ===== src/Slots/Stages.antt =====
-- `stage` and `bootstrap_locked` of src/storage.rs leave the stable slot alone.
use k_carrier.Base.{String, Bool, ◌≡◌, refl, inl, inr, List, [], ◌∷◌, is_empty, trim, Bool-cases}
use k_carrier.Error.{Result, ok, err}
use k_carrier.Action.{lift, continue, ◌>>=◌, ◌>>◌}
use k_carrier.Slots.{
  Entry, missing, broken, whole, Fault, works, fails_early, fails_midway, fails_after, Disk, call,
  put, remove_dir, rename_durable, populate, stage, at_experiment, at_staging,
}

module _ (stable_dir old bootstrap : Entry) (journal : Bool) where
  abbrev pub disk : Entry → Entry → List Fault → Disk
  disk g e f = record {
    stable_dir = stable_dir;
    experiment_dir = e;
    old = old;
    staging = g;
    bootstrap = bootstrap;
    journal = journal;
    faults = f;
  }

  -- What an interrupted staging leaves of the experiment: what was there, nothing that can be
  -- started, or the version that is staged. The rest of the disk but the staging area is as before.
  pub data Staging (e : Entry) (t : String) : Disk → Type 0 where
    as_before : {g : Entry} {f : List Fault} → Staging e t (disk g e f)
    cleared : {g : Entry} {f : List Fault} → Staging e t (disk g missing f)
    half_cleared : {g : Entry} {f : List Fault} → Staging e t (disk g broken f)
    staged : {g : Entry} {f : List Fault} → Staging e t (disk g (whole t) f)

  abbrev pub StaysStaging : Entry → String → Result (Unit {0}) × Disk → Type 0
  StaysStaging e t (ok _, d) =
      (d.stable_dir ≡ stable_dir) × (d.old ≡ old) × (d.experiment_dir ≡ whole t)
  StaysStaging e t (err x, d) = Staging e t d

  module _ (e : Entry) (t : String) where
    moves_in :
        (f : List Fault)
        → StaysStaging e t (rename_durable at_staging at_experiment (disk (whole t) missing f))
    unfolding rename_durable call
    moves_in [] = (refl, refl, refl)
    moves_in (works ∷ f) = (refl, refl, refl)
    moves_in (fails_early ∷ f) = cleared
    moves_in (fails_midway ∷ f) = cleared
    moves_in (fails_after ∷ f) = staged

    makes_room :
        (x : Entry) (f : List Fault)
        → ((g : List Fault) → Staging e t (disk (whole t) x g))
        → StaysStaging e t (
            (remove_dir at_experiment >> rename_durable at_staging at_experiment)
              (disk (whole t) x f))
    unfolding remove_dir call ◌>>=◌
    makes_room missing f k = moves_in f
    makes_room broken [] k = moves_in []
    makes_room broken (works ∷ f) k = moves_in f
    makes_room broken (fails_early ∷ f) k = k f
    makes_room broken (fails_midway ∷ f) k = half_cleared
    makes_room broken (fails_after ∷ f) k = cleared
    makes_room (whole v) [] k = moves_in []
    makes_room (whole v) (works ∷ f) k = moves_in f
    makes_room (whole v) (fails_early ∷ f) k = k f
    makes_room (whole v) (fails_midway ∷ f) k = half_cleared
    makes_room (whole v) (fails_after ∷ f) k = cleared

    -- Filling the empty staging area.
    fills :
        (f : List Fault)
        → StaysStaging e t (
            continue
              (λ _. remove_dir at_experiment >> rename_durable at_staging at_experiment)
              (call (put at_staging broken) (put at_staging (whole t)) (disk missing e f)))
    unfolding call
    fills [] = makes_room e [] λ _. as_before
    fills (works ∷ f) = makes_room e f λ _. as_before
    fills (fails_early ∷ f) = as_before
    fills (fails_midway ∷ f) = as_before
    fills (fails_after ∷ f) = as_before

    empties :
        (g : Entry) (f : List Fault)
        → StaysStaging e t (
            continue
              (λ _. remove_dir at_experiment >> rename_durable at_staging at_experiment)
              ((remove_dir at_staging >> call (put at_staging broken) (put at_staging (whole t)))
                (disk g e f)))
    unfolding remove_dir call ◌>>=◌
    empties missing f = fills f
    empties broken [] = fills []
    empties broken (works ∷ f) = fills f
    empties broken (fails_early ∷ f) = as_before
    empties broken (fails_midway ∷ f) = as_before
    empties broken (fails_after ∷ f) = as_before
    empties (whole v) [] = fills []
    empties (whole v) (works ∷ f) = fills f
    empties (whole v) (fails_early ∷ f) = as_before
    empties (whole v) (fails_midway ∷ f) = as_before
    empties (whole v) (fails_after ∷ f) = as_before

  -- Whatever calls fail in it, staging leaves the stable slot and its backup as they are. If it
  -- returns, the experiment has the version that was staged; if it fails, the experiment is what it
  -- was, or cannot be started, or is whole with that version: never of a third version.
  pub stage-StaysStaging :
      (v : String) (g e : Entry) (f : List Fault) → StaysStaging e (trim v) (stage v (disk g e f))
  unfolding stage populate ◌>>=◌ lift
  stage-StaysStaging v g e f = elim (Bool-cases (is_empty (trim v))) [
    | inl blank ↦ rw blank as_before
    | inr fine ↦ rw fine (empties e (trim v) g f)
  ]
