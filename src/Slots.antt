-- ===== src/Slots.antt =====
-- The slot directories of src/storage.rs, with a fault or a crash at any call of the file system.
pub mod Promotes
pub mod Refines
pub mod Stages
pub mod Bootstraps
use k_carrier.Base.{
  String, Bool, true, false, Option, none, some, List, [], ◌∷◌, is_empty, is_some, trim,
  if◌then◌else◌,
}
use k_carrier.State.{Slot, stable, experiment}
use k_carrier.Error.{Error, IoKind, other_kind, not_found, io, invalid, Result, ok, err, refuse_if}
use k_carrier.Action.{Action, pure, lift, gets, ◌>>=◌, ◌>>◌}

-- A directory: missing, without its `VERSION` or its artifact, or whole with its version.
pub data Entry : Type 0 where
  missing broken : Entry
  whole : String → Entry

abbrev pub is_there : Entry → Bool
is_there missing = false
is_there _ = true

-- A call does what it is to do, fails before it has an effect, fails when a directory is filled or
-- removed in part, or fails with its effect done, as when it is not synchronised. A process that
-- dies leaves the disk as one of these failures does, and so does a read that fails.
pub data Fault : Type 0 where
  works fails_early fails_midway fails_after : Fault

-- What is below `slots`, whether there is a journal, and how the next calls fare; all that
-- follow the last of these work.
pub record Disk : Type 0 where
  pub stable_dir : Entry
  pub experiment_dir : Entry
  pub old : Entry
  pub staging : Entry
  pub bootstrap : Entry
  pub journal : Bool
  pub faults : List Fault

pub data Place : Type 0 where
  at_stable at_experiment at_old at_staging at_bootstrap : Place

abbrev pub place_of : Slot → Place
place_of stable = at_stable
place_of experiment = at_experiment

abbrev pub look : Place → Disk → Entry
look at_stable d = d.stable_dir
look at_experiment d = d.experiment_dir
look at_old d = d.old
look at_staging d = d.staging
look at_bootstrap d = d.bootstrap

abbrev pub put : Place → Entry → Disk → Disk
put at_stable e d = record d { stable_dir = e }
put at_experiment e d = record d { experiment_dir = e }
put at_old e d = record d { old = e }
put at_staging e d = record d { staging = e }
put at_bootstrap e d = record d { bootstrap = e }

-- How the next call fares, and the rest.
abbrev pub next_fault : List Fault → Fault × List Fault
next_fault [] = (works, [])
next_fault (f ∷ rest) = (f, rest)

abbrev pub io_error : Error
io_error = io other_kind "input/output error"

abbrev pub outcome : Fault → Disk → Disk → Disk → Result (Unit {0}) × Disk
outcome works d half done = (ok tt, done)
outcome fails_early d half done = (err io_error, d)
outcome fails_midway d half done = (err io_error, half)
outcome fails_after d half done = (err io_error, done)

-- One call: from the disk, what it leaves when it fails midway and when it works.
unfoldable pub call : (Disk → Disk) → (Disk → Disk) → Action Disk (Unit {0})
call half done d =
    let (f, rest) = next_fault d.faults in
    let next : Disk = record d { faults = rest } in outcome f next (half next) (done next)

-- `remove_dir`: nothing is to do for a missing directory.
unfoldable pub remove_dir : Place → Action Disk (Unit {0})
unfolding call
remove_dir p d = if is_there (look p d) then call (put p broken) (put p missing) d else (ok tt, d)

abbrev pub move : Place → Place → Disk → Disk
move from to d = put to (look from d) (put from missing d)

-- `rename_durable`: a rename has no half; nothing is in its way where it is called.
unfoldable pub rename_durable : Place → Place → Action Disk (Unit {0})
unfolding call
rename_durable from to = call (λ d. d) (move from to)

-- `FileStore::version`
abbrev pub entry_version : Entry → Result (Option String)
entry_version missing = ok none
entry_version broken = err (io not_found "No such file or directory (os error 2)")
entry_version (whole v) = ok (some v)

unfoldable pub version : Slot → Disk → Result (Option String)
version s d = entry_version (look (place_of s) d)

-- `FileStore::populate`, whose calls fill the directory.
unfoldable pub populate : Place → String → Action Disk (Unit {0})
unfolding call
populate p v = do
  lift (refuse_if (is_empty (trim v)) "empty artifact version")
  remove_dir p
  call (put p broken) (put p (whole (trim v)))

unfoldable pub stage : String → Action Disk (Unit {0})
unfolding populate
stage v = do
  populate at_staging v
  remove_dir at_experiment
  rename_durable at_staging at_experiment

-- `promote` without an experiment: after the commit rename only the backup may remain.
abbrev pub drop_backup : Option String → Action Disk (Unit {0})
drop_backup none d = (err (invalid "promotion has no stable or experiment"), d)
drop_backup (some v) d = remove_dir at_old d

unfoldable pub set_aside : Action Disk (Unit {0})
set_aside d =
    if is_there d.stable_dir
    then ((remove_dir at_old >> rename_durable at_stable at_old) d)
    else (ok tt, d)

abbrev pub promote_with : Option String → Action Disk (Unit {0})
promote_with none d = (lift (version stable d) >>= drop_backup) d
promote_with (some v) d =
    (set_aside >> (rename_durable at_experiment at_stable >> remove_dir at_old)) d

unfoldable pub promote : Action Disk (Unit {0})
unfolding set_aside version
promote d = (lift (version experiment d) >>= promote_with) d

unfoldable pub clear : Action Disk (Unit {0})
clear = remove_dir at_experiment

-- `bootstrap_locked` when there is no stable slot; whether the source is a plain file is known.
unfoldable pub bootstrap_with : Bool → String → Option String → Action Disk Bool
bootstrap_with source v (some present) d = (ok false, d)
bootstrap_with source v none d =
    (lift (
          refuse_if (if d.journal then true else is_there d.experiment_dir)
            "BOOTSTRAP_STATE_CONFLICT")
        >> (lift (refuse_if (if source then false else true) "BOOTSTRAP_SOURCE_UNREADABLE")
            >> (populate at_bootstrap (trim v)
                >> (rename_durable at_bootstrap at_stable >> pure true))))
      d

unfoldable pub bootstrap_locked : Bool → String → Action Disk Bool
unfolding bootstrap_with
bootstrap_locked source v d =
    (lift (refuse_if (is_empty (trim v)) "BOOTSTRAP_VERSION_INVALID")
        >> (lift (version stable d) >>= bootstrap_with source v))
      d
