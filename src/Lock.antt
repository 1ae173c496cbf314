-- ===== src/Lock.antt =====
-- src/lock.rs: the upgrade lock. Any number of callers of `acquire_at`, in any processes, take
-- their steps in any order; each step is one call of the file system, and a process may die
-- between any two.
pub mod Ordered
pub mod Exclusive
pub mod Recorded
pub mod Acquires
use k_carrier.Base.{
  ℕ, zero, suc, Bool, true, false, ◌||◌, ◌≡◌, Option, none, some, List, [], ◌∷◌, nat_eq,
  if◌then◌else◌,
}
use k_carrier.Error.{Error, locked, io, IoKind, invalid}

-- Where a caller stands. Its claim is a directory of its own name in `upgrade.lock.claims`.
pub data Stage : Type 0 where
  -- Before the claim is created, and between that and `read_dir`.
  idle listing : Stage
  -- The entries that the loop over `read_dir` has not looked at.
  scanning : List ℕ → Stage
  -- In the loop of attempts, with those that are left: before opening the lock file, after it was
  -- found to exist, and after its content was found stale.
  creating reading removing : ℕ → Stage
  -- The lock file is created and its record is not written.
  writing : Stage
  -- `acquire_at` returned the guard; `retain_until_exit` was called on it.
  held retained : Stage
  -- In `release`: before removing the lock file, and before removing the claim; and after either
  -- failed, with the guard not released.
  unlocking unclaiming lapsed : Stage
  released : Stage
  -- `acquire_at` fails: before and after it removes the claim.
  refusing failed : Error → Stage
  -- The process died.
  dead : Stage

-- The lock file: who created it, and whom its record names, if it can be read.
pub record LockFile : Type 0 where
  pub creator : ℕ
  pub owner : Option ℕ

-- Each caller has a number of its own, as its claim's name has a fresh UUID; `claims` tells
-- whether its claim exists.
pub record Claims : Type 0 where
  pub stages : ℕ → Stage
  pub claims : ℕ → Bool
  pub lock : Option LockFile

abbrev pub is_in : ℕ → List ℕ → Bool
is_in p [] = false
is_in p (q ∷ rest) = nat_eq q p || is_in p rest

unfoldable pub put : {A : Type 0} → ℕ → A → (ℕ → A) → ℕ → A
put p a f q = if nat_eq q p then a else f q

-- A record that does not name a process that runs: it cannot be read, or its process is dead.
abbrev pub IsStale : Claims → Option ℕ → Type 0
IsStale w none = Unit
IsStale w (some q) = w.stages q ≡ dead

-- Writing to the open file: it is in the directory unless another has removed it.
abbrev pub written : ℕ → Option LockFile → Option LockFile
written p none = none
written p (some file) =
    some (if nat_eq file.creator p then record { creator = p; owner = some p } else file)

abbrev pub blank : ℕ → LockFile
blank p = record { creator = p; owner = none }

-- A step of one caller: the stage it comes to, the claims and the lock file afterwards. `pid_of`
-- is the process of a caller. `process_alive` is true of a process that runs, and may be true of
-- a dead one whose number is in use again.
module _ (pid_of : ℕ → ℕ) where
  pub data Step (w : Claims) (p : ℕ) : Stage → (ℕ → Bool) → Option LockFile → Type 0 where
    -- `fs::create_dir(&claim)`
    claims_it : w.stages p ≡ idle → Step w p listing (put p true w.claims) w.lock
    cannot_claim : (x : Error) → w.stages p ≡ idle → Step w p (failed x) w.claims w.lock
    -- `fs::read_dir`: every claim that is there, and maybe some that are not any more.
    lists :
        (entries : List ℕ)
        → w.stages p ≡ listing
        → ((q : ℕ) → w.claims q ≡ true → is_in q entries ≡ true)
        → Step w p (scanning entries) w.claims w.lock
    -- `s == name`
    skips_itself :
        (rest : List ℕ)
        → w.stages p ≡ scanning (p ∷ rest)
        → Step w p (scanning rest) w.claims w.lock
    -- `process_alive(pid)`
    meets :
        (q : ℕ) (rest : List ℕ)
        → w.stages p ≡ scanning (q ∷ rest)
        → nat_eq q p ≡ false
        → Step w p (refusing (locked (pid_of q))) w.claims w.lock
    -- `fs::remove_dir`, or it is missing.
    clears :
        (q : ℕ) (rest : List ℕ)
        → w.stages p ≡ scanning (q ∷ rest)
        → nat_eq q p ≡ false
        → w.stages q ≡ dead
        → Step w p (scanning rest) (put q false w.claims) w.lock
    -- An entry that cannot be read, parsed or removed.
    stumbles :
        (entries : List ℕ) (x : Error)
        → w.stages p ≡ scanning entries
        → Step w p (refusing x) w.claims w.lock
    scanned : w.stages p ≡ scanning [] → Step w p (creating 50) w.claims w.lock
    -- `create_new`
    creates :
        (left : ℕ)
        → w.stages p ≡ creating (suc left)
        → w.lock ≡ none
        → Step w p writing w.claims (some (blank p))
    exists_already :
        (left : ℕ) (file : LockFile)
        → w.stages p ≡ creating (suc left)
        → w.lock ≡ some file
        → Step w p (reading left) w.claims w.lock
    cannot_create :
        (left : ℕ) (x : Error)
        → w.stages p ≡ creating (suc left)
        → Step w p (refusing x) w.claims w.lock
    tries_no_more :
        w.stages p ≡ creating zero
        → Step w p (refusing (invalid "UPGRADE_LOCK_UNRESOLVABLE")) w.claims w.lock
    -- `write_all` and `sync_all`
    writes : w.stages p ≡ writing → Step w p held w.claims (written p w.lock)
    cannot_write : (x : Error) → w.stages p ≡ writing → Step w p (refusing x) w.claims w.lock
    -- `f.sync_all()?` fails when the record is written.
    cannot_sync :
        (x : Error) → w.stages p ≡ writing → Step w p (refusing x) w.claims (written p w.lock)
    -- `fs::read(&guard.lock)`
    finds_missing :
        (left : ℕ)
        → w.stages p ≡ reading left
        → w.lock ≡ none
        → Step w p (creating left) w.claims w.lock
    finds_stale :
        (left : ℕ) (file : LockFile)
        → w.stages p ≡ reading left
        → w.lock ≡ some file
        → IsStale w file.owner
        → Step w p (removing left) w.claims w.lock
    finds_owner :
        (left q : ℕ) (file : LockFile)
        → w.stages p ≡ reading left
        → w.lock ≡ some file
        → file.owner ≡ some q
        → Step w p (refusing (locked (pid_of q))) w.claims w.lock
    cannot_read :
        (left : ℕ) (x : Error) → w.stages p ≡ reading left → Step w p (refusing x) w.claims w.lock
    -- `fs::remove_file(&guard.lock)?`
    removes :
        (left : ℕ) (file : LockFile)
        → w.stages p ≡ removing left
        → w.lock ≡ some file
        → Step w p (creating left) w.claims none
    cannot_remove :
        (left : ℕ) (x : Error) → w.stages p ≡ removing left → Step w p (refusing x) w.claims w.lock
    -- `let _ = fs::remove_dir(&guard.claim)`, which may fail.
    withdraws :
        (x : Error) → w.stages p ≡ refusing x → Step w p (failed x) (put p false w.claims) w.lock
    leaves_claim : (x : Error) → w.stages p ≡ refusing x → Step w p (failed x) w.claims w.lock
    -- `retain_until_exit`
    retains : w.stages p ≡ held → Step w p retained w.claims w.lock
    -- `release`: `exists(&self.claim)?`
    begins_release : w.stages p ≡ held → w.claims p ≡ true → Step w p unlocking w.claims w.lock
    begins_again : w.stages p ≡ lapsed → w.claims p ≡ true → Step w p unlocking w.claims w.lock
    has_no_claim : w.stages p ≡ held → w.claims p ≡ false → Step w p released w.claims w.lock
    has_none_again : w.stages p ≡ lapsed → w.claims p ≡ false → Step w p released w.claims w.lock
    unlocks : w.stages p ≡ unlocking → Step w p unclaiming w.claims none
    cannot_unlock : w.stages p ≡ unlocking → Step w p lapsed w.claims w.lock
    unclaims : w.stages p ≡ unclaiming → Step w p released (put p false w.claims) w.lock
    cannot_unclaim : w.stages p ≡ unclaiming → Step w p lapsed w.claims w.lock
    dies : Step w p dead w.claims w.lock

  abbrev pub after : ℕ → Stage → (ℕ → Bool) → Option LockFile → Claims → Claims
  after p x c l w = record { stages = put p x w.stages; claims = c; lock = l }

  -- So many steps, of any callers.
  pub data Run : ℕ → Claims → Claims → Type 0 where
    stop : {w : Claims} → Run zero w w
    go :
        {n : ℕ} {w w' : Claims} {x : Stage} {c : ℕ → Bool} {l : Option LockFile} (p : ℕ)
        → Step w p x c l
        → Run n (after p x c l w) w'
        → Run (suc n) w w'
