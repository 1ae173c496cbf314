-- ===== src/Lock/Acquires.antt =====
-- What dead callers of src/lock.rs leave behind does not keep the lock from the next one.
use k_carrier.Base.{
  ℕ, suc, ◌+◌, ◌≤◌, Bool, true, false, ◌≡◌, ◌∙◌, ◌⊎◌, inl, inr, refl, sym, ap, Option, none, some,
  List, [], ◌∷◌, length, nat_eq, arith, Bool-cases, nat_eq_equal, nat_eq_flip,
}
use k_carrier.Lock.{
  Stage, idle, listing, scanning, creating, reading, removing, writing, held, dead, LockFile,
  Claims, is_in, put, IsStale, Step, claims_it, lists, skips_itself, clears, scanned, creates,
  exists_already, writes, finds_stale, removes, after, Run, stop, go,
}
use k_carrier.Lock.Ordered.{put_same, put_other}

-- Every other caller is dead.
abbrev pub IsLast : Claims → ℕ → Type 0
IsLast w p = (q : ℕ) → nat_eq q p ≡ false → w.stages q ≡ dead

-- The lock file is missing, unreadable or of another caller.
abbrev pub NamesOther : ℕ → Option ℕ → Type 0
NamesOther p none = Unit
NamesOther p (some q) = nat_eq q p ≡ false

abbrev pub NotOwn : ℕ → Option LockFile → Type 0
NotOwn p none = Unit
NotOwn p (some file) = NamesOther p file.owner

module _ (pid_of : ℕ → ℕ) (p : ℕ) where
  -- Steps of its own take the caller to the lock.
  abbrev pub Reaches : ℕ → Claims → Type 0
  Reaches most w = (n : ℕ) × (w' : Claims) × (n ≤ most) × Run pid_of n w w' × (w'.stages p ≡ held)

  steps_on :
      (most : ℕ) (w : Claims) (x : Stage) (c : ℕ → Bool) (l : Option LockFile)
      → Step pid_of w p x c l
      → Reaches most (after pid_of p x c l w)
      → Reaches (suc most) w
  steps_on most w x c l s (n, w', few, steps, at) =
      (suc n, w', ground (arith, few), go p s steps, at)

  still-IsLast :
      (w : Claims) (x : Stage) (c : ℕ → Bool) (l : Option LockFile)
      → IsLast w p
      → IsLast (after pid_of p x c l w) p
  still-IsLast w x c l h q d = put_other p q x w.stages d ∙ h q d

  from_writing : (w : Claims) → w.stages p ≡ writing → Reaches 1 w
  from_writing w at = (1, _, ground arith, go p (writes at) stop, put_same p held w.stages)

  from_free :
      (left : ℕ) (w : Claims) → w.stages p ≡ creating (suc left) → w.lock ≡ none → Reaches 2 w
  from_free left w at free =
      steps_on 1 w _ _ _ (creates left at free) (from_writing _ (put_same p writing w.stages))

  stale : (w : Claims) (owner : Option ℕ) → IsLast w p → NamesOther p owner → IsStale w owner
  stale w none h other = tt
  stale w (some q) h other = h q other

  -- A stale lock file is removed, and the next attempt creates it.
  from_stale :
      (left : ℕ) (w : Claims) (file : LockFile)
      → IsLast w p
      → NamesOther p file.owner
      → w.stages p ≡ creating (suc (suc left))
      → w.lock ≡ some file
      → Reaches 5 w
  from_stale left w file h other at there =
      steps_on 4 w _ _ _ (exists_already (suc left) file at there) (
        steps_on 3 read _ _ _
          (finds_stale (suc left) file (put_same p (reading (suc left)) w.stages) there
            (stale read file.owner (still-IsLast w (reading (suc left)) w.claims w.lock h) other))
          (steps_on 2 found _ _ _
            (removes (suc left) file (put_same p (removing (suc left)) read.stages) there)
            (from_free left gone (put_same p (creating (suc left)) found.stages) refl)))
    where
      read : Claims
      read = after pid_of p (reading (suc left)) w.claims w.lock w

      found : Claims
      found = after pid_of p (removing (suc left)) w.claims w.lock read

      gone : Claims
      gone = after pid_of p (creating (suc left)) w.claims none found

  more : (few most : ℕ) (w : Claims) → few ≤ most → Reaches few w → Reaches most w
  more few most w h (n, w', fits, steps, at) = (n, w', ground (arith, h, fits), steps, at)

  from_creating :
      (w : Claims) (lock : Option LockFile)
      → w.lock ≡ lock
      → IsLast w p
      → NotOwn p lock
      → w.stages p ≡ creating 50
      → Reaches 5 w
  from_creating w none free h other at = more 2 5 w (ground arith) (from_free 49 w at free)
  from_creating w (some file) there h other at = from_stale 48 w file h other at there

  from_scanning :
      (entries : List ℕ) (w : Claims)
      → IsLast w p
      → NotOwn p w.lock
      → w.stages p ≡ scanning entries
      → Reaches (length entries + 6) w
  from_scanning [] w h other at = more 6 _ w (ground arith) (
      steps_on 5 w _ _ _ (scanned at) (
        from_creating _ w.lock refl (still-IsLast w (creating 50) w.claims w.lock h) other
          (put_same p (creating 50) w.stages)))
  from_scanning (q ∷ rest) w h other at =
      more (suc (length rest + 6)) _ w (ground arith) (elim (Bool-cases (nat_eq q p)) [
        | inl same ↦
            steps_on (length rest + 6) w _ _ _
              (skips_itself rest (at ∙ ap (λ r. scanning (r ∷ rest)) (nat_eq_equal q p same)))
              (from_scanning rest _ (still-IsLast w (scanning rest) w.claims w.lock h) other
                (put_same p (scanning rest) w.stages))
        | inr differs ↦
            steps_on (length rest + 6) w _ _ _ (clears q rest at differs (h q differs)) (
              from_scanning rest _ (still-IsLast w (scanning rest) (put q false w.claims) w.lock h)
                other (put_same p (scanning rest) w.stages))
      ])

  -- A caller that is the last one alive can always take the lock, whatever the dead ones left:
  -- any claims, which the list contains, and a lock file that is missing, torn or names one of
  -- them. It needs at most nine steps and one for each entry of the list.
  pub idle-Reaches :
      (entries : List ℕ) (w : Claims)
      → w.stages p ≡ idle
      → IsLast w p
      → NotOwn p w.lock
      → ((q : ℕ) → w.claims q ≡ true → is_in q entries ≡ true)
      → Reaches (length entries + 9) w
  idle-Reaches entries w at h other all =
      more (suc (suc (length (p ∷ entries) + 6))) _ w (ground arith) (
        steps_on (suc (length (p ∷ entries) + 6)) w _ _ _ (claims_it at) (
          steps_on (length (p ∷ entries) + 6) claimed _ _ _
            (lists (p ∷ entries) (put_same p listing w.stages)
              λ q. listed q (Bool-cases (nat_eq p q)))
            (from_scanning (p ∷ entries) _
              (still-IsLast claimed (scanning (p ∷ entries)) claimed.claims w.lock
                (still-IsLast w listing claimed.claims w.lock h))
              other (put_same p (scanning (p ∷ entries)) claimed.stages))))
    where
      claimed : Claims
      claimed = after pid_of p listing (put p true w.claims) w.lock w

      listed :
          (q : ℕ)
          → (nat_eq p q ≡ true) ⊎ (nat_eq p q ≡ false)
          → put p true w.claims q ≡ true
          → is_in q (p ∷ entries) ≡ true
      listed q (inl same) k = rw same refl
      listed q (inr differs) k =
          rw differs (all q (sym (put_other p q true w.claims (nat_eq_flip p q differs)) ∙ k))
