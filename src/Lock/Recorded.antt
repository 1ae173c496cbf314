-- ===== src/Lock/Recorded.antt =====
-- While a caller of src/lock.rs holds the lock, the lock file is its own.
use k_carrier.Base.{
  ℕ, Bool, true, false, ◌≡◌, ◌⊎◌, inl, inr, refl, sym, subst, Option, some, nat_eq, arith,
  Bool-cases, nat_eq_same, nat_eq_equal,
}
use k_carrier.Lock.{
  Stage, writing, held, retained, LockFile, Claims, put, written, blank, Step, claims_it, lists,
  skips_itself, meets, clears, stumbles, scanned, creates, exists_already, cannot_create,
  tries_no_more, writes, cannot_write, cannot_sync, finds_missing, finds_stale, finds_owner,
  cannot_read, removes, cannot_remove, withdraws, leaves_claim, retains, begins_release,
  begins_again, has_no_claim, unlocks, cannot_unlock, unclaims, cannot_unclaim, dies, after, Run,
  stop, go, cannot_claim, has_none_again,
}
use k_carrier.Lock.Exclusive.{Step-Ordered, Fresh, Fresh-Ordered, alone}
use k_carrier.Lock.Ordered.{is_past_scan, Ordered, put_same, put_other}

abbrev pub own_file : ℕ → LockFile
own_file p = record { creator = p; owner = some p }

-- The lock file that a stage relies on.
abbrev Owns : Stage → ℕ → Option LockFile → Type 0
Owns writing p lock = lock ≡ some (blank p)
Owns held p lock = lock ≡ some (own_file p)
Owns retained p lock = lock ≡ some (own_file p)
Owns _ p lock = Unit

abbrev owns_one : Stage → Bool
owns_one writing = true
owns_one held = true
owns_one retained = true
owns_one _ = false

-- What a step must do to the lock file: leave it, or be past the scan.
record Careful (w : Claims) (p : ℕ) (x : Stage) (l : Option LockFile) : Type 0 where
  owned : Owns x p l
  touches : (l ≡ w.lock) ⊎ (is_past_scan (w.stages p) ≡ true)

past :
    (w : Claims) (p : ℕ) (s : Stage)
    → w.stages p ≡ s
    → is_past_scan s ≡ true
    → is_past_scan (w.stages p) ≡ true
past w p s at h = subst (λ t. is_past_scan t ≡ true) (sym at) h

relied :
    (w : Claims) (p : ℕ) (s : Stage) → Owns (w.stages p) p w.lock → w.stages p ≡ s → Owns s p w.lock
relied w p s h at = subst (λ t. Owns t p w.lock) at h

module _ (w : Claims) (p : ℕ) where
  untouched : (x : Stage) → Owns x p w.lock → Careful w p x w.lock
  untouched x h = record { owned = h; touches = inl refl }

  touching :
      (x s : Stage) (l : Option LockFile)
      → w.stages p ≡ s
      → is_past_scan s ≡ true
      → Owns x p l
      → Careful w p x l
  touching x s l at h own = record { owned = own; touches = inr (past w p s at h) }

  writes_own : w.lock ≡ some (blank p) → written p w.lock ≡ some (own_file p)
  writes_own h = rw h rw (nat_eq_same p) refl

  Step-Careful :
      (pid_of : ℕ → ℕ) (x : Stage) (c : ℕ → Bool) (l : Option LockFile)
      → Owns (w.stages p) p w.lock
      → Step pid_of w p x c l
      → Careful w p x l
  Step-Careful pid_of x c l h (claims_it at) = untouched _ tt
  Step-Careful pid_of x c l h (cannot_claim e at) = untouched _ tt
  Step-Careful pid_of x c l h (has_none_again at gone) = untouched _ tt
  Step-Careful pid_of x c l h (lists entries at all) = untouched _ tt
  Step-Careful pid_of x c l h (skips_itself rest at) = untouched _ tt
  Step-Careful pid_of x c l h (meets q rest at d) = untouched _ tt
  Step-Careful pid_of x c l h (clears q rest at d gone) = untouched _ tt
  Step-Careful pid_of x c l h (stumbles entries e at) = untouched _ tt
  Step-Careful pid_of x c l h (scanned at) = untouched _ tt
  Step-Careful pid_of x c l h (creates left at free) = touching _ _ _ at refl refl
  Step-Careful pid_of x c l h (exists_already left file at there) = untouched _ tt
  Step-Careful pid_of x c l h (cannot_create left e at) = untouched _ tt
  Step-Careful pid_of x c l h (tries_no_more at) = untouched _ tt
  Step-Careful pid_of x c l h (writes at) =
      touching _ _ _ at refl (writes_own (relied w p writing h at))
  Step-Careful pid_of x c l h (cannot_write e at) = untouched _ tt
  Step-Careful pid_of x c l h (cannot_sync e at) = touching _ _ _ at refl tt
  Step-Careful pid_of x c l h (finds_missing left at gone) = untouched _ tt
  Step-Careful pid_of x c l h (finds_stale left file at there stale) = untouched _ tt
  Step-Careful pid_of x c l h (finds_owner left q file at there named) = untouched _ tt
  Step-Careful pid_of x c l h (cannot_read left e at) = untouched _ tt
  Step-Careful pid_of x c l h (removes left file at there) = touching _ _ _ at refl tt
  Step-Careful pid_of x c l h (cannot_remove left e at) = untouched _ tt
  Step-Careful pid_of x c l h (withdraws e at) = untouched _ tt
  Step-Careful pid_of x c l h (leaves_claim e at) = untouched _ tt
  Step-Careful pid_of x c l h (retains at) = untouched _ (relied w p held h at)
  Step-Careful pid_of x c l h (begins_release at there) = untouched _ tt
  Step-Careful pid_of x c l h (begins_again at there) = untouched _ tt
  Step-Careful pid_of x c l h (has_no_claim at gone) = untouched _ tt
  Step-Careful pid_of x c l h (unlocks at) = touching _ _ _ at refl tt
  Step-Careful pid_of x c l h (cannot_unlock at) = untouched _ tt
  Step-Careful pid_of x c l h (unclaims at) = untouched _ tt
  Step-Careful pid_of x c l h (cannot_unclaim at) = untouched _ tt
  Step-Careful pid_of x c l h dies = untouched _ tt

abbrev Recorded : Claims → Type 0
Recorded w = (p : ℕ) → Owns (w.stages p) p w.lock

owner_past : (s : Stage) → owns_one s ≡ true → is_past_scan s ≡ true
owner_past s h = ground (arith, h)

relies_on_none : (s : Stage) (p : ℕ) (l : Option LockFile) → owns_one s ≡ false → Owns s p l
relies_on_none s p l h = ground (arith, h)

module _ (pid_of : ℕ → ℕ) where
  after-Recorded :
      (w : Claims) (p : ℕ) (x : Stage) (c : ℕ → Bool) (l : Option LockFile)
      → Ordered w
      → Recorded w
      → Careful w p x l
      → Recorded (after pid_of p x c l w)
  after-Recorded w p x c l o r f q = at (Bool-cases (nat_eq q p))
    where
      kept :
          nat_eq q p ≡ false
          → (l ≡ w.lock) ⊎ (is_past_scan (w.stages p) ≡ true)
          → (owns_one (w.stages q) ≡ true) ⊎ (owns_one (w.stages q) ≡ false)
          → Owns (w.stages q) q l
      kept d (inl same) _ = subst (Owns (w.stages q) q) (sym same) (r q)
      kept d (inr inside) (inr none_owned) = relies_on_none (w.stages q) q l none_owned
      kept d (inr inside) (inl owner) =
          absurd (ground (arith, d, alone w p q o inside (owner_past (w.stages q) owner)))

      at : (nat_eq q p ≡ true) ⊎ (nat_eq q p ≡ false) → Owns (put p x w.stages q) q l
      at (inl same) = rw (nat_eq_equal q p same) rw (put_same p x w.stages) f.owned
      at (inr other) =
          rw (put_other p q x w.stages other)
            (kept other f.touches (Bool-cases (owns_one (w.stages q))))

  Run-Recorded : {n : ℕ} (w w' : Claims) → Ordered w → Recorded w → Run pid_of n w w' → Recorded w'
  Run-Recorded w w' o r stop = r
  Run-Recorded w w' o r (go {x = x} {c = c} {l = l} p s rest) =
      Run-Recorded _ w' (Step-Ordered pid_of w p x c l o s)
        (after-Recorded w p x c l o r (Step-Careful w p pid_of x c l (r p) s)) rest

  -- Whoever holds the lock finds its own record in the lock file, which nobody else has replaced
  -- or removed: from when `acquire` returned until its release begins or its process dies,
  -- whatever other callers and processes did in the meantime.
  pub Run-own_file :
      (n p : ℕ) (w w' : Claims)
      → Fresh w
      → Run pid_of n w w'
      → w'.stages p ≡ held
      → w'.lock ≡ some (own_file p)
  Run-own_file n p w w' fresh steps at =
      relied w' p held
        (Run-Recorded w w' (Fresh-Ordered w fresh)
          (λ q. subst (λ t. Owns t q w.lock) (sym (fresh q)) tt) steps p)
        at
