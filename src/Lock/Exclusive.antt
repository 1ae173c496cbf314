-- ===== src/Lock/Exclusive.antt =====
-- At most one caller of src/lock.rs is past the scan of the claims.
use k_carrier.Base.{
  ℕ, Bool, true, false, ◌||◌, ◌≡◌, ◌⊎◌, inl, inr, refl, subst, Option, nat_eq, arith, Bool-cases,
  ◌∙◌, ap, nat_eq_equal,
}
use k_carrier.Lock.{
  Stage, idle, listing, scanning, creating, reading, removing, writing, held, retained, unlocking,
  unclaiming, lapsed, released, refusing, failed, dead, LockFile, Claims, put, Step, after, Run,
  stop, go,
}
use k_carrier.Lock.Ordered.{
  is_past_scan, is_active, waits, Ordered, Fair, put_same, put_other, Step-Fair,
}

module _ (pid_of : ℕ → ℕ) where
  after-Ordered :
      (w : Claims) (p : ℕ) (x : Stage) (c : ℕ → Bool) (l : Option LockFile)
      → Ordered w
      → Fair w p x c
      → Ordered (after pid_of p x c l w)
  after-Ordered w p x c l o f = record {
    claimed = λ q. claimed_at q (Bool-cases (nat_eq q p));
    apart = λ q r d. apart_at q r d (Bool-cases (nat_eq q p)) (Bool-cases (nat_eq r p));
  }
    where
      moved : (q : ℕ) → nat_eq q p ≡ true → put p x w.stages q ≡ x
      moved q h = ap (put p x w.stages) (nat_eq_equal q p h) ∙ put_same p x w.stages

      claimed_at :
          (q : ℕ)
          → (nat_eq q p ≡ true) ⊎ (nat_eq q p ≡ false)
          → is_active (put p x w.stages q) ≡ true
          → c q ≡ true
      claimed_at q (inl same) h =
          ap c (nat_eq_equal q p same) ∙ f.own (subst (λ t. is_active t ≡ true) (moved q same) h)
      claimed_at q (inr other) h =
          f.others q other (subst (λ t. is_active t ≡ true) (put_other p q x w.stages other) h)

      swap : (a b : Bool) → (a || b) ≡ true → (b || a) ≡ true
      swap a b h = ground (arith, h)

      met : (q : ℕ) → nat_eq q p ≡ false → (waits x q || waits (w.stages q) p) ≡ true
      met q d = f.looks q d (o.apart p q d)

      apart_at :
          (q r : ℕ)
          → nat_eq r q ≡ false
          → (nat_eq q p ≡ true) ⊎ (nat_eq q p ≡ false)
          → (nat_eq r p ≡ true) ⊎ (nat_eq r p ≡ false)
          → (waits (put p x w.stages q) r || waits (put p x w.stages r) q) ≡ true
      apart_at q r d (inl a) (inl b) =
          absurd (ground (arith, nat_eq_equal q p a, nat_eq_equal r p b, d))
      apart_at q r d (inl a) (inr b) =
          rw (moved q a) rw (put_other p r x w.stages b) rw (nat_eq_equal q p a) (met r b)
      apart_at q r d (inr a) (inl b) =
          rw (moved r b) rw (put_other p q x w.stages a) rw (nat_eq_equal r p b)
            (swap (waits x q) (waits (w.stages q) p) (met q a))
      apart_at q r d (inr a) (inr b) =
          rw (put_other p q x w.stages a) rw (put_other p r x w.stages b) (o.apart q r d)

  pub Step-Ordered :
      (w : Claims) (p : ℕ) (x : Stage) (c : ℕ → Bool) (l : Option LockFile)
      → Ordered w
      → Step pid_of w p x c l
      → Ordered (after pid_of p x c l w)
  Step-Ordered w p x c l o s = after-Ordered w p x c l o (Step-Fair pid_of w p x c l o s)

  Run-Ordered : {n : ℕ} (w w' : Claims) → Ordered w → Run pid_of n w w' → Ordered w'
  Run-Ordered w w' o stop = o
  Run-Ordered w w' o (go p s rest) = Run-Ordered _ w' (Step-Ordered w p _ _ _ o s) rest

-- Nobody has begun; claims and a lock file of earlier processes may be there.
abbrev pub Fresh : Claims → Type 0
Fresh w = (p : ℕ) → w.stages p ≡ idle

pub Fresh-Ordered : (w : Claims) → Fresh w → Ordered w
Fresh-Ordered w h = record {
  claimed = λ p active. absurd (ground (arith, subst (λ t. is_active t ≡ true) (h p) active));
  apart = λ p q d. rw (h p) refl;
}

past_never_waits : (s : Stage) (q : ℕ) → is_past_scan s ≡ true → waits s q ≡ false
past_never_waits (creating n) q h = refl
past_never_waits (reading n) q h = refl
past_never_waits (removing n) q h = refl
past_never_waits writing q h = refl
past_never_waits held q h = refl
past_never_waits retained q h = refl
past_never_waits unlocking q h = refl
past_never_waits unclaiming q h = refl
past_never_waits lapsed q h = refl
past_never_waits idle q h = absurd (ground (arith, h))
past_never_waits listing q h = absurd (ground (arith, h))
past_never_waits (scanning entries) q h = absurd (ground (arith, h))
past_never_waits released q h = absurd (ground (arith, h))
past_never_waits (refusing x) q h = absurd (ground (arith, h))
past_never_waits (failed x) q h = absurd (ground (arith, h))
past_never_waits dead q h = absurd (ground (arith, h))

pub alone :
    (w : Claims) (p q : ℕ)
    → Ordered w
    → is_past_scan (w.stages p) ≡ true
    → is_past_scan (w.stages q) ≡ true
    → q ≡ p
alone w p q o h k = elim (Bool-cases (nat_eq q p)) [
  | inl same ↦ nat_eq_equal q p same
  | inr other ↦ absurd (
      neither (waits (w.stages p) q) (waits (w.stages q) p) (o.apart p q other)
        (past_never_waits (w.stages p) q h) (past_never_waits (w.stages q) p k))
]
  where
    neither : (a b : Bool) → (a || b) ≡ true → a ≡ false → b ≡ false → ⊥
    neither a b h f g = ground (arith, h, f, g)

-- Of any number of callers, in any processes, that take their steps in any order, lose any of
-- their processes and fail in any call, at most one is past the scan of the claims: one at a
-- time creates, reads, replaces or removes the lock file, holds the lock or releases it.
pub Run-alone :
    (pid_of : ℕ → ℕ) (n p q : ℕ) (w w' : Claims)
    → Fresh w
    → Run pid_of n w w'
    → is_past_scan (w'.stages p) ≡ true
    → is_past_scan (w'.stages q) ≡ true
    → q ≡ p
Run-alone pid_of n p q w w' fresh steps h k =
    alone w' p q (Run-Ordered pid_of w w' (Fresh-Ordered w fresh) steps) h k
