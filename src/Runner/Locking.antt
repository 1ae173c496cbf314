-- ===== src/Runner/Locking.antt =====
-- The lock around a call in src/runner.rs: released, or kept until the process exits.
use k_carrier.Base.{ℕ, Bool, true, false, ◌≡◌, refl, ◌⊎◌, inl, inr, Bool-cases}
use k_carrier.Error.{is_uncertain, Result, ok, err}
use k_carrier.Action.{Action, continue, lift, attempt, ◌>>=◌}
use k_carrier.Runner.{Runner, Lock, clock}
use k_carrier.Runner.Drive.{settle_lock, with_lock}

-- Whether the lock is held can be seen in the world: taking it, releasing it and keeping it do
-- what they say.
pub record Lawful {W : Type 0} (lock : Lock W) (held : W → Bool) : Type 0 where
  pub frees : (w w' : W) → lock.release w ≡ (ok tt, w') → held w' ≡ false
  pub retains : (w : W) → held w ≡ true → held (lock.retain w) ≡ true
  pub takes : (n : ℕ) (w w' : W) → lock.acquire n w ≡ (ok tt, w') → held w' ≡ true

module _ {W : Type 0} (r : Runner W) (held : W → Bool) where
  -- A call that returned has released the lock. One that failed has released it, or kept it because
  -- its error is uncertain, or its error is the lock's own.
  abbrev pub Unlocked : {A : Type 0} → Result A × W → Type 0
  Unlocked (ok a, w') = held w' ≡ false
  Unlocked (err x, w') =
      (held w' ≡ false)
      ⊎ (((is_uncertain x ≡ true) × (held w' ≡ true))
          ⊎ (((v : W) × (r.lock.release v ≡ (err x, w')))
              ⊎ ((n : ℕ) × (v : W) × (r.lock.acquire n v ≡ (err x, w')))))

  released :
      {A : Type 0} (result : Result A) (v : W)
      → Lawful r.lock held
      → (p : Result (Unit {0}) × W) → r.lock.release v ≡ p
      → Unlocked (continue (λ _. lift result) p)
  unfolding lift
  released (ok a) v laws (ok _, w') h = laws.frees v w' h
  released (err x) v laws (ok _, w') h = inl (laws.frees v w' h)
  released result v laws (err x, w') h = inr (inr (inl (v, h)))

  settled-Unlocked :
      {A : Type 0} (result : Result A) (v : W)
      → Lawful r.lock held
      → held v ≡ true
      → Unlocked (continue (λ _. lift result) (settle_lock r result v))
  unfolding settle_lock lift
  settled-Unlocked (ok a) v laws has = released (ok a) v laws _ refl
  settled-Unlocked (err x) v laws has = elim (Bool-cases (is_uncertain x)) [
    | inl unsure ↦ rw unsure (inr (inl (unsure, laws.retains v has)))
    | inr sure ↦ rw sure (released (err x) v laws _ refl)
  ]

  taken-Unlocked :
      {A : Type 0} (body : Action W A) (n : ℕ) (v : W)
      → Lawful r.lock held
      → ((w : W) → held w ≡ true → held (body w).1 ≡ true)
      → (p : Result (Unit {0}) × W) → r.lock.acquire n v ≡ p
      → Unlocked
          (continue (λ _. attempt body >>= λ result. settle_lock r result >>= λ _. lift result) p)
  unfolding ◌>>=◌
  taken-Unlocked body n v laws keeps (ok _, w') h =
      settled-Unlocked (body w').0 (body w').1 laws (keeps w' (laws.takes n v w' h))
  taken-Unlocked body n v laws keeps (err x, w') h = inr (inr (inr (n, v, h)))

  -- A call under the lock that returns has released it. One that fails has released it too, unless
  -- its error is uncertain, and then the lock is kept, or the error is that of taking or releasing
  -- the lock.
  pub with_lock-Unlocked :
      {A : Type 0} (body : Action W A) (w : W)
      → Lawful r.lock held
      → ((v : W) → held v ≡ true → held (body v).1 ≡ true)
      → Unlocked (with_lock r body w)
  unfolding with_lock ◌>>=◌ clock
  with_lock-Unlocked body w laws keeps = taken-Unlocked body _ _ laws keeps _ refl
