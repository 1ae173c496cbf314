-- ===== src/Lock/Ordered.antt =====
-- The order that callers of src/lock.rs keep: of two, one is yet to look at the other's claim.
use k_carrier.Base.{
  ℕ, Bool, true, false, ◌||◌, ◌≡◌, ◌⊎◌, inl, inr, refl, sym, subst, Option, List, ◌∷◌, nat_eq,
  arith, Bool-cases, ◌∙◌, ap, nat_eq_same, nat_eq_equal, nat_eq_flip,
}
use k_carrier.Lock.{
  Stage, idle, listing, scanning, creating, reading, removing, writing, held, retained, unlocking,
  unclaiming, lapsed, released, refusing, failed, dead, LockFile, Claims, is_in, put, Step,
  claims_it, lists, skips_itself, meets, clears, stumbles, scanned, creates, exists_already,
  cannot_create, tries_no_more, writes, cannot_write, cannot_sync, finds_missing, finds_stale,
  finds_owner, cannot_read, removes, cannot_remove, withdraws, leaves_claim, retains,
  begins_release, begins_again, has_no_claim, unlocks, cannot_unlock, unclaims, cannot_unclaim,
  dies, cannot_claim, has_none_again,
}

-- Past the scan, until the claim is gone.
abbrev pub is_past_scan : Stage → Bool
is_past_scan (creating n) = true
is_past_scan (reading n) = true
is_past_scan (removing n) = true
is_past_scan writing = true
is_past_scan held = true
is_past_scan retained = true
is_past_scan unlocking = true
is_past_scan unclaiming = true
is_past_scan lapsed = true
is_past_scan _ = false

-- Between creating the claim and giving up.
abbrev pub is_active : Stage → Bool
is_active listing = true
is_active (scanning entries) = true
is_active s = is_past_scan s

-- Whether the caller at this stage is yet to look at the other's claim, if it comes so far.
abbrev pub waits : Stage → ℕ → Bool
waits (scanning entries) q = is_in q entries
waits (creating n) q = false
waits (reading n) q = false
waits (removing n) q = false
waits writing q = false
waits held q = false
waits retained q = false
waits unlocking q = false
waits unclaiming q = false
waits lapsed q = false
waits _ q = true

-- Every active caller's claim is there, and of two callers one is yet to look at the other.
pub record Ordered (w : Claims) : Type 0 where
  pub claimed : (p : ℕ) → is_active (w.stages p) ≡ true → w.claims p ≡ true
  pub apart : (p q : ℕ) → nat_eq q p ≡ false → (waits (w.stages p) q || waits (w.stages q) p) ≡ true

-- What a step must do for that.
pub record Fair (w : Claims) (p : ℕ) (x : Stage) (c : ℕ → Bool) : Type 0 where
  pub others : (q : ℕ) → nat_eq q p ≡ false → is_active (w.stages q) ≡ true → c q ≡ true
  pub own : is_active x ≡ true → c p ≡ true
  pub looks :
      (q : ℕ)
      → nat_eq q p ≡ false
      → (waits (w.stages p) q || waits (w.stages q) p) ≡ true
      → (waits x q || waits (w.stages q) p) ≡ true

pub put_same : {A : Type 0} (p : ℕ) (a : A) (f : ℕ → A) → put p a f p ≡ a
unfolding put
put_same p a f = rw (nat_eq_same p) refl

pub put_other : {A : Type 0} (p q : ℕ) (a : A) (f : ℕ → A) → nat_eq q p ≡ false → put p a f q ≡ f q
unfolding put
put_other p q a f h = rw h refl

waits_or_active : (s : Stage) (p : ℕ) → (is_active s ≡ true) ⊎ (waits s p ≡ true)
waits_or_active idle p = inr refl
waits_or_active released p = inr refl
waits_or_active (refusing x) p = inr refl
waits_or_active (failed x) p = inr refl
waits_or_active dead p = inr refl
waits_or_active listing p = inl refl
waits_or_active (scanning entries) p = inl refl
waits_or_active (creating n) p = inl refl
waits_or_active (reading n) p = inl refl
waits_or_active (removing n) p = inl refl
waits_or_active writing p = inl refl
waits_or_active held p = inl refl
waits_or_active retained p = inl refl
waits_or_active unlocking p = inl refl
waits_or_active unclaiming p = inl refl
waits_or_active lapsed p = inl refl

or_right : (a b : Bool) → b ≡ true → (a || b) ≡ true
or_right a b h = ground (arith, h)

module _ (w : Claims) (p : ℕ) (o : Ordered w) where
  -- A step that leaves the claims and looks at no other.
  stays :
      (x s : Stage)
      → w.stages p ≡ s
      → is_active x ≡ is_active s
      → ((q : ℕ) → nat_eq q p ≡ false → waits x q ≡ waits s q)
      → Fair w p x w.claims
  stays x s at act look = record {
    others = λ q _ h. o.claimed q h;
    own = λ h. o.claimed p (subst (λ t. is_active t ≡ true) (sym at) (sym act ∙ h));
    looks = λ q d h. rw (look q d) (subst (λ t. (waits t q || waits (w.stages q) p) ≡ true) at h);
  }

  -- A step out of the protocol.
  leaves : (x : Stage) → is_active x ≡ false → ((q : ℕ) → waits x q ≡ true) → Fair w p x w.claims
  leaves x out look = record {
    others = λ q _ h. o.claimed q h;
    own = λ h. absurd (ground (arith, out, h));
    looks = λ q d h. rw (look q) refl;
  }

  -- A step out of the protocol that removes the claim.
  withdrawn :
      (x : Stage)
      → is_active x ≡ false
      → ((q : ℕ) → waits x q ≡ true)
      → Fair w p x (put p false w.claims)
  withdrawn x out look = record {
    others = λ q d h. put_other p q false w.claims d ∙ o.claimed q h;
    own = λ h. absurd (ground (arith, out, h));
    looks = λ q d h. rw (look q) refl;
  }

  enters : w.stages p ≡ idle → Fair w p listing (put p true w.claims)
  enters at = record {
    others = λ q d h. put_other p q true w.claims d ∙ o.claimed q h;
    own = λ _. put_same p true w.claims;
    looks = λ q d h. refl;
  }

  listed :
      (entries : List ℕ)
      → w.stages p ≡ listing
      → ((q : ℕ) → w.claims q ≡ true → is_in q entries ≡ true)
      → Fair w p (scanning entries) w.claims
  listed entries at all = record {
    others = λ q _ h. o.claimed q h;
    own = λ _. o.claimed p (subst (λ t. is_active t ≡ true) (sym at) refl);
    looks = λ q d h. elim (waits_or_active (w.stages q) p) [
      | inl active ↦ rw (all q (o.claimed q active)) refl
      | inr looking ↦ or_right (is_in q entries) (waits (w.stages q) p) looking
    ];
  }

  dead_stays : (q r : ℕ) → w.stages q ≡ dead → is_active (w.stages r) ≡ true → nat_eq r q ≡ false
  dead_stays q r gone active = elim (Bool-cases (nat_eq r q)) [
    | inr other ↦ other
    | inl same ↦ absurd (
        ground (
          arith,
          subst (λ t. is_active t ≡ true) (ap w.stages (nat_eq_equal r q same) ∙ gone) active,
        ))
  ]

  cleared :
      (q : ℕ) (rest : List ℕ)
      → w.stages p ≡ scanning (q ∷ rest)
      → nat_eq q p ≡ false
      → w.stages q ≡ dead
      → Fair w p (scanning rest) (put q false w.claims)
  cleared q rest at other gone = record {
    others = λ r d h. put_other q r false w.claims (dead_stays q r gone h) ∙ o.claimed r h;
    own = λ _.
        put_other q p false w.claims (nat_eq_flip q p other)
        ∙ o.claimed p (subst (λ t. is_active t ≡ true) (sym at) refl);
    looks = λ r d h. elim (Bool-cases (nat_eq q r)) [
      | inl same ↦ or_right (is_in r rest) (waits (w.stages r) p) (
          subst (λ t. waits t p ≡ true) (sym (ap w.stages (sym (nat_eq_equal q r same)) ∙ gone))
            refl)
      | inr differs ↦
          dropped (nat_eq q r) (is_in r rest) (waits (w.stages r) p) differs
            (subst (λ t. (waits t r || waits (w.stages r) p) ≡ true) at h)
    ];
  }
    where
      dropped : (a b c : Bool) → a ≡ false → ((a || b) || c) ≡ true → (b || c) ≡ true
      dropped a b c f h = ground (arith, f, h)

  skipped : (rest : List ℕ) → w.stages p ≡ scanning (p ∷ rest) → Fair w p (scanning rest) w.claims
  skipped rest at =
      stays (scanning rest) (scanning (p ∷ rest)) at refl λ q d. rw (nat_eq_flip q p d) refl

pub Step-Fair :
    (pid_of : ℕ → ℕ) (w : Claims) (p : ℕ) (x : Stage) (c : ℕ → Bool) (l : Option LockFile)
    → Ordered w
    → Step pid_of w p x c l
    → Fair w p x c
Step-Fair pid_of w p x c l o (claims_it at) = enters w p o at
Step-Fair pid_of w p x c l o (cannot_claim e at) = leaves w p o _ refl λ _. refl
Step-Fair pid_of w p x c l o (has_none_again at gone) = leaves w p o _ refl λ _. refl
Step-Fair pid_of w p x c l o (lists entries at all) = listed w p o entries at all
Step-Fair pid_of w p x c l o (skips_itself rest at) = skipped w p o rest at
Step-Fair pid_of w p x c l o (meets q rest at d) = leaves w p o _ refl λ _. refl
Step-Fair pid_of w p x c l o (clears q rest at d gone) = cleared w p o q rest at d gone
Step-Fair pid_of w p x c l o (stumbles entries e at) = leaves w p o _ refl λ _. refl
Step-Fair pid_of w p x c l o (scanned at) = stays w p o _ _ at refl λ _ _. refl
Step-Fair pid_of w p x c l o (creates left at free) = stays w p o _ _ at refl λ _ _. refl
Step-Fair pid_of w p x c l o (exists_already left file at there) =
    stays w p o _ _ at refl λ _ _. refl
Step-Fair pid_of w p x c l o (cannot_create left e at) = leaves w p o _ refl λ _. refl
Step-Fair pid_of w p x c l o (tries_no_more at) = leaves w p o _ refl λ _. refl
Step-Fair pid_of w p x c l o (writes at) = stays w p o _ _ at refl λ _ _. refl
Step-Fair pid_of w p x c l o (cannot_write e at) = leaves w p o _ refl λ _. refl
Step-Fair pid_of w p x c l o (cannot_sync e at) = leaves w p o _ refl λ _. refl
Step-Fair pid_of w p x c l o (finds_missing left at gone) = stays w p o _ _ at refl λ _ _. refl
Step-Fair pid_of w p x c l o (finds_stale left file at there stale) =
    stays w p o _ _ at refl λ _ _. refl
Step-Fair pid_of w p x c l o (finds_owner left q file at there named) =
    leaves w p o _ refl λ _. refl
Step-Fair pid_of w p x c l o (cannot_read left e at) = leaves w p o _ refl λ _. refl
Step-Fair pid_of w p x c l o (removes left file at there) = stays w p o _ _ at refl λ _ _. refl
Step-Fair pid_of w p x c l o (cannot_remove left e at) = leaves w p o _ refl λ _. refl
Step-Fair pid_of w p x c l o (withdraws e at) = withdrawn w p o _ refl λ _. refl
Step-Fair pid_of w p x c l o (leaves_claim e at) = leaves w p o _ refl λ _. refl
Step-Fair pid_of w p x c l o (retains at) = stays w p o _ _ at refl λ _ _. refl
Step-Fair pid_of w p x c l o (begins_release at there) = stays w p o _ _ at refl λ _ _. refl
Step-Fair pid_of w p x c l o (begins_again at there) = stays w p o _ _ at refl λ _ _. refl
Step-Fair pid_of w p x c l o (has_no_claim at gone) = leaves w p o _ refl λ _. refl
Step-Fair pid_of w p x c l o (unlocks at) = stays w p o _ _ at refl λ _ _. refl
Step-Fair pid_of w p x c l o (cannot_unlock at) = stays w p o _ _ at refl λ _ _. refl
Step-Fair pid_of w p x c l o (unclaims at) = withdrawn w p o _ refl λ _. refl
Step-Fair pid_of w p x c l o (cannot_unclaim at) = stays w p o _ _ at refl λ _ _. refl
Step-Fair pid_of w p x c l o dies = leaves w p o _ refl λ _. refl
