-- ===== src/Report/Converges.antt =====
-- What an accepting readback of src/report.rs says.
use k_carrier.Base.{
  ℕ, String, Bool, true, false, ◌≡◌, refl, subst, Option, none, some, List, arith, ◌==◌, Bool-cases,
  inl, inr, ◌⊎◌, is_empty, nat_eq, ◌||◌, eq_iff, eq_refl,
}
use k_carrier.State.{Evidence}
use k_carrier.Error.{Result, ok, err}
use k_carrier.Validate.{validate_evidence}
use k_carrier.Report.{
  PredicateResult, Surface, Watch, no_surfaces, report, observed, keep_lifecycle, evaluate_valid,
  evaluate_convergence, retire_reason,
}

module _ {W : Type 0} (self_pid : ℕ) (surfaces : List (Surface W)) (expected_target : String)
    (clock : W → ℕ × W) where
  -- A version, a start id, and a pid that is neither 0 nor that of the process that reads.
  abbrev pub IsWellFormed : Evidence → Type 0
  IsWellFormed evidence =
      (is_empty evidence.version ≡ false)
      × (is_empty evidence.start_id ≡ false)
      × (nat_eq evidence.pid 0 ≡ false)
      × (nat_eq evidence.pid self_pid ≡ false)

  -- How an evaluation ends. It accepts well-formed evidence of a candidate at the target version
  -- whose report passes, and which retires the legacy manager where surfaces are declared. It
  -- refuses another version, or a readback that did not pass. It fails on malformed evidence, and
  -- on no other, with nothing observed.
  abbrev pub Judged : Evidence → String → Watch W → ℕ → Result (Option String) × Watch W → Type 0
  Judged evidence target watch now (ok none, watch') =
      IsWellFormed evidence
      × (evidence.version ≡ target)
      × ((report self_pid surfaces expected_target clock target watch' now).binary_at_target.passed
          ≡ true)
      × ((no_surfaces surfaces ≡ true)
          ⊎ (retire_reason
                (observed (report self_pid surfaces expected_target clock target watch' now))
              ≡ ok tt))
  Judged evidence target watch now (ok (some reason), watch') =
      IsWellFormed evidence
      × (((evidence.version ≡ target) → ⊥)
          ⊎ ((r : PredicateResult) × (watch'.lifecycle ≡ some r) × (r.passed ≡ false)))
  Judged evidence target watch now (err x, watch') = (IsWellFormed evidence → ⊥) × (watch' ≡ watch)

  kept-Judged :
      (evidence : Evidence) (target : String) (watch : Watch W) (now : ℕ) (r : PredicateResult)
      (w : W)
      → IsWellFormed evidence
      → evidence.version ≡ target
      → Judged evidence target watch now (
          keep_lifecycle self_pid surfaces expected_target clock
            (record watch { evidence = some evidence })
            (r, w))
  unfolding keep_lifecycle report retire_reason
  kept-Judged evidence target watch now r w good same = elim (Bool-cases r.passed) [
    | inl passed ↦ rw passed (
      good,
      same,
      subst (λ v. (evidence.version == v) ≡ true) same (eq_refl evidence.version),
      inr refl,
    )
    | inr not_passed ↦ rw not_passed (good, inr (record r { passed = false }, refl, refl))
  ]

  valid-Judged :
      (evidence : Evidence) (target : String) (watch : Watch W) (now : ℕ)
      → IsWellFormed evidence
      → Judged evidence target watch now
          (evaluate_valid self_pid surfaces expected_target clock evidence target watch)
  unfolding evaluate_valid report
  valid-Judged evidence target watch now good = elim (Bool-cases (evidence.version == target)) [
    | inr other ↦
        rw other (good, inl λ same. ground (arith, other, (eq_iff evidence.version target).1 same))
    | inl current ↦ elim (Bool-cases (no_surfaces surfaces)) [
      | inl none_declared ↦
          rw (current, none_declared)
            (good, (eq_iff evidence.version target).0 current, current, inl none_declared)
      | inr declared ↦
          rw (current, declared)
            (kept-Judged evidence target watch now _ _ good
              ((eq_iff evidence.version target).0 current))
    ]
  ]

  malformed :
      (a b c d : Bool)
      → (a || b || c || d) ≡ true
      → (a ≡ false) × (b ≡ false) × (c ≡ false) × (d ≡ false)
      → ⊥
  malformed a b c d h (ha, hb, hc, hd) = ground (arith, h, ha, hb, hc, hd)

  well_formed :
      (a b c d : Bool)
      → (a || b || c || d) ≡ false
      → (a ≡ false) × (b ≡ false) × (c ≡ false) × (d ≡ false)
  well_formed a b c d h = ground (arith, h)

  -- An evaluation accepts a candidate only where its evidence is well formed and the report on it
  -- passes, with the lifecycle where one is declared; it refuses only another version or a
  -- lifecycle that did not pass, of well-formed evidence; and it is an error exactly for malformed
  -- evidence (no version, no start id, or the pid 0 or the reader's own), with nothing observed.
  pub evaluate-Judged :
      (evidence : Evidence) (target : String) (watch : Watch W) (now : ℕ)
      → Judged evidence target watch now
          (evaluate_convergence self_pid surfaces expected_target clock evidence target watch)
  unfolding evaluate_convergence validate_evidence
  evaluate-Judged evidence target watch now =
      elim (Bool-cases (
        is_empty evidence.version
        || is_empty evidence.start_id
        || nat_eq evidence.pid 0
        || nat_eq evidence.pid self_pid)) [
          | inl bad ↦ rw bad (malformed _ _ _ _ bad, refl)
          | inr good ↦ rw good (valid-Judged evidence target watch now (well_formed _ _ _ _ good))
        ]
