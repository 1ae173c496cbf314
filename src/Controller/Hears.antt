-- ===== src/Controller/Hears.antt =====
-- What the controller of src/host.rs answers in one conversation.
use k_carrier.Base.{
  ℕ, ap, sym, List, length, ltb, ◌≤◌, if◌then◌else◌, String, true, false, ◌&&◌, ◌≡◌, refl, subst,
  inl, inr, Option, ◌==◌, arith, Bool-cases,
}
use k_carrier.State.{Slot}
use k_carrier.Error.{uncertain, Result, ok, err}
use k_carrier.Action.{lift, after_seen}
use k_carrier.Controller.{
  Status, Values, Process, equals_pid, is_unresolved, is_accepted, judge_value, judge_response,
  converse,
}

module _ (j : Values) where
  -- A value that the controller answered in the protocol, and not about itself.
  abbrev pub Accepted : String → ℕ → j.Value → Type 0
  Accepted action pid v =
      (is_accepted j v ≡ true)
      × (((action == "probe") && equals_pid pid (j.evidence_pid v)) ≡ false)

  -- A value is taken only from a process that exited with success.
  abbrev pub Taken : String → ℕ → Status → j.Value → Result j.Value → Type 0
  Taken action pid status v (ok u) = (v ≡ u) × (status.success ≡ true) × Accepted action pid u
  Taken action pid status v (err x) = Unit

  judge_value-Taken :
      (action : String) (pid : ℕ) (status : Status) (v : j.Value)
      → Taken action pid status v (judge_value j action pid status v)
  unfolding judge_value
  judge_value-Taken action pid status v = elim (Bool-cases (is_unresolved j v)) [
    | inl unresolved ↦ rw unresolved tt
    | inr resolved ↦ rw resolved (elim (Bool-cases status.success) [
      | inr failed ↦ rw failed tt
      | inl good ↦ rw good (elim (Bool-cases (is_accepted j v)) [
        | inr refused ↦ rw refused tt
        | inl taken ↦
            rw taken (elim (Bool-cases ((action == "probe") && equals_pid pid (j.evidence_pid v))) [
              | inl own ↦ rw own tt
              | inr other ↦ rw other (refl, refl, (taken, other))
            ])
      ])
    ])
  ]

  abbrev pub TakenOf : String → ℕ → Status → Result j.Value → Result j.Value → Type 0
  TakenOf action pid status m (ok u) = (m ≡ ok u) × (status.success ≡ true) × Accepted action pid u
  TakenOf action pid status m (err x) = Unit

  wrapped :
      (action : String) (pid : ℕ) (status : Status) (v : j.Value) (r : Result j.Value)
      → Taken action pid status v r
      → TakenOf action pid status (ok v) r
  wrapped action pid status v (ok u) (same, good, taken) = (ap ok same, good, taken)
  wrapped action pid status v (err x) h = tt

  judge_response-TakenOf :
      (action : String) (pid : ℕ) (status : Status) (m : Result j.Value)
      → TakenOf action pid status m (judge_response j action pid status m)
  unfolding judge_response
  judge_response-TakenOf action pid status (ok v) =
      wrapped action pid status v _ (judge_value-Taken action pid status v)
  judge_response-TakenOf action pid status (err x) = elim (Bool-cases status.success) [
    | inl good ↦ rw good tt
    | inr failed ↦ rw failed tt
  ]

  module _ {W : Type 0} (process : Process W j.Value) where
    -- What was said to the controller `pid`, from the world in which it was started: its record
    -- was written, its whole answer read, and its exit awaited, with success.
    pub record Heard (action : String) (slot : Option Slot) (pid : ℕ) (v : j.Value)
        (started after : W) : Type 0 where
      pub recorded : W
      pub answered : W
      pub bytes : List ℕ
      pub status : Status
      pub record_written : process.write_record pid started ≡ (ok tt, recorded)
      pub answer_read : process.exchange action slot recorded ≡ (ok bytes, answered)
      pub bounded : length bytes ≤ 65536
      pub exit_awaited : process.wait answered ≡ (ok status, after)
      pub decoded_from : j.from_slice bytes ≡ ok v
      pub succeeded : status.success ≡ true
      pub accepted : Accepted action pid v

    abbrev pub HeardOr : String → Option Slot → ℕ → W → Result j.Value × W → Type 0
    HeardOr action slot pid w (ok v, w') = Heard action slot pid v w w'
    HeardOr action slot pid w (err x, w') = Unit

    module _ (action : String) (slot : Option Slot) (pid : ℕ) (w : W) where
      judges :
          (w₁ w₂ : W) (bytes : List ℕ) (status : Status) (w₃ : W)
          → process.write_record pid w ≡ (ok tt, w₁)
          → process.exchange action slot w₁ ≡ (ok bytes, w₂)
          → length bytes ≤ 65536
          → process.wait w₂ ≡ (ok status, w₃)
          → (r : Result j.Value) → TakenOf action pid status (j.from_slice bytes) r
          → HeardOr action slot pid w (r, w₃)
      judges w₁ w₂ bytes status w₃ h₁ h₂ few h₃ (err x) e = tt
      judges w₁ w₂ bytes status w₃ h₁ h₂ few h₃ (ok v) (from, good, taken) = record {
        recorded = w₁;
        answered = w₂;
        bytes = bytes;
        status = status;
        record_written = h₁;
        answer_read = h₂;
        bounded = few;
        exit_awaited = h₃;
        decoded_from = from;
        succeeded = good;
        accepted = taken;
      }

      size_check : ℕ → Result (Unit {0})
      size_check n = if ltb 65536 n then err (uncertain "HOST_RESPONSE_TOO_LARGE") else ok tt

      short : (n : ℕ) → size_check n ≡ ok tt → n ≤ 65536
      unfolding size_check
      short n h = ground (arith, h)

      pub converse-HeardOr : HeardOr action slot pid w (converse j process action slot pid w)
      unfolding converse lift size_check
      converse-HeardOr =
          after_seen (HeardOr action slot pid w) _ _ w (λ _ _. tt)
            λ _ v₁ h₁.
              after_seen (HeardOr action slot pid w) _ _ v₁ (λ _ _. tt)
                λ bytes v₂ h₂.
                  after_seen (HeardOr action slot pid w) _ _ v₂ (λ _ _. tt)
                    λ _ v₃ h₃.
                      after_seen (HeardOr action slot pid w) _ _ v₃ (λ _ _. tt)
                        λ status v₄ h₄.
                          judges v₁ v₂ bytes status v₄ h₁ h₂
                            (short (length bytes) (ap (λ p. p.0) h₃))
                            (subst (λ v. process.wait v ≡ (ok status, v₄)) (sym (ap (λ p. p.1) h₃))
                              h₄)
                            _ (judge_response-TakenOf action pid status (j.from_slice bytes))
