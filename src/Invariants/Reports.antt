-- ===== src/Invariants/Reports.antt =====
-- What the checks of src/invariants.rs report.
use k_carrier.Base.{
  ℕ, zero, suc, true, false, ◌≡◌, ◌↔◌, refl, subst, ◌⊎◌, inl, inr, none, some, List, [], ◌∷◌, arith,
  Bool-cases, if◌then◌else◌,
}
use k_carrier.Invariants.{
  WorldSnapshot, unsettled, lives_stable, terminal, settled_among, from_terminal,
  service_settles_live,
}

-- A terminal observation, and a live stable incarnation at most `n` observations from it on.
abbrev pub LivesWithin : ℕ → List WorldSnapshot → Type 0
LivesWithin zero ss = ⊥
LivesWithin (suc n) [] = ⊥
LivesWithin (suc n) (s ∷ ss) = (lives_stable s ≡ true) ⊎ LivesWithin n ss

abbrev pub SettlesLive : ℕ → List WorldSnapshot → Type 0
SettlesLive n [] = Unit
SettlesLive n (s ∷ ss) =
    ((terminal s.phase ≡ true) × LivesWithin n (s ∷ ss))
    ⊎ ((terminal s.phase ≡ false) × SettlesLive n ss)

among-LivesWithin :
    (ss : List WorldSnapshot) (n : ℕ) → (settled_among ss n ≡ true) ↔ LivesWithin n ss
unfolding settled_among
among-LivesWithin [] zero = (λ h. ground (arith, h), λ h. absurd h)
among-LivesWithin [] (suc n) = (λ h. ground (arith, h), λ h. absurd h)
among-LivesWithin (s ∷ ss) zero = (λ h. ground (arith, h), λ h. absurd h)
among-LivesWithin (s ∷ ss) (suc n) =
    let (to, from) = among-LivesWithin ss n in
    (
      λ h. elim (Bool-cases (lives_stable s)) [
        | inl lives ↦ inl lives
        | inr absent ↦ inr (to (ground (arith, h, absent)))
      ],
      λ h. elim h [ inl lives ↦ ground (arith, lives) | inr later ↦ ground (arith, from later) ],
    )

-- The liveness check passes exactly where, if an observation is terminal, the stable version is
-- live in one of the `n` observations from the first such on.
pub service_settles_live-SettlesLive :
    (ss : List WorldSnapshot) (n : ℕ) → (service_settles_live ss n ≡ none) ↔ SettlesLive n ss
unfolding service_settles_live from_terminal
service_settles_live-SettlesLive [] n = (λ h. tt, λ h. refl)
service_settles_live-SettlesLive (s ∷ ss) n =
    let (to, from) = among-LivesWithin (s ∷ ss) n in
    let (to', from') = service_settles_live-SettlesLive ss n in
    elim (Bool-cases (terminal s.phase)) [
      | inl ends ↦ (
        λ h. inl (ends, to (ground (arith, h, ends))),
        λ h. elim h [
          | inl (_, lives) ↦ rw (ends, from lives) refl
          | inr (moving, _) ↦ absurd (ground (arith, ends, moving))
        ],
      )
      | inr goes ↦ (
        λ h. inr (
          goes,
          to' (
              subst (λ b. unsettled n (if b then some (s ∷ ss) else from_terminal ss) ≡ none) goes
                h),
        ),
        λ h. elim h [
          | inl (ended, _) ↦ absurd (ground (arith, ended, goes))
          | inr (_, later) ↦ rw goes (from' later)
        ],
      )
    ]
