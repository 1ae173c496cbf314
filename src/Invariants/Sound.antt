-- ===== src/Invariants/Sound.antt =====
-- What a snapshot without violations of the built-in checks of src/invariants.rs is like.
use k_carrier.Base.{
  String, Bool, true, false, not, ◌&&◌, ◌==◌, ◌≡◌, ◌∙◌, subst, ◌↔◌, refl, sym, ◌⊎◌, inl, inr,
  Option, none, some, List, [], ◌∷◌, arith, Bool-cases, if◌then◌else◌, is_none, is_some, ltb,
  length, eq_iff,
}
use k_carrier.State.{
  Phase, idle, staged, handing_over, running_experiment, readback, promoted, rolled_back, phase_eq,
}
use k_carrier.Invariants.{
  WorldSnapshot, LiveProcess, Slots, Ownership, managed_elsewhere, self_owned, Violation,
  check_invariants, built_in_invariants, add_violation, slot_version, mismatch_of, first_mismatch,
  first_some, when, contains_phase, is_end, is_managed, never_dual_run, never_bricked,
  live_process_matches_slot, journal_precedes_phase, terminal_leaves_no_experiment,
  managed_copy_never_self_upgrades,
}

-- Every live process reports the version that its slot holds, where it holds one.
abbrev pub AllMatch : Slots → List LiveProcess → Type 0
AllMatch slots [] = Unit
AllMatch slots (p ∷ ps) =
    ((v : String) → slot_version slots p.slot ≡ some v → v ≡ p.version) × AllMatch slots ps

abbrev pub Among : Phase → List Phase → Type 0
Among p [] = ⊥
Among p (q ∷ qs) = (q ≡ p) ⊎ Among p qs

abbrev pub AtMostOne : List LiveProcess → Type 0
AtMostOne ps = (ps ≡ []) ⊎ ((p : LiveProcess) × (ps ≡ p ∷ []))

-- A snapshot of a sound installation.
abbrev pub Sound : WorldSnapshot → Type 0
Sound s =
    AtMostOne s.live_processes
    × ((s.slots.stable ≡ none) → (s.slots.experiment ≡ none) → ⊥)
    × AllMatch s.slots s.live_processes
    × ((s.phase ≡ idle) ⊎ Among s.phase s.journal_intents)
    × ((s.phase ≡ promoted) ⊎ (s.phase ≡ rolled_back) → s.slots.experiment ≡ none)
    × ((s.install_ownership ≡ some managed_elsewhere) → s.phase ≡ idle)

same_phase : (p q : Phase) → phase_eq p q ≡ true → p ≡ q
same_phase idle idle h = refl
same_phase staged staged h = refl
same_phase handing_over handing_over h = refl
same_phase running_experiment running_experiment h = refl
same_phase readback readback h = refl
same_phase promoted promoted h = refl
same_phase rolled_back rolled_back h = refl
same_phase _ _ h = absurd (ground (arith, h))

phase_itself : (p : Phase) → phase_eq p p ≡ true
phase_itself idle = refl
phase_itself _ = refl

phase_same_as : (p q : Phase) → p ≡ q → phase_eq p q ≡ true
phase_same_as p q h = rw h (phase_itself q)

unreported : (b : Bool) (reason : String) → (when b reason ≡ none) ↔ (b ≡ false)
unreported true reason = (λ h. absurd (ground (arith, h)), λ h. absurd (ground (arith, h)))
unreported false reason = (λ h. refl, λ h. refl)

reported :
    (id : String) (found : Option String) (rest : List Violation)
    → (add_violation id found rest ≡ []) ↔ ((found ≡ none) × (rest ≡ []))
reported id none rest = (λ h. (refl, h), λ (_, h). h)
reported id (some reason) rest =
    (λ h. absurd (ground (arith, h)), λ (h, _). absurd (ground (arith, h)))

counted : (ps : List LiveProcess) → (ltb 1 (length ps) ≡ false) ↔ AtMostOne ps
counted [] = (λ h. inl refl, λ h. refl)
counted (p ∷ []) = (λ h. inr (p, refl), λ h. refl)
counted (p ∷ q ∷ ps) = (
  λ h. absurd (ground (arith, h)),
  λ h. elim h [ inl e ↦ absurd (ground (arith, e)) | inr (r, e) ↦ absurd (ground (arith, e)) ],
)

never_dual_run-AtMostOne :
    (s : WorldSnapshot) → (never_dual_run s ≡ none) ↔ AtMostOne s.live_processes
unfolding never_dual_run
never_dual_run-AtMostOne s =
    let (to, from) = unreported (ltb 1 (length s.live_processes)) _ in
    let (to', from') = counted s.live_processes in (λ h. to' (to h), λ h. from (from' h))

emptied : (a b : Option String) → ((is_none a && is_none b) ≡ false) ↔ ((a ≡ none) → (b ≡ none) → ⊥)
emptied none none = (λ h. absurd (ground (arith, h)), λ h. absurd (h refl refl))
emptied none (some v) = (λ h e e'. ground (arith, e'), λ h. refl)
emptied (some v) b = (λ h e e'. ground (arith, e), λ h. refl)

some_inj : (u v : String) → some u ≡ some v → u ≡ v
some_inj u v h = cc

told : (b : Bool) (reason : String) → ((if b then none else some reason) ≡ none) ↔ (b ≡ true)
told true reason = (λ h. refl, λ h. refl)
told false reason = (λ h. absurd (ground (arith, h)), λ h. absurd (ground (arith, h)))

agrees :
    (o : Option String) (r : String)
    → (mismatch_of o r ≡ none) ↔ ((v : String) → o ≡ some v → v ≡ r)
agrees none r = (λ h v e. absurd (ground (arith, e)), λ h. refl)
agrees (some held) r =
    let (to, from) = told (held == r) _ in
    (
      λ h v e. sym (some_inj held v e) ∙ (eq_iff held r).0 (to h),
      λ h. from ((eq_iff held r).1 (h held refl)),
    )

both_none : (a b : Option String) → (first_some a b ≡ none) ↔ ((a ≡ none) × (b ≡ none))
both_none none b = (λ h. (refl, h), λ (_, h). h)
both_none (some v) b = (λ h. absurd (ground (arith, h)), λ (h, _). absurd (ground (arith, h)))

first_mismatch-AllMatch :
    (slots : Slots) (ps : List LiveProcess) → (first_mismatch slots ps ≡ none) ↔ AllMatch slots ps
unfolding first_mismatch
first_mismatch-AllMatch slots [] = (λ h. tt, λ h. refl)
first_mismatch-AllMatch slots (p ∷ ps) =
    let (to, from) = first_mismatch-AllMatch slots ps in
    let (apart, together) = both_none (mismatch_of (slot_version slots p.slot) p.version) _ in
    let (seen, unseen) = agrees (slot_version slots p.slot) p.version in
    (
      λ h. let (here, there) = apart h in (seen here, to there),
      λ (here, there). together (unseen here, from there),
    )

contains_phase-Among : (qs : List Phase) (p : Phase) → (contains_phase qs p ≡ true) ↔ Among p qs
contains_phase-Among [] p = (λ h. ground (arith, h), λ h. absurd h)
contains_phase-Among (q ∷ qs) p =
    let (to, from) = contains_phase-Among qs p in
    (
      λ h. elim (Bool-cases (phase_eq q p)) [
        | inl same ↦ inl (same_phase q p same)
        | inr other ↦ inr (to (ground (arith, h, other)))
      ],
      λ h. elim h [
        | inl same ↦ ground (arith, phase_same_as q p same)
        | inr later ↦ ground (arith, from later)
      ],
    )

journal_precedes_phase-Among :
    (s : WorldSnapshot)
    → (journal_precedes_phase s ≡ none) ↔ ((s.phase ≡ idle) ⊎ Among s.phase s.journal_intents)
unfolding journal_precedes_phase
journal_precedes_phase-Among s =
    let (to, from) =
      unreported (not (phase_eq s.phase idle) && not (contains_phase s.journal_intents s.phase))
        _ in
    let (found, lists) = contains_phase-Among s.journal_intents s.phase in
    (
      λ h. elim (Bool-cases (phase_eq s.phase idle)) [
        | inl rests ↦ inl (same_phase s.phase idle rests)
        | inr works ↦ inr (found (listed _ _ works (to h)))
      ],
      λ h. elim h [
        | inl rests ↦ from (rested _ _ (phase_same_as s.phase idle rests))
        | inr here ↦ from (known _ _ (lists here))
      ],
    )
  where
    listed : (a b : Bool) → a ≡ false → (not a && not b) ≡ false → b ≡ true
    listed a b h k = ground (arith, h, k)

    rested : (a b : Bool) → a ≡ true → (not a && not b) ≡ false
    rested a b h = ground (arith, h)

    known : (a b : Bool) → b ≡ true → (not a && not b) ≡ false
    known true true h = refl
    known false true h = refl
    known a false h = absurd (ground (arith, h))

moving : (p : Phase) → is_end p ≡ false → (p ≡ promoted) ⊎ (p ≡ rolled_back) → ⊥
moving p h k = elim k [
  | inl e ↦ ground (arith, subst (λ q. is_end q ≡ false) e h)
  | inr e ↦ ground (arith, subst (λ q. is_end q ≡ false) e h)
]

ended :
    (p : Phase) (x : Option String)
    → ((is_end p && is_some x) ≡ false) ↔ ((p ≡ promoted) ⊎ (p ≡ rolled_back) → x ≡ none)
ended promoted none = (λ h k. refl, λ h. refl)
ended promoted (some v) =
    (λ h. absurd (ground (arith, h)), λ h. absurd (ground (arith, h (inl refl))))
ended rolled_back none = (λ h k. refl, λ h. refl)
ended rolled_back (some v) =
    (λ h. absurd (ground (arith, h)), λ h. absurd (ground (arith, h (inr refl))))
ended p none = (λ h k. refl, λ h. refl)
ended p (some v) = (λ h k. absurd (moving p refl k), λ h. refl)

managed :
    (o : Option Ownership) (p : Phase)
    → ((is_managed o && not (phase_eq p idle)) ≡ false) ↔ ((o ≡ some managed_elsewhere) → p ≡ idle)
managed none p = (λ h e. absurd (ground (arith, e)), λ h. refl)
managed (some self_owned) p = (λ h e. absurd (other e), λ h. refl)
  where
    other : some self_owned ≡ some managed_elsewhere → ⊥
    other e = ground (arith, e)
managed (some managed_elsewhere) p = (
  λ h e. same_phase p idle (ground (arith, h)),
  λ h. ground (arith, phase_same_as p idle (h refl)),
)

never_bricked-holds :
    (s : WorldSnapshot)
    → (never_bricked s ≡ none) ↔ ((s.slots.stable ≡ none) → (s.slots.experiment ≡ none) → ⊥)
unfolding never_bricked
never_bricked-holds s =
    let (to, from) = unreported (is_none s.slots.stable && is_none s.slots.experiment) _ in
    let (to', from') = emptied s.slots.stable s.slots.experiment in
    (λ h. to' (to h), λ h. from (from' h))

live_process_matches_slot-AllMatch :
    (s : WorldSnapshot) → (live_process_matches_slot s ≡ none) ↔ AllMatch s.slots s.live_processes
unfolding live_process_matches_slot
live_process_matches_slot-AllMatch s = first_mismatch-AllMatch s.slots s.live_processes

terminal_leaves :
    (s : WorldSnapshot)
    → (terminal_leaves_no_experiment s ≡ none)
      ↔ ((s.phase ≡ promoted) ⊎ (s.phase ≡ rolled_back) → s.slots.experiment ≡ none)
unfolding terminal_leaves_no_experiment
terminal_leaves s =
    let (to, from) = unreported (is_end s.phase && is_some s.slots.experiment) _ in
    let (to', from') = ended s.phase s.slots.experiment in (λ h. to' (to h), λ h. from (from' h))

managed_stays :
    (s : WorldSnapshot)
    → (managed_copy_never_self_upgrades s ≡ none)
      ↔ ((s.install_ownership ≡ some managed_elsewhere) → s.phase ≡ idle)
unfolding managed_copy_never_self_upgrades
managed_stays s =
    let (to, from) = unreported (is_managed s.install_ownership && not (phase_eq s.phase idle)) _ in
    let (to', from') = managed s.install_ownership s.phase in (λ h. to' (to h), λ h. from (from' h))

-- The built-in checks report nothing exactly for a sound snapshot: at most one live process; a
-- version in a slot; every live process of the version that its slot holds, where it holds one;
-- the journal has recorded the phase, unless it is idle; no experiment is left when a transaction
-- has ended; and an installation that another manager owns is idle.
pub check_invariants-Sound :
    (s : WorldSnapshot) → (check_invariants s built_in_invariants ≡ []) ↔ Sound s
unfolding check_invariants built_in_invariants
check_invariants-Sound s =
    let (one, one') = never_dual_run-AtMostOne s in
    let (held, held') = never_bricked-holds s in
    let (match, match') = live_process_matches_slot-AllMatch s in
    let (told_of, told_of') = journal_precedes_phase-Among s in
    let (clean, clean') = terminal_leaves s in
    let (own, own') = managed_stays s in
    (
      λ h.
          let (a, h₁) = (reported _ _ _).0 h in
          let (b, h₂) = (reported _ _ _).0 h₁ in
          let (c, h₃) = (reported _ _ _).0 h₂ in
          let (d, h₄) = (reported _ _ _).0 h₃ in
          let (e, h₅) = (reported _ _ _).0 h₄ in
          let (f, _) = (reported _ _ _).0 h₅ in (one a, held b, match c, told_of d, clean e, own f),
      λ (a, b, c, d, e, f). rw (one' a, held' b, match' c, told_of' d, clean' e, own' f) refl,
    )
