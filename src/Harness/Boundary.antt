-- ===== src/Harness/Boundary.antt =====
-- An effect between its two boundaries, as the contract sees it.
use k_carrier.Base.{String, ◌≡◌, refl, sym, ◌∙◌, inl, inr, arith, ◌<>◌}
use k_carrier.Error.{ok}
use k_carrier.Action.{Action, pure, ◌>>=◌}
use k_carrier.Harness.{World, tick, step, around}
use k_carrier.Harness.Clean.{Clean, crashed, Crash, step_cases}
use k_carrier.Engine.View.{View, Observer, Fewer, Ends}
use k_carrier.Engine.Contract.{Never}

abbrev pub view_of : World → View
view_of w = record {
  stable = w.stable;
  experiment = w.experiment;
  live = w.live;
  parked = w.parked;
  journal = w.journal;
}

abbrev pub fake_observer : Observer World
fake_observer = record { view = view_of; Inv = Clean; Blame = Crash }

-- Where the crash is set for stays as it was.
abbrev pub SameFault : World → World → Type 0
SameFault w w' = w'.fail_at ≡ w.fail_at

abbrev pub Works : {A : Type 0} → Action World A → (A → View → View → Type 0) → World → Type 0
Works {A} effect Step w =
    (a : A) × (w' : World) × (effect w ≡ (ok a, w'))
    × Clean w'
    × Step a (view_of w) (view_of w')
    × SameFault w w'

fewer : (w w' : World) → SameFault w w' → Fewer fake_observer w w'
fewer w w' same x ((n, set), why) = ((n, sym same ∙ set), why)

tick-Clean : (label : String) (w : World) → Clean w → Clean (tick label w)
tick-Clean label w h = record {
  unmutated = h.unmutated;
  working = h.working;
  single = h.single;
  stocked = h.stocked;
  matched = h.matched;
  logged = h.logged;
  cleared = h.cleared;
}

crashed-Clean : (label : String) (w : World) → Clean w → Clean (crashed label w)
crashed-Clean label w h = record {
  unmutated = h.unmutated;
  working = h.working;
  single = h.single;
  stocked = h.stocked;
  matched = h.matched;
  logged = h.logged;
  cleared = h.cleared;
}

no_fault : (label : String) (w : World) → Fewer fake_observer w (crashed label w)
no_fault label w x ((n, set), why) = absurd (ground arith)

module _ {A : Type 0} (name : String) (effect : Action World A)
    (Step : A → View → View → Type 0) where
  after_effect :
      (w₀ : World) (a : A) (w : World)
      → Clean w
      → Step a (view_of w₀) (view_of w)
      → SameFault w₀ w
      → Ends fake_observer Never Step w₀ ((step ("after:" <> name) >>= λ _. pure a) w)
  unfolding ◌>>=◌
  after_effect w₀ a w h did same = elim (step_cases ("after:" <> name) w h) [
    | inl goes ↦ rw goes (tick-Clean _ w h, did, fewer w₀ (tick ("after:" <> name) w) same)
    | inr (stops, (n, set)) ↦ rw stops (
      crashed-Clean _ w h,
      inr (a, did),
      inl ((n, sym same ∙ set), ("after:" <> name, refl)),
      λ x b. fewer w₀ w same x (no_fault ("after:" <> name) w x b),
    )
  ]

  pub around-Ends :
      (w : World)
      → Clean w
      → ((w₁ : World) → Clean w₁ → view_of w₁ ≡ view_of w → Works effect Step w₁)
      → Ends fake_observer Never Step w (around name effect w)
  unfolding around ◌>>=◌
  around-Ends w h works = elim (step_cases ("before:" <> name) w h) [
    | inl goes ↦
        let w₁ : World = tick ("before:" <> name) w in
        let (a, w₂, runs, clean, did, same) = works w₁ (tick-Clean _ w h) refl in
        rw (goes, runs) (after_effect w a w₂ clean did same)
    | inr (stops, (n, set)) ↦ rw stops (
      crashed-Clean _ w h,
      inl refl,
      inl ((n, set), ("before:" <> name, refl)),
      no_fault ("before:" <> name) w,
    )
  ]
