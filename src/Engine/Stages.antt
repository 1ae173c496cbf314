-- ===== src/Engine/Stages.antt =====
-- The states of `upgrade` in src/engine.rs from its first intent to the commit, and the calls that
-- lead through them.
use k_carrier.Base.{String, true, ◌≡◌, refl, sym, subst, ap, Option, none, some, List, [], inl, inr}
use k_carrier.State.{Phase, staged, handing_over, Slot}
use k_carrier.Invariants.{LiveProcess}
use k_carrier.Engine.View.{View, Runs}
use k_carrier.Engine.Contract.{Stages, Parks, Stops, Starts}
use k_carrier.Engine.Safe.{
  Shape, AnyParked, Unparked, Between, is_switch, Settled, Safe, settled, staging, switching,
}
use k_carrier.Engine.Safe.Moves.{
  Appends-Shape, Stages-Shape, Parks-Shape, live-Shape, weaken-Shape, stop_stable,
}
use k_carrier.Engine.Leads.{Moves, Logs}

-- The stages of an upgrade from version `s` to `t`.
module _ (s t : String) where
  abbrev pub Staged : Option String → View → Type 0
  Staged x = Shape (some staged) s x (Runs Slot.stable s) Unparked

  abbrev pub Switch : Phase → (List LiveProcess → Type 0) → View → Type 0
  Switch i L = Shape (some i) s (some t) L AnyParked

  abbrev pub Down : List LiveProcess → Type 0
  Down live = live ≡ []

  pub staged-Logs : Logs (Safe s) (Settled s) (Staged none) staged
  staged-Logs = record {
    before = λ v p. settled p;
    after = λ entry v v' same good p d.
        let h =
          subst (λ k. Shape (some k) s none (Runs Slot.stable s) Unparked v') same
            (Appends-Shape entry good p.shape d) in
        (h, staging h);
  }

  pub stage-Moves : Moves (Safe s) (Staged none) (λ _. Staged (some t)) (Stages t)
  stage-Moves = record {
    before = λ v p. staging p;
    after =
        λ a v v' p d. let h = Stages-Shape t p d in (h, staging h, ap (λ (u : View). u.journal) d);
  }

  pub handing_over-Logs :
      Logs (Safe s) (Staged (some t)) (Switch handing_over (Runs Slot.stable s)) handing_over
  handing_over-Logs = record {
    before = λ v p. staging p;
    after = λ entry v v' same good p d.
        let h =
          subst (λ k. Shape (some k) s (some t) (Runs Slot.stable s) AnyParked v') same
            (weaken-Shape {L = Runs Slot.stable s} {M = Runs Slot.stable s} (λ r. r)
              (Appends-Shape entry good p d)) in
        (
          h,
          switching refl
              (weaken-Shape {L = Runs Slot.stable s} {M = Between s (some t)} (λ r. inr (inl r)) h),
        );
  }

  module _ {i : Phase} (on : is_switch (some i) ≡ true) where
    from_stable : (v : View) → Switch i (Runs Slot.stable s) v → Safe s v
    from_stable v p =
        switching on
          (weaken-Shape {L = Runs Slot.stable s} {M = Between s (some t)} (λ r. inr (inl r)) p)

    from_stopped : (v : View) → Switch i Down v → Safe s v
    from_stopped v p =
        switching on (weaken-Shape {L = Down} {M = Between s (some t)} (λ r. inl r) p)

    pub from_candidate : (v : View) → Switch i (Runs Slot.experiment t) v → Safe s v
    from_candidate v p = switching on (
        weaken-Shape {L = Runs Slot.experiment t} {M = Between s (some t)}
          (λ r. inr (inr (t, refl, r))) p)

    pub quiesce-Moves :
        Moves
          (Safe s)
          (Switch i (Runs Slot.stable s))
          (λ _. Switch i (Runs Slot.stable s))
          (Parks true)
    quiesce-Moves = record {
      before = from_stable;
      after = λ a v v' p d.
          let h =
            weaken-Shape {L = Runs Slot.stable s} {M = Runs Slot.stable s} (λ r. r)
              (Parks-Shape true p d) in
          (h, from_stable v' h, ap (λ (u : View). u.journal) d);
    }

    pub stop-Moves :
        Moves (Safe s) (Switch i (Runs Slot.stable s)) (λ _. Switch i Down) (Stops Slot.stable)
    stop-Moves = record {
      before = from_stable;
      after = λ a v v' p d.
          let h = live-Shape {M = Down} p d.0 (stop_stable s v p.live d) in
          (h, from_stopped v' h, ap (λ (u : View). u.journal) d.0);
    }

    pub start-Moves :
        Moves
          (Safe s)
          (Switch i Down)
          (λ _. Switch i (Runs Slot.experiment t))
          (Starts Slot.experiment)
    start-Moves = record {
      before = from_stopped;
      after = λ a v v' p d.
          let h = live-Shape {M = Runs Slot.experiment t} p d.0 (d.1 t p.experiment) in
          (h, from_candidate v' h, ap (λ (u : View). u.journal) d.0);
    }

    pub still-Moves :
        {A : Type 0} (Step : A → View → View → Type 0)
        → ((a : A) (v v' : View) → Step a v v' → v' ≡ v)
        → Moves
            (Safe s)
            (Switch i (Runs Slot.experiment t))
            (λ _. Switch i (Runs Slot.experiment t))
            Step
    still-Moves Step stays = record {
      before = from_candidate;
      after = λ a v v' p d.
          let h = subst (Switch i (Runs Slot.experiment t)) (sym (stays a v v' d)) p in
          (h, from_candidate v' h, ap (λ (u : View). u.journal) (stays a v v' d));
    }

    pub next-Logs :
        (j : Phase)
        → is_switch (some j) ≡ true
        → Logs (Safe s) (Switch i (Runs Slot.experiment t)) (Switch j (Runs Slot.experiment t)) j
    next-Logs j off = record {
      before = from_candidate;
      after = λ entry v v' same good p d.
          let h =
            subst (λ k. Switch k (Runs Slot.experiment t) v') same (Appends-Shape entry good p d) in
          (
            h,
            switching off (
                weaken-Shape {L = Runs Slot.experiment t} {M = Between s (some t)}
                  (λ r. inr (inr (t, refl, r))) h),
          );
    }
