-- ===== src/Engine/Commit.antt =====
-- The end of `upgrade` and the `promoted` branch of `recover`: the commit, done once or again.
use k_carrier.Base.{String, false, refl, ap, none, some, inl, inr}
use k_carrier.State.{promoted, Slot}
use k_carrier.Error.{Error}
use k_carrier.Action.{Action}
use k_carrier.Engine.{Engine, Session, on_world, resolve}
use k_carrier.Engine.View.{View, Runs}
use k_carrier.Engine.Contract.{Contract, Promotes, Parks}
use k_carrier.Engine.Safe.{AnyParked, Shape, Settled, Safe, settled, committing, committed}
use k_carrier.Engine.Safe.Moves.{Parks-Shape, Promotes-Shape, Promotes-Shape_again}
use k_carrier.Engine.Safe.Restore.{never}
use k_carrier.Engine.Leads.{Triple, At, Moves, into-Moves, >>=-Triple, call-Triple, host-Triple}

-- After the durable intent to promote: before the swap of the slots, and after it.
abbrev pub Committing : String → String → View → Type 0
Committing s t = Shape (some promoted) s (some t) (Runs Slot.experiment t) AnyParked

abbrev pub Committed : String → View → Type 0
Committed t = Shape (some promoted) t none (Runs Slot.stable t) AnyParked

swap-Moves : (s t : String) → Moves (Safe t) (Committing s t) (λ _. Committed t) Promotes
swap-Moves s t = record {
  before = λ v p. committing p;
  after =
      λ a v v' p d. let h = Promotes-Shape p d in (h, committed h, ap (λ (u : View). u.journal) d);
}

swap_again-Moves : (t : String) → Moves (Safe t) (Committed t) (λ _. Committed t) Promotes
swap_again-Moves t = record {
  before = λ v p. committed p;
  after = λ a v v' p d.
      let h = Promotes-Shape_again p d in (h, committed h, ap (λ (u : View). u.journal) d);
}

finish-Moves : (t : String) → Moves (Safe t) (Committed t) (λ _. Settled t) (Parks false)
finish-Moves t = record {
  before = λ v p. committed p;
  after = λ a v v' p d.
      let done : Settled t v' = record {
        last_phase = some promoted;
        at_rest = refl;
        shape = Parks-Shape false p d;
      } in
      (done, settled done, ap (λ (u : View). u.journal) d);
}

module _ {W : Type 0} {e : Engine W} {Excuse : Error → Type 0} (c : Contract e Excuse)
    (Cause : Error → Type 0) (Crash : View → Type 0) (t : String)
    (crash : (v : View) → Safe t v → Crash v) where
  abbrev Takes :
      {A : Type 0} → (View → Type 0) → (A → View → Type 0) → Action (Session W) A → Type 0
  Takes P Q = Triple c Cause Crash (At c Cause Crash P) (λ a. At c Cause Crash (Q a))

  pub swap-Triple :
      (s : String) → Takes (Committing s t) (λ _. Committed t) (on_world e.effects.promote)
  swap-Triple s =
      call-Triple (never Cause) (into-Moves crash (swap-Moves s t)) e.effects.promote
        λ w inv p. c.promote w inv p.intent (inl (t, (p.live, p.experiment)))

  pub swap_again-Triple : Takes (Committed t) (λ _. Committed t) (on_world e.effects.promote)
  swap_again-Triple =
      call-Triple (never Cause) (into-Moves crash (swap_again-Moves t)) e.effects.promote
        λ w inv p. c.promote w inv p.intent (inr (p.experiment, (t, (p.live, p.stable))))

  pub finish-Triple :
      Takes (Committed t) (λ _. Settled t) (k_carrier.Engine.host_call e "resume" e.host.resume)
  finish-Triple =
      host-Triple (never Cause) (into-Moves crash (finish-Moves t)) "resume" e.host.resume
        λ w inv p. c.resume w inv

  pub commit_first-Triple :
      (s : String) → Takes (Committing s t) (λ _. Settled t) (resolve e promoted)
  unfolding resolve
  commit_first-Triple s = >>=-Triple (swap-Triple s) λ _. finish-Triple

  pub commit_again-Triple : Takes (Committed t) (λ _. Settled t) (resolve e promoted)
  unfolding resolve
  commit_again-Triple = >>=-Triple swap_again-Triple λ _. finish-Triple
