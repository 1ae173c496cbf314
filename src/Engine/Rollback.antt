-- ===== src/Engine/Rollback.antt =====
-- `rollback` of src/engine.rs: whatever fails on the way, the version to restore stays the same.
use k_carrier.Base.{String, true, false, ◌≡◌, Option, some, [], ◌∷◌}
use k_carrier.State.{Phase, staged, rolled_back, Slot}
use k_carrier.Error.{Error}
use k_carrier.Action.{Action}
use k_carrier.Engine.{Engine, Session, on_world, restart_stable, unless_skipped, rollback, resolve}
use k_carrier.Engine.View.{View, Runs}
use k_carrier.Engine.Contract.{Contract}
use k_carrier.Engine.Safe.{AnyParked, Unparked, Shape, Between, is_switch, Settled, Safe}
use k_carrier.Engine.Leads.{
  Triple, At, into-Moves, into-Logs, >>=-Triple, pure-Triple, call-Triple, host-Triple,
  journal-Triple,
}
use k_carrier.Engine.Safe.Restore.{
  Restoring, never, stop-Moves, start-Moves, resume-Moves, clear-Moves, early-Logs,
  rolled_back-Logs,
}

module _ {W : Type 0} {e : Engine W} {Excuse : Error → Type 0} (c : Contract e Excuse)
    (Cause : Error → Type 0) (Crash : View → Type 0) (s : String)
    (crash : (v : View) → Safe s v → Crash v) where
  abbrev Takes :
      {A : Type 0} → (View → Type 0) → (A → View → Type 0) → Action (Session W) A → Type 0
  Takes P Q = Triple c Cause Crash (At c Cause Crash P) (λ a. At c Cause Crash (Q a))

  module _ (x : Option String) where
    -- Stopping the candidate, starting the stable service and resuming its workload.
    restart-Triple :
        Takes
          (Restoring s x (Between s x) AnyParked)
          (λ _. Restoring s x (Runs Slot.stable s) Unparked)
          (restart_stable e)
    unfolding restart_stable
    restart-Triple =
        >>=-Triple
          (host-Triple (never Cause) (into-Moves crash (stop-Moves s x)) "stop"
            (e.host.stop Slot.experiment) λ w inv p. c.stop Slot.experiment w inv)
          λ _.
            >>=-Triple
              (host-Triple (never Cause) (into-Moves crash (start-Moves s x)) "start"
                (e.host.start Slot.stable)
                λ w inv p. c.start Slot.stable w inv (s, p.stable, p.live))
              λ _.
                host-Triple (never Cause) (into-Moves crash (resume-Moves s x)) "resume"
                  e.host.resume λ w inv p. c.resume w inv

    clear-Triple :
        Takes
          (Restoring s x (Runs Slot.stable s) Unparked)
          (λ _. Settled s)
          (on_world e.effects.clear)
    clear-Triple =
        call-Triple (never Cause) (into-Moves crash (clear-Moves s x)) e.effects.clear
          λ w inv p. c.clear w inv p.intent (s, (p.live, p.stable))

    -- The restoring alone, after an intent that is already durable.
    pub restore-Triple :
        Takes (Restoring s x (Between s x) AnyParked) (λ _. Settled s) (resolve e rolled_back)
    unfolding resolve
    restore-Triple = >>=-Triple restart-Triple λ _. clear-Triple

    -- A rollback before the service has been touched.
    pub rollback_early-Triple :
        (reason : String)
        → Takes
            (Shape (some staged) s x (Runs Slot.stable s) Unparked)
            (λ _. Settled s)
            (rollback e reason true)
    unfolding rollback unless_skipped
    rollback_early-Triple reason =
        >>=-Triple (journal-Triple (into-Logs crash (early-Logs s x)) (("reason", reason) ∷ []))
          λ _.
            >>=-Triple
              (pure-Triple {Q = λ _. At c Cause Crash (Restoring s x (Runs Slot.stable s) Unparked)}
                tt)
              λ _. clear-Triple

  -- A rollback after the handover has begun.
  pub rollback-Triple :
      (i : Option Phase) (t reason : String)
      → is_switch i ≡ true
      → Takes
          (Shape i s (some t) (Between s (some t)) AnyParked)
          (λ _. Settled s)
          (rollback e reason false)
  unfolding rollback unless_skipped
  rollback-Triple i t reason on =
      >>=-Triple
        (journal-Triple (into-Logs crash (rolled_back-Logs s t i on)) (("reason", reason) ∷ []))
        λ _. >>=-Triple (restart-Triple (some t)) λ _. clear-Triple (some t)
