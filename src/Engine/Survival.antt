-- ===== src/Engine/Survival.antt =====
-- Lives of an engine's world: recoveries and upgrades of src/engine.rs one after another, each of
-- which may fail anywhere, with faults appearing and disappearing in between.
use k_carrier.Base.{ℕ, String, ◌≡◌, sym, subst, ◌∙◌, ◌⊎◌, inl, inr, Option, some, []}
use k_carrier.State.{Slot}
use k_carrier.Error.{Error, Result, ok, err}
use k_carrier.Engine.{
  next_seq, Engine, Session, EngineOutcome, promoted_to, rolled_back_for, already_current, recover,
  upgrade,
}
use k_carrier.Engine.View.{View, Runs, version_in}
use k_carrier.Engine.Contract.{Contract}
use k_carrier.Engine.Safe.{
  Settled, Safe, settled, staging, switching, restoring, committing, committed, Between,
}
use k_carrier.Engine.Recovery.{Recovered, recover_restores}
use k_carrier.Engine.Upgrade.{Upgraded, upgrade_ends}

module _ {W : Type 0} {e : Engine W} {Excuse : Error → Type 0} (c : Contract e Excuse) where
  -- Nothing in the world can make a call fail.
  abbrev pub Calm : W → Type 0
  Calm w = (x : Error) → c.Blame w x → ⊥

  -- The call returned, and the service is settled at `d` with the number in step.
  abbrev pub Restored : String → Result (Unit {0}) × Session W → Type 0
  Restored d (ok _, s) = c.Inv s.world × Settled d (c.view s.world)
  Restored d (err x, s) = ⊥

  restored :
      (d : String) (w : W) (r : Result (Unit {0}) × Session W)
      → Calm w
      → Recovered c d w r
      → Restored d r
  restored d w (ok _, s) calm (inv, rest, _, _) = (inv, rest)
  restored d w (err x, s) calm (_, _, blame) = calm x blame

  recover_returns :
      (d : String) (s : Session W)
      → c.Inv s.world
      → Safe d (c.view s.world)
      → Calm s.world
      → Restored d (recover e s)
  recover_returns d s inv safe calm =
      restored d s.world (recover e s) calm (recover_restores c d s inv safe)

  Chosen : String → String → W → Type 0
  Chosen s t w = c.Inv w × (Safe s (c.view w) ⊎ Safe t (c.view w))

  chosen :
      (s t : String) (w : W) (r : Result EngineOutcome × Session W)
      → Upgraded c s t w r
      → Chosen s t r.1.world
  unfolding Chosen
  chosen s t w (ok (promoted_to v), u) (inv, (_, rest), _, _) = (inv, inr (settled rest))
  chosen s t w (ok (rolled_back_for x), u) (inv, rest, _, _) = (inv, inl (settled rest))
  chosen s t w (ok already_current, u) (inv, (_, rest), _, _) = (inv, inl (settled rest))
  chosen s t w (err x, u) (inv, safe, _) = (inv, safe)

  -- However an upgrade from `s` to `t` ends, at whatever call it is cut off, a recovery in a new
  -- session, from the same view once the fault is gone, returns with the service settled at `s`
  -- or at `t`.
  pub upgrade-recover :
      (s t bytes : String) (u : Session W)
      → c.Inv u.world
      → Settled s (c.view u.world)
      → u.seq ≡ next_seq (c.view u.world).journal
      → (mend : W → W)
      → ((w : W) → c.Inv w → c.Inv (mend w) × (c.view (mend w) ≡ c.view w) × Calm (mend w))
      → (n : ℕ)
      → Restored s (recover e (record { seq = n; world = mend (upgrade e t bytes u).1.world }))
        ⊎ Restored t (recover e (record { seq = n; world = mend (upgrade e t bytes u).1.world }))
  unfolding Chosen
  upgrade-recover s t bytes u inv rest number mend mends n =
      let (kept, safe) =
        chosen s t u.world (upgrade e t bytes u) (upgrade_ends c s t bytes u inv rest number) in
      let (kept', same, calm) = mends _ kept in
      elim safe [
        | inl p ↦ inl (recover_returns s _ kept' (subst (Safe s) (sym same) p) calm)
        | inr p ↦ inr (recover_returns t _ kept' (subst (Safe t) (sym same) p) calm)
      ]

  -- A life of the world: what sessions do to it, and faults that the engine does not see.
  pub data Lived (start : W) : W → Type 0 where
    born : Lived start start
    change : {w : W} (w' : W) → Lived start w → c.Inv w' → c.view w' ≡ c.view w → Lived start w'
    recovery : (s : Session W) → Lived start s.world → Lived start (recover e s).1.world
    session :
        (s u : Session W) (t bytes : String)
        → Lived start s.world
        → recover e s ≡ (ok tt, u)
        → Lived start (upgrade e t bytes u).1.world

  abbrev Stays : W → Type 0
  Stays w = c.Inv w × ((d : String) × Safe d (c.view w))

  recovery-Stays :
      (d : String) (w : W) (r : Result (Unit {0}) × Session W) → Recovered c d w r → Stays r.1.world
  recovery-Stays d w (ok _, s) (inv, rest, _, _) = (inv, (d, settled rest))
  recovery-Stays d w (err x, s) (inv, safe, _) = (inv, (d, safe))

  upgrade-Stays :
      (d t bytes : String) (w : W) (u : Session W)
      → Recovered c d w (ok tt, u)
      → Stays (upgrade e t bytes u).1.world
  unfolding Chosen
  upgrade-Stays d t bytes w u (inv, rest, number, _) =
      let (kept, safe) =
        chosen d t u.world (upgrade e t bytes u) (upgrade_ends c d t bytes u inv rest number) in
      (kept, elim safe [ inl p ↦ (d, p) | inr p ↦ (t, p) ])

  life-Stays :
      (d : String) (start w : W) → c.Inv start → Safe d (c.view start) → Lived start w → Stays w
  life-Stays d start w inv safe born = (inv, (d, safe))
  life-Stays d start w inv safe (change w' life kept same) =
      let (_, (x, p)) = life-Stays d start _ inv safe life in
      (kept, (x, subst (Safe x) (sym same) p))
  life-Stays d start w inv safe (recovery s life) =
      let (kept, (x, p)) = life-Stays d start _ inv safe life in
      recovery-Stays x s.world _ (recover_restores c x s kept p)
  life-Stays d start w inv safe (session s u t bytes life returned) =
      let (kept, (x, p)) = life-Stays d start _ inv safe life in
      upgrade-Stays x t bytes s.world u
        (subst (Recovered c x s.world) returned (recover_restores c x s kept p))

-- The stable slot holds a version, and at most one process is live, of a version in its slot.
abbrev pub OneService : View → Type 0
OneService v =
    ((x : String) × (v.stable ≡ some x))
    × ((v.live ≡ [])
        ⊎ ((slot : Slot) × (y : String) × Runs slot y v.live × (version_in slot v ≡ some y)))

Between-OneService :
    (s : String) (x : Option String) (v : View)
    → v.stable ≡ some s
    → v.experiment ≡ x
    → Between s x v.live
    → OneService v
Between-OneService s x v held trial (inl empty) = ((s, held), inl empty)
Between-OneService s x v held trial (inr (inl runs)) = ((s, held), inr (Slot.stable, s, runs, held))
Between-OneService s x v held trial (inr (inr (t, same, runs))) =
    ((s, held), inr (Slot.experiment, t, runs, trial ∙ same))

Safe-OneService : (d : String) (v : View) → Safe d v → OneService v
Safe-OneService d v (settled h) =
    ((d, h.shape.stable), inr (Slot.stable, d, h.shape.live, h.shape.stable))
Safe-OneService d v (staging h) = ((d, h.stable), inr (Slot.stable, d, h.live, h.stable))
Safe-OneService d v (switching _ h) = Between-OneService d _ v h.stable h.experiment h.live
Safe-OneService d v (restoring h) = Between-OneService d _ v h.stable h.experiment h.live
Safe-OneService d v (committing h) = ((_, h.stable), inr (Slot.experiment, d, h.live, h.experiment))
Safe-OneService d v (committed h) = ((d, h.stable), inr (Slot.stable, d, h.live, h.stable))

-- In every world of a life that starts safe, whatever sessions ran and wherever they failed, the
-- stable slot holds a version, and there is no live process or exactly one, whose version is the
-- one in the slot that it was started from.
pub life-OneService :
    {W : Type 0} {e : Engine W} {Excuse : Error → Type 0} (c : Contract e Excuse) (d : String)
    (start w : W)
    → c.Inv start
    → Safe d (c.view start)
    → Lived c start w
    → OneService (c.view w)
life-OneService c d start w inv safe life =
    let (_, (x, p)) = life-Stays c d start w inv safe life in Safe-OneService x (c.view w) p
