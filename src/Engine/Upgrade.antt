-- ===== src/Engine/Upgrade.antt =====
-- `upgrade` of src/engine.rs, from a settled service: every way that it can end.
use k_carrier.Base.{
  String, true, ◌≡◌, refl, sym, subst, ap, ◌∙◌, ◌⊎◌, Option, none, some, [], ◌∷◌, inl, inr, ◌<>◌,
  ◌==◌, eq_iff, Bool-cases, Dict, lookup, remove,
}
use k_carrier.State.{Phase, handing_over, running_experiment, readback, promoted, Slot, Evidence}
use k_carrier.Error.{Error, Result, ok, err, uncertain}
use k_carrier.Action.{Action, lift, raise, attempt, require}
use k_carrier.Engine.{
  bounded, Engine, Session, on_world, host_call, next_seq, EngineOutcome, promoted_to,
  rolled_back_for, already_current, rollback_outcome, commit, verdict, judge, probed, hand_over,
  replace, upgrade, same_incarnation, with_prior, prior_of, stable_of,
}
use k_carrier.Engine.View.{View, Ends, Runs}
use k_carrier.Engine.Contract.{Contract, Never, Unchanged, Probes, Lists}
use k_carrier.Engine.Safe.{Between, is_switch, Settled, Safe, settled, committing}
use k_carrier.Engine.Safe.Moves.{Appends-Shape, weaken-Shape}
use k_carrier.Engine.Safe.Restore.{never}
use k_carrier.Engine.Leads.{
  Ready, Leads, Triple, At, Moves, Logs, into-Moves, into-Logs, >>=-Triple, weaken-Triple,
  pure-Triple, call-Triple, host-Triple, journal-Triple, bounded-Ends,
}
use k_carrier.Engine.Rollback.{rollback-Triple}
use k_carrier.Engine.Commit.{Committing, swap-Triple, finish-Triple}
use k_carrier.Engine.Stages.{
  Switch, staged-Logs, stage-Moves, handing_over-Logs, from_candidate, quiesce-Moves, stop-Moves,
  start-Moves, still-Moves, next-Logs,
}

-- What holds of the view when an upgrade from `s` to `t` returns.
abbrev pub Finished : String → String → EngineOutcome → View → Type 0
Finished s t (promoted_to version) v = (version ≡ t) × Settled t v
Finished s t (rolled_back_for reason) v = Settled s v
Finished s t already_current v = (s ≡ t) × Settled s v

module _ {W : Type 0} {e : Engine W} {Excuse : Error → Type 0} (c : Contract e Excuse)
    (Cause : Error → Type 0) (excused : (x : Error) → Excuse x → Cause x) (s t : String) where
  -- Until the intent to promote is durable, a recovery returns to `s`; from then on it goes to `t`.
  abbrev Crash : View → Type 0
  Crash v = Safe s v ⊎ Safe t v

  abbrev Takes :
      {A : Type 0} → (View → Type 0) → (A → View → Type 0) → Action (Session W) A → Type 0
  Takes P Q = Triple c Cause Crash (At c Cause Crash P) (λ a. At c Cause Crash (Q a))

  old : (v : View) → Safe s v → Crash v
  old v h = inl h

  new : (v : View) → Safe t v → Crash v
  new v h = inr h

  rolled-Triple :
      (i : Phase) (reason : String)
      → is_switch (some i) ≡ true
      → Takes (Switch s t i (Runs Slot.experiment t)) (Finished s t) (rollback_outcome e reason)
  unfolding rollback_outcome
  rolled-Triple i reason on =
      >>=-Triple
        (weaken-Triple
          (λ u h. (
            h.0,
            weaken-Shape {L = Runs Slot.experiment t} {M = Between s (some t)}
                (λ r. inr (inr (t, refl, r))) h.1,
          ))
          (λ a u h. h) (rollback-Triple c Cause Crash s old (some i) t reason on))
        λ _. pure-Triple {Q = λ o. At c Cause Crash (Finished s t o)} (rolled_back_for reason)

  promoted-Logs :
      (i : Phase)
      → is_switch (some i) ≡ true
      → Logs Crash (Switch s t i (Runs Slot.experiment t)) (Committing s t) promoted
  promoted-Logs i on = record {
    before = λ v p. inl (from_candidate s t on v p);
    after = λ entry v v' same good p d.
        let h =
          subst (λ k. Switch s t k (Runs Slot.experiment t) v') same
            (Appends-Shape entry good p d) in
        (h, inr (committing h));
  }

  commit-Triple :
      (detail : Dict String)
      → Takes (Switch s t readback (Runs Slot.experiment t)) (Finished s t) (commit e t detail)
  unfolding commit
  commit-Triple detail = >>=-Triple (journal-Triple (promoted-Logs readback refl) detail) λ _.
      >>=-Triple (swap-Triple c Cause Crash t new s) λ _.
        >>=-Triple (finish-Triple c Cause Crash t new) λ _.
          weaken-Triple (λ u h. (h.0, (refl, h.1))) (λ a u h. h)
            (pure-Triple {Q = λ o. At c Cause Crash (Finished s t o)} (promoted_to t))

  verdict-Triple :
      (detail : Dict String) (refusal : Option String)
      → Takes
          (Switch s t readback (Runs Slot.experiment t))
          (Finished s t)
          (verdict e t detail refusal)
  unfolding verdict
  verdict-Triple detail (some reason) =
      rolled-Triple readback ("predicates refused: " <> reason) refl
  verdict-Triple detail none = commit-Triple detail

  judge-Triple :
      (detail : Dict String) (prior : Option Evidence) (evidence : Evidence)
      → Takes
          (Switch s t running_experiment (Runs Slot.experiment t))
          (Finished s t)
          (judge e t detail prior evidence)
  unfolding judge
  judge-Triple detail prior evidence =
      >>=-Triple
        (journal-Triple (into-Logs old (next-Logs s t {i = running_experiment} refl readback refl))
          detail)
        λ _. elim (Bool-cases (same_incarnation prior evidence)) [
          | inl still ↦ rw still (rolled-Triple readback _ refl)
          | inr fresh ↦ rw fresh (
              >>=-Triple
                (host-Triple excused
                  (into-Moves old
                    (still-Moves s t {i = readback} refl Unchanged (λ a v v' stays. stays)))
                  "readback" (e.evaluate evidence t) λ w inv p. c.evaluate evidence t w inv)
                λ refusal. verdict-Triple detail refusal)
        ]

  -- A failure that was kept as a value has a cause.
  abbrev Caused : {A : Type 0} → Result A → Type 0
  Caused (ok _) = Unit
  Caused (err x) = Cause x

  abbrev With : {A : Type 0} → (View → Type 0) → Result A → Session W → Type 0
  With P r u = At c Cause Crash P u × Caused r

  module _ (P : View → Type 0)
      (lives : (v : View) → P v → (slot : Slot) × (x : String) × Runs slot x v.live) where
    probe_end :
        (u : Session W) (r : Result Evidence × W)
        → Ready c Cause Crash (At c Cause Crash P) u
        → Ends c.observer Never Probes u.world r
        → Ready c Cause Crash (With P r.0) (record u { world = r.1 })
    probe_end u (ok evidence, w) h (inv, (stays, _), fewer) = record {
      inv = inv;
      at = (subst (λ v. (u.seq ≡ next_seq v.journal) × P v) (sym stays) h.at, tt);
      within = λ x b. h.within x (fewer x b);
    }
    probe_end u (err x, w) h (inv, did, why, fewer) = record {
      inv = inv;
      at = (subst (λ v. (u.seq ≡ next_seq v.journal) × P v) (sym (stays did)) h.at, cause why);
      within = λ y b. h.within y (fewer y b);
    }
      where
        stays :
            (c.view w ≡ c.view u.world) ⊎ ((a : Evidence) × Probes a (c.view u.world) (c.view w))
            → c.view w ≡ c.view u.world
        stays (inl q) = q
        stays (inr (_, (q, _))) = q

        cause : c.Blame u.world x ⊎ ⊥ → Cause x
        cause (inl b) = h.within x b
        cause (inr b) = absurd b

    probe-Triple :
        Triple c Cause Crash
          (At c Cause Crash P)
          (With P)
          (attempt (host_call e "probe" e.host.probe))
    unfolding attempt host_call on_world
    probe-Triple = record {
      run = λ u h. record {
        out = probe_end u (bounded e "probe" e.host.probe u.world) h (
            bounded-Ends c Never Probes "probe" e.host.probe u.world h.inv
              (c.probe u.world h.inv (lives _ h.at.1)));
      };
    }

  raise-Triple :
      {A : Type 0} {P : View → Type 0} {R : A → Session W → Type 0} (x : Error)
      → ((v : View) → P v → Crash v)
      → Triple c Cause Crash (λ u. At c Cause Crash P u × Cause x) R (raise x)
  unfolding raise
  raise-Triple x safe = record { run = λ u h. record { out = (h.inv, safe _ h.at.0.1, h.at.1) } }

  failed_probe-Triple :
      (reason : String) (r : Result Evidence)
      → Triple c Cause Crash
          (With (Switch s t running_experiment (Runs Slot.experiment t)) r)
          (λ o. At c Cause Crash (Finished s t o))
          (rollback_outcome e reason)
  failed_probe-Triple reason r =
      weaken-Triple (λ u h. h.0) (λ a u h. h) (rolled-Triple running_experiment reason refl)

  probed-Triple :
      (detail : Dict String) (prior : Option Evidence) (found : Result Evidence)
      → Triple c Cause Crash
          (With (Switch s t running_experiment (Runs Slot.experiment t)) found)
          (λ o. At c Cause Crash (Finished s t o))
          (probed e t detail prior found)
  unfolding probed
  probed-Triple detail prior (ok evidence) =
      weaken-Triple (λ u h. h.0) (λ a u h. h) (judge-Triple detail prior evidence)
  probed-Triple detail prior (err (uncertain m)) =
      raise-Triple (uncertain m) (λ v p. inl (from_candidate s t {i = running_experiment} refl v p))
  probed-Triple detail prior (err x) = failed_probe-Triple _ (err x)

  prior-Triple :
      (found : Result Evidence)
      → Triple c Cause Crash
          (With (Settled s) found)
          (λ _. At c Cause Crash (Settled s))
          (lift (prior_of found))
  unfolding lift
  prior-Triple (ok evidence) = record {
    run = λ u h. record { out = record { inv = h.inv; at = h.at.0; within = h.within } };
  }
  prior-Triple (err (uncertain m)) = record {
    run = λ u h. record { out = (h.inv, inl (settled h.at.0.1), h.at.1) };
  }
  prior-Triple (err x) = record {
    run = λ u h. record { out = record { inv = h.inv; at = h.at.0; within = h.within } };
  }

  hand_over-Triple :
      (bytes : String) (prior : Option Evidence)
      → Takes (Settled s) (Finished s t) (hand_over e t bytes prior)
  unfolding hand_over
  hand_over-Triple bytes prior =
      let detail : Dict String = ("version", t) ∷ [] in
      let candidate : Dict String = remove "priorStartId" (with_prior prior detail) in
      >>=-Triple (journal-Triple (into-Logs old (staged-Logs s t)) detail) λ _.
        >>=-Triple
          (call-Triple (never Cause) (into-Moves old (stage-Moves s t)) (e.effects.stage t bytes)
            λ w inv p. c.stage t bytes w inv p.intent (s, p.live))
          λ _.
            >>=-Triple
              (journal-Triple (into-Logs old (handing_over-Logs s t)) (with_prior prior detail))
              λ _.
                >>=-Triple
                  (host-Triple (never Cause)
                    (into-Moves old (quiesce-Moves s t {i = handing_over} refl)) "quiesce"
                    e.host.quiesce λ w inv p. c.quiesce w inv p.intent)
                  λ _.
                    >>=-Triple
                      (host-Triple (never Cause)
                        (into-Moves old (stop-Moves s t {i = handing_over} refl)) "stop"
                        (e.host.stop Slot.stable) λ w inv p. c.stop Slot.stable w inv)
                      λ _.
                        >>=-Triple
                          (host-Triple (never Cause)
                            (into-Moves old (start-Moves s t {i = handing_over} refl)) "start"
                            (e.host.start Slot.experiment)
                            λ w inv p. c.start Slot.experiment w inv (t, p.experiment, inl p.live))
                          λ _.
                            >>=-Triple
                              (journal-Triple
                                (into-Logs old
                                  (next-Logs s t {i = handing_over} refl running_experiment refl))
                                candidate)
                              λ _.
                                >>=-Triple
                                  (probe-Triple
                                    (Switch s t running_experiment (Runs Slot.experiment t))
                                    (λ v p. (Slot.experiment, t, p.live)))
                                  λ found. probed-Triple candidate prior found

  replace-Triple : (bytes : String) → Takes (Settled s) (Finished s t) (replace e t bytes s)
  unfolding replace
  replace-Triple bytes = elim (Bool-cases (s == t)) [
    | inl current ↦ rw current (
        weaken-Triple (λ u h. (h.0, ((eq_iff s t).0 current, h.1))) (λ a u h. h)
          (pure-Triple {Q = λ o. At c Cause Crash (Finished s t o)} already_current))
    | inr other ↦ rw other (
        >>=-Triple (probe-Triple (Settled s) (λ v p. (Slot.stable, s, p.shape.live)))
          λ found. >>=-Triple (prior-Triple found) λ prior. hand_over-Triple bytes prior)
  ]

  versions-Moves :
      Moves Crash (Settled s) (λ vs v. Settled s v × (lookup "stable" vs ≡ some (some s))) Lists
  versions-Moves = record {
    before = λ v p. inl (settled p);
    after = λ vs v v' p (stays, found).
        let h = subst (Settled s) (sym stays) p in
        ((h, found ∙ ap some p.shape.stable), inl (settled h), ap (λ (u : View). u.journal) stays);
  }

  found-Triple :
      (vs : Dict (Option String))
      → Takes
          (λ v. Settled s v × (lookup "stable" vs ≡ some (some s)))
          (λ current v. Settled s v × (current ≡ s))
          (require (stable_of (lookup "stable" vs)) "stable slot required before upgrade")
  unfolding require
  found-Triple vs = record {
    run = λ u h.
        rw (h.at.1.1, require, stable_of)
          (record {
            out = record { inv = h.inv; at = (h.at.0, (h.at.1.0, refl)); within = h.within };
          });
  }

  current-Triple :
      (bytes current : String)
      → Takes (λ v. Settled s v × (current ≡ s)) (Finished s t) (replace e t bytes current)
  current-Triple bytes current = record {
    run = λ u h.
        subst
          (λ k.
            Leads c Cause Crash (λ o. At c Cause Crash (Finished s t o)) (replace e t bytes k u))
          (sym h.at.1.1)
          ((replace-Triple bytes).run u
            (record { inv = h.inv; at = (h.at.0, h.at.1.0); within = h.within }));
  }

  upgrade-Triple : (bytes : String) → Takes (Settled s) (Finished s t) (upgrade e t bytes)
  unfolding upgrade
  upgrade-Triple bytes =
      >>=-Triple
        (call-Triple (never Cause) versions-Moves e.effects.versions λ w inv p. c.versions w inv)
        λ vs. >>=-Triple (found-Triple vs) λ current. current-Triple bytes current

-- How an upgrade from a settled world ends: at the new version, back at the old one, or failed
-- for a known reason in a state from which recovery goes to one of the two.
abbrev pub Upgraded :
    {W : Type 0} {e : Engine W} {Excuse : Error → Type 0}
    → Contract e Excuse
    → String
    → String
    → W
    → Result EngineOutcome × Session W
    → Type 0
Upgraded {Excuse} c s t w (ok o, u) =
    c.Inv u.world
    × Finished s t o (c.view u.world)
    × (u.seq ≡ next_seq (c.view u.world).journal)
    × ((x : Error) → c.Blame u.world x → c.Blame w x ⊎ Excuse x)
Upgraded {Excuse} c s t w (err x, u) =
    c.Inv u.world × (Safe s (c.view u.world) ⊎ Safe t (c.view u.world)) × (c.Blame w x ⊎ Excuse x)

module _ {W : Type 0} {e : Engine W} {Excuse : Error → Type 0} (c : Contract e Excuse) where
  abbrev KnownCause : W → Error → Type 0
  KnownCause w x = c.Blame w x ⊎ Excuse x

  upgraded :
      (s t : String) (w : W) (r : Result EngineOutcome × Session W)
      → Leads c
          (KnownCause w)
          (Crash c (KnownCause w) (λ x q. inr q) s t)
          (λ o. At c (KnownCause w) (Crash c (KnownCause w) (λ x q. inr q) s t) (Finished s t o))
          r
      → Upgraded c s t w r
  upgraded s t w (ok _, u) h = (h.out.inv, h.out.at.1, h.out.at.0, h.out.within)
  upgraded s t w (err x, u) h = h.out

  -- From a settled service at version `s`, with the session's number in step with the journal, an
  -- upgrade to `t` that returns has promoted and settled `t`, or has settled `s` again, or found
  -- `s` to be `t` already. One that fails, at whatever call, leaves a state from which recovery
  -- goes to `s` or to `t`, and its error comes from a fault of the world or from the predicates.
  pub upgrade_ends :
      (s t bytes : String) (u : Session W)
      → c.Inv u.world
      → Settled s (c.view u.world)
      → u.seq ≡ next_seq (c.view u.world).journal
      → Upgraded c s t u.world (upgrade e t bytes u)
  upgrade_ends s t bytes u inv h number = upgraded s t u.world (upgrade e t bytes u) (
      (upgrade-Triple c (KnownCause u.world) (λ x q. inr q) s t bytes).run u
        (record { inv = inv; at = (number, h); within = λ x b. inl b }))
