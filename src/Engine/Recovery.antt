-- ===== src/Engine/Recovery.antt =====
-- `recover` of src/engine.rs: from every state that a crash may leave behind.
use k_carrier.Base.{
  String, true, false, ◌≡◌, refl, sym, subst, ap, ◌∙◌, ◌⊎◌, Option, none, some, List, inl, inr,
  last,
}
use k_carrier.State.{
  Phase, idle, staged, handing_over, running_experiment, readback, promoted, rolled_back,
  JournalEntry,
}
use k_carrier.Error.{Error, Result, ok, err}
use k_carrier.Action.{Action, lift}
use k_carrier.Engine.{
  Engine, Session, on_world, resolve, resolve_last, recover, load_journal, set_seq, next_seq,
  validate_entries, rollback,
}
use k_carrier.Engine.View.{View, Fewer, Ends, last_intent, intent_of}
use k_carrier.Engine.Contract.{Contract, Never, Reads, Unchanged}
use k_carrier.Engine.Safe.{Settled, Safe, settled, AllValid}
use k_carrier.Engine.Safe.Restore.{never}
use k_carrier.Engine.Safe.Cases.{
  valid_if_Safe, rest_if_Safe, staging_if_Safe, switching_if_Safe, restoring_if_Safe,
  committing_if_Safe,
}
use k_carrier.Engine.Leads.{
  Ready, Leads, Triple, At, Moves, >>=-Triple, weaken-Triple, pure-Triple, host-Triple,
}
use k_carrier.Engine.Rollback.{rollback-Triple, rollback_early-Triple, restore-Triple}
use k_carrier.Engine.Commit.{Committing, Committed, commit_first-Triple, commit_again-Triple}

-- A safe view whose journal is the one that was read.
abbrev pub Known : String → List JournalEntry → View → Type 0
Known d entries v = Safe d v × (entries ≡ v.journal)

module _ {W : Type 0} {e : Engine W} {Excuse : Error → Type 0} (c : Contract e Excuse)
    (Cause : Error → Type 0) (d : String) where
  abbrev Crash : View → Type 0
  Crash = Safe d

  abbrev Takes :
      {A : Type 0} → (View → Type 0) → (A → View → Type 0) → Action (Session W) A → Type 0
  Takes P Q = Triple c Cause Crash (At c Cause Crash P) (λ a. At c Cause Crash (Q a))

  same : (v : View) → Safe d v → Crash v
  same v h = h

  -- A precondition that gives one of several, each enough.
  some-Triple :
      {A B : Type 0} (P : View → Type 0) (P' : B → View → Type 0) {R : A → Session W → Type 0}
      {m : Action (Session W) A}
      → ((v : View) → P v → (b : B) × P' b v)
      → ((b : B) → Triple c Cause Crash (At c Cause Crash (P' b)) R m)
      → Triple c Cause Crash (At c Cause Crash P) R m
  some-Triple P P' f k = record {
    run = λ s r.
        let (b, h) = f _ r.at.1 in
        (k b).run s (record { inv = r.inv; at = (r.at.0, h); within = r.within });
  }

  abbrev Ended : Phase → View → Type 0
  Ended i v = Safe d v × (last_intent v.journal ≡ some i)

  interrupted-Triple :
      (i : Phase) (reason : String)
      → k_carrier.Engine.Safe.is_switch (some i) ≡ true
      → Takes (Ended i) (λ _. Settled d) (rollback e reason false)
  interrupted-Triple i reason on =
      some-Triple (Ended i) _ (λ v h. switching_if_Safe i on h.0 h.1)
        λ t. rollback-Triple c Cause Crash d same (some i) t reason on

  abbrev Half : Option String → View → Type 0
  Half (some s) = Committing s d
  Half none = Committed d

  half : (v : View) → Ended promoted v → (o : Option String) × Half o v
  half v h = elim (committing_if_Safe h.0 h.1) [ inl (s, p) ↦ (some s, p) | inr p ↦ (none, p) ]

  unfinished-Triple :
      (o : Option String)
      → Triple c Cause Crash
          (At c Cause Crash (Half o))
          (λ _. At c Cause Crash (Settled d))
          (resolve e promoted)
  unfinished-Triple (some s) = commit_first-Triple c Cause Crash d same s
  unfinished-Triple none = commit_again-Triple c Cause Crash d same

  commit-Triple : Takes (Ended promoted) (λ _. Settled d) (resolve e promoted)
  commit-Triple = some-Triple (Ended promoted) Half half unfinished-Triple

  resolve-Triple : (i : Phase) → Takes (Ended i) (λ _. Settled d) (resolve e i)
  unfolding resolve
  resolve-Triple idle =
      weaken-Triple (λ s h. (h.0, rest_if_Safe h.1.0 (inr h.1.1))) (λ a s h. h)
        (pure-Triple {Q = λ _. At c Cause Crash (Settled d)} tt)
  resolve-Triple staged =
      some-Triple (Ended staged) _ (λ v h. staging_if_Safe h.0 h.1)
        λ x. rollback_early-Triple c Cause Crash d same x "crash before handover"
  resolve-Triple handing_over = interrupted-Triple handing_over _ refl
  resolve-Triple running_experiment = interrupted-Triple running_experiment _ refl
  resolve-Triple readback = interrupted-Triple readback _ refl
  resolve-Triple promoted = commit-Triple
  resolve-Triple rolled_back =
      some-Triple (Ended rolled_back) _ (λ v h. restoring_if_Safe h.0 h.1)
        λ x. restore-Triple c Cause Crash d same x

  resolve_last-Triple :
      (o : Option JournalEntry)
      → Takes
          (λ v. Safe d v × (last_intent v.journal ≡ intent_of o))
          (λ _. Settled d)
          (resolve_last e o)
  unfolding resolve_last
  resolve_last-Triple none =
      weaken-Triple (λ s h. (h.0, rest_if_Safe h.1.0 (inl h.1.1))) (λ a s h. h)
        (pure-Triple {Q = λ _. At c Cause Crash (Settled d)} tt)
  resolve_last-Triple (some entry) = resolve-Triple entry.intent

  -- Before the number is set, only the view is known.
  abbrev Seen : List JournalEntry → Session W → Type 0
  Seen entries s = Known d entries (c.view s.world)

  read :
      (s : Session W) (r : Result (List JournalEntry) × W)
      → Ready c Cause Crash (λ t. Safe d (c.view t.world)) s
      → Ends c.observer Never Reads s.world r
      → Leads c Cause Crash Seen (r.0, record s { world = r.1 })
  read s (ok entries, w) h (inv, (stays, all), fewer) = record {
    out = record {
      inv = inv;
      at = (subst (Safe d) (sym stays) h.at, all ∙ ap (λ (v : View). v.journal) (sym stays));
      within = λ x b. h.within x (fewer x b);
    };
  }
  read s (err x, w) h (inv, did, why, fewer) = record { out = (inv, after did, cause why) }
    where
      after :
          (c.view w ≡ c.view s.world)
            ⊎ ((a : List JournalEntry) × Reads a (c.view s.world) (c.view w))
          → Safe d (c.view w)
      after (inl stays) = subst (Safe d) (sym stays) h.at
      after (inr (_, (stays, _))) = subst (Safe d) (sym stays) h.at

      cause : c.Blame s.world x ⊎ ⊥ → Cause x
      cause (inl b) = h.within x b
      cause (inr b) = absurd b

  read-Triple :
      Triple c Cause Crash (λ s. Safe d (c.view s.world)) Seen (on_world e.effects.read_journal)
  unfolding on_world
  read-Triple = record {
    run = λ s h. read s (e.effects.read_journal s.world) h (c.read_journal s.world h.inv);
  }

  check-Triple :
      (entries : List JournalEntry)
      → Triple c Cause Crash (Seen entries) (λ _. Seen entries) (lift (validate_entries entries))
  unfolding lift
  check-Triple entries = record {
    run = λ s r.
        let valid : validate_entries entries ≡ ok tt =
          subst AllValid (sym r.at.1) (valid_if_Safe r.at.0) in
        rw valid (record { out = r });
  }

  number-Triple :
      (entries : List JournalEntry)
      → Triple c Cause Crash
          (Seen entries)
          (λ _. At c Cause Crash (Known d entries))
          (set_seq e (next_seq entries))
  unfolding set_seq
  number-Triple entries = record {
    run = λ s r. record {
      out = record { inv = r.inv; at = (ap next_seq r.at.1, r.at); within = r.within };
    };
  }

  fence-Moves :
      (entries : List JournalEntry)
      → Moves {A = Unit {0}} (Safe d) (Known d entries) (λ _. Known d entries) Unchanged
  fence-Moves entries = record {
    before = λ v p. p.0;
    after = λ a v v' p stays. (
      subst (Known d entries) (sym stays) p,
      subst (Safe d) (sym stays) p.0,
      ap (λ (u : View). u.journal) stays,
    );
  }

  load-Triple : Triple c Cause Crash (λ s. Safe d (c.view s.world)) Seen (load_journal e)
  unfolding load_journal
  load-Triple =
      >>=-Triple read-Triple λ entries. >>=-Triple (check-Triple entries) λ _. pure-Triple entries

  recover-Triple :
      Triple c Cause Crash
        (λ s. Safe d (c.view s.world))
        (λ _. At c Cause Crash (Settled d))
        (recover e)
  unfolding recover
  recover-Triple = >>=-Triple load-Triple λ entries. >>=-Triple (number-Triple entries) λ _.
      >>=-Triple
        (host-Triple (never Cause) (fence-Moves entries) "fence" e.host.fence
          λ w inv p. c.fence w inv)
        λ _.
          weaken-Triple (λ s h. (h.0, (h.1.0, ap last_intent (sym h.1.1)))) (λ a s h. h)
            (resolve_last-Triple (last entries))

-- How a recovery from a safe world ends: settled at `d`, or failed for a reason that was there
-- before, with the world still safe and bound for `d`.
abbrev pub Recovered :
    {W : Type 0} {e : Engine W} {Excuse : Error → Type 0}
    → Contract e Excuse
    → String
    → W
    → Result (Unit {0}) × Session W
    → Type 0
Recovered c d w (ok _, t) =
    c.Inv t.world
    × Settled d (c.view t.world)
    × (t.seq ≡ next_seq (c.view t.world).journal)
    × Fewer c.observer w t.world
Recovered c d w (err x, t) = c.Inv t.world × Safe d (c.view t.world) × c.Blame w x

module _ {W : Type 0} {e : Engine W} {Excuse : Error → Type 0} (c : Contract e Excuse) where
  recovered :
      (d : String) (w : W) (r : Result (Unit {0}) × Session W)
      → Leads c (c.Blame w) (Safe d) (λ _. At c (c.Blame w) (Safe d) (Settled d)) r
      → Recovered c d w r
  recovered d w (ok _, t) h = (h.out.inv, h.out.at.1, h.out.at.0, h.out.within)
  recovered d w (err x, t) h = h.out

  -- From every safe state a recovery that returns has settled the service at the version that
  -- the journal decides. One that fails does so because of a fault that was there before, and
  -- leaves a safe state with the same version to restore.
  pub recover_restores :
      (d : String) (s : Session W)
      → c.Inv s.world
      → Safe d (c.view s.world)
      → Recovered c d s.world (recover e s)
  recover_restores d s inv safe = recovered d s.world (recover e s) (
      (recover-Triple c (c.Blame s.world) d).run s
        (record { inv = inv; at = safe; within = λ x b. b }))
