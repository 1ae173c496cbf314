-- ===== src/Engine/Leads.antt =====
-- Rules for chains of the engine's calls: what holds when a call returns, and that every failure
-- leaves a safe state behind and has a cause.
use k_carrier.Base.{
  String, ◌≡◌, ◌⊎◌, refl, sym, subst, ap, ◌∙◌, inl, inr, Option-cases, last-snoc, Dict, insert,
  lookup-insert, next_u64,
}
use k_carrier.State.{Phase, JournalEntry}
use k_carrier.Error.{Error, Result, ok, err}
use k_carrier.Action.{Action, pure, continue, ◌>>=◌}
use k_carrier.Validate.{validate_entry}
use k_carrier.Engine.{
  Engine, Session, bounded, journal, on_world, next_seq, seq_after, host_call, set_seq, read_clock,
}
use k_carrier.Engine.View.{View, Fewer, Ends}
use k_carrier.Engine.Contract.{Contract, Never, Appends}

validate-stamped :
    (entry : JournalEntry) (detail : Dict String)
    → entry.detail ≡ insert "formatVersion" "1" detail
    → validate_entry entry ≡ ok tt
unfolding validate_entry
validate-stamped entry detail h = rw h (rw lookup-insert refl)

-- A call with the effect `Step` leads from `P` to `Q`, and `Crash` holds before and after it.
pub record Moves {A : Type 0} (Crash : View → Type 0) (P : View → Type 0) (Q : A → View → Type 0)
    (Step : A → View → View → Type 0) : Type 0 where
  pub before : (v : View) → P v → Crash v
  pub after :
      (a : A) (v v' : View) → P v → Step a v v' → Q a v' × Crash v' × (v'.journal ≡ v.journal)

-- The same of an intent that is journalled.
pub record Logs (Crash : View → Type 0) (P Q : View → Type 0) (intent : Phase) : Type 0 where
  pub before : (v : View) → P v → Crash v
  pub after :
      (entry : JournalEntry) (v v' : View)
      → entry.intent ≡ intent
      → validate_entry entry ≡ ok tt
      → P v
      → Appends entry tt v v'
      → Q v' × Crash v'

pub into-Moves :
    {A : Type 0} {Crash Crash' : View → Type 0} {P : View → Type 0} {Q : A → View → Type 0}
    {Step : A → View → View → Type 0}
    → ((v : View) → Crash v → Crash' v)
    → Moves Crash P Q Step
    → Moves Crash' P Q Step
into-Moves f m = record {
  before = λ v p. f v (m.before v p);
  after = λ a v v' p d. let (q, safe, same) = m.after a v v' p d in (q, f v' safe, same);
}

pub into-Logs :
    {Crash Crash' P Q : View → Type 0} {intent : Phase}
    → ((v : View) → Crash v → Crash' v)
    → Logs Crash P Q intent
    → Logs Crash' P Q intent
into-Logs f m = record {
  before = λ v p. f v (m.before v p);
  after = λ entry v v' same good p d.
      let (q, safe) = m.after entry v v' same good p d in (q, f v' safe);
}

module _ {W : Type 0} {e : Engine W} {Excuse : Error → Type 0} (c : Contract e Excuse)
    (Cause : Error → Type 0) (Crash : View → Type 0) where
  open c use {observer, view, Inv, Blame}

  pub record Ready (Q : Session W → Type 0) (s : Session W) : Type 0 where
    pub inv : Inv s.world
    pub at : Q s
    pub within : (x : Error) → Blame s.world x → Cause x

  abbrev Outcome : {A : Type 0} → (A → Session W → Type 0) → Result A × Session W → Type 0
  Outcome Q (ok a, s) = Ready (Q a) s
  Outcome Q (err x, s) = Inv s.world × Crash (view s.world) × Cause x

  pub record Leads {A : Type 0} (Q : A → Session W → Type 0) (r : Result A × Session W)
      : Type 0 where
    pub out : Outcome Q r

  -- From `P` the action leads to `Q`.
  pub record Triple {A : Type 0} (P : Session W → Type 0) (Q : A → Session W → Type 0)
      (m : Action (Session W) A) : Type 0 where
    pub run : (s : Session W) → Ready P s → Leads Q (m s)

  -- The session's number is the next one of the journal, and the view satisfies `P`.
  abbrev pub At : (View → Type 0) → Session W → Type 0
  At P s = (s.seq ≡ next_seq (view s.world).journal) × P (view s.world)

module _ {W : Type 0} {e : Engine W} {Excuse : Error → Type 0} (c : Contract e Excuse) where
  -- A call that is cut off ends as one of the failures that the contract knows.
  cut-Ends :
      {A : Type 0} (X : Error → Type 0) (Step : A → View → View → Type 0) (w w' : W) (x : Error)
      (r : Result A × W)
      → Ends c.observer X Step w r
      → c.Inv w'
        × ((c.view w' ≡ c.view w) ⊎ (c.view w' ≡ c.view r.1))
        × c.Blame w x
        × Fewer c.observer w w'
      → Ends c.observer X Step w (err x, w')
  cut-Ends X Step w w' x r h (inv, inl same, blame, fewer) = (inv, inl same, inl blame, fewer)
  cut-Ends {A} X Step w w' x (ok a, w₁) h (inv, inr all, blame, fewer) =
      (inv, inr (a, subst (Step a (c.view w)) (sym all) h.1), inl blame, fewer)
  cut-Ends {A} X Step w w' x (err y, w₁) h (inv, inr all, blame, fewer) =
      (inv, again h.1, inl blame, fewer)
    where
      again :
          (c.view w₁ ≡ c.view w) ⊎ ((a : A) × Step a (c.view w) (c.view w₁))
          → (c.view w' ≡ c.view w) ⊎ ((a : A) × Step a (c.view w) (c.view w'))
      again (inl same) = inl (all ∙ same)
      again (inr (a, s)) = inr (a, subst (Step a (c.view w)) (sym all) s)

  pub bounded-Ends :
      {A : Type 0} (X : Error → Type 0) (Step : A → View → View → Type 0) (label : String)
      (call : Action W A) (w : W)
      → c.Inv w
      → Ends c.observer X Step w (call w)
      → Ends c.observer X Step w (bounded e label call w)
  unfolding bounded
  bounded-Ends {A} X Step label call w inv h =
      elim (Option-cases (e.timer.elapsed A e.budget call w)) [
        | inl in_time ↦ rw in_time h
        | inr (w', late) ↦
            rw late (cut-Ends X Step w w' _ (call w) h (c.cut A label call w w' inv late))
      ]

module _ {W : Type 0} {e : Engine W} {Excuse : Error → Type 0} {c : Contract e Excuse}
    {Cause : Error → Type 0} {Crash : View → Type 0} where
  continue-Leads :
      {A B : Type 0} {Q : A → Session W → Type 0} {R : B → Session W → Type 0}
      (f : A → Action (Session W) B) (r : Result A × Session W)
      → Leads c Cause Crash Q r
      → ((a : A) (s : Session W) → Ready c Cause Crash (Q a) s → Leads c Cause Crash R (f a s))
      → Leads c Cause Crash R (continue f r)
  continue-Leads f (ok a, s) h k = k a s h.out
  continue-Leads f (err x, s) h k = record { out = h.out }

  pub >>=-Triple :
      {A B : Type 0} {P : Session W → Type 0} {Q : A → Session W → Type 0}
      {R : B → Session W → Type 0} {m : Action (Session W) A} {f : A → Action (Session W) B}
      → Triple c Cause Crash P Q m
      → ((a : A) → Triple c Cause Crash (Q a) R (f a))
      → Triple c Cause Crash P R (m >>= f)
  unfolding ◌>>=◌
  >>=-Triple {m} {f} h k = record {
    run = λ s r. continue-Leads f (m s) (h.run s r) (λ a t q. (k a).run t q);
  }

  weaken-Leads :
      {A : Type 0} {Q R : A → Session W → Type 0} (r : Result A × Session W)
      → ((a : A) (s : Session W) → Q a s → R a s)
      → Leads c Cause Crash Q r
      → Leads c Cause Crash R r
  weaken-Leads (ok a, s) f h = record {
    out = record { inv = h.out.inv; at = f a s h.out.at; within = h.out.within };
  }
  weaken-Leads (err x, s) f h = record { out = h.out }

  pub weaken-Triple :
      {A : Type 0} {P P' : Session W → Type 0} {Q R : A → Session W → Type 0}
      {m : Action (Session W) A}
      → ((s : Session W) → P' s → P s)
      → ((a : A) (s : Session W) → Q a s → R a s)
      → Triple c Cause Crash P Q m
      → Triple c Cause Crash P' R m
  weaken-Triple {m} f g h = record {
    run = λ s r.
        weaken-Leads (m s) g (h.run s (record { inv = r.inv; at = f s r.at; within = r.within }));
  }

  pub pure-Triple :
      {A : Type 0} {Q : A → Session W → Type 0} (a : A) → Triple c Cause Crash (Q a) Q (pure a)
  unfolding pure
  pure-Triple a = record { run = λ s r. record { out = r } }

  -- One call of a part of the world.
  module _ {A : Type 0} {X : Error → Type 0} {P : View → Type 0} {Q : A → View → Type 0}
      {Step : A → View → View → Type 0} (excused : (x : Error) → X x → Cause x)
      (moves : Moves Crash P Q Step) where
    ends :
        (s : Session W) (r : Result A × W)
        → Ready c Cause Crash (At c Cause Crash P) s
        → Ends c.observer X Step s.world r
        → Leads c Cause Crash (λ a. At c Cause Crash (Q a)) (r.0, record s { world = r.1 })
    ends s (ok a, w) h (inv, did, fewer) =
        let (q, _, same) = moves.after a _ _ h.at.1 did in
        record {
          out = record {
            inv = inv;
            at = (h.at.0 ∙ ap next_seq (sym same), q);
            within = λ x b. h.within x (fewer x b);
          };
        }
    ends s (err x, w) h (inv, did, why, fewer) = record { out = (inv, after did, cause why) }
      where
        after :
            (c.view w ≡ c.view s.world) ⊎ ((a : A) × Step a (c.view s.world) (c.view w))
            → Crash (c.view w)
        after (inl same) = subst Crash (sym same) (moves.before _ h.at.1)
        after (inr (a, did)) = (moves.after a _ _ h.at.1 did).1

        cause : c.Blame s.world x ⊎ X x → Cause x
        cause (inl b) = h.within x b
        cause (inr b) = excused x b

    pub call-Triple :
        (m : Action W A)
        → ((w : W) → c.Inv w → P (c.view w) → Ends c.observer X Step w (m w))
        → Triple c Cause Crash (At c Cause Crash P) (λ a. At c Cause Crash (Q a)) (on_world m)
    unfolding on_world
    call-Triple m law = record { run = λ s h. ends s (m s.world) h (law s.world h.inv h.at.1) }

    pub host-Triple :
        (label : String) (m : Action W A)
        → ((w : W) → c.Inv w → P (c.view w) → Ends c.observer X Step w (m w))
        → Triple c Cause Crash
            (At c Cause Crash P)
            (λ a. At c Cause Crash (Q a))
            (host_call e label m)
    unfolding host_call
    host-Triple label m law =
        call-Triple (bounded e label m) λ w inv p. bounded-Ends c X Step label m w inv (law w inv p)

  -- One journalled intent.
  module _ {P Q : View → Type 0} {intent : Phase} (logs : Logs Crash P Q intent) where
    appended :
        (entry : JournalEntry) (s : Session W) (r : Result (Unit {0}) × W)
        → entry.intent ≡ intent
        → validate_entry entry ≡ ok tt
        → entry.seq ≡ s.seq
        → Ready c Cause Crash (At c Cause Crash P) s
        → Ends c.observer Never (Appends entry) s.world r
        → Leads c Cause Crash
            (λ _. At c Cause Crash Q)
            (continue (λ _. set_seq e (next_u64 s.seq)) (r.0, record s { world = r.1 }))
    unfolding set_seq
    appended entry s (ok _, w) same good number h (inv, did, fewer) = record {
      out = record {
        inv = inv;
        at = (
          ap next_u64 (sym number)
              ∙ sym (ap seq_after (last-snoc (c.view s.world).journal entry))
              ∙ ap (λ (v : View). next_seq v.journal) (sym did),
          (logs.after entry _ _ same good h.at.1 did).0,
        );
        within = λ x b. h.within x (fewer x b);
      };
    }
    appended entry s (err x, w) same good number h (inv, did, why, fewer) = record {
      out = (inv, after did, cause why);
    }
      where
        after :
            (c.view w ≡ c.view s.world)
              ⊎ ((a : Unit {0}) × Appends entry a (c.view s.world) (c.view w))
            → Crash (c.view w)
        after (inl before) = subst Crash (sym before) (logs.before _ h.at.1)
        after (inr (_, did)) = (logs.after entry _ _ same good h.at.1 did).1

        cause : c.Blame s.world x ⊎ ⊥ → Cause x
        cause (inl b) = h.within x b
        cause (inr b) = absurd b

    clock-Ready :
        (s : Session W)
        → Ready c Cause Crash (At c Cause Crash P) s
        → Ready c Cause Crash (At c Cause Crash P) (record s { world = (e.now s.world).1 })
    clock-Ready s h =
        let (inv, same, fewer) = c.now s.world h.inv in
        record {
          inv = inv;
          at = subst (λ v. (s.seq ≡ next_seq v.journal) × P v) (sym same) h.at;
          within = λ x b. h.within x (fewer x b);
        }

    journal-Leads :
        (detail : Dict String) (s : Session W)
        → Ready c Cause Crash (At c Cause Crash P) s
        → Leads c Cause Crash (λ _. At c Cause Crash Q) (journal e intent detail s)
    unfolding journal on_world read_clock ◌>>=◌
    journal-Leads detail s h =
        let entry : JournalEntry = record {
          seq = s.seq;
          timestamp_ms = (e.now s.world).0;
          intent = intent;
          detail = insert "formatVersion" "1" detail;
        } in
        let t : Session W = record s { world = (e.now s.world).1 } in
        let good : validate_entry entry ≡ ok tt = validate-stamped entry detail refl in
        let ready : Ready c Cause Crash (At c Cause Crash P) t = clock-Ready s h in
        appended entry t (e.effects.append entry t.world) refl good refl ready
          (c.append entry t.world ready.inv (ready.at.0, good))

    pub journal-Triple :
        (detail : Dict String)
        → Triple c Cause Crash
            (At c Cause Crash P)
            (λ _. At c Cause Crash Q)
            (journal e intent detail)
    journal-Triple detail = record { run = journal-Leads detail }
