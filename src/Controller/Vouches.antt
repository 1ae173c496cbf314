-- ===== src/Controller/Vouches.antt =====
-- What a call of the controller in src/host.rs returns, and from whom.
use k_carrier.Base.{
  ℕ, if◌then◌else◌, String, Bool, true, false, ◌&&◌, ◌≡◌, refl, subst, Option, none, some, nat_eq,
  ◌==◌, arith,
}
use k_carrier.State.{Slot, Evidence}
use k_carrier.Validate.{validate_evidence}
use k_carrier.Error.{uncertain, Result, ok, err}
use k_carrier.Action.{Action, pure, lift, continue, after_seen, ◌>>=◌}
use k_carrier.Controller.Hears.{Heard, HeardOr, converse-HeardOr}
use k_carrier.Controller.{
  Values, Process, equals_pid, converse, or_timeout, if_exited, end_call, call, or_no_evidence,
  probe,
}

module _ (j : Values) {W : Type 0} (process : Process W j.Value) where
  -- A conversation that the timeout lets through is the one that was held.
  abbrev pub InTime : Type 0
  InTime =
      (m : Action W j.Value) (w w' : W) (r : Result j.Value)
      → process.within m w ≡ (ok (some r), w')
      → m w ≡ (r, w')

  -- A call from `before` to `after` that gives `v`, world by world: the controller `pid` is
  -- started, heard, killed if it still runs, and has exited; then its record is removed.
  pub record Followed (action : String) (slot : Option Slot) (v : j.Value) (before after : W)
      : Type 0 where
    pub isolated : W
    pub ready : W
    pub pid : ℕ
    pub started : W
    pub spoken : W
    pub running : Bool
    pub seen : W
    pub gone : W
    pub unrecorded : W
    pub isolates : process.isolate_standard_handles before ≡ (ok tt, isolated)
    pub ensures : process.ensure_dir isolated ≡ (ok tt, ready)
    pub spawns : process.spawn ready ≡ (ok pid, started)
    pub hears : Heard j process action slot pid v started spoken
    pub asks : process.is_running spoken ≡ (ok running, seen)
    pub exits : process.exited (if running then process.start_kill seen else seen) ≡ (true, gone)
    pub removes : process.remove_record gone ≡ (ok tt, unrecorded)
    pub synchronises : process.sync_dir unrecorded ≡ (ok tt, after)

  abbrev pub Vouched : String → Option Slot → W → Result j.Value × W → Type 0
  Vouched action slot before (ok v, w) = Followed action slot v before w
  Vouched action slot before (err x, w) = Unit

  module _ (action : String) (slot : Option Slot) (w w₁ w₂ w₃ : W) (pid : ℕ)
      (h₁ : process.isolate_standard_handles w ≡ (ok tt, w₁))
      (h₂ : process.ensure_dir w₁ ≡ (ok tt, w₂)) (h₃ : process.spawn w₂ ≡ (ok pid, w₃)) where
    Ends : Result j.Value × W → Type 0
    Ends = Vouched action slot w

    ended :
        (outcome : Result j.Value) (w₄ w₅ : W) (running : Bool)
        → HeardOr j process action slot pid w₃ (outcome, w₄)
        → process.is_running w₄ ≡ (ok running, w₅)
        → (p : Bool × W) → process.exited (if running then process.start_kill w₅ else w₅) ≡ p
        → Ends (if_exited j process action outcome p)
    unfolding lift Ends
    ended outcome w₄ w₅ running h k (false, w₆) e = tt
    ended (err x) w₄ w₅ running h k (true, w₆) e =
        after_seen Ends _ _ w₆ (λ _ _. tt) λ _ v _. after_seen Ends _ _ v (λ _ _. tt) λ _ _ _. tt
    ended (ok value) w₄ w₅ running h k (true, w₆) e =
        after_seen Ends _ _ w₆ (λ _ _. tt)
          λ _ w₇ h₇.
            after_seen Ends _ _ w₇ (λ _ _. tt)
              λ _ w₈ h₈. record {
                isolated = w₁;
                ready = w₂;
                pid = pid;
                started = w₃;
                spoken = w₄;
                running = running;
                seen = w₅;
                gone = w₆;
                unrecorded = w₇;
                isolates = h₁;
                ensures = h₂;
                spawns = h₃;
                hears = h;
                asks = k;
                exits = e;
                removes = h₇;
                synchronises = h₈;
              }

    concluded :
        (outcome : Result j.Value) (w₄ : W)
        → HeardOr j process action slot pid w₃ (outcome, w₄)
        → Ends (end_call j process action outcome w₄)
    unfolding end_call Ends
    concluded outcome w₄ h =
        after_seen Ends _ _ w₄ (λ _ _. tt) λ running w₅ k. ended outcome w₄ w₅ running h k _ refl

    heard :
        InTime
        → (p : Result (Option (Result j.Value)) × W)
        → process.within (converse j process action slot pid) w₃ ≡ p
        → Ends (
            continue (λ outcome. end_call j process action (or_timeout j process action outcome)) p)
    unfolding Ends
    heard laws (ok (some r), v) h = concluded r v (
        subst (HeardOr j process action slot pid w₃) (laws _ w₃ v r h)
          (converse-HeardOr j process action slot pid w₃))
    heard laws (ok none, v) h = concluded (err (uncertain _)) v tt
    heard laws (err x, v) h = tt

    talks :
        InTime
        → Ends (
            (process.within (converse j process action slot pid) >>= λ outcome.
            end_call j process action (or_timeout j process action outcome))
              w₃)
    unfolding ◌>>=◌
    talks laws = heard laws _ refl

  -- A call from `w` that returns a value, in the world `w'`, went through the worlds of
  -- `Followed`, one after another: it started a controller, wrote its record, read at most
  -- 65536 bytes of answer, awaited its exit, with success, and took the answer, which is in the
  -- protocol's version with `ok` and, to a probe, does not name that controller; then it made
  -- sure that the controller has exited, killing it where it still ran, and removed its record.
  -- The timeout gives what it ran.
  pub call-Vouched :
      (action : String) (slot : Option Slot) (w : W)
      → InTime
      → Vouched action slot w (call j process action slot w)
  unfolding call Ends
  call-Vouched action slot w laws =
      after_seen (Vouched action slot w) _ _ w (λ _ _. tt)
        λ _ w₁ h₁.
          after_seen (Vouched action slot w) _ _ w₁ (λ _ _. tt)
            λ _ w₂ h₂.
              after_seen (Vouched action slot w) _ _ w₂ (λ _ _. tt)
                λ pid w₃ h₃. talks action slot w w₁ w₂ w₃ pid h₁ h₂ h₃ laws

  -- Evidence that a probe from `before` returns: it validates, it is what the controller of this
  -- call answered, and it names a process other than that controller.
  pub record AttestedBy (before : W) (e : Evidence) (after : W) : Type 0 where
    pub answer : j.Value
    pub found : j.Value
    pub follows : Followed "probe" none answer before after
    pub finds : j.get answer "evidence" ≡ some found
    pub decodes : j.to_evidence found ≡ ok e
    pub validates : validate_evidence process.self_pid e ≡ ok tt
    pub names_another : nat_eq e.pid follows.pid ≡ false

  abbrev pub Attested : W → Result Evidence × W → Type 0
  Attested before (ok e, w) = AttestedBy before e w
  Attested before (err x, w) = Unit

  -- Decoding the evidence keeps the pid that is read from it.
  abbrev pub KeepsPid : Type 0
  KeepsPid =
      (v found : j.Value) (e : Evidence)
      → j.get v "evidence" ≡ some found
      → j.to_evidence found ≡ ok e
      → j.evidence_pid v ≡ some e.pid

  not_own :
      (o : Option ℕ) (n pid : ℕ)
      → o ≡ some n
      → (("probe" == "probe") && equals_pid pid o) ≡ false
      → nat_eq n pid ≡ false
  not_own o n pid h k = ground (arith, subst (λ o. equals_pid pid o ≡ false) h k)

  module _ (keeps : KeepsPid) (before w : W) (v : j.Value)
      (follows : Followed "probe" none v before w) where
    checked :
        (found : j.Value) (e : Evidence) (m : Result (Unit {0}))
        → j.get v "evidence" ≡ some found
        → j.to_evidence found ≡ ok e
        → validate_evidence process.self_pid e ≡ m
        → Attested before (continue (λ _. pure e) (m, w))
    unfolding pure
    checked found e (err x) there h valid = tt
    checked found e (ok _) there h valid = record {
      answer = v;
      found = found;
      follows = follows;
      finds = there;
      decodes = h;
      validates = valid;
      names_another =
          not_own (j.evidence_pid v) e.pid follows.pid (keeps v found e there h)
            follows.hears.accepted.1;
    }

    decoded :
        (found : j.Value) (m : Result Evidence)
        → j.get v "evidence" ≡ some found
        → j.to_evidence found ≡ m
        → Attested before
            (continue (λ e. lift (validate_evidence process.self_pid e) >>= λ _. pure e) (m, w))
    unfolding ◌>>=◌ lift
    decoded found (err x) there h = tt
    decoded found (ok e) there h = checked found e _ there h refl

    found_in :
        (o : Option j.Value)
        → j.get v "evidence" ≡ o
        → Attested before (
            continue
              (λ found. lift (j.to_evidence found) >>= λ e.
                lift (validate_evidence process.self_pid e) >>= λ _. pure e)
              (or_no_evidence j process o, w))
    unfolding ◌>>=◌ lift
    found_in none there = tt
    found_in (some found) there = decoded found _ there refl

  probed :
      (before : W) (p : Result j.Value × W)
      → KeepsPid
      → Vouched "probe" none before p
      → Attested before (
          continue
            (λ v. lift (or_no_evidence j process (j.get v "evidence")) >>= λ found.
              lift (j.to_evidence found) >>= λ e.
              lift (validate_evidence process.self_pid e) >>= λ _. pure e)
            p)
  unfolding ◌>>=◌ lift
  probed before (err x, w) keeps h = tt
  probed before (ok v, w) keeps h = found_in keeps before w v h _ refl

  -- Evidence that a probe returns is what the controller that this call started answered, and
  -- it validates: it has a version and a start id, and a pid that is neither 0 nor that of the
  -- process that asks; and that pid is not that of the controller that this call started. The
  -- timeout gives what it ran, and decoding the evidence keeps its pid.
  pub probe-Attested : (w : W) → InTime → KeepsPid → Attested w (probe j process w)
  unfolding probe ◌>>=◌
  probe-Attested w laws keeps = probed w _ keeps (call-Vouched "probe" none w laws)
