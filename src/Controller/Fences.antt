-- ===== src/Controller/Fences.antt =====
-- How a call of the controller in src/host.rs fails, and what became of the controller then.
use k_carrier.Base.{
  ℕ, Bool, true, false, ◌≡◌, ◌⊎◌, refl, inl, inr, Option, none, some, String, if◌then◌else◌,
}
use k_carrier.State.{Slot}
use k_carrier.Error.{Error, is_uncertain, Result, ok, err}
use k_carrier.Action.{lift, after_known}
use k_carrier.Controller.{Values, Process, converse, or_timeout, if_exited, end_call, call}

module _ (j : Values) {W : Type 0} (process : Process W j.Value) (action : String)
    (slot : Option Slot) where
  -- A controller was started in this call, from `before`.
  pub record Started (before : W) (pid : ℕ) (started : W) : Type 0 where
    pub isolated : W
    pub ready : W
    pub isolates : process.isolate_standard_handles before ≡ (ok tt, isolated)
    pub ensures : process.ensure_dir isolated ≡ (ok tt, ready)
    pub spawns : process.spawn ready ≡ (ok pid, started)

  -- Where the conversation of this call ended, and whether it was in time.
  pub record Ended (before : W) (outcome : Option (Result j.Value)) (spoken : W) : Type 0 where
    pub pid : ℕ
    pub started : W
    pub starts : Started before pid started
    pub speaks : process.within (converse j process action slot pid) started ≡ (ok outcome, spoken)

  -- It was asked whether the controller still runs, and it was killed if so.
  pub record Awaited (before : W) (outcome : Option (Result j.Value)) (has_exited : Bool)
      (after : W) : Type 0 where
    pub spoken : W
    pub running : Bool
    pub seen : W
    pub ends : Ended before outcome spoken
    pub asks : process.is_running spoken ≡ (ok running, seen)
    pub exits :
        process.exited (if running then process.start_kill seen else seen) ≡ (has_exited, after)

  pub data Fails (before : W) (x : Error) (after : W) : Type 0 where
    not_isolated : process.isolate_standard_handles before ≡ (err x, after) → Fails before x after
    no_dir :
        {w : W}
        → process.isolate_standard_handles before ≡ (ok tt, w)
        → process.ensure_dir w ≡ (err x, after)
        → Fails before x after
    not_started :
        {w w' : W}
        → process.isolate_standard_handles before ≡ (ok tt, w)
        → process.ensure_dir w ≡ (ok tt, w')
        → process.spawn w' ≡ (err x, after)
        → Fails before x after
    not_timed :
        {pid : ℕ} {w : W}
        → Started before pid w
        → process.within (converse j process action slot pid) w ≡ (err x, after)
        → Fails before x after
    not_asked :
        {outcome : Option (Result j.Value)} {w : W}
        → Ended before outcome w
        → process.is_running w ≡ (err x, after)
        → Fails before x after
    not_gone :
        {outcome : Option (Result j.Value)}
        → Awaited before outcome false after
        → is_uncertain x ≡ true
        → Fails before x after
    not_removed :
        {outcome : Option (Result j.Value)} {w : W}
        → Awaited before outcome true w
        → process.remove_record w ≡ (err x, after)
        → Fails before x after
    not_synchronised :
        {outcome : Option (Result j.Value)} {w w' : W}
        → Awaited before outcome true w
        → process.remove_record w ≡ (ok tt, w')
        → process.sync_dir w' ≡ (err x, after)
        → Fails before x after
    answered :
        {outcome : Option (Result j.Value)} {w w' : W}
        → Awaited before outcome true w
        → process.remove_record w ≡ (ok tt, w')
        → process.sync_dir w' ≡ (ok tt, after)
        → (outcome ≡ some (err x)) ⊎ ((outcome ≡ none) × (is_uncertain x ≡ true))
        → Fails before x after

  -- The call failed as one of these.
  abbrev pub FailsOr : W → Result j.Value × W → Type 0
  FailsOr before (ok v, after) = Unit
  FailsOr before (err x, after) = Fails before x after

  module _ (before : W) where
    returns :
        (outcome : Option (Result j.Value)) (w w' after : W)
        → Awaited before outcome true w
        → process.remove_record w ≡ (ok tt, w')
        → process.sync_dir w' ≡ (ok tt, after)
        → FailsOr before (or_timeout j process action outcome, after)
    returns none w w' after a h k = answered a h k (inr (refl, refl))
    returns (some (ok v)) w w' after a h k = tt
    returns (some (err x)) w w' after a h k = answered a h k (inl refl)

    finishes :
        (outcome : Option (Result j.Value)) (b : Bool) (w : W)
        → Awaited before outcome b w
        → FailsOr before (if_exited j process action (or_timeout j process action outcome) (b, w))
    unfolding lift
    finishes outcome false w a = not_gone a refl
    finishes outcome true w a =
        after_known (FailsOr before) _ _ w (λ x v h. not_removed a h)
          λ _ v h.
            after_known (FailsOr before) _ _ v (λ x u k. not_synchronised a h k)
              λ _ u k. returns outcome w v u a h k

    concludes :
        (outcome : Option (Result j.Value)) (w : W)
        → Ended before outcome w
        → FailsOr before (end_call j process action (or_timeout j process action outcome) w)
    unfolding end_call
    concludes outcome w e =
        after_known (FailsOr before) _ _ w (λ x v h. not_asked e h)
          λ running v h.
            finishes outcome _ _
              (record { spoken = w; running = running; seen = v; ends = e; asks = h; exits = refl })

  -- A call fails either before a controller is started, in a call of the system that prepares or
  -- starts it; or with its fate unknown, as the timer or the question whether it runs failed, or
  -- it has not exited after it was killed, which is an uncertain error; or after it has exited:
  -- then the error is of removing its record, or it is the outcome of the conversation, where one
  -- that ran out of time is uncertain.
  pub call-FailsOr : (before : W) → FailsOr before (call j process action slot before)
  unfolding call
  call-FailsOr before =
      after_known (FailsOr before) _ _ before (λ x v h. not_isolated h)
        λ _ w₁ h₁.
          after_known (FailsOr before) _ _ w₁ (λ x v h. no_dir h₁ h)
            λ _ w₂ h₂.
              after_known (FailsOr before) _ _ w₂ (λ x v h. not_started h₁ h₂ h)
                λ pid w₃ h₃.
                  let begun : Started before pid w₃ = record {
                    isolated = w₁;
                    ready = w₂;
                    isolates = h₁;
                    ensures = h₂;
                    spawns = h₃;
                  } in
                  after_known (FailsOr before) _ _ w₃ (λ x v h. not_timed begun h)
                    λ outcome w₄ h₄.
                      concludes before outcome w₄
                        (record { pid = pid; started = w₃; starts = begun; speaks = h₄ })
