-- ===== src/Engine.antt =====
-- src/engine.rs: the two-slot upgrade transaction, over the effects and the host that it calls.
pub mod View
pub mod Contract
pub mod Safe
pub mod Leads
pub mod Rollback
pub mod Commit
pub mod Recovery
pub mod Stages
pub mod Upgrade
pub mod Survival
use k_carrier.Base.{
  ℕ, String, Bool, true, false, not, ◌||◌, Option, none, some, List, [], ◌∷◌, last, ◌<>◌, ◌==◌,
  Dict, lookup, insert, remove, if◌then◌else◌, nat_eq, ltb, next_u64,
}
use k_carrier.State.{
  Phase, idle, staged, handing_over, running_experiment, readback, promoted, rolled_back,
  phase_name, at_rest, Slot, Evidence, JournalEntry,
}
use k_carrier.Error.{uncertain, message, Result, ok, err, refuse_if, ◌>>=◌ as bind_result}
use k_carrier.Action.{Action, pure, raise, lift, attempt, require, gets, ◌>>=◌, ◌>>◌}
use k_carrier.Validate.{validate_evidence, validate_entry}

-- `trait Effects`: the durable state. A path is its text.
pub record Effects (W : Type 0) : Type 0 where
  pub read_journal : Action W (List JournalEntry)
  pub append : JournalEntry → Action W (Unit {0})
  pub versions : Action W (Dict (Option String))
  pub stage : String → String → Action W (Unit {0})
  pub promote : Action W (Unit {0})
  pub clear : Action W (Unit {0})

-- `trait Host`: the service that the adopter controls.
pub record Host (W : Type 0) : Type 0 where
  pub fence : Action W (Unit {0})
  pub quiesce : Action W (Unit {0})
  pub stop : Slot → Action W (Unit {0})
  pub start : Slot → Action W (Unit {0})
  pub probe : Action W Evidence
  pub resume : Action W (Unit {0})

-- `tokio::time`: the world that a call leaves behind when its budget runs out, if it does.
pub record Timer (W : Type 0) : Type 1 where
  pub elapsed : (A : Type 0) → ℕ → Action W A → W → Option W

-- `struct Engine`; `seq`, which alone changes, is kept in the session.
pub record Engine (W : Type 0) : Type 1 where
  pub effects : Effects W
  pub host : Host W
  pub evaluate : Evidence → String → Action W (Option String)
  pub now : W → ℕ × W
  pub budget : ℕ
  pub timer : Timer W

pub record Session (W : Type 0) : Type 0 where
  pub seq : ℕ
  pub world : W

pub data EngineOutcome : Type 0 where
  promoted_to : String → EngineOutcome
  rolled_back_for : String → EngineOutcome
  already_current : EngineOutcome

-- `VersionPredicate::evaluate`
unfoldable pub version_predicate : ℕ → Evidence → String → Result (Option String)
version_predicate self_pid evidence target = bind_result (validate_evidence self_pid evidence) λ _.
    ok (
      if evidence.version == target
      then none
      else some ("live process reports " <> evidence.version <> ", expected " <> target))

-- The test of `Engine::new` on the budget.
unfoldable pub check_budget : ℕ → Result (Unit {0})
check_budget budget_ms =
    refuse_if (nat_eq budget_ms 0 || ltb 2147483647 budget_ms) "invalid host call budget"

unfoldable pub on_world : {W A : Type 0} → Action W A → Action (Session W) A
on_world m s = ((m s.world).0, record s { world = (m s.world).1 })

-- `entries.last().map_or(0, |e| e.seq + 1)`
abbrev pub seq_after : Option JournalEntry → ℕ
seq_after none = 0
seq_after (some e) = next_u64 e.seq

abbrev pub next_seq : List JournalEntry → ℕ
next_seq entries = seq_after (last entries)

unfoldable pub validate_entries : List JournalEntry → Result (Unit {0})
validate_entries [] = ok tt
validate_entries (e ∷ es) = bind_result (validate_entry e) λ _. validate_entries es

abbrev in_flight : Option JournalEntry → Bool
in_flight none = false
in_flight (some e) = not (at_rest e.intent)

abbrev same_incarnation : Option Evidence → Evidence → Bool
same_incarnation none evidence = false
same_incarnation (some e) evidence = e.start_id == evidence.start_id

-- The first `match` of `upgrade`: only an uncertain probe stops it.
abbrev prior_of : Result Evidence → Result (Option Evidence)
prior_of (ok e) = ok (some e)
prior_of (err (uncertain m)) = err (uncertain m)
prior_of (err _) = ok none

abbrev with_prior : Option Evidence → Dict String → Dict String
with_prior none detail = detail
with_prior (some e) detail = insert "priorStartId" e.start_id detail

abbrev stable_of : Option (Option String) → Option String
stable_of none = none
stable_of (some v) = v

module _ {W : Type 0} (e : Engine W) where
  open e use {effects, host, evaluate, now, budget, timer}

  timed_out : {A : Type 0} → String → Action W A → W → Option W → Result A × W
  timed_out label call w none = call w
  timed_out label call w (some w') = (err (uncertain ("HOST_CALL_TIMEOUT: " <> label)), w')

  pub bounded : {A : Type 0} → String → Action W A → Action W A
  unfolding timed_out
  bounded {A} label call w = timed_out label call w (timer.elapsed A budget call w)

  pub read_clock : Action W ℕ
  read_clock w = (ok (now w).0, (now w).1)

  pub set_seq : ℕ → Action (Session W) (Unit {0})
  set_seq n s = (ok tt, record s { seq = n })

  pub journal : Phase → Dict String → Action (Session W) (Unit {0})
  journal intent detail = do
    seq ← gets (λ s. s.seq)
    timestamp_ms ← on_world read_clock
    on_world (
        effects.append (record {
          seq = seq;
          timestamp_ms = timestamp_ms;
          intent = intent;
          detail = insert "formatVersion" "1" detail;
        }))
    set_seq (next_u64 seq)

  pub host_call : {A : Type 0} → String → Action W A → Action (Session W) A
  host_call label call = on_world (bounded label call)

  pub restart_stable : Action (Session W) (Unit {0})
  restart_stable = do
    host_call "stop" (host.stop Slot.experiment)
    host_call "start" (host.start Slot.stable)
    host_call "resume" host.resume

  pub unless_skipped : Bool → Action (Session W) (Unit {0})
  unless_skipped true = pure tt
  unless_skipped false = restart_stable

  pub rollback : String → Bool → Action (Session W) (Unit {0})
  rollback reason skip_restart = do
    journal rolled_back (("reason", reason) ∷ [])
    unless_skipped skip_restart
    on_world effects.clear

  pub rollback_outcome : String → Action (Session W) EngineOutcome
  rollback_outcome reason = do rollback reason false; pure (rolled_back_for reason)

  pub load_journal : Action (Session W) (List JournalEntry)
  load_journal = do
    entries ← on_world effects.read_journal
    lift (validate_entries entries)
    pure entries

  pub observe_settled : Action (Session W) (Unit {0})
  observe_settled = do
    entries ← load_journal
    lift (refuse_if (in_flight (last entries)) "SETTLED_OPERATION_HAS_UNFINISHED_JOURNAL")
    set_seq (next_seq entries)

  -- The `match last.intent` of `recover`.
  pub resolve : Phase → Action (Session W) (Unit {0})
  resolve idle = pure tt
  resolve promoted = do on_world effects.promote; host_call "resume" host.resume
  resolve rolled_back = do restart_stable; on_world effects.clear
  resolve staged = rollback "crash before handover" true
  resolve handing_over = rollback ("crash during " <> phase_name handing_over) false
  resolve running_experiment = rollback ("crash during " <> phase_name running_experiment) false
  resolve readback = rollback ("crash during " <> phase_name readback) false

  pub resolve_last : Option JournalEntry → Action (Session W) (Unit {0})
  resolve_last none = pure tt
  resolve_last (some entry) = resolve entry.intent

  pub recover : Action (Session W) (Unit {0})
  recover = do
    entries ← load_journal
    set_seq (next_seq entries)
    host_call "fence" host.fence
    resolve_last (last entries)

  -- `upgrade`, from its end backwards: the commit, the readback, the second probe, the handover.
  pub commit : String → Dict String → Action (Session W) EngineOutcome
  commit version detail = do
    journal promoted detail
    on_world effects.promote
    host_call "resume" host.resume
    pure (promoted_to version)

  pub verdict : String → Dict String → Option String → Action (Session W) EngineOutcome
  verdict version detail (some reason) = rollback_outcome ("predicates refused: " <> reason)
  verdict version detail none = commit version detail

  pub judge : String → Dict String → Option Evidence → Evidence → Action (Session W) EngineOutcome
  judge version detail prior evidence = do
    journal readback detail
    if same_incarnation prior evidence
        then rollback_outcome "live process is still the pre-upgrade incarnation"
        else (do
          refusal ← host_call "readback" (evaluate evidence version)
          verdict version detail refusal)

  pub probed :
      String → Dict String → Option Evidence → Result Evidence → Action (Session W) EngineOutcome
  probed version detail prior (ok evidence) = judge version detail prior evidence
  probed version detail prior (err (uncertain m)) = raise (uncertain m)
  probed version detail prior (err x) = rollback_outcome ("experiment probe failed: " <> message x)

  pub hand_over : String → String → Option Evidence → Action (Session W) EngineOutcome
  hand_over version bytes prior = do
    let detail : Dict String = ("version", version) ∷ []
    journal staged detail
    on_world (effects.stage version bytes)
    let prior_detail = with_prior prior detail
    journal handing_over prior_detail
    host_call "quiesce" host.quiesce
    host_call "stop" (host.stop Slot.stable)
    host_call "start" (host.start Slot.experiment)
    let candidate = remove "priorStartId" prior_detail
    journal running_experiment candidate
    found ← attempt (host_call "probe" host.probe)
    probed version candidate prior found

  pub replace : String → String → String → Action (Session W) EngineOutcome
  replace version bytes current = if current == version then pure already_current else (do
    found ← attempt (host_call "probe" host.probe)
    prior ← lift (prior_of found)
    hand_over version bytes prior)

  pub upgrade : String → String → Action (Session W) EngineOutcome
  upgrade version bytes = do
    versions ← on_world effects.versions
    current ← require (stable_of (lookup "stable" versions)) "stable slot required before upgrade"
    replace version bytes current
