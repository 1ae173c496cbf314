-- ===== src/Runner/Responses.antt =====
-- What a response of `execute` in src/runner.rs says.
use k_carrier.Base.{
  ℕ, String, Bool, false, ◌≡◌, refl, sym, subst, ◌⊎◌, ◌≤◌, ◌≢◌, inl, inr, Option, some, arith,
  eq_iff, nat_eq, Bool-cases,
}
use k_carrier.State.{
  Operation, OperationRead, genesis, observed, unreadable, read_exit_code, Outcome,
}
use k_carrier.Error.{Result-cases, replay, locked, Result, ok, err}
use k_carrier.Action.{pure, continue, ◌>>=◌}
use k_carrier.Protocol.{
  Expected, Request, upgrade_request, recover_request, status_request, Response, action_of,
  validate_request,
}
use k_carrier.Runner.{clock, Runner, UpgradeOutcome, upgraded, restored, held_back, nothing_new}
use k_carrier.Runner.Drive.{recover_runner, drive}
use k_carrier.Runner.Requests.{
  Verdict, outcome_verdict, Finding, find, respond, serve, execute, receipt_missing, is_unreadable,
}

-- An operation ended well.
abbrev pub Succeeded : Option Outcome → Type 0
Succeeded o = (o ≡ some Outcome.promoted) ⊎ (o ≡ some Outcome.up_to_date)

abbrev pub Showing : (Operation → Type 0) → OperationRead → Type 0
Showing P (observed op) = P op
Showing P _ = ⊥

-- What exit code 0 promises of the operation shown, by request.
abbrev pub Promise : Request → OperationRead → Type 0
Promise (upgrade_request _ id target _) shown =
    Showing (λ op. (op.id ≡ id) × (op.target_version ≡ target) × Succeeded op.outcome) shown
Promise (recover_request _ _) shown = (shown ≡ genesis) ⊎ Showing (λ op. Succeeded op.outcome) shown
Promise (status_request _) shown = is_unreadable shown ≡ false

succeeded :
    (o : Option Outcome) (op : Operation)
    → op.outcome ≡ o
    → read_exit_code (observed op) ≡ 0
    → Succeeded o
succeeded o op h q = ground (arith, h, q)

module _ (result : String) (code : ℕ) (error : Option String) where
  abbrev at : OperationRead → Finding
  at shown = record { result = result; code = code; error = error; operation = shown }

  upgrade-Promise :
      (v : ℕ) (id target : String) (consented : Bool) (shown : OperationRead)
      → (respond (upgrade_request v id target consented) (at shown)).exit_code ≡ 0
      → Showing (λ op. (op.id ≡ id) × (op.target_version ≡ target) × Succeeded op.outcome) shown
  unfolding respond
  upgrade-Promise v id target consented genesis h = absurd (ground (arith, h))
  upgrade-Promise v id target consented (unreadable reason) h = absurd (ground (arith, h))
  upgrade-Promise v id target consented (observed op) h = (
    ground (arith, h, eq_iff op.id id),
    ground (arith, h, eq_iff op.target_version target),
    ground (arith, h),
  )

  recover-Promise :
      (v : ℕ) (e : Option Expected) (shown : OperationRead)
      → (respond (recover_request v e) (at shown)).exit_code ≡ 0
      → (shown ≡ genesis) ⊎ Showing (λ op. Succeeded op.outcome) shown
  unfolding respond
  recover-Promise v e genesis h = inl refl
  recover-Promise v e (unreadable reason) h = absurd (ground (arith, h))
  recover-Promise v e (observed op) h = inr (ground (arith, h))

  status-Promise :
      (v : ℕ) (shown : OperationRead)
      → (respond (status_request v) (at shown)).exit_code ≡ 0
      → is_unreadable shown ≡ false
  unfolding respond
  status-Promise v genesis h = refl
  status-Promise v (unreadable reason) h = absurd (ground (arith, h))
  status-Promise v (observed op) h = refl

respond-operation : (request : Request) (f : Finding) → (respond request f).operation ≡ f.operation
unfolding respond
respond-operation request f = elim (Bool-cases (receipt_missing request f)) [
  | inl missing ↦ rw missing refl
  | inr found ↦ rw found refl
]

found-Promise :
    (request : Request) (f : Finding)
    → (respond request f).exit_code ≡ 0
    → Promise request f.operation
found-Promise (upgrade_request v id target consented) f h =
    upgrade-Promise f.result f.code f.error v id target consented f.operation h
found-Promise (recover_request v e) f h = recover-Promise f.result f.code f.error v e f.operation h
found-Promise (status_request v) f h = status-Promise f.result f.code f.error v f.operation h

respond-Promise :
    (request : Request) (f : Finding)
    → (respond request f).exit_code ≡ 0
    → Promise request (respond request f).operation
respond-Promise request f h =
    subst (Promise request) (sym (respond-operation request f)) (found-Promise request f h)

-- A response for the request, in the protocol's version and range, whose exit code 0 is kept.
abbrev pub Answers : Request → Response → Type 0
Answers request a =
    (a.protocol_version ≡ 1)
    × (a.action ≡ action_of request)
    × (a.exit_code ≤ 3)
    × ((a.exit_code ≢ 0) ⊎ Promise request a.operation)

abbrev pub Answered : {W : Type 0} → Request → Result Response × W → Type 0
Answered request (ok a, w) = Answers request a
Answered request (err x, w) = validate_request request ≡ err x

read_exit_code_bound : (o : OperationRead) → read_exit_code o ≤ 3
read_exit_code_bound genesis = ground arith
read_exit_code_bound (unreadable reason) = ground arith
read_exit_code_bound (observed op) = ground arith

kept :
    (request : Request) (f : Finding)
    → ((respond request f).exit_code ≢ 0) ⊎ Promise request (respond request f).operation
kept request f = elim (Bool-cases (nat_eq (respond request f).exit_code 0)) [
  | inl zero_code ↦ inr (respond-Promise request f (ground (arith, zero_code)))
  | inr other ↦ inl λ q. ground (arith, other, q)
]

respond-Answers :
    (request : Request) (f : Finding) → f.code ≤ 3 → Answers request (respond request f)
unfolding respond
respond-Answers request f h = elim (Bool-cases (receipt_missing request f)) [
  | inl missing ↦ rw missing (refl, refl, ground arith, inl (ground arith))
  | inr found ↦ (
    rw found refl,
    rw found refl,
    ground (arith, h, found, read_exit_code_bound f.operation),
    kept request f,
  )
]

-- The codes that a request's work gives are in range.
abbrev InRange : {W : Type 0} → Result Verdict × W → Type 0
InRange (ok (name, code), w) = code ≤ 3
InRange (err x, w) = Unit

find_bound :
    {W : Type 0} (p : Result Verdict × W) (shown : OperationRead)
    → InRange p
    → (find p.0 shown).code ≤ 3
unfolding find
find_bound (ok (name, code), w) shown h = h
find_bound (err (replay op), w) shown h = read_exit_code_bound (observed op)
find_bound (err (locked pid), w) shown h = ground arith
find_bound (err x, w) shown h = ground arith

module _ {W : Type 0} (r : Runner W) where
  verdict-InRange :
      (m : Result UpgradeOutcome × W) → InRange (continue (λ o. pure (outcome_verdict o)) m)
  unfolding pure
  verdict-InRange (ok (upgraded _), w) = ground arith
  verdict-InRange (ok (restored _ _), w) = ground arith
  verdict-InRange (ok (held_back _), w) = ground arith
  verdict-InRange (ok nothing_new, w) = ground arith
  verdict-InRange (err x, w) = tt

  recovered-InRange :
      (m : Result (Unit {0}) × W) → InRange (continue (λ _. pure ("recovered", 0)) m)
  unfolding pure
  recovered-InRange (ok _, w) = ground arith
  recovered-InRange (err x, w) = tt

  serve-InRange : (request : Request) (w : W) → InRange (serve r request w)
  unfolding serve ◌>>=◌ pure clock
  serve-InRange (status_request v) w = ground arith
  serve-InRange (recover_request v e) w = recovered-InRange (recover_runner r e w)
  serve-InRange (upgrade_request v id target consented) w =
      verdict-InRange (drive r (some target) _ _)

  -- Every response to a valid request is in the protocol's form, and an exit code 0 is kept: after
  -- an upgrade it shows a receipt of that id and target that ended promoted or up to date; after
  -- a recovery a receipt that ended so, or none at all; for a status a readable receipt. Only a
  -- request that does not validate has no response.
  pub execute-Answered : (request : Request) (w : W) → Answered request (execute r request w)
  unfolding execute ◌>>=◌
  execute-Answered request w = elim (Result-cases (validate_request request)) [
    | inl valid ↦
        rw valid
          (respond-Answers request _ (find_bound (serve r request w) _ (serve-InRange request w)))
    | inr (x, invalid_for) ↦ rw invalid_for invalid_for
  ]
