-- ===== src/Supervisor/Agrees.antt =====
-- A worker's response in src/supervisor.rs is to its request and of its exit code.
use k_carrier.Base.{
  ℕ, String, Bool, true, false, ◌&&◌, ◌≡◌, inl, inr, Option, none, some, List, length, ltb, nat_eq,
  ◌==◌, arith, eq_iff, Bool-cases,
}
use k_carrier.Error.{Result, ok, err}
use k_carrier.Protocol.{Request, Response, Json, action_of, parse_response}
use k_carrier.Supervisor.{Attempt, Worker, accept, code_of, ended, exchanged, spawned, run}

-- A response is to its request and carries its worker's exit code.
abbrev pub Agrees : Request → ℕ → Option Response → Type 0
Agrees request code none = Unit
Agrees request code (some r) = (r.action ≡ action_of request) × (r.exit_code ≡ code)

accept-Agrees :
    (request : Request) (code : ℕ) (m : Result Response)
    → Agrees request code (accept request code m)
accept-Agrees request code (err x) = tt
accept-Agrees request code (ok r) =
    elim (Bool-cases ((r.action == action_of request) && nat_eq r.exit_code code)) [
      | inl fits ↦
          rw fits
            ((eq_iff r.action (action_of request)).0 (ground (arith, fits)), ground (arith, fits))
      | inr other ↦ rw other tt
    ]

module _ {W : Type 0} (j : Json) (worker : Worker W) where
  abbrev pub Agreed : Request → Attempt × W → Type 0
  Agreed request p = Agrees request p.0.code p.0.response

  ended-Agreed :
      (request : Request) (bytes : List ℕ) (p : Result (Option ℕ) × W)
      → Agreed request (ended j worker request bytes p)
  ended-Agreed request bytes (err x, w) = tt
  ended-Agreed request bytes (ok status, w) =
      accept-Agrees request (code_of status) (parse_response j bytes)

  exchanged-Agreed :
      (request : Request) (p : Result (List ℕ) × W) → Agreed request (exchanged j worker request p)
  exchanged-Agreed request (err x, w) = tt
  exchanged-Agreed request (ok bytes, w) = elim (Bool-cases (ltb 65536 (length bytes))) [
    | inl large ↦ rw large tt
    | inr small ↦ rw small (ended-Agreed request bytes (worker.wait w))
  ]

  spawned-Agreed :
      (request : Request) (budget : ℕ) (p : Bool × W)
      → Agreed request (spawned j worker request budget p)
  spawned-Agreed request budget (false, w) = tt
  spawned-Agreed request budget (true, w) =
      exchanged-Agreed request (worker.exchange request budget w)

  pub run-Agreed :
      (file : String) (request : Request) (budget : ℕ) (w : W)
      → Agreed request (run j worker file request budget w)
  unfolding run
  run-Agreed file request budget w = spawned-Agreed request budget (worker.spawn file w)
