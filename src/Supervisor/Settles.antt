-- ===== src/Supervisor/Settles.antt =====
-- What a result of src/supervisor.rs says of the request that was made.
use k_carrier.Base.{
  ℕ, zero, suc, ◌+◌, String, Bool, true, false, ◌≡◌, ◌≢◌, ◌≤◌, ◌⊎◌, inl, inr, refl, Option, none,
  some, List, ltb, nat_eq, is_some, arith, eq_iff, Bool-cases, if◌then◌else◌, ◌<>◌,
}
use k_carrier.State.{OperationRead, genesis, observed, unreadable, Outcome}
use k_carrier.Error.{Result, ok, err}
use k_carrier.Action.{Action, pure, after_any, ◌>>=◌, ◌>>◌}
use k_carrier.Protocol.{
  Expected, Request, upgrade_request, recover_request, status_request, Response, Json,
}
use k_carrier.Runner.Responses.{Showing, Succeeded}
use k_carrier.Supervisor.{
  LaunchOptions, LaunchResult, Attempt, Worker, settled, is_status, shows, at_rest_read, ended_with,
}
use k_carrier.Supervisor.Launch.{
  done_by, resolves, gives_up, resolved, unresolved, Launch, request_at, attempts_from,
  supervise_written, supervise_in, supervise_bytes,
}
use k_carrier.Supervisor.Agrees.{Agrees, run-Agreed}

-- The response shows the receipt that is expected, and it ended well.
abbrev pub Shows : Expected → Option Response → Type 0
Shows e none = ⊥
Shows e (some r) =
    Showing (λ op. (op.id ≡ e.id) × (op.target_version ≡ e.target_version) × Succeeded op.outcome)
      r.operation

abbrev pub AtRest : Option Response → Type 0
AtRest none = ⊥
AtRest (some r) = at_rest_read r.operation ≡ true

-- What exit code 0 promises, by request.
abbrev pub Vouches : Request → Option Response → Type 0
Vouches (upgrade_request _ id target _) r = Shows (record { id = id; target_version = target }) r
Vouches (recover_request _ (some e)) r = Shows e r
Vouches (recover_request _ none) r = AtRest r
Vouches (status_request _) r = is_some r ≡ true

shown :
    (e : Expected) (r : Response) (code : ℕ)
    → code ≡ 0
    → shows e code r.operation ≡ true
    → Shows e (some r)
shown e r code zero_code h = showing r.operation h
  where
    showing :
        (o : OperationRead)
        → shows e code o ≡ true
        → Showing
            (λ op. (op.id ≡ e.id) × (op.target_version ≡ e.target_version) × Succeeded op.outcome)
            o
    showing genesis k = absurd (ground (arith, k))
    showing (unreadable reason) k = absurd (ground (arith, k))
    showing (observed op) k = (
      (eq_iff op.id e.id).0 (ground (arith, k)),
      (eq_iff op.target_version e.target_version).0 (ground (arith, k)),
      outcome op.outcome (ground (arith, k)),
    )
      where
        outcome : (o : Option Outcome) → ended_with code o ≡ true → Succeeded o
        outcome o k = ground (arith, k, zero_code)

-- A response that settles a request with exit code 0 vouches for it.
settled-Vouches :
    (request : Request) (r : Response)
    → r.exit_code ≡ 0
    → settled r request ≡ true
    → Vouches request (some r)
unfolding settled
settled-Vouches (upgrade_request v id target c) r code h =
    shown (record { id = id; target_version = target }) r r.exit_code code (ground (arith, h, code))
settled-Vouches (recover_request v (some e)) r code h =
    shown e r r.exit_code code (ground (arith, h))
settled-Vouches (recover_request v none) r code h = ground (arith, h)
settled-Vouches (status_request v) r code h = refl

status-Vouches :
    (request : Request) (r : Response) → is_status request ≡ true → Vouches request (some r)
status-Vouches (status_request v) r h = refl
status-Vouches (upgrade_request v id target c) r h = absurd (ground (arith, h))
status-Vouches (recover_request v e) r h = absurd (ground (arith, h))

-- Exit code 0 is kept; a result without a recovery file has settled, and one with it says so.
abbrev pub Reports : Request → String → LaunchResult → Type 0
Reports request recovery_file result =
    ((result.exit_code ≢ 0) ⊎ Vouches request result.response)
    × (((result.recovery_file ≡ none) × (result.error ≡ none))
        ⊎ ((result.recovery_file ≡ some recovery_file)
            × (result.exit_code ≡ 3)
            × (is_some result.error ≡ true)))

abbrev pub Truthful : {W : Type 0} → Request → String → ℕ → Result LaunchResult × W → Type 0
Truthful request recovery_file most (ok result, w) =
    (result.attempts ≤ most) × Reports request recovery_file result
Truthful request recovery_file most (err x, w) = Unit

-- With the recovery file of some directory.
abbrev pub TruthfulAtSome : {W : Type 0} → Request → ℕ → Result LaunchResult × W → Type 0
TruthfulAtSome request most p = (path : String) × Truthful request path most p

resolved-Vouches :
    (request asked : Request) (code : ℕ) (o : Option Response) (fenced : Bool)
    → Agrees asked code o
    → resolves request (record { code = code; response = o; fenced = fenced }) ≡ true
    → (n : ℕ)
    → ((resolved (record { code = code; response = o; fenced = fenced }) n).exit_code ≢ 0)
      ⊎ Vouches request o
unfolding resolved resolves done_by
resolved-Vouches request asked code none fenced agrees h n = inl λ q. ground (arith, q)
resolved-Vouches request asked code (some r) fenced (acted, coded) h n =
    elim (Bool-cases (nat_eq code 0)) [
      | inr other ↦ inl λ q. ground (arith, other, q)
      | inl good ↦ inr (vouched good (Bool-cases (is_status request)))
    ]
  where
    vouched :
        nat_eq code 0 ≡ true
        → (is_status request ≡ true) ⊎ (is_status request ≡ false)
        → Vouches request (some r)
    vouched good (inl status) = status-Vouches request r status
    vouched good (inr other) =
        settled-Vouches request r (ground (arith, coded, good)) (ground (arith, h, other))

module _ {W : Type 0} (j : Json) (worker : Worker W) (launch : Launch W) where
  module _ (dir file recovery_file : String) (request : Request) (options : LaunchOptions) where
    gone-Truthful :
        (asked : Request) (a : Attempt) (n most : ℕ) (w : W)
        → Agrees asked a.code a.response
        → resolves request a ≡ true
        → n ≤ most
        → Truthful request recovery_file most ((launch.remove_dir dir >> pure (resolved a n)) w)
    unfolding pure resolved
    gone-Truthful asked a n most w agrees h few =
        after_any (Truthful request recovery_file most) _ _ w (λ _ _. tt)
          λ _ v. (
            few,
            (
              resolved-Vouches request asked a.code a.response a.fenced agrees h n,
              inl (refl, refl),
            ),
          )

    still-Reports :
        (o : Option Response) (n : ℕ) → Reports request recovery_file (unresolved recovery_file o n)
    unfolding unresolved
    still-Reports o n = (inl (λ q. ground (arith, q)), inr (refl, refl, refl))

    judged-Truthful :
        (asked : Request) (a : Attempt) (n most : ℕ) (after : W) (rest : Result LaunchResult × W)
        → Agrees asked a.code a.response
        → n ≤ most
        → Truthful request recovery_file most rest
        → Truthful request recovery_file most (
            if resolves request a
            then ((launch.remove_dir dir >> pure (resolved a n)) after)
            else if gives_up request a
            then (ok (unresolved recovery_file a.response n), after)
            else rest)
    unfolding unresolved
    judged-Truthful asked a n most after rest agrees few h =
        elim (Bool-cases (resolves request a)) [
          | inl ends ↦ rw ends (gone-Truthful asked a n most after agrees ends few)
          | inr on ↦ rw on (elim (Bool-cases (gives_up request a)) [
            | inl up ↦ rw up (few, still-Reports a.response n)
            | inr goes ↦ rw goes h
          ])
        ]

    attempts_from-Truthful :
        (left index deadline most : ℕ) (o : Option Response) (w : W)
        → index + left ≤ most
        → Truthful request recovery_file most (
            attempts_from j worker launch dir file recovery_file request options left index deadline
              o w)
    unfolding attempts_from unresolved
    attempts_from-Truthful zero index deadline most o w few =
        (ground (arith, few), still-Reports o index)
    attempts_from-Truthful (suc left) index deadline most o w few =
        elim (Bool-cases (ltb deadline (launch.now w).0)) [
          | inl late ↦ rw late (ground (arith, few), still-Reports o index)
          | inr early ↦ rw early (
              judged-Truthful
                (request_at j worker launch dir file recovery_file request options index) _
                (suc index) most _ _ (run-Agreed j worker file _ _ (launch.now w).1)
                (ground (arith, few))
                (attempts_from-Truthful left (suc index) deadline most _ _ (ground (arith, few))))
        ]

    written-Truthful :
        (w : W)
        → Truthful request recovery_file
            (options.recovery_attempts + 1)
            (supervise_written j worker launch dir file recovery_file request options w)
    unfolding supervise_written
    written-Truthful w =
        attempts_from-Truthful (suc options.recovery_attempts) 0 _ _ none _ (ground arith)

  in-TruthfulAtSome :
      (dir : String) (bytes : List ℕ) (request : Request) (options : LaunchOptions) (w : W)
      → TruthfulAtSome request
          (options.recovery_attempts + 1)
          (supervise_in j worker launch dir bytes request options w)
  unfolding supervise_in
  in-TruthfulAtSome dir bytes request options w = (
    dir <> "/recovery.json",
    skip _ _ w λ _ v₁.
        skip _ _ v₁ λ _ v₂.
          skip _ _ v₂ λ _ v₃. skip _ _ v₃ λ _ v₄. written-Truthful dir _ _ request options v₄,
  )
    where
      skip :
          (m : Action W (Unit {0})) (f : Unit {0} → Action W LaunchResult) (v : W)
          → ((a : Unit {0}) (u : W)
              → Truthful request (dir <> "/recovery.json") (options.recovery_attempts + 1) (f a u))
          → Truthful request (dir <> "/recovery.json") (options.recovery_attempts + 1) ((m >>= f) v)
      skip m f v all =
          after_any (Truthful request (dir <> "/recovery.json") (options.recovery_attempts + 1)) m f
            v (λ _ _. tt) all

  -- What the supervisor returns is true, whatever the workers print, however they end and
  -- whenever time runs out. Exit code 0 means that a worker's response vouches for it: after an
  -- upgrade, and after a recovery that names one, it shows a receipt of that id and target that
  -- ended promoted or up to date; after another recovery the store is at rest; a status has a
  -- response. At most one attempt more is made than recoveries are allowed. A result without a
  -- recovery file carries no error, and one with it has exit code 3 and says so.
  pub supervise_bytes-Truthful :
      (bytes : List ℕ) (request : Request) (scratch : String) (options : LaunchOptions) (w : W)
      → TruthfulAtSome request
          (options.recovery_attempts + 1)
          (supervise_bytes j worker launch bytes request scratch options w)
  unfolding supervise_bytes
  supervise_bytes-Truthful bytes request scratch options w = skip _ _ w λ _ v₁. skip _ _ v₁ λ _ v₂.
      skip _ _ v₂
        λ _ v₃. skip _ _ v₃ λ _ v₄. in-TruthfulAtSome _ bytes request options (launch.new_uuid v₄).1
    where
      skip :
          (m : Action W (Unit {0})) (f : Unit {0} → Action W LaunchResult) (v : W)
          → ((a : Unit {0}) (u : W)
              → TruthfulAtSome request (options.recovery_attempts + 1) (f a u))
          → TruthfulAtSome request (options.recovery_attempts + 1) ((m >>= f) v)
      skip m f v all =
          after_any (TruthfulAtSome request (options.recovery_attempts + 1)) m f v
            (λ _ _. (scratch, tt)) all
