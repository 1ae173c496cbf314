-- ===== src/Supervisor/Resolves.antt =====
-- How the loop of attempts in src/supervisor.rs goes, attempt by attempt.
use k_carrier.Base.{
  ℕ, zero, suc, ◌+◌, ◌-◌, ◌<◌, String, Bool, true, false, not, ◌&&◌, ◌||◌, ◌≡◌, ◌≤◌, ◌⊎◌, refl,
  Option, none, some, ltb, nat_eq, nat_eq_equal, is_none, arith, Bool-cases, if◌then◌else◌, inl,
  inr, min, subst,
}
use k_carrier.Error.{Error, Result, ok, err}
use k_carrier.Action.{pure, continue, ◌>>=◌, ◌>>◌}
use k_carrier.Protocol.{Request, recover_request, Json, expected_of, Response}
use k_carrier.Supervisor.{LaunchOptions, LaunchResult, Attempt, Worker, run, is_status}
use k_carrier.Supervisor.Launch.{
  Launch, done_by, resolves, gives_up, resolved, unresolved, nanos, attempts_from,
  supervise_written, request_at, budget_at,
}

module _ {W : Type 0} (j : Json) (worker : Worker W) (launch : Launch W)
    (dir file recovery_file : String) (request : Request) (options : LaunchOptions) where
  -- The first attempt is asked for the request itself, every later one to recover it.
  abbrev pub asked_of : ℕ → Request
  asked_of zero = request
  asked_of (suc n) = recover_request 1 (expected_of request)

  abbrev pub nanos_of : ℕ → ℕ
  nanos_of zero = nanos options.execution_ms
  nanos_of (suc n) = nanos options.recovery_ms

  -- An attempt was fenced, and answered so that the request is settled.
  abbrev pub IsSettling : Attempt → Type 0
  IsSettling a =
      (a.fenced ≡ true) × ((is_status request ≡ true) ⊎ (done_by request a.response ≡ true))

  -- An attempt was fenced, did not settle the request, and the request names an operation.
  abbrev pub IsFutile : Attempt → Type 0
  IsFutile a =
      (a.fenced ≡ true)
      × (is_status request ≡ false)
      × (done_by request a.response ≡ false)
      × (is_none (expected_of request) ≡ false)

  -- An attempt could not be fenced, or did not settle a request that names no operation.
  abbrev pub IsHopeless : Attempt → Type 0
  IsHopeless a =
      (a.fenced ≡ false)
      ⊎ ((is_status request ≡ false)
          × (done_by request a.response ≡ false)
          × (is_none (expected_of request) ≡ true))

  -- The attempt with number `n`, from `before` to `after`: the clock is read, the deadline has not
  -- passed, and the worker runs for its own budget or for the time that is left.
  pub record Made (deadline n : ℕ) (before : W) (a : Attempt) (after : W) : Type 0 where
    pub time : ℕ
    pub ready : W
    pub reads : launch.now before ≡ (time, ready)
    pub in_time : time ≤ deadline
    pub runs :
        run j worker file (asked_of n) (min (nanos_of n) (deadline - time)) ready ≡ (a, after)

  -- As many futile attempts, one after another, with the last response and world.
  pub data Tried (deadline : ℕ) (start : W) : ℕ → Option Response → W → Type 0 where
    untried : Tried deadline start 0 none start
    again :
        {n : ℕ} {o : Option Response} {w : W} {a : Attempt} {v : W}
        → Tried deadline start n o w
        → Made deadline n w a v
        → IsFutile a
        → Tried deadline start (suc n) a.response v

  -- The helper and its descriptor are retained, with exit code 3.
  abbrev pub Retained : LaunchResult → Option Response → ℕ → Type 0
  Retained result o attempts =
      (result.exit_code ≡ 3)
      × (result.recovery_file ≡ some recovery_file)
      × (result.response ≡ o)
      × (result.attempts ≡ attempts)

  -- The worker's exit code, but 1 for a code 0 without a response.
  abbrev pub Coded : ℕ → Option Response → ℕ → Type 0
  Coded shown o code =
      ((shown ≡ code) × ((o ≡ none) → (code ≡ 0) → ⊥)) ⊎ ((shown ≡ 1) × (o ≡ none) × (code ≡ 0))

  abbrev pub Settled : LaunchResult → Attempt → ℕ → Type 0
  Settled result a attempts =
      (result.recovery_file ≡ none)
      × Coded result.exit_code a.response a.code
      × (result.response ≡ a.response)
      × (result.attempts ≡ attempts)
      × (result.error ≡ none)

  -- How the loop ends after futile attempts: settled, and the directory is gone; or retained, for
  -- the deadline has passed, the worker could not be fenced, the request is not settled and names
  -- no operation, or every attempt was made.
  pub data Concluding (deadline : ℕ) (start : W) (result : LaunchResult) (end : W) : Type 0 where
    settles :
        {n : ℕ} {o : Option Response} {w : W} {a : Attempt} {v : W}
        → Tried deadline start n o w
        → Made deadline n w a v
        → IsSettling a
        → n ≤ options.recovery_attempts
        → launch.remove_dir dir v ≡ (ok tt, end)
        → Settled result a (suc n)
        → Concluding deadline start result end
    overdue :
        {n time : ℕ} {o : Option Response} {w : W}
        → Tried deadline start n o w
        → n ≤ options.recovery_attempts
        → launch.now w ≡ (time, end)
        → deadline < time
        → Retained result o n
        → Concluding deadline start result end
    stopped :
        {n : ℕ} {o : Option Response} {w : W} {a : Attempt}
        → Tried deadline start n o w
        → n ≤ options.recovery_attempts
        → Made deadline n w a end
        → IsHopeless a
        → Retained result a.response (suc n)
        → Concluding deadline start result end
    exhausted :
        {o : Option Response}
        → Tried deadline start (suc options.recovery_attempts) o end
        → Retained result o (suc options.recovery_attempts)
        → Concluding deadline start result end

  -- An error comes only from removing the directory, once the request was settled.
  pub data Failing (deadline : ℕ) (start : W) (x : Error) (end : W) : Type 0 where
    unremoved :
        {n : ℕ} {o : Option Response} {w : W} {a : Attempt} {v : W}
        → Tried deadline start n o w
        → Made deadline n w a v
        → IsSettling a
        → n ≤ options.recovery_attempts
        → launch.remove_dir dir v ≡ (err x, end)
        → Failing deadline start x end

  abbrev pub Concluded : ℕ → W → Result LaunchResult × W → Type 0
  Concluded deadline start (ok result, end) = Concluding deadline start result end
  Concluded deadline start (err x, end) = Failing deadline start x end

  resolves_at : (f s d : Bool) → (f && (s || d)) ≡ true → (f ≡ true) × ((s ≡ true) ⊎ (d ≡ true))
  resolves_at true true d h = (refl, inl refl)
  resolves_at true false d h = (refl, inr (ground (arith, h)))
  resolves_at false s d h = absurd (ground (arith, h))

  stops_at :
      (f s d e : Bool)
      → (f && (s || d)) ≡ false
      → (not f || e) ≡ true
      → (f ≡ false) ⊎ ((s ≡ false) × (d ≡ false) × (e ≡ true))
  stops_at true true d e h k = absurd (ground (arith, h))
  stops_at true false d e h k = inr (refl, ground (arith, h), ground (arith, k))
  stops_at false s d e h k = inl refl

  coded :
      (o : Option Response) (code : ℕ)
      → Coded (if is_none o && nat_eq code 0 then 1 else code) o code
  coded (some r) code = inl (refl, λ e _. ground (arith, e))
  coded none code = elim (Bool-cases (nat_eq code 0)) [
    | inl ended ↦ rw ended (inr (refl, refl, nat_eq_equal code 0 ended))
    | inr other ↦ rw other (inl (refl, λ _ e. ground (arith, other, e)))
  ]

  futile_at :
      (f s d e : Bool)
      → (f && (s || d)) ≡ false
      → (not f || e) ≡ false
      → (f ≡ true) × (s ≡ false) × (d ≡ false) × (e ≡ false)
  futile_at true true d e h k = absurd (ground (arith, h))
  futile_at true false d e h k = (refl, refl, ground (arith, h), ground (arith, k))
  futile_at false s d e h k = absurd (ground (arith, k))

  later : (n : ℕ) → nat_eq (suc n) 0 ≡ false
  later n = ground arith

  module _ (deadline : ℕ) where
    goes : ℕ → W → Attempt × W
    goes n w =
        run j worker file (request_at j worker launch dir file recovery_file request options n)
          (min (budget_at j worker launch dir file recovery_file request options n)
            (deadline - (launch.now w).0))
          (launch.now w).1

    made :
        (n : ℕ) (w : W) → (launch.now w).0 ≤ deadline → Made deadline n w (goes n w).0 (goes n w).1
    unfolding goes
    made zero w h = record {
      time = (launch.now w).0;
      ready = (launch.now w).1;
      reads = refl;
      in_time = h;
      runs = refl;
    }
    made (suc n) w h = simp (later n) (record {
      time = (launch.now w).0;
      ready = (launch.now w).1;
      reads = refl;
      in_time = h;
      runs = refl;
    })

  module _ (deadline : ℕ) (start : W) where
    settle :
        (n : ℕ) (o : Option Response) (w : W) (a : Attempt) (v : W)
        → Tried deadline start n o w
        → Made deadline n w a v
        → IsSettling a
        → n ≤ options.recovery_attempts
        → Concluded deadline start ((launch.remove_dir dir >> pure (resolved a (suc n))) v)
    unfolding pure resolved ◌>>=◌
    settle n o w a v tried m ends few = removed (launch.remove_dir dir v) refl
      where
        removed :
            (p : Result (Unit {0}) × W)
            → launch.remove_dir dir v ≡ p
            → Concluded deadline start (continue (λ _. pure (resolved a (suc n))) p)
        removed (ok _, end) h =
            settles tried m ends few h (refl, coded a.response a.code, refl, refl, refl)
        removed (err x, end) h = unremoved tried m ends few h

    judged :
        (n : ℕ) (o : Option Response) (w : W) (a : Attempt) (v : W) (rest : Result LaunchResult × W)
        → Tried deadline start n o w
        → Made deadline n w a v
        → n ≤ options.recovery_attempts
        → (IsFutile a → Concluded deadline start rest)
        → Concluded deadline start (
            if resolves request a
            then ((launch.remove_dir dir >> pure (resolved a (suc n))) v)
            else if gives_up request a
            then (ok (unresolved recovery_file a.response (suc n)), v)
            else rest)
    unfolding resolves unresolved
    judged n o w a v rest tried m few goes_on = elim (Bool-cases (resolves request a)) [
      | inl ends ↦ rw ends (settle n o w a v tried m (resolves_at _ _ _ ends) few)
      | inr on ↦ rw on (elim (Bool-cases (gives_up request a)) [
        | inl up ↦ rw up (stopped tried few m (stops_at _ _ _ _ on up) (refl, refl, refl, refl))
        | inr goes ↦ rw goes (goes_on (futile_at _ _ _ _ on goes))
      ])
    ]

    all_made : (n : ℕ) → n + 0 ≡ suc options.recovery_attempts → n ≡ suc options.recovery_attempts
    all_made n h = omega arith

    loops :
        (left n : ℕ) (o : Option Response) (w : W)
        → n + left ≡ suc options.recovery_attempts
        → Tried deadline start n o w
        → Concluded deadline start (
            attempts_from j worker launch dir file recovery_file request options left n deadline o
              w)
    unfolding attempts_from unresolved goes
    loops zero n o w count tried =
        exhausted (subst (λ m. Tried deadline start m o w) (all_made n count) tried)
          (refl, refl, refl, all_made n count)
    loops (suc left) n o w count tried = elim (Bool-cases (ltb deadline (launch.now w).0)) [
      | inl late ↦ rw late (
          overdue tried (ground (arith, count)) refl (ground (arith, late))
            (refl, refl, refl, refl))
      | inr early ↦ rw early (
          judged n o w _ _ _ tried (made deadline n w (ground (arith, early)))
            (ground (arith, count))
            λ futile.
              loops left (suc n) _ _ (ground (arith, count))
                (again tried (made deadline n w (ground (arith, early))) futile))
    ]

  -- The attempts of a supervisor go as the source promises, for any worker, clock and directory:
  -- the first is asked for the request and every later one to recover it, each starts before the
  -- deadline and runs for its budget or for the time that is left, and another follows only after
  -- one that was fenced and did not settle a request that names an operation. They end settled,
  -- after an attempt that was fenced and settled the request (or asked for a status), with the
  -- directory removed and the worker's exit code (but 1 for a code 0 without a response); or with
  -- the helper retained and exit code 3, for one of four reasons: the deadline has passed, the
  -- worker could not be fenced, an attempt did not settle a request that names no operation, or
  -- all recovery attempts were made. The only error is that the directory cannot be removed.
  pub supervise_written-Concluded :
      (w : W)
      → Concluded
          ((launch.now w).0 + nanos options.total_ms)
          (launch.now w).1
          (supervise_written j worker launch dir file recovery_file request options w)
  unfolding supervise_written
  supervise_written-Concluded w =
      loops ((launch.now w).0 + nanos options.total_ms) (launch.now w).1
        (suc options.recovery_attempts) 0 none (launch.now w).1 (ground arith) untried
