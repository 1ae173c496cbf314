-- ===== src/Supervisor/Resumes.antt =====
-- What a retained recovery file is good for: `resume_runner` of src/supervisor.rs.
use k_carrier.Base.{
  ℕ, String, Bool, true, false, not, ◌≡◌, refl, ◌∙◌, sym, subst, Option, none, some, List, length,
  ◌⊎◌, inl, inr, nat_eq, nat_eq_equal, nat_eq_same, ◌==◌, eq_iff, arith, is_none, if◌then◌else◌,
}
use k_carrier.Error.{Error, invalid, Result, ok, err, refuse_if, ◌>>◌ as and_check}
use k_carrier.Action.{pure, ◌>>=◌, ◌>>◌, after_known, after_lift}
use k_carrier.Protocol.{
  Request, upgrade_request, recover_request, status_request, Json, validate_request, Expected,
}
use k_carrier.Artifact.{verify}
use k_carrier.Supervisor.{LaunchOptions, LaunchResult, RecoveryDescriptor, Worker}
use k_carrier.Supervisor.Launch.{
  Launch, supervise_bytes, clean_up, resume_runner, is_recovery_of_one, or_mismatch, need_scratch,
  scratch_of,
}

module _ {W : Type 0} (j : Json) (worker : Worker W) (launch : Launch W) (path : String)
    (options : LaunchOptions) where
  -- A request to recover one operation, that it names.
  abbrev pub NamesOne : Request → Type 0
  NamesOne r = (v : ℕ) × (e : Expected) × (r ≡ recover_request v (some e))

  -- The directory above the one of the recovery file.
  abbrev pub Above : String → Type 0
  Above scratch =
      (dir : String) × (launch.parent path ≡ some dir) × (launch.parent dir ≡ some scratch)

  -- A descriptor, read from the recovery file, that is a valid recovery of one operation.
  pub record Described (before : W) (d : RecoveryDescriptor) (after : W) : Type 0 where
    pub reads : launch.read_descriptor path before ≡ (ok d, after)
    pub validates : validate_request d.request ≡ ok tt
    pub names_one : NamesOne d.request

  -- The worker's bytes, whole and unchanged, and the directory above.
  pub record Found (before : W) (d : RecoveryDescriptor) (bytes : List ℕ) (scratch : String)
      (after : W) : Type 0 where
    pub described : W
    pub describes : Described before d described
    pub reads : launch.read d.file described ≡ (ok bytes, after)
    pub whole : length bytes ≡ d.size
    pub unchanged : launch.digest bytes ≡ d.sha256
    pub above : Above scratch

  -- What settled has both its files removed; what did not keeps them.
  abbrev pub Cleaned : RecoveryDescriptor → LaunchResult → W → W → Type 0
  Cleaned d result before after =
      ((result.recovery_file ≡ none)
        × ((w : W) × (launch.remove_file d.file before ≡ (ok tt, w))
            × (launch.remove_file path w ≡ (ok tt, after))))
      ⊎ ((is_none result.recovery_file ≡ false) × (before ≡ after))

  pub data Resumed (before : W) (result : LaunchResult) (after : W) : Type 0 where
    resumed :
        {d : RecoveryDescriptor} {bytes : List ℕ} {scratch : String} {w w' : W}
        → Found before d bytes scratch w
        → supervise_bytes j worker launch bytes d.request scratch options w ≡ (ok result, w')
        → Cleaned d result w' after
        → Resumed before result after

  -- Where it fails, no worker was started but for bytes that were found whole and unchanged, and
  -- nothing was removed but after a worker that settled.
  pub data Refused (before : W) (x : Error) (after : W) : Type 0 where
    unread : launch.read_descriptor path before ≡ (err x, after) → Refused before x after
    invalid_request :
        {d : RecoveryDescriptor}
        → launch.read_descriptor path before ≡ (ok d, after)
        → validate_request d.request ≡ err x
        → Refused before x after
    no_recovery :
        {d : RecoveryDescriptor}
        → launch.read_descriptor path before ≡ (ok d, after)
        → (NamesOne d.request → ⊥)
        → Refused before x after
    unread_worker :
        {d : RecoveryDescriptor} {w : W}
        → Described before d w
        → launch.read d.file w ≡ (err x, after)
        → Refused before x after
    tampered :
        {d : RecoveryDescriptor} {bytes : List ℕ} {w : W}
        → Described before d w
        → launch.read d.file w ≡ (ok bytes, after)
        → ((length bytes ≡ d.size) → (launch.digest bytes ≡ d.sha256) → ⊥)
        → x ≡ invalid "RECOVERY_ARTIFACT_MISMATCH"
        → Refused before x after
    nothing_above :
        {d : RecoveryDescriptor} {bytes : List ℕ} {w : W}
        → Described before d w
        → launch.read d.file w ≡ (ok bytes, after)
        → ((scratch : String) → Above scratch → ⊥)
        → Refused before x after
    unsupervised :
        {d : RecoveryDescriptor} {bytes : List ℕ} {scratch : String} {w : W}
        → Found before d bytes scratch w
        → supervise_bytes j worker launch bytes d.request scratch options w ≡ (err x, after)
        → Refused before x after
    uncleaned :
        {d : RecoveryDescriptor} {bytes : List ℕ} {scratch : String} {result : LaunchResult}
        {w w' : W}
        → Found before d bytes scratch w
        → supervise_bytes j worker launch bytes d.request scratch options w ≡ (ok result, w')
        → result.recovery_file ≡ none
        → (launch.remove_file d.file w' ≡ (err x, after))
          ⊎ ((v : W) × (launch.remove_file d.file w' ≡ (ok tt, v))
              × (launch.remove_file path v ≡ (err x, after)))
        → Refused before x after

  abbrev pub Resumes : W → Result LaunchResult × W → Type 0
  Resumes before (ok result, after) = Resumed before result after
  Resumes before (err x, after) = Refused before x after

  both_hold :
      (a b : Bool)
      → or_mismatch j worker launch
          (and_check (refuse_if (not a) "SIZE_MISMATCH") (refuse_if (not b) "SHA256_MISMATCH"))
        ≡ ok tt
      → (a ≡ true) × (b ≡ true)
  both_hold true true h = (refl, refl)
  both_hold true false h = absurd (ground (arith, h))
  both_hold false b h = absurd (ground (arith, h))

  verified :
      (bytes : List ℕ) (size : ℕ) (hash : String)
      → or_mismatch j worker launch (verify launch.digest bytes size hash) ≡ ok tt
      → (length bytes ≡ size) × (launch.digest bytes ≡ hash)
  unfolding verify
  verified bytes size hash h =
      let (a, b) = both_hold (nat_eq (length bytes) size) (launch.digest bytes == hash) h in
      (nat_eq_equal _ _ a, (eq_iff (launch.digest bytes) hash).0 b)

  one_fails :
      (a b : Bool) (x : Error)
      → or_mismatch j worker launch
          (and_check (refuse_if (not a) "SIZE_MISMATCH") (refuse_if (not b) "SHA256_MISMATCH"))
        ≡ err x
      → ((a ≡ true) → (b ≡ true) → ⊥) × (x ≡ invalid "RECOVERY_ARTIFACT_MISMATCH")
  one_fails true true x h = absurd (ground (arith, h))
  one_fails true false x h = (λ p q. ground (arith, q), cc)
  one_fails false b x h = (λ p q. ground (arith, p), cc)

  mismatched :
      (bytes : List ℕ) (size : ℕ) (hash : String) (x : Error)
      → or_mismatch j worker launch (verify launch.digest bytes size hash) ≡ err x
      → ((length bytes ≡ size) → (launch.digest bytes ≡ hash) → ⊥)
        × (x ≡ invalid "RECOVERY_ARTIFACT_MISMATCH")
  unfolding verify
  mismatched bytes size hash x h =
      let (differ, same) =
        one_fails (nat_eq (length bytes) size) (launch.digest bytes == hash) x h in
      (
        λ p q.
            differ (subst (λ n. nat_eq (length bytes) n ≡ true) p (nat_eq_same (length bytes)))
              ((eq_iff (launch.digest bytes) hash).1 q),
        same,
      )

  scratch_found :
      (o : Option String) (s : String)
      → launch.parent path ≡ o
      → need_scratch j worker launch (scratch_of j worker launch o) ≡ ok s
      → Above s
  scratch_found none s h k = absurd (ground (arith, k))
  scratch_found (some dir) s h k = (dir, h, there (launch.parent dir) k)
    where
      there : (o : Option String) → need_scratch j worker launch o ≡ ok s → o ≡ some s
      there none k = absurd (ground (arith, k))
      there (some t) k = cc

  no_scratch :
      (o : Option String) (x : Error)
      → launch.parent path ≡ o
      → need_scratch j worker launch (scratch_of j worker launch o) ≡ err x
      → (s : String) → Above s
      → ⊥
  no_scratch none x h k s (dir, up, above) = ground (arith, h, up)
  no_scratch (some d) x h k s (dir, up, above) =
      nowhere (launch.parent d) k
        (subst (λ u. launch.parent u ≡ some s) (some_equal dir d (sym up ∙ h)) above)
    where
      some_equal : (u v : String) → some u ≡ some v → u ≡ v
      some_equal u v e = cc

      nowhere : (o : Option String) → need_scratch j worker launch o ≡ err x → o ≡ some s → ⊥
      nowhere none k e = ground (arith, e)
      nowhere (some t) k e = ground (arith, k)

  one_named :
      (r : Request)
      → refuse_if (not (is_recovery_of_one j worker launch r)) "INVALID_RECOVERY_DESCRIPTOR" ≡ ok tt
      → NamesOne r
  one_named (recover_request v (some e)) h = (v, e, refl)
  one_named (recover_request v none) h = absurd (ground (arith, h))
  one_named (upgrade_request a b c d) h = absurd (ground (arith, h))
  one_named (status_request a) h = absurd (ground (arith, h))

  none_named :
      (r : Request) (x : Error)
      → refuse_if (not (is_recovery_of_one j worker launch r)) "INVALID_RECOVERY_DESCRIPTOR" ≡ err x
      → NamesOne r
      → ⊥
  none_named r x h (v, e, same) = absurd (
      allowed (
        subst
          (λ q.
            refuse_if (not (is_recovery_of_one j worker launch q)) "INVALID_RECOVERY_DESCRIPTOR"
            ≡ err x)
          same h))
    where
      allowed : refuse_if false "INVALID_RECOVERY_DESCRIPTOR" ≡ err x → ⊥
      allowed h = ground (arith, h)

  module _ (before : W) where
    cleans :
        (d : RecoveryDescriptor) (bytes : List ℕ) (scratch : String) (w w' : W)
        (result : LaunchResult)
        → Found before d bytes scratch w
        → supervise_bytes j worker launch bytes d.request scratch options w ≡ (ok result, w')
        → (o : Option String) → result.recovery_file ≡ o
        → Resumes before (
            (if is_none o
                then (launch.remove_file d.file >> (launch.remove_file path >> pure result))
                else pure result)
              w')
    unfolding pure
    cleans d bytes scratch w w' result found ran (some file) h =
        resumed found ran (inr (subst (λ o. is_none o ≡ false) (sym h) refl, refl))
    cleans d bytes scratch w w' result found ran none h =
        after_known (Resumes before) _ _ w' (λ x v k. uncleaned found ran h (inl k))
          λ _ v k.
            after_known (Resumes before) _ _ v (λ x u l. uncleaned found ran h (inr (v, k, l)))
              λ _ u l. resumed found ran (inl (h, (v, k, l)))

    works_on :
        (d : RecoveryDescriptor) (bytes : List ℕ) (scratch : String) (w : W)
        → Found before d bytes scratch w
        → Resumes before (
            (supervise_bytes j worker launch bytes d.request scratch options
                >>= clean_up j worker launch d path)
              w)
    unfolding clean_up
    works_on d bytes scratch w found =
        after_known (Resumes before) _ _ w (λ x v k. unsupervised found k)
          λ result v k. cleans d bytes scratch w v result found k _ refl

  -- `resume_runner` returns a result only so: the descriptor was read, it is a valid recovery of
  -- one operation, the worker's bytes were read and have its size and digest, they were supervised
  -- on that request in the directory above, and then, where that settled, both files were removed
  -- and otherwise none. It fails, with no worker started, if a file cannot be read, if the request
  -- is not a valid recovery of one operation, if there is no directory above, or, with
  -- RECOVERY_ARTIFACT_MISMATCH, if the bytes are not those of the descriptor; and else only
  -- because the supervisor or the removal of the files failed.
  pub resume_runner-Resumes :
      (before : W) → Resumes before (resume_runner j worker launch path options before)
  unfolding resume_runner
  resume_runner-Resumes before =
      after_known (Resumes before) _ _ before (λ x v k. unread k)
        λ d w₁ h₁.
          after_lift (Resumes before) _ _ w₁ (λ x k. invalid_request h₁ k)
            λ _ valid.
              after_lift (Resumes before) _ _ w₁ (λ x k. no_recovery h₁ (none_named d.request x k))
                λ _ names.
                  let described : Described before d w₁ = record {
                    reads = h₁;
                    validates = valid;
                    names_one = one_named d.request names;
                  } in
                  after_known (Resumes before) _ _ w₁ (λ x v k. unread_worker described k)
                    λ bytes w₂ h₂.
                      after_lift (Resumes before) _ _ w₂
                        (λ x k.
                          let (differ, same) = mismatched bytes d.size d.sha256 x k in
                          tampered described h₂ differ same)
                        λ _ kept.
                          after_lift (Resumes before) _ _ w₂
                            (λ x k. nothing_above described h₂ (no_scratch _ x refl k))
                            λ scratch up. works_on before d bytes scratch w₂ (record {
                              described = w₁;
                              describes = described;
                              reads = h₂;
                              whole = (verified bytes d.size d.sha256 kept).0;
                              unchanged = (verified bytes d.size d.sha256 kept).1;
                              above = scratch_found _ scratch refl up;
                            })
