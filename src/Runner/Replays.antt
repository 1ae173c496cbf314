-- ===== src/Runner/Replays.antt =====
-- The replay of a settled operation in src/runner.rs.
use k_carrier.Base.{
  String, Bool, true, false, ◌≡◌, refl, Option, some, arith, eq_iff, is_some, inl, inr, ◌⊎◌, ◌≢◌,
}
use k_carrier.State.{Operation}
use k_carrier.Error.{Error, replay, invalid, ok, err}
use k_carrier.Action.{◌>>=◌}
use k_carrier.Storage.{read_operation, read_archive}
use k_carrier.Protocol.{Expected}
use k_carrier.Runner.{
  Runner, OperationDescriptor, UpgradeOptions, read_as_option, prior_receipt, descriptor_id,
  judge_prior, prior, read_required,
}
use k_carrier.Runner.Drive.{check_prior, drive_locked}

-- How the receipt found for an operation decides: another target under the id is a conflict, a
-- settled one is a replay.
abbrev pub Decides : Expected → Operation → Error → Type 0
Decides expected op x =
    ((op.target_version ≢ expected.target_version) × (x ≡ invalid "OPERATION_ID_CONFLICT"))
    ⊎ ((op.target_version ≡ expected.target_version)
        × (is_some op.outcome ≡ true)
        × (x ≡ replay op))

judge-Decides :
    (expected : Expected) (recovering : Bool) (op : Operation) (x : Error)
    → op.id ≡ expected.id
    → Decides expected op x
    → judge_prior expected recovering (some op) ≡ err x
unfolding judge_prior
judge-Decides expected recovering op x same (inl (other, raised)) = ground (
  arith,
  eq_iff op.id expected.id,
  same,
  eq_iff op.target_version expected.target_version,
  other,
  raised,
)
judge-Decides expected recovering op x same (inr (target, settled, raised)) = ground (
  arith,
  eq_iff op.id expected.id,
  same,
  eq_iff op.target_version expected.target_version,
  target,
  settled,
  raised,
)

module _ {W : Type 0} (r : Runner W) where
  prior-Decides :
      (expected : Expected) (recovering : Bool) (current : Option Operation) (op : Operation)
      (x : Error) (w : W)
      → read_as_option (read_operation r.files w) ≡ ok current
      → prior_receipt (read_archive r.files expected.id w) current ≡ ok (some op)
      → op.id ≡ expected.id
      → Decides expected op x
      → prior r expected recovering w ≡ (err x, w)
  unfolding prior read_required ◌>>=◌
  prior-Decides expected recovering current op x w readable found same decides =
      rw (readable, found, judge-Decides expected recovering op x same decides) refl

  -- An upgrade for an id whose receipt is settled, or is for another target, ends at once with the
  -- replay or the conflict: the world is as it was, so nothing was recovered, downloaded or
  -- stopped.
  pub drive_locked-Decides :
      (desc : OperationDescriptor) (options : UpgradeOptions) (target : String)
      (current : Option Operation) (op : Operation) (x : Error) (w : W)
      → options.operation ≡ some desc
      → read_as_option (read_operation r.files w) ≡ ok current
      → prior_receipt (read_archive r.files desc.id w) current ≡ ok (some op)
      → op.id ≡ desc.id
      → Decides (descriptor_id desc (some target)) op x
      → drive_locked r (some target) options w ≡ (err x, w)
  unfolding drive_locked check_prior read_required ◌>>=◌
  drive_locked-Decides desc options target current op x w asked readable found same decides =
      rw
        (
          asked,
          readable,
          prior-Decides (descriptor_id desc (some target)) false current op x w readable found same
              decides,
        )
        refl
