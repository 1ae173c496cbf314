-- ===== src/Source/Offers.antt =====
-- What the static source of src/source.rs offers: valid releases, newer ones and pinned ones.
use text.Mathlib.TextLemmas.{cons-append, nil-append}
use k_carrier.Base.{
  ℕ, String, true, false, not, ◌≡◌, refl, subst, Option, none, some, [], ◌∷◌, ◌==◌, ◌<>◌, is_empty,
  trim, Dict, lookup, if◌then◌else◌, arith, eq_iff, trim_end_matches, Bool-cases, inl, inr, ◌∙◌,
}
use k_carrier.Error.{
  Result, ok, err, gate-ok, check-ok, refuse_if, ◌>>◌ as and_check, ◌>>=◌ as and_then,
}
use k_carrier.Action.{Action, continue, after_any, lift, require, ◌>>=◌}
use k_carrier.Artifact.{Release, ReleaseContext, validate_release}
use k_carrier.Source.{
  ManifestTarget, Manifest, release_of, check_target, check_targets, no_targets, check_manifest,
  or_invalid, parse_manifest, release_for, release, newer, Web, StaticManifestSource,
  fetch_manifest, manifest, offer, check, fetch,
}

joined : (base file : String) → is_empty (base <> "/" <> file) ≡ false
joined String.[] file = rw (nil-append ("/" <> file)) rw (cons-append "/" "" file) refl
joined (String.◌∷◌ c base) file = rw (cons-append c base ("/" <> file)) refl

rebased :
    (version file base : String) (t : ManifestTarget)
    → validate_release (release_of version file t) ≡ ok tt
    → validate_release (release_of version (base <> "/" <> file) t) ≡ ok tt
unfolding validate_release
rebased version file base t h = ground (arith, h, joined base file)

-- Every target of a manifest makes a valid release.
abbrev Sound : Manifest → Type 0
Sound m = check_targets m.version m.targets ≡ ok tt

found :
    (version platform : String) (ts : Dict ManifestTarget) (t : ManifestTarget)
    → check_targets version ts ≡ ok tt
    → lookup platform ts ≡ some t
    → validate_release (release_of version t.file t) ≡ ok tt
unfolding lookup
found version platform [] t h l = absurd (ground (arith, l))
found version platform ((j, u) ∷ ts) t h l =
    let (fine, rest) = check-ok (check_target version u) (check_targets version ts) h in
    let (_, valid) = gate-ok (is_empty (trim u.file)) _ _ fine in
    elim (Bool-cases (j == platform)) [
      | inl here ↦
          subst (λ v. validate_release (release_of version v.file v) ≡ ok tt)
            (some_injective
              (subst (λ b. (if b then some u else lookup platform ts) ≡ some t) here l))
            valid
      | inr there ↦
          found version platform ts t rest
            (subst (λ b. (if b then some u else lookup platform ts) ≡ some t) there l)
    ]
  where
    some_injective : some u ≡ some t → u ≡ t
    some_injective e = cc

-- The release of a sound manifest is valid and of its version.
abbrev ReleasedFrom : Manifest → Result Release → Type 0
ReleasedFrom m (ok r) = (r.version ≡ m.version) × (validate_release r ≡ ok tt)
ReleasedFrom m (err x) = Unit

released :
    (m : Manifest) (base platform : String) (o : Option ManifestTarget)
    → Sound m
    → lookup platform m.targets ≡ o
    → ReleasedFrom m (release_for m base o)
released m base platform none h l = tt
released m base platform (some t) h l = (
  refl,
  rebased m.version t.file (trim_end_matches 47 base) t (found m.version platform m.targets t h l),
)

release-ReleasedFrom :
    (m : Manifest) (base platform : String) → Sound m → ReleasedFrom m (release m base platform)
unfolding release
release-ReleasedFrom m base platform h = released m base platform _ h refl

abbrev SoundIfRead : Result Manifest → Type 0
SoundIfRead (ok m) = Sound m
SoundIfRead (err x) = Unit

check_manifest-SoundIfRead : (m : Manifest) → SoundIfRead (check_manifest m)
unfolding check_manifest
check_manifest-SoundIfRead m =
    elim (Bool-cases (if is_empty (trim m.version) then true else no_targets m.targets)) [
      | inl bad ↦ rw bad tt
      | inr good ↦ rw good (targets (check_targets m.version m.targets) refl)
    ]
  where
    targets :
        (r : Result (Unit {0}))
        → check_targets m.version m.targets ≡ r
        → SoundIfRead (and_check r (ok m))
    targets (ok _) h = h
    targets (err x) h = tt

parsed :
    (o : Option Manifest) → SoundIfRead (and_then (or_invalid "MANIFEST_INVALID" o) check_manifest)
parsed none = tt
parsed (some m) = check_manifest-SoundIfRead m

-- What a request for the version that is asked of the source gives: that version, and a
-- release that validates.
abbrev pub Pinned : {W : Type 0} → String → Result Release × W → Type 0
Pinned version (ok r, w) = (r.version ≡ version) × (validate_release r ≡ ok tt)
Pinned version (err x, w) = Unit

abbrev pub Offered : {W : Type 0} → String → Result (Option Release) × W → Type 0
Offered current (ok (some r), w) = (newer r.version current ≡ true) × (validate_release r ≡ ok tt)
Offered current (ok none, w) = Unit
Offered current (err x, w) = Unit

module _ {W : Type 0} (web : Web W) (source : StaticManifestSource) where
  -- A call that the timeout lets through is the call that was made.
  abbrev pub InTime : Type 0
  InTime =
      (n : ℕ) (m : Action W Manifest) (w w' : W) (r : Result Manifest)
      → web.within n m w ≡ (ok (some r), w')
      → m w ≡ (r, w')

  abbrev Reading : Result Manifest × W → Type 0
  Reading p = SoundIfRead p.0

  fetched-SoundIfRead : (w : W) → SoundIfRead (fetch_manifest web source w).0
  unfolding fetch_manifest parse_manifest lift
  fetched-SoundIfRead w =
      after_any Reading _ _ w (λ _ _. tt)
        λ _ v₁.
          after_any Reading _ _ v₁ (λ _ _. tt)
            λ _ v₂. after_any Reading _ _ v₂ (λ _ _. tt) λ bytes v₃. parsed (web.from_slice bytes)

  module _ (laws : InTime) where
    timed-SoundIfRead :
        (w : W) (p : Result (Option (Result Manifest)) × W)
        → web.within source.timeout_ms (fetch_manifest web source) w ≡ p
        → SoundIfRead
            (continue
              (λ outcome. require outcome "DOWNLOAD_FAILED: manifest timeout" >>= λ r. lift r)
              p).0
    unfolding ◌>>=◌ require lift
    timed-SoundIfRead w (ok (some r), v) h =
        subst (λ q. SoundIfRead q.0) (laws _ _ w v r h) (fetched-SoundIfRead w)
    timed-SoundIfRead w (ok none, v) h = tt
    timed-SoundIfRead w (err x, v) h = tt

    manifest-SoundIfRead : (w : W) → SoundIfRead (manifest web source w).0
    unfolding manifest ◌>>=◌
    manifest-SoundIfRead w = timed-SoundIfRead w _ refl

    pinned :
        (version : String) (m : Manifest) (r : Result Release) (w : W)
        → ReleasedFrom m r
        → (m.version == version) ≡ true
        → Pinned version (r, w)
    pinned version m (ok r) w (same, valid) asked =
        (same ∙ (eq_iff m.version version).0 asked, valid)
    pinned version m (err x) w h asked = tt

    manifest_asked :
        (version : String) (context : ReleaseContext) (p : Result Manifest × W)
        → SoundIfRead p.0
        → Pinned version (
            continue
              (λ m. lift (refuse_if (not (m.version == version)) "PINNED_VERSION_MISMATCH") >>= λ _.
                lift (release m source.base context.platform_key))
              p)
    unfolding ◌>>=◌ lift
    manifest_asked version context (ok m, w) h = elim (Bool-cases (m.version == version)) [
      | inl same ↦
          rw same
            (pinned version m _ w (release-ReleasedFrom m source.base context.platform_key h) same)
      | inr other ↦ rw other tt
    ]
    manifest_asked version context (err x, w) h = tt

    offered :
        (current : String) (m : Manifest) (r : Result Release) (w : W)
        → ReleasedFrom m r
        → newer m.version current ≡ true
        → Offered current (offer web source r, w)
    offered current m (ok r) w (same, valid) fresh = (rw same fresh, valid)
    offered current m (err x) w h fresh = tt

    manifest_checked :
        (context : ReleaseContext) (p : Result Manifest × W)
        → SoundIfRead p.0
        → Offered context.current_version (
            continue
              (λ m. lift (
                if newer m.version context.current_version
                then offer web source (release m source.base context.platform_key)
                else ok none))
              p)
    unfolding lift
    manifest_checked context (ok m, w) h =
        elim (Bool-cases (newer m.version context.current_version)) [
          | inl fresh ↦ rw fresh (
              offered context.current_version m _ w
                (release-ReleasedFrom m source.base context.platform_key h) fresh)
          | inr old ↦ rw old tt
        ]
    manifest_checked context (err x, w) h = tt

  -- A version that is asked for is the version of the release that comes, which validates: the
  -- source never answers with another version. The timeout gives what it ran.
  pub fetch-Pinned :
      (version : String) (context : ReleaseContext) (w : W)
      → InTime
      → Pinned version (fetch web source version context w)
  unfolding fetch ◌>>=◌
  fetch-Pinned version context w laws =
      manifest_asked laws version context _ (manifest-SoundIfRead laws w)

  -- An offer is newer than the version that is current, and validates. The timeout gives what it
  -- ran.
  pub check-Offered :
      (context : ReleaseContext) (w : W)
      → InTime
      → Offered context.current_version (check web source context w)
  unfolding check ◌>>=◌
  check-Offered context w laws = manifest_checked laws context _ (manifest-SoundIfRead laws w)
