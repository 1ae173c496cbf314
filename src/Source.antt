-- ===== src/Source.antt =====
-- src/source.rs: the release source that reads a static manifest. The network, its timeout and
-- JSON are parameters.
pub mod Order
pub mod Offers
use k_carrier.Base.{
  ℕ, ◌+◌, ◌*◌, ◌^◌, String, Bool, true, false, not, ◌&&◌, Option, none, some, List, [], ◌∷◌, ◌++◌,
  length, ltb, nat_eq, map, ◌==◌, ◌<>◌, is_empty, trim, contains, Dict, lookup, if◌then◌else◌,
  before, split, trim_end_matches, parse_below,
}
use k_carrier.Error.{
  Error, invalid, Result, ok, err, refuse_if, ◌>>=◌ as and_then, ◌>>◌ as and_check,
}
use k_carrier.Action.{Action, pure, lift, require, ◌>>=◌, ◌>>◌}
use k_carrier.Artifact.{Release, ReleaseContext, validate_release}

pub record ManifestTarget : Type 0 where
  pub file : String
  pub sha256 : String
  pub size : ℕ

pub record Manifest : Type 0 where
  pub version : String
  pub targets : Dict ManifestTarget

-- The release of a target, under the URL that it is to have.
abbrev pub release_of : String → String → ManifestTarget → Release
release_of version url t = record {
  version = version;
  url = url;
  sha256 = t.sha256;
  size = t.size;
  gzip = none;
}

abbrev pub check_target : String → ManifestTarget → Result (Unit {0})
check_target version t =
    and_check (refuse_if (is_empty (trim t.file)) "MANIFEST_INVALID")
      (validate_release (release_of version t.file t))

-- The loop of `Manifest::parse`.
abbrev pub check_targets : String → Dict ManifestTarget → Result (Unit {0})
check_targets version [] = ok tt
check_targets version ((platform, t) ∷ rest) =
    and_check (check_target version t) (check_targets version rest)

abbrev pub no_targets : Dict ManifestTarget → Bool
no_targets [] = true
no_targets (t ∷ ts) = false

-- `Manifest::parse` once the bytes are decoded.
unfoldable pub check_manifest : Manifest → Result Manifest
check_manifest m =
    and_check
      (refuse_if (if is_empty (trim m.version) then true else no_targets m.targets)
        "MANIFEST_INVALID")
      (and_check (check_targets m.version m.targets) (ok m))

abbrev pub or_invalid : String → Option Manifest → Result Manifest
or_invalid code none = err (invalid code)
or_invalid code (some m) = ok m

unfoldable pub parse_manifest : (List ℕ → Option Manifest) → List ℕ → Result Manifest
unfolding check_manifest
parse_manifest from_slice bytes =
    and_then (or_invalid "MANIFEST_INVALID" (from_slice bytes)) check_manifest

abbrev pub release_for : Manifest → String → Option ManifestTarget → Result Release
release_for m base none = err (invalid "UNSUPPORTED_PLATFORM")
release_for m base (some t) =
    ok (release_of m.version (trim_end_matches 47 base <> "/" <> t.file) t)

-- `Manifest::release`
unfoldable pub release : Manifest → String → String → Result Release
release m base platform = release_for m base (lookup platform m.targets)

-- The numbers before a version's first `-`. Without that sign a number of 128 bits is not
-- negative; what is no number counts as 0.
abbrev pub number_of : Option ℕ → ℕ
number_of none = 0
number_of (some n) = n

unfoldable pub parts : String → List ℕ
parts v = map (λ s. number_of (parse_below (2 ^ 127) s)) (split 46 (before 45 v))

-- One turn of the loop of `newer`: whether it returns, and what.
abbrev pub turn : ℕ → ℕ → Option Bool → Option Bool
turn a b rest = if nat_eq a b then rest else some (ltb b a)

-- The loop of `newer`: a missing part counts as 0.
unfoldable pub compare_parts : List ℕ → List ℕ → Option Bool
compare_parts [] [] = none
compare_parts (a ∷ xs) [] = turn a 0 (compare_parts xs [])
compare_parts [] (b ∷ ys) = turn 0 b (compare_parts [] ys)
compare_parts (a ∷ xs) (b ∷ ys) = turn a b (compare_parts xs ys)

abbrev pub unless_decided : Bool → Option Bool → Bool
unless_decided otherwise none = otherwise
unless_decided otherwise (some greater) = greater

unfoldable pub newer : String → String → Bool
newer a b =
    unless_decided (not (contains a "-") && contains b "-") (compare_parts (parts a) (parts b))

-- `reqwest` and the timeout: a page's status and chunks, and a call cut off in time.
pub record Web (W : Type 0) : Type 0 where
  pub get : String → Action W (ℕ × List (Result (List ℕ)))
  pub within : ℕ → Action W Manifest → Action W (Option (Result Manifest))
  pub from_slice : List ℕ → Option Manifest

pub record StaticManifestSource : Type 0 where
  pub base : String
  pub timeout_ms : ℕ
  pub maximum_manifest_bytes : ℕ

-- `Url::parse` and the scheme are a parameter.
unfoldable pub new_source : (String → Option String) → String → Result StaticManifestSource
new_source scheme base = accept (scheme base)
  where
    accept : Option String → Result StaticManifestSource
    accept none = err (invalid "MANIFEST_URL_INVALID")
    accept (some s) =
        if (if s == "http" then true else s == "https")
        then ok (record { base = base; timeout_ms = 30000; maximum_manifest_bytes = 1024 * 1024 })
        else err (invalid "MANIFEST_URL_INVALID")

-- The loop over the manifest's chunks; the sum of two lengths is below 64 bits.
unfoldable pub read_chunks : ℕ → List ℕ → List (Result (List ℕ)) → Result (List ℕ)
read_chunks maximum bytes [] = ok bytes
read_chunks maximum bytes (err x ∷ rest) = err x
read_chunks maximum bytes (ok chunk ∷ rest) =
    let next = read_chunks maximum (bytes ++ chunk) rest in
    if ltb maximum (length bytes + length chunk)
    then err (invalid "MANIFEST_INVALID: too large")
    else next

-- `StatusCode::is_success`
abbrev pub is_success : ℕ → Bool
is_success status = not (ltb status 200) && ltb status 300

module _ {W : Type 0} (web : Web W) (source : StaticManifestSource) where
  unfoldable pub fetch_manifest : Action W Manifest
  unfolding parse_manifest
  fetch_manifest = do
    (status, chunks) ← web.get (trim_end_matches 47 source.base <> "/manifest.json")
    lift (refuse_if (not (is_success status)) "DOWNLOAD_FAILED: manifest status")
    bytes ← lift (read_chunks source.maximum_manifest_bytes [] chunks)
    lift (parse_manifest web.from_slice bytes)

  -- `StaticManifestSource::manifest`
  unfoldable pub manifest : Action W Manifest
  manifest = do
    outcome ← web.within source.timeout_ms fetch_manifest
    answer ← require outcome "DOWNLOAD_FAILED: manifest timeout"
    lift answer

  abbrev pub offer : Result Release → Result (Option Release)
  offer (ok r) = ok (some r)
  offer (err x) = err x

  unfoldable pub check : ReleaseContext → Action W (Option Release)
  check context = manifest >>= λ m. lift (
      if newer m.version context.current_version
      then offer (release m source.base context.platform_key)
      else ok none)

  unfoldable pub fetch : String → ReleaseContext → Action W Release
  fetch version context = do
    m ← manifest
    lift (refuse_if (not (m.version == version)) "PINNED_VERSION_MISMATCH")
    lift (release m source.base context.platform_key)
