-- ===== src/Artifact/Transfer.antt =====
-- `Downloader` of src/artifact.rs. The network, the files, the decoders and the timer are a
-- parameter; the body of a response is the list of what its chunks turn out to be, and what the
-- overall timeout cuts off is the parameter's too.
use k_carrier.Base.{
  ℕ, ◌+◌, ◌-◌, ◌*◌, ◌^◌, String, Bool, not, ◌||◌, Option, none, some, List, [], ◌∷◌, ◌++◌, length,
  ltb, nat_eq, ◌<>◌, decimal, if◌then◌else◌, strip_prefix, split_once,
}
use k_carrier.Error.{Error, not_found, io, invalid, Result, ok, err, refuse_if, ◌>>=◌ as and_then}
use k_carrier.Action.{Action, pure, lift, raise, require, ◌>>=◌, ◌>>◌}
use k_carrier.Artifact.{
  Representation, Release, validate_release, TransferPolicy, Budgets, budgets, div_ceil, verify,
  parse_content_range,
}

-- What awaiting the next chunk of a response gives: its bytes, an elapsed idle time, or an error.
pub data Event : Type 0 where
  received : List ℕ → Event
  idle : Event
  broken : Error → Event

pub record Reply : Type 0 where
  pub status : ℕ
  pub content_range : Option String
  pub body : List Event

-- `symlink_metadata`: whether it is a plain file, and its length.
pub record Metadata : Type 0 where
  pub is_file : Bool
  pub len : ℕ

pub record Network (W : Type 0) : Type 1 where
  pub digest : List ℕ → String
  pub utf8 : String → List ℕ
  pub ends_with : String → String → Bool
  pub base64_decode : String → Option (List ℕ)
  pub percent_decode : String → List ℕ
  -- What at most a number of bytes of the decompressed input are.
  pub gunzip : ℕ → List ℕ → Option (List ℕ)
  -- The URL, the `Range` header, and the response timeout; `none` when it elapsed.
  pub send : String → Option String → ℕ → Action W (Option Reply)
  -- The overall timeout around a transfer.
  pub within : ℕ → Action W (List ℕ) → Action W (Option (Result (List ℕ)))
  pub exists : String → Action W Bool
  pub metadata : String → Action W Metadata
  pub ensure_parent : String → Action W (Unit {0})
  pub read : String → Action W (List ℕ)
  -- Open to append, or to write from the start.
  pub open_partial : Bool → String → Action W (Unit {0})
  pub write_all : String → List ℕ → Action W (Unit {0})
  pub sync_all : String → Action W (Unit {0})
  pub remove_file : String → Action W (Unit {0})
  pub emit : ℕ → ℕ → W → Unit {0} × W

module _ {W : Type 0} (net : Network W) where
  open net use {
    digest, utf8, ends_with, base64_decode, percent_decode, gunzip, send, within, exists, metadata,
    ensure_parent, read, open_partial, write_all, sync_all, remove_file,
  }

  unfoldable pub partial_path : String → String → String
  partial_path dir url = dir <> "/" <> digest (utf8 url) <> ".part"

  abbrev pub unless_missing : Result (Unit {0}) × W → Result (Unit {0}) × W
  unless_missing (err (io not_found m), w) = (ok tt, w)
  unless_missing p = p

  unfoldable pub remove_partial : String → Action W (Unit {0})
  remove_partial path w = unless_missing (remove_file path w)

  abbrev pub on_partial : Option String → (String → Action W (Unit {0})) → Action W (Unit {0})
  unfolding pure
  on_partial none act = pure tt
  on_partial (some path) act = act path

  unfoldable pub show_progress : ℕ → ℕ → Action W (Unit {0})
  show_progress done size w = (ok tt, (net.emit done size w).1)

  -- The part of a data URL after its comma, decoded.
  abbrev pub decode_data : String → String → Result (List ℕ)
  decode_data meta encoded =
      if ends_with meta ";base64"
      then (elim (base64_decode encoded) [
        | some bytes ↦ ok bytes
        | none ↦ err (invalid "DOWNLOAD_FAILED: invalid base64")
      ])
      else ok (percent_decode encoded)

  -- `saturating_mul` on 64 bits.
  abbrev pub saturating_mul : ℕ → ℕ → ℕ
  saturating_mul a b = if ltb (a * b) (2 ^ 64) then a * b else 2 ^ 64 - 1

  abbrev pub maximum_encoded : String → ℕ → ℕ
  maximum_encoded meta size =
      if ends_with meta ";base64" then saturating_mul (div_ceil size 3) 4 else saturating_mul size 3

  unfoldable pub transfer_data : Representation → String → Action W (List ℕ)
  transfer_data release payload = do
    (meta, encoded) ← require (split_once 44 payload) "DOWNLOAD_FAILED: invalid data URL"
    lift (
        refuse_if (ltb (maximum_encoded meta release.size) (length (utf8 encoded)))
          "DOWNLOAD_FAILED: oversized data URL")
    bytes ← lift (decode_data meta encoded)
    lift (verify digest bytes release.size release.sha256)
    show_progress release.size release.size
    pure bytes

  -- How much of the partial file a request asks to continue after.
  unfoldable pub resume_offset : Option String → ℕ → Action W ℕ
  resume_offset none size = pure 0
  resume_offset (some path) size = exists path >>= λ present.
      if present
      then (metadata path >>= λ meta.
          if not meta.is_file
          then raise (invalid "invalid partial file")
          else pure (if ltb meta.len size then meta.len else 0))
      else pure 0

  -- The status of a reply, and the offset that its body starts at.
  unfoldable pub accept_reply : Representation → ℕ → Reply → Result ℕ
  accept_reply release offset reply =
      if nat_eq reply.status 206
      then (elim reply.content_range [
        | none ↦ err (invalid "DOWNLOAD_FAILED: missing Content-Range")
        | some range ↦ and_then (parse_content_range range) λ (first, final, total).
            and_then
              (refuse_if
                (not (nat_eq first offset)
                  || not (nat_eq total release.size)
                  || not (nat_eq (final + 1) release.size))
                "DOWNLOAD_FAILED: mismatched Content-Range")
              λ _. ok offset
      ])
      else if nat_eq reply.status 200
      then ok 0
      else err (invalid ("DOWNLOAD_FAILED: HTTP " <> decimal reply.status))

  -- The bytes already there, with the partial file open to take the rest.
  unfoldable pub open_at : Option String → ℕ → Action W (List ℕ)
  open_at none offset = pure []
  open_at (some path) offset = do
    ensure_parent path
    bytes ← if ltb 0 offset then read path else pure []
    open_partial (ltb 0 offset) path
    pure bytes

  -- The loop over the chunks.
  unfoldable pub receive : Option String → ℕ → List ℕ → List Event → Action W (List ℕ)
  receive partial size bytes [] = pure bytes
  receive partial size bytes (idle ∷ rest) = raise (invalid "DOWNLOAD_FAILED: idle timeout")
  receive partial size bytes (broken x ∷ rest) = raise x
  receive partial size bytes (received chunk ∷ rest) =
      let next = receive partial size (bytes ++ chunk) rest in
      if ltb size (length bytes + length chunk)
      then (on_partial partial remove_partial
          >> raise (invalid "SIZE_MISMATCH: response exceeds declared size"))
      else (on_partial partial (λ path. write_all path chunk)
          >> (show_progress (length (bytes ++ chunk)) size >> next))

  -- Bytes that passed the check; what did not is removed.
  abbrev pub unless_bad : Option String → List ℕ → Result (Unit {0}) → Action W (List ℕ)
  unfolding pure
  unless_bad partial bytes (ok _) = pure bytes
  unless_bad partial bytes (err x) = on_partial partial remove_partial >> raise x

  unfoldable pub finish : Option String → Representation → List ℕ → Action W (List ℕ)
  finish partial release bytes =
      on_partial partial sync_all
      >> unless_bad partial bytes (verify digest bytes release.size release.sha256)

  abbrev pub range_header : ℕ → Option String
  range_header offset = if ltb 0 offset then some ("bytes=" <> decimal offset <> "-") else none

  unfoldable pub transfer_http : Representation → Option String → Budgets → Action W (List ℕ)
  transfer_http release partial b = do
    asked ← resume_offset partial release.size
    answer ← send release.url (range_header asked) b.response_ms
    reply ← require answer "DOWNLOAD_FAILED: response timeout"
    offset ← lift (accept_reply release asked reply)
    start ← open_at partial offset
    show_progress offset release.size
    bytes ← receive partial release.size start reply.body
    finish partial release bytes

  abbrev pub partial_of : Option String → String → Option String
  unfolding partial_path
  partial_of none url = none
  partial_of (some dir) url = some (partial_path dir url)

  abbrev pub transfer_by :
      Representation → Option String → Budgets → Option String → Action W (List ℕ)
  transfer_by release resume_dir b (some payload) = transfer_data release payload
  transfer_by release resume_dir b none =
      transfer_http release (partial_of resume_dir release.url) b

  unfoldable pub transfer : Representation → Option String → Budgets → Action W (List ℕ)
  transfer release resume_dir b =
      transfer_by release resume_dir b (strip_prefix "data:" release.url)

  abbrev pub representation_of : Release → Representation
  representation_of release = elim release.gzip [
    | some g ↦ g
    | none ↦ record { url = release.url; sha256 = release.sha256; size = release.size }
  ]

  -- `saturating_add(1)`
  abbrev pub and_one : ℕ → ℕ
  and_one n = if ltb (n + 1) (2 ^ 64) then n + 1 else n

  abbrev pub checked_gzip : Release → Option (List ℕ) → Result (List ℕ)
  checked_gzip release none = err (invalid "DOWNLOAD_FAILED: invalid gzip")
  checked_gzip release (some bytes) =
      and_then (verify digest bytes release.size release.sha256) λ _. ok bytes

  unfoldable pub decode_gzip : Release → List ℕ → Result (List ℕ)
  decode_gzip release result = checked_gzip release (gunzip (and_one release.size) result)

  -- The decoded bytes, or their error once the partial file is gone.
  abbrev pub keep_decoded : Option String → Result (List ℕ) → Action W (List ℕ)
  unfolding pure
  keep_decoded partial (ok bytes) = pure bytes
  keep_decoded partial (err x) = on_partial partial remove_partial >> raise x

  abbrev pub unpack : Release → Option String → List ℕ → Option Representation → Action W (List ℕ)
  unfolding pure decode_gzip
  unpack release resume_dir result none = pure result
  unpack release resume_dir result (some g) =
      keep_decoded (partial_of resume_dir g.url) (decode_gzip release result)

  unfoldable pub download : TransferPolicy → Release → Option String → Action W (List ℕ)
  download policy release resume_dir = do
    lift (validate_release release)
    b ← lift (budgets policy (representation_of release).size)
    outcome ← within b.overall_ms (transfer (representation_of release) resume_dir b)
    answer ← require outcome "DOWNLOAD_FAILED: overall timeout"
    result ← lift answer
    unpack release resume_dir result release.gzip
