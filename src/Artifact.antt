-- ===== src/Artifact.antt =====
-- src/artifact.rs: releases, their validation, the budgets of a transfer, and the check of what
-- was received. Bytes are numbers and the digest (SHA-256) is a parameter.
pub mod Ranges
pub mod Transfer
pub mod Verified
pub mod Partial
use Prim.Native.Char.{code}
use Prim.Native.String
use k_carrier.Base.{
  ℕ, zero, suc, ◌+◌, ◌/◌, ◌%◌, ◌^◌, ◌*◌, String, Bool, true, false, not, ◌&&◌, ◌||◌, Option, none,
  some, List, length, ltb, leb, nat_eq, ◌==◌, is_empty, if◌then◌else◌, strip_prefix, split_once,
  parse_below, min,
}
use k_carrier.Error.{Error, invalid, Result, ok, err, refuse_if, ◌>>=◌, ◌>>◌}

pub record Representation : Type 0 where
  pub url : String
  pub sha256 : String
  pub size : ℕ

pub record Release : Type 0 where
  pub version : String
  pub url : String
  pub sha256 : String
  pub size : ℕ
  pub gzip : Option Representation

pub record ReleaseContext : Type 0 where
  pub current_version : String
  pub platform_key : String

abbrev pub is_hexadecimal : ℕ → Bool
is_hexadecimal b = (leb 48 b && leb b 57) || (leb 97 b && leb b 102)

-- Of the given number of hexadecimal digits. A character beyond ASCII has no such byte, so that
-- counting characters decides the same as counting bytes.
abbrev pub is_digits : ℕ → String → Bool
is_digits zero String.[] = true
is_digits (suc n) String.[] = false
is_digits zero (String.◌∷◌ c s) = false
is_digits (suc n) (String.◌∷◌ c s) = is_hexadecimal (code c) && is_digits n s

unfoldable pub valid_hash : String → Bool
valid_hash hash = is_digits 64 hash

abbrev pub maximum_size : ℕ
maximum_size = 9007199254740991

abbrev pub gzip_bad : Option Representation → Bool
unfolding valid_hash
gzip_bad none = false
gzip_bad (some gz) =
    is_empty gz.url || not (valid_hash gz.sha256) || nat_eq gz.size 0 || ltb maximum_size gz.size

unfoldable pub validate_release : Release → Result (Unit {0})
unfolding valid_hash gzip_bad
validate_release r =
    refuse_if
      (is_empty r.version || is_empty r.url || not (valid_hash r.sha256) || ltb maximum_size r.size)
      "MANIFEST_INVALID"
    >> refuse_if (gzip_bad r.gzip) "MANIFEST_INVALID: gzip identity"

pub record TransferPolicy : Type 0 where
  pub response_ms : ℕ
  pub idle_ms : ℕ
  pub minimum_bytes_per_second : ℕ
  pub maximum_overall_ms : ℕ

abbrev pub default_policy : TransferPolicy
default_policy = record {
  response_ms = 30000;
  idle_ms = 30000;
  minimum_bytes_per_second = 64 * 1024;
  maximum_overall_ms = 30 * 60000;
}

pub record Budgets : Type 0 where
  pub response_ms : ℕ
  pub idle_ms : ℕ
  pub overall_ms : ℕ

-- `div_ceil`
abbrev pub div_ceil : ℕ → ℕ → ℕ
div_ceil a b = if nat_eq (a % b) 0 then a / b else a / b + 1

-- The products and sums are of 128 bits there, which inputs of 64 bits do not exceed.
unfoldable pub budgets : TransferPolicy → ℕ → Result Budgets
budgets p size =
    refuse_if
      (nat_eq p.response_ms 0
        || nat_eq p.idle_ms 0
        || nat_eq p.minimum_bytes_per_second 0
        || ltb p.maximum_overall_ms p.response_ms)
      "ARTIFACT_TRANSFER_POLICY_INVALID"
    >> ok (record {
      response_ms = p.response_ms;
      idle_ms = p.idle_ms;
      overall_ms =
          min (div_ceil (size * 1000) p.minimum_bytes_per_second + p.response_ms)
            p.maximum_overall_ms
          % 2 ^ 64;
    })

unfoldable pub verify : (List ℕ → String) → List ℕ → ℕ → String → Result (Unit {0})
verify digest bytes size hash =
    refuse_if (not (nat_eq (length bytes) size)) "SIZE_MISMATCH"
    >> refuse_if (not (digest bytes == hash)) "SHA256_MISMATCH"

-- `.ok_or_else(invalid_range)`
abbrev pub or_invalid_range : {A : Type 0} → Option A → Result A
or_invalid_range none = err (invalid "DOWNLOAD_FAILED: invalid Content-Range")
or_invalid_range (some a) = ok a

abbrev pub parse_u64 : String → Result ℕ
parse_u64 s = or_invalid_range (parse_below (2 ^ 64) s)

-- The tests of `parse_content_range` on its three numbers.
abbrev pub check_range : ℕ → ℕ → ℕ → Result (ℕ × ℕ × ℕ)
check_range first final total =
    refuse_if (ltb final first || leb total final) "DOWNLOAD_FAILED: invalid Content-Range"
    >> ok (first, final, total)

abbrev pub parse_span : String → String → String → Result (ℕ × ℕ × ℕ)
parse_span first final total =
    parse_u64 first >>= λ f. parse_u64 final >>= λ l. parse_u64 total >>= λ t. check_range f l t

unfoldable pub parse_content_range : String → Result (ℕ × ℕ × ℕ)
parse_content_range input = or_invalid_range (strip_prefix "bytes " input) >>= λ value.
    or_invalid_range (split_once 47 value) >>= λ parts.
    or_invalid_range (split_once 45 parts.0) >>= λ span. parse_span span.0 span.1 parts.1
