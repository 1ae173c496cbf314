-- ===== src/Protocol.antt =====
-- src/protocol.rs: the requests and responses of the runner's wire protocol. JSON (serde_json) is
-- a parameter.
pub mod Accepts
use k_carrier.Base.{
  ℕ, String, Bool, true, false, not, ◌&&◌, ◌||◌, Option, none, some, List, [], ◌∷◌, length, ltb,
  leb, nat_eq, ◌==◌, is_empty, trim, utf16_count, if◌then◌else◌,
}
use k_carrier.State.{Operation, OperationRead, genesis, observed, unreadable}
use k_carrier.Error.{Result, ok, err, invalid, refuse_if, ◌>>=◌, ◌>>◌}
use k_carrier.Validate.{validate_operation}

pub record Expected : Type 0 where
  pub id : String
  pub target_version : String

pub data Request : Type 0 where
  upgrade_request : (protocol_version : ℕ) (id target_version : String) (consented : Bool) → Request
  recover_request : (protocol_version : ℕ) (expected : Option Expected) → Request
  status_request : (protocol_version : ℕ) → Request

pub record Response : Type 0 where
  pub protocol_version : ℕ
  pub action : String
  pub exit_code : ℕ
  pub result : String
  pub operation : OperationRead
  pub error : Option String

-- serde_json, as far as the two `parse` functions use it; bytes are numbers.
pub record Json : Type 1 where
  pub Value : Type 0
  pub from_slice : List ℕ → Result Value
  pub get : Value → String → Option Value
  pub is_one : Value → Bool
  pub is_null : Value → Bool
  pub to_request : Value → Result Request
  pub response_from_slice : List ℕ → Result Response

-- `text`
unfoldable pub is_identity : String → Bool
unfolding trim utf16_count
is_identity s = not (is_empty s) && (trim s == s) && leb (utf16_count s) 256

abbrev pub identity_bad : Option Expected → Bool
unfolding is_identity
identity_bad none = false
identity_bad (some e) = not (is_identity e.id) || not (is_identity e.target_version)

abbrev pub version_of : Request → ℕ
version_of (upgrade_request v _ _ _) = v
version_of (recover_request v _) = v
version_of (status_request v) = v

-- `Request::expected`
abbrev pub expected_of : Request → Option Expected
expected_of (upgrade_request _ id target _) = some (record { id = id; target_version = target })
expected_of (recover_request _ e) = e
expected_of (status_request _) = none

-- `Request::action`
abbrev pub action_of : Request → String
action_of (upgrade_request _ _ _ _) = "upgrade"
action_of (recover_request _ _) = "recover"
action_of (status_request _) = "status"

-- `Request::validate`; what it looks at of the identity is what `Request::expected` returns.
unfoldable pub validate_request : Request → Result (Unit {0})
unfolding identity_bad
validate_request r =
    refuse_if (not (nat_eq (version_of r) 1)) "RUNNER_PROTOCOL_UNSUPPORTED"
    >> refuse_if (identity_bad (expected_of r)) "RUNNER_PROTOCOL_INVALID: invalid identity"

abbrev pub holds_in : {A : Type 0} → (A → Bool) → Option A → Bool
holds_in test none = false
holds_in test (some a) = test a

abbrev pub is_action : String → Bool
is_action a = a == "upgrade" || a == "recover" || a == "status"

abbrev pub validate_read : OperationRead → Result (Unit {0})
validate_read (observed op) = validate_operation op
validate_read _ = ok tt

-- The tests of `Response::parse` after decoding.
unfoldable pub check_response : Response → Result (Unit {0})
check_response r =
    refuse_if (not (nat_eq r.protocol_version 1) || not (is_action r.action) || ltb 3 r.exit_code)
      "RUNNER_RESPONSE_INVALID"
    >> validate_read r.operation

module _ (j : Json) where
  open j use {Value, from_slice, get, is_one, is_null, to_request, response_from_slice}

  -- `parse` once the bytes are a value.
  unfoldable pub read_request : Value → Result Request
  read_request value =
      refuse_if (not (holds_in is_one (get value "protocolVersion"))) "RUNNER_PROTOCOL_UNSUPPORTED"
      >> (refuse_if (holds_in is_null (get value "expected"))
            "RUNNER_PROTOCOL_INVALID: null expected"
          >> (to_request value >>= λ request. validate_request request >> ok request))

  unfoldable pub parse_request : List ℕ → Result Request
  parse_request bytes =
      refuse_if (ltb 65536 (length bytes)) "RUNNER_PROTOCOL_INVALID: request too large"
      >> (from_slice bytes >>= read_request)

  unfoldable pub parse_response : List ℕ → Result Response
  parse_response bytes =
      refuse_if (ltb 65536 (length bytes)) "RUNNER_RESPONSE_INVALID: response too large" >>= λ _.
      response_from_slice bytes >>= λ response. check_response response >>= λ _. ok response
