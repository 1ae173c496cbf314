-- ===== src/Protocol/Accepts.antt =====
-- What the parsers of src/protocol.rs accept.
use k_carrier.Base.{
  ℕ, String, true, false, not, ◌≡◌, subst, ◌≤◌, Option, none, some, List, length, ltb, nat_eq,
  arith, trim, utf16_count, is_empty, eq_iff,
}
use k_carrier.Error.{gate-ok, check-ok, refuse_if-ok, ok-injective, ◌>>=◌, ◌>>◌, Result, ok, err}
use k_carrier.Protocol.{
  Expected, Request, Json, is_identity, identity_bad, version_of, expected_of, validate_request,
  parse_request, read_request, holds_in,
}

-- An identity is not blank, has no white space around it and at most 256 UTF-16 units.
abbrev pub IsIdentity : String → Type 0
IsIdentity s = (is_empty s ≡ false) × (trim s ≡ s) × (utf16_count s ≤ 256)

abbrev pub Identified : Option Expected → Type 0
Identified none = Unit
Identified (some e) = IsIdentity e.id × IsIdentity e.target_version

is_identity-IsIdentity : (s : String) → is_identity s ≡ true → IsIdentity s
unfolding is_identity
is_identity-IsIdentity s h =
    (ground (arith, h), (eq_iff (trim s) s).0 (ground (arith, h)), ground (arith, h))

identified : (o : Option Expected) → identity_bad o ≡ false → Identified o
unfolding identity_bad
identified none h = tt
identified (some e) h = (
  is_identity-IsIdentity e.id (ground (arith, h)),
  is_identity-IsIdentity e.target_version (ground (arith, h)),
)

validated :
    (r : Request) → validate_request r ≡ ok tt → (version_of r ≡ 1) × Identified (expected_of r)
unfolding validate_request
validated r h =
    let (versioned, named) = gate-ok (not (nat_eq (version_of r) 1)) _ _ h in
    let fine = refuse_if-ok (identity_bad (expected_of r)) _ named in
    (ground (arith, versioned), identified (expected_of r) fine)

abbrev Accepted : Request → Type 0
Accepted r = (version_of r ≡ 1) × Identified (expected_of r)

accepted :
    (m : Result Request) (r : Request) → (m >>= λ q. validate_request q >> ok q) ≡ ok r → Accepted r
accepted (ok q) r h =
    let (valid, same) = check-ok (validate_request q) (ok q) h in
    subst Accepted (ok-injective same) (validated q valid)
accepted (err x) r h = absurd (ground (arith, h))

read-Accepted :
    (j : Json) (value : j.Value) (r : Request) → read_request j value ≡ ok r → Accepted r
unfolding read_request
read-Accepted j value r h =
    let (_, h₁) = gate-ok (not (holds_in j.is_one (j.get value "protocolVersion"))) _ _ h in
    let (_, h₂) = gate-ok (holds_in j.is_null (j.get value "expected")) _ _ h₁ in
    accepted (j.to_request value) r h₂

slice-Accepted :
    (j : Json) (m : Result j.Value) (r : Request) → (m >>= read_request j) ≡ ok r → Accepted r
slice-Accepted j (ok value) r h = read-Accepted j value r h
slice-Accepted j (err x) r h = absurd (ground (arith, h))

-- A request that parses has protocol version 1, well-formed identities and at most 65536 bytes.
pub parse_request-Identified :
    (j : Json) (bytes : List ℕ) (r : Request)
    → parse_request j bytes ≡ ok r
    → (version_of r ≡ 1) × Identified (expected_of r) × (length bytes ≤ 65536)
unfolding parse_request
parse_request-Identified j bytes r h =
    let (small, h₁) = gate-ok (ltb 65536 (length bytes)) _ _ h in
    let (versioned, named) = slice-Accepted j (j.from_slice bytes) r h₁ in
    (versioned, named, ground (arith, small))
