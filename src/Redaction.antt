-- ===== src/Redaction.antt =====
-- The failure reasons of a host in src/host.rs, before they reach a terminal or a receipt.
pub mod Bounds
pub mod Hides
use Prim.Native.Nat.{ℕ}
use Prim.Native.Char.{Char, code}
use Prim.Native.String
use k_carrier.Base.{
  suc, ◌+◌, String, Bool, true, false, ◌&&◌, ◌||◌, List, [], ◌∷◌, ◌++◌, map, nat_eq, leb, ltb,
  is_empty, is_whitespace, trim, starts_with, if◌then◌else◌, split, ◌<>◌, ◌≡◌, refl, char_count,
  all_chars,
}

abbrev pub credential_markers : List String
credential_markers =
    "authorization" ∷ "bearer" ∷ "token" ∷ "secret" ∷ "password" ∷ "passwd" ∷ "api_key" ∷ "api key"
    ∷ "api-key" ∷ "apikey" ∷ "access_key" ∷ "access key" ∷ "access-key" ∷ "client_secret"
    ∷ "client secret" ∷ "client-secret" ∷ "cookie" ∷ "database_url" ∷ "database-url" ∷ []

-- `to_ascii_lowercase`, of a code point.
abbrev pub lower : ℕ → ℕ
lower c = if leb 65 c && leb c 90 then c + 32 else c

-- Whether the text starts with the marker once it is in lower case.
starts_lower : String → String → Bool
starts_lower s String.[] = true
starts_lower String.[] (String.◌∷◌ m ms) = false
starts_lower (String.◌∷◌ c s) (String.◌∷◌ m ms) =
    let rest = starts_lower s ms in if nat_eq (lower (code c)) (code m) then rest else false

contains_lower : String → String → Bool
unfolding starts_lower
contains_lower String.[] marker = is_empty marker
contains_lower (String.◌∷◌ c s) marker =
    let rest = contains_lower s marker in
    if starts_lower (String.◌∷◌ c s) marker then true else rest

any_marker : List String → String → Bool
unfolding contains_lower
any_marker [] line = false
any_marker (m ∷ ms) line = if contains_lower line m then true else any_marker ms line

unfoldable pub has_credential_marker : String → Bool
unfolding any_marker
has_credential_marker line = any_marker credential_markers line

abbrev pub ends_authority : ℕ → Bool
ends_authority c = is_whitespace c || nat_eq c 47 || nat_eq c 63 || nat_eq c 35

-- Whether `@` stands in the authority, from the character on.
authority_has_at : String → Bool
authority_has_at String.[] = false
authority_has_at (String.◌∷◌ c s) =
    let rest = authority_has_at s in
    if ends_authority (code c) then false else if nat_eq (code c) 64 then true else rest

-- `authority.rfind('@').is_some_and(|at| at > 0)`
unfoldable pub names_user : String → Bool
unfolding authority_has_at
names_user String.[] = false
names_user (String.◌∷◌ c s) = if ends_authority (code c) then false else authority_has_at s

abbrev pub after_scheme : String → String
after_scheme (String.◌∷◌ a (String.◌∷◌ b (String.◌∷◌ c s))) = s
after_scheme s = ""

-- The occurrences of `://` do not overlap, so that each place is looked at.
unfoldable pub has_url_userinfo : String → Bool
unfolding names_user
has_url_userinfo String.[] = false
has_url_userinfo (String.◌∷◌ c s) =
    let rest = has_url_userinfo s in
    if starts_with (String.◌∷◌ c s) "://" && names_user (after_scheme (String.◌∷◌ c s))
    then true
    else rest

abbrev pub is_opaque_character : ℕ → Bool
is_opaque_character c =
    (leb 48 c && leb c 57)
    || (leb 65 c && leb c 90)
    || (leb 97 c && leb c 122)
    || nat_eq c 46
    || nat_eq c 95
    || nat_eq c 45
    || nat_eq c 43

abbrev pub redacted : String
redacted = "<redacted>"

-- The characters that count are ASCII, of one byte each.
unfoldable pub redact_opaque_word : String → String
redact_opaque_word word =
    if leb 24 (char_count word) && all_chars is_opaque_character word then redacted else word

abbrev onto_first : Char → List String → List String
onto_first c [] = String.◌∷◌ c "" ∷ []
onto_first c (w ∷ ws) = String.◌∷◌ c w ∷ ws

pieces : String → List String
pieces String.[] = "" ∷ []
pieces (String.◌∷◌ c s) =
    let rest = pieces s in if is_whitespace (code c) then "" ∷ rest else onto_first c rest

abbrev only_filled : List String → List String
only_filled [] = []
only_filled (w ∷ ws) = if is_empty w then only_filled ws else w ∷ only_filled ws

-- `split_whitespace`
unfoldable pub split_whitespace : String → List String
unfolding pieces
split_whitespace s = only_filled (pieces s)

abbrev last_is_assignment : String → Bool
last_is_assignment String.[] = false
last_is_assignment (String.◌∷◌ c String.[]) = nat_eq (code c) 58 || nat_eq (code c) 61
last_is_assignment (String.◌∷◌ c (String.◌∷◌ d s)) = last_is_assignment (String.◌∷◌ d s)

-- A line whose value may stand on the next.
unfoldable pub announces : String → Bool
unfolding has_credential_marker trim
announces line = has_credential_marker line && last_is_assignment (trim line)

unfoldable pub is_exposed : String → Bool
unfolding has_credential_marker has_url_userinfo
is_exposed line = has_credential_marker line || has_url_userinfo line

-- The loop of `redact_host_error`, with whether the next line is to be redacted.
unfoldable pub redact_lines : Bool → List String → List String
unfolding split_whitespace trim announces is_exposed redact_opaque_word
redact_lines carried [] = []
redact_lines carried (line ∷ rest) =
    if is_empty (trim line)
    then redact_lines carried rest
    else if carried || is_exposed line
    then redacted ∷ redact_lines (announces line) rest
    else map redact_opaque_word (split_whitespace line) ++ redact_lines (announces line) rest

abbrev pub join : List String → String
join [] = ""
join (w ∷ []) = w
join (w ∷ v ∷ ws) = w <> " " <> join (v ∷ ws)

-- `lines`: a carriage return before the end of a line is white space, which the loop drops.
unfoldable pub redact_host_error : String → String
unfolding redact_lines
redact_host_error raw = join (redact_lines false (split 10 raw))

-- `char::is_control`
abbrev pub is_control : ℕ → Bool
is_control c = ltb c 32 || (leb 127 c && leb c 159)

-- The loop of `host_error_detail`, with whether `out` ends with a space and its length.
unfoldable pub shorten : Bool → ℕ → String → String
shorten spaced chars String.[] = ""
shorten spaced chars (String.◌∷◌ c s) =
    let skipped = shorten spaced chars s in
    let blank = String.◌∷◌ " " (shorten true (chars + 1) s) in
    let kept = String.◌∷◌ c (shorten false (chars + 1) s) in
    if (is_control (code c) || nat_eq (code c) 32) && spaced
    then skipped
    else if nat_eq chars 240
    then "…"
    else if is_control (code c) || nat_eq (code c) 32
    then blank
    else kept

unfoldable pub host_error_detail : String → String
unfolding redact_host_error shorten trim
host_error_detail raw = trim (shorten false 0 (redact_host_error raw))

detail_example :
    host_error_detail "no route\n\ttoken:\n abc \nhttp://me@host/x done\nretry"
    ≡ "no route <redacted> <redacted> <redacted> retry"
unfolding host_error_detail redact_host_error redact_lines has_credential_marker any_marker
    contains_lower starts_lower has_url_userinfo names_user authority_has_at split_whitespace pieces
    announces is_exposed trim split shorten redact_opaque_word
detail_example = refl
