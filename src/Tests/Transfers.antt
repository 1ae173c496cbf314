-- ===== src/Tests/Transfers.antt =====
-- The theorems on src/artifact.rs and src/source.rs at concrete inputs.
use k_carrier.Base.{
  ℕ, ◌≡◌, refl, true, false, String, Bool, Option, none, some, List, [], ◌∷◌, ◌++◌, length,
  if◌then◌else◌, arith, split, before, parse_below, contains,
}
use k_carrier.Error.{Result, ok, err, io, not_found}
use k_carrier.Artifact.{
  Release, ReleaseContext, default_policy, Budgets, budgets, parse_content_range,
}
use k_carrier.Artifact.Ranges.{Allots, budgets-Allots, InRange64, parse_content_range-InRange64}
use k_carrier.Artifact.Transfer.{Event, received, Network, receive, download}
use k_carrier.Artifact.Verified.{Timely, Matches, download-Matches}
use k_carrier.Artifact.Partial.{delivered, Sound, Kept, receive-Kept}
use k_carrier.Source.{
  Manifest, newer, Web, StaticManifestSource, check, fetch, compare_parts, parts,
}
use k_carrier.Source.Order.{newer_trans}
use k_carrier.Source.Offers.{InTime, Pinned, Offered, fetch-Pinned, check-Offered}

abbrev million_bytes : Budgets
million_bytes = record { response_ms = 30000; idle_ms = 30000; overall_ms = 45259 }

budgets-Allots_example : Allots default_policy 1000000 million_bytes
unfolding budgets
budgets-Allots_example = budgets-Allots default_policy 1000000 million_bytes (ground arith) refl

parse_content_range-InRange64_example : InRange64 (parse_content_range "bytes 5-9/10")
parse_content_range-InRange64_example = parse_content_range-InRange64 "bytes 5-9/10"

-- A network over one partial file, whose server sends the rest of ten bytes in two chunks.
abbrev File : Type 0
File = Option (List ℕ)

abbrev appended : List ℕ → File → File
appended chunk none = some chunk
appended chunk (some bytes) = some (bytes ++ chunk)

abbrev contents : File → Result (List ℕ)
contents none = err (io not_found "")
contents (some bytes) = ok bytes

abbrev size_of : File → ℕ
size_of none = 0
size_of (some bytes) = length bytes

abbrev is_there : File → Bool
is_there none = false
is_there (some bytes) = true

abbrev digest_name : String
digest_name = "00000000000000000000000000000000000000000000000000000000000000aa"

abbrev two_chunks : List Event
two_chunks = received (6 ∷ 7 ∷ []) ∷ received (8 ∷ 9 ∷ []) ∷ []

abbrev pub timed_run : {A W : Type 0} → Result A × W → Result (Option (Result A)) × W
timed_run (r, w) = (ok (some r), w)

abbrev server : Network File
server = record {
  digest = λ bytes. digest_name;
  utf8 = λ s. [];
  ends_with = λ s t. false;
  base64_decode = λ s. none;
  percent_decode = λ s. [];
  gunzip = λ n bytes. none;
  send = λ url range n w. (
    ok (some (record { status = 206; content_range = some "bytes 5-8/9"; body = two_chunks })),
    w,
  );
  within = λ n m w. timed_run (m w);
  exists = λ path w. (ok (is_there w), w);
  metadata = λ path w. (ok (record { is_file = true; len = size_of w }), w);
  ensure_parent = λ path w. (ok tt, w);
  read = λ path w. (contents w, w);
  open_partial = λ again path w. (ok tt, if again then w else some []);
  write_all = λ path chunk w. (ok tt, appended chunk w);
  sync_all = λ path w. (ok tt, w);
  remove_file = λ path w. (ok tt, none);
  emit = λ done size w. (tt, w);
}

abbrev nine_bytes : Release
nine_bytes = record {
  version = "2";
  url = "https://example.org/k";
  sha256 = digest_name;
  size = 9;
  gzip = none;
}

abbrev half_there : File
half_there = some (1 ∷ 2 ∷ 3 ∷ 4 ∷ 5 ∷ [])

pub let_through :
    {A W : Type 0} (p : Result A × W) (r : Result A) (w' : W)
    → timed_run p ≡ (ok (some r), w')
    → p ≡ (r, w')
let_through (q, v) r w' h = cc

server_in_time : Timely server
server_in_time n m w w' r h = let_through (m w) r w' h

download-Matches_example :
    Matches
      (λ bytes. digest_name)
      9
      digest_name
      (download server default_policy nine_bytes (some "/tmp") half_there)
download-Matches_example =
    download-Matches server default_policy nine_bytes (some "/tmp") half_there server_in_time

file-Sound : Sound server "/tmp/part" (λ w. w)
file-Sound = record {
  writes = λ bytes chunk w h. (some (bytes ++ chunk), rw h refl, refl);
  removes = λ w. (none, refl, refl);
  reports = λ done size w. refl;
}

receive-Kept_example :
    Kept server "/tmp/part"
      (λ w. w)
      9
      ((1 ∷ 2 ∷ 3 ∷ 4 ∷ 5 ∷ []) ++ delivered two_chunks)
      (receive server (some "/tmp/part") 9 (1 ∷ 2 ∷ 3 ∷ 4 ∷ 5 ∷ []) two_chunks half_there)
receive-Kept_example =
    receive-Kept server "/tmp/part" (λ w. w) file-Sound 9 (1 ∷ 2 ∷ 3 ∷ 4 ∷ 5 ∷ []) two_chunks
      half_there refl (ground arith)

newer_trans_example : (newer "1.10" "1.2-rc" ≡ true) × (newer "1.2-rc" "1.10" ≡ false)
unfolding newer compare_parts parts split before parse_below contains
newer_trans_example = newer_trans "1.10" "1.2" "1.2-rc" refl refl

abbrev published : Manifest
published = record {
  version = "2.0";
  targets = ("linux", record { file = "k"; sha256 = digest_name; size = 9 }) ∷ [];
}

abbrev page : Web (Unit {0})
page = record {
  get = λ url w. (ok (200, ok [] ∷ []), w);
  within = λ n m w. timed_run (m w);
  from_slice = λ bytes. some published;
}

abbrev mirror : StaticManifestSource
mirror = record {
  base = "https://example.org/";
  timeout_ms = 30000;
  maximum_manifest_bytes = 1048576;
}

abbrev on_linux : ReleaseContext
on_linux = record { current_version = "1.9"; platform_key = "linux" }

page_in_time : InTime page mirror
page_in_time n m w w' r h = let_through (m w) r w' h

fetch-Pinned_example : Pinned "2.0" (fetch page mirror "2.0" on_linux tt)
fetch-Pinned_example = fetch-Pinned page mirror "2.0" on_linux tt page_in_time

check-Offered_example : Offered "1.9" (check page mirror on_linux tt)
check-Offered_example = check-Offered page mirror on_linux tt page_in_time
