-- ===== src/Artifact/Verified.antt =====
-- What `Downloader` of src/artifact.rs returns has the declared length and digest.
use k_carrier.Base.{
  ℕ, String, not, ◌≡◌, ◌∙◌, refl, subst, Option, none, some, List, length, nat_eq, arith, eq_iff,
  ◌==◌,
}
use k_carrier.Error.{Result, ok, err, gate-ok, refuse_if-ok}
use k_carrier.Action.{Action, pure, lift, raise, require, continue, after_any, ◌>>=◌}
use k_carrier.Artifact.{Representation, Release, TransferPolicy, Budgets, verify}
use k_carrier.Artifact.Transfer.{
  Network, show_progress, transfer_data, transfer_http, transfer, finish, unless_bad, transfer_by,
  representation_of, checked_gzip, decode_gzip, keep_decoded, unpack, download,
}

verified :
    (digest : List ℕ → String) (bytes : List ℕ) (size : ℕ) (hash : String)
    → verify digest bytes size hash ≡ ok tt
    → (length bytes ≡ size) × (digest bytes ≡ hash)
unfolding verify
verified digest bytes size hash h =
    let (sized, rest) = gate-ok (not (nat_eq (length bytes) size)) _ _ h in
    let same = refuse_if-ok (not (digest bytes == hash)) _ rest in
    (ground (arith, sized), (eq_iff (digest bytes) hash).0 (ground (arith, same)))

-- Bytes of a size and a digest, or an error.
abbrev pub Matches : {W : Type 0} → (List ℕ → String) → ℕ → String → Result (List ℕ) × W → Type 0
Matches digest size hash (ok bytes, w) = (length bytes ≡ size) × (digest bytes ≡ hash)
Matches digest size hash (err x, w) = Unit

module _ {W : Type 0} (net : Network W) where
  open net use {digest}

  module _ (release : Representation) where
    abbrev Fits : Result (List ℕ) × W → Type 0
    Fits = Matches digest release.size release.sha256

    skip :
        {A : Type 0} (m : Action W A) (f : A → Action W (List ℕ)) (w : W)
        → ((a : A) (v : W) → Fits (f a v))
        → Fits ((m >>= f) w)
    skip m f w all = after_any Fits m f w (λ _ _. tt) all

    checked-Matches :
        (partial : Option String) (bytes : List ℕ) (m : Result (Unit {0}))
        → verify digest bytes release.size release.sha256 ≡ m
        → (w : W) → Fits (unless_bad net partial bytes m w)
    unfolding pure raise
    checked-Matches partial bytes (ok _) h w = verified digest bytes release.size release.sha256 h
    checked-Matches partial bytes (err x) h w = skip _ _ w λ _ v. tt

    finish-Matches :
        (partial : Option String) (bytes : List ℕ) (w : W)
        → Fits (finish net partial release bytes w)
    unfolding finish
    finish-Matches partial bytes w = skip _ _ w λ _. checked-Matches partial bytes _ refl

    transfer_http-Matches :
        (partial : Option String) (b : Budgets) (w : W)
        → Fits (transfer_http net release partial b w)
    unfolding transfer_http
    transfer_http-Matches partial b w = skip _ _ w λ asked v₁. skip _ _ v₁ λ answer v₂.
        skip _ _ v₂ λ reply v₃. skip _ _ v₃ λ offset v₄.
          skip _ _ v₄
            λ start v₅. skip _ _ v₅ λ _ v₆. skip _ _ v₆ λ bytes v₇. finish-Matches partial bytes v₇

    gated-Matches :
        (bytes : List ℕ) (m : Result (Unit {0}))
        → verify digest bytes release.size release.sha256 ≡ m
        → (w : W)
        → Fits ((lift m >>= λ _. show_progress net release.size release.size >>= λ _. pure bytes) w)
    unfolding ◌>>=◌ lift show_progress pure
    gated-Matches bytes (ok _) h w = verified digest bytes release.size release.sha256 h
    gated-Matches bytes (err x) h w = tt

    transfer_data-Matches : (payload : String) (w : W) → Fits (transfer_data net release payload w)
    unfolding transfer_data
    transfer_data-Matches payload w =
        skip _ _ w
          λ parts v₁. skip _ _ v₁ λ _ v₂. skip _ _ v₂ λ bytes v₃. gated-Matches bytes _ refl v₃

    chosen-Matches :
        (resume_dir : Option String) (b : Budgets) (m : Option String) (w : W)
        → Fits (transfer_by net release resume_dir b m w)
    chosen-Matches resume_dir b none w = transfer_http-Matches _ b w
    chosen-Matches resume_dir b (some payload) w = transfer_data-Matches payload w

    transfer-Matches :
        (resume_dir : Option String) (b : Budgets) (w : W)
        → Fits (transfer net release resume_dir b w)
    unfolding transfer
    transfer-Matches resume_dir b w = chosen-Matches resume_dir b _ w

  -- A transfer that the overall timeout lets through is the transfer that was run.
  abbrev pub Timely : Type 0
  Timely =
      (n : ℕ) (m : Action W (List ℕ)) (w w' : W) (r : Result (List ℕ))
      → net.within n m w ≡ (ok (some r), w')
      → m w ≡ (r, w')

  module _ (release : Release) (resume_dir : Option String) (b : Budgets) where
    abbrev Whole : Result (List ℕ) × W → Type 0
    Whole = Matches digest release.size release.sha256

    plain :
        release.gzip ≡ none
        → (bytes : List ℕ) (v w : W)
        → transfer net (representation_of net release) resume_dir b v ≡ (ok bytes, w)
        → Whole (ok bytes, w)
    plain bare bytes v w h =
        let whole : Representation = representation_of net release in
        let m =
          subst (Matches digest whole.size whole.sha256) h
            (transfer-Matches whole resume_dir b v) in
        (m.0 ∙ (rw bare refl), m.1 ∙ (rw bare refl))

    kept-Whole :
        (partial : Option String) (m : Result (List ℕ)) (w : W)
        → Whole (m, w)
        → Whole (keep_decoded net partial m w)
    unfolding pure raise
    kept-Whole partial (ok bytes) w h = h
    kept-Whole partial (err x) w h = after_any Whole _ _ w (λ _ _. tt) λ _ v. tt

    decoded-Whole : (m : Option (List ℕ)) (w : W) → Whole (checked_gzip net release m, w)
    decoded-Whole none w = tt
    decoded-Whole (some bytes) w = checks _ refl
      where
        checks :
            (m : Result (Unit {0}))
            → verify digest bytes release.size release.sha256 ≡ m
            → Whole (checked_gzip net release (some bytes), w)
        checks (ok _) h = rw h (verified digest bytes release.size release.sha256 h)
        checks (err x) h = rw h tt

    passed :
        (g : Option Representation)
        → release.gzip ≡ g
        → (v w : W) (r : Result (List ℕ))
        → transfer net (representation_of net release) resume_dir b v ≡ (r, w)
        → Whole (continue (λ result. unpack net release resume_dir result g) (r, w))
    unfolding pure decode_gzip
    passed none bare v w (ok bytes) h = plain bare bytes v w h
    passed (some g) packed v w (ok bytes) h = kept-Whole _ _ w (decoded-Whole _ w)
    passed g same v w (err x) h = tt

    timed :
        Timely
        → (v : W) (p : Result (Option (Result (List ℕ))) × W)
        → net.within b.overall_ms (transfer net (representation_of net release) resume_dir b) v ≡ p
        → Whole (
            continue
              (λ outcome. require outcome "DOWNLOAD_FAILED: overall timeout" >>= λ answer.
                lift answer >>= λ result. unpack net release resume_dir result release.gzip)
              p)
    unfolding ◌>>=◌ require lift
    timed laws v (ok (some r), w) h = passed _ refl v w r (laws _ _ v w r h)
    timed laws v (ok none, w) h = tt
    timed laws v (err x, w) h = tt

    timed_step :
        Timely
        → (v : W)
        → Whole (
            (net.within b.overall_ms (transfer net (representation_of net release) resume_dir b)
                >>= λ outcome. require outcome "DOWNLOAD_FAILED: overall timeout" >>= λ answer.
                    lift answer >>= λ result. unpack net release resume_dir result release.gzip)
              v)
    unfolding ◌>>=◌
    timed_step laws v = timed laws v _ refl

  -- Bytes that `download` returns have the size and the digest that the release declares,
  -- whether they came from a data URL, from the network, after a partial file or compressed; any
  -- server, file and decoder will do, and a timeout that gives what it ran.
  pub download-Matches :
      (policy : TransferPolicy) (release : Release) (resume_dir : Option String) (w : W)
      → Timely
      → Matches digest release.size release.sha256 (download net policy release resume_dir w)
  unfolding download
  download-Matches policy release resume_dir w laws =
      after_any (Matches digest release.size release.sha256) _ _ w (λ _ _. tt)
        λ _ v₁.
          after_any (Matches digest release.size release.sha256) _ _ v₁ (λ _ _. tt)
            λ b v₂. timed_step release resume_dir b laws v₂
