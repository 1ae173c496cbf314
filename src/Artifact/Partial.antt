-- ===== src/Artifact/Partial.antt =====
-- The partial file that an interrupted download of src/artifact.rs leaves behind.
use k_carrier.Base.{
  ℕ, ◌+◌, String, ◌≡◌, ◌∙◌, refl, subst, ◌⊎◌, inl, inr, Option, none, some, List, [], ◌∷◌, ◌++◌,
  length, ltb, ◌≤◌, ◌<◌, arith, Bool-cases, append_nil, append_assoc, length-append,
}
use k_carrier.Error.{Error, Result, ok, err}
use k_carrier.Action.{Action, pure, raise, ◌>>=◌, ◌>>◌}
use k_carrier.Artifact.Transfer.{
  Event, received, idle, broken, Network, remove_partial, on_partial, show_progress, receive,
}

-- The bytes of the chunks before the first that is not one.
abbrev pub delivered : List Event → List ℕ
delivered [] = []
delivered (idle ∷ rest) = []
delivered (broken x ∷ rest) = []
delivered (received chunk ∷ rest) = chunk ++ delivered rest

module _ {W : Type 0} (net : Network W) (path : String) where
  -- The file at the path is what can be seen of it: writing appends, removing makes it missing,
  -- and reporting progress does not touch it.
  pub record Sound (content : W → Option (List ℕ)) : Type 0 where
    pub writes :
        (bytes chunk : List ℕ) (w : W)
        → content w ≡ some bytes
        → (w' : W) × (net.write_all path chunk w ≡ (ok tt, w'))
          × (content w' ≡ some (bytes ++ chunk))
    pub removes : (w : W) → (w' : W) × (net.remove_file path w ≡ (ok tt, w')) × (content w' ≡ none)
    pub reports : (done size : ℕ) (w : W) → content (net.emit done size w).1 ≡ content w

  -- The bytes that arrived are all there, in the result and in the file, and within the size; or
  -- the body went beyond the size and the file is gone.
  abbrev pub Kept : (W → Option (List ℕ)) → ℕ → List ℕ → Result (List ℕ) × W → Type 0
  Kept content size all (ok bytes, w) = (bytes ≡ all) × (content w ≡ some all) × (length all ≤ size)
  Kept content size all (err x, w) =
      ((content w ≡ some all) × (length all ≤ size)) ⊎ ((content w ≡ none) × (size < length all))

  module _ (content : W → Option (List ℕ)) (laws : Sound content) (size : ℕ) where
    oversized :
        (all : List ℕ) (x : Error) (w : W)
        → size < length all
        → Kept content size all ((on_partial net (some path) (remove_partial net) >> raise x) w)
    unfolding ◌>>=◌ raise remove_partial
    oversized all x w h = let (w', call, gone) = laws.removes w in rw call (inr (gone, h))

    wrote :
        (bytes chunk : List ℕ) (k : Action W (List ℕ)) (w : W) (all : List ℕ)
        → content w ≡ some bytes
        → ((v : W) → content v ≡ some (bytes ++ chunk) → Kept content size all (k v))
        → Kept content size all (
            (on_partial net (some path) (λ p. net.write_all p chunk)
                >> (show_progress net (length (bytes ++ chunk)) size >> k))
              w)
    unfolding ◌>>=◌ show_progress
    wrote bytes chunk k w all h next =
        let (w', call, more) = laws.writes bytes chunk w h in
        rw call (next _ (laws.reports (length (bytes ++ chunk)) size w' ∙ more))

    -- However the body of a response goes on, a download that resumes finds in the partial file
    -- all the bytes that arrived, in their order and never more than the size; a body that is
    -- longer than the size leaves no partial file. A result is those bytes. The file system
    -- appends and removes as it is asked to, and the file holds what was received before.
    pub receive-Kept :
        (bytes : List ℕ) (events : List Event) (w : W)
        → content w ≡ some bytes
        → length bytes ≤ size
        → Kept content size
            (bytes ++ delivered events)
            (receive net (some path) size bytes events w)
    unfolding receive pure raise
    receive-Kept bytes [] w h small = rw (append_nil bytes) (refl, h, small)
    receive-Kept bytes (idle ∷ rest) w h small = rw (append_nil bytes) (inl (h, small))
    receive-Kept bytes (broken x ∷ rest) w h small = rw (append_nil bytes) (inl (h, small))
    receive-Kept bytes (received chunk ∷ rest) w h small =
        elim (Bool-cases (ltb size (length bytes + length chunk))) [
          | inl over ↦ rw over (
              oversized _ _ w (
                ground (
                  arith,
                  over,
                  length-append bytes (chunk ++ delivered rest),
                  length-append chunk (delivered rest),
                )))
          | inr fits ↦ rw fits (
              wrote bytes chunk _ w _ h λ v more.
                subst
                  (λ all.
                    Kept content size all (receive net (some path) size (bytes ++ chunk) rest v))
                  (append_assoc bytes chunk (delivered rest))
                  (receive-Kept (bytes ++ chunk) rest v more
                    (ground (arith, fits, length-append bytes chunk))))
        ]
