-- ===== src/Action.antt =====
-- Calls that read and change a world and may fail: `async fn … -> Result<A>` over shared state.
-- What was changed before a failure stays changed.
use k_carrier.Base.{String, Option, none, some, ◌≡◌, refl}
use k_carrier.Error.{Error, invalid, Result, ok, err}

abbrev pub Action : Type 0 → Type 0 → Type 0
Action W A = W → Result A × W

module _ {W A : Type 0} where
  unfoldable pub pure : A → Action W A
  pure a w = (ok a, w)

  unfoldable pub raise : Error → Action W A
  raise x w = (err x, w)

  unfoldable pub lift : Result A → Action W A
  lift r w = (r, w)

  unfoldable pub gets : (W → A) → Action W A
  gets f w = (ok (f w), w)

  -- The result as a value, for a `match` on it.
  unfoldable pub attempt : Action W A → Action W (Result A)
  attempt m w = (ok (m w).0, (m w).1)

  -- `.ok_or_else(|| invalid(code))?`
  unfoldable pub require : Option A → String → Action W A
  require none code w = (err (invalid code), w)
  require (some a) code w = (ok a, w)

module _ {W A B : Type 0} where
  abbrev pub continue : (A → Action W B) → Result A × W → Result B × W
  continue f (ok a, w) = f a w
  continue f (err x, w) = (err x, w)

  infixl 5 ◌>>=◌
  -- Opening this opens `pure`, `raise`, `lift`, `gets`, `attempt` and `require` too.
  unfoldable pub ◌>>=◌ : Action W A → (A → Action W B) → Action W B
  unfolding pure raise lift gets attempt require
  ◌>>=◌ m f w = continue f (m w)

module _ {W A B : Type 0} (P : Result B × W → Type 0) where
  continue_all :
      (f : A → Action W B)
      → ((x : Error) (v : W) → P (err x, v))
      → ((a : A) (v : W) → P (f a v))
      → (p : Result A × W) → P (continue f p)
  continue_all f failing all (ok a, v) = all a v
  continue_all f failing all (err x, v) = failing x v

  -- What holds of every failure and of whatever follows a call holds of both together.
  pub after_any :
      (m : Action W A) (f : A → Action W B) (w : W)
      → ((x : Error) (v : W) → P (err x, v))
      → ((a : A) (v : W) → P (f a v))
      → P ((m >>= f) w)
  unfolding ◌>>=◌
  after_any m f w failing all = continue_all f failing all (m w)

  continue_seen :
      (f : A → Action W B) (p : Result A × W)
      → ((x : Error) (v : W) → P (err x, v))
      → ((a : A) (v : W) → p ≡ (ok a, v) → P (f a v))
      → P (continue f p)
  continue_seen f (ok a, v) failing all = all a v refl
  continue_seen f (err x, v) failing all = failing x v

  -- The same, where what follows is judged by what the call returned, and in which world.
  pub after_seen :
      (m : Action W A) (f : A → Action W B) (w : W)
      → ((x : Error) (v : W) → P (err x, v))
      → ((a : A) (v : W) → m w ≡ (ok a, v) → P (f a v))
      → P ((m >>= f) w)
  unfolding ◌>>=◌
  after_seen m f w failing all = continue_seen f (m w) failing all

  continue_known :
      (f : A → Action W B) (p : Result A × W)
      → ((x : Error) (v : W) → p ≡ (err x, v) → P (err x, v))
      → ((a : A) (v : W) → p ≡ (ok a, v) → P (f a v))
      → P (continue f p)
  continue_known f (ok a, v) failing all = all a v refl
  continue_known f (err x, v) failing all = failing x v refl

  -- The same, where a failure too is judged by what the call returned.
  pub after_known :
      (m : Action W A) (f : A → Action W B) (w : W)
      → ((x : Error) (v : W) → m w ≡ (err x, v) → P (err x, v))
      → ((a : A) (v : W) → m w ≡ (ok a, v) → P (f a v))
      → P ((m >>= f) w)
  unfolding ◌>>=◌
  after_known m f w failing all = continue_known f (m w) failing all

  -- A check leaves the world alone.
  pub after_lift :
      (r : Result A) (f : A → Action W B) (w : W)
      → ((x : Error) → r ≡ err x → P (err x, w))
      → ((a : A) → r ≡ ok a → P (f a w))
      → P ((lift r >>= f) w)
  unfolding ◌>>=◌ lift
  after_lift (ok a) f w failing all = all a refl
  after_lift (err x) f w failing all = failing x refl

infixl 5 ◌>>◌
abbrev pub ◌>>◌ : {W B : Type 0} → Action W (Unit {0}) → Action W B → Action W B
m >> k = m >>= λ _. k
