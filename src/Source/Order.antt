-- ===== src/Source/Order.antt =====
-- `newer` of src/source.rs orders the versions.
use k_carrier.Base.{
  ℕ, String, Bool, true, false, not, ◌&&◌, ◌≡◌, refl, subst, Option, none, some, List, [], ◌∷◌,
  arith, contains,
}
use k_carrier.Source.{parts, turn, compare_parts, unless_decided, newer}

-- What two comparisons decide of the third: the greater, the less, or a tie.
abbrev Chain : Option Bool → Option Bool → Option Bool → Type 0
Chain none q r = r ≡ q
Chain p none r = r ≡ p
Chain (some true) (some true) r = r ≡ some true
Chain (some false) (some false) r = r ≡ some false
Chain p q r = Unit

turn-Chain :
    (x y z : ℕ) (p q r : Option Bool) → Chain p q r → Chain (turn x y p) (turn y z q) (turn x z r)
turn-Chain x y z p q r h = ground (arith, h)

compare_parts-Chain :
    (a b c : List ℕ) → Chain (compare_parts a b) (compare_parts b c) (compare_parts a c)
unfolding compare_parts
compare_parts-Chain [] [] [] = refl
compare_parts-Chain [] [] (z ∷ c) = refl
compare_parts-Chain [] (y ∷ b) [] = turn-Chain 0 y 0 _ _ _ (compare_parts-Chain [] b [])
compare_parts-Chain [] (y ∷ b) (z ∷ c) = turn-Chain 0 y z _ _ _ (compare_parts-Chain [] b c)
compare_parts-Chain (x ∷ a) [] [] = turn-Chain x 0 0 _ _ _ (compare_parts-Chain a [] [])
compare_parts-Chain (x ∷ a) [] (z ∷ c) = turn-Chain x 0 z _ _ _ (compare_parts-Chain a [] c)
compare_parts-Chain (x ∷ a) (y ∷ b) [] = turn-Chain x y 0 _ _ _ (compare_parts-Chain a b [])
compare_parts-Chain (x ∷ a) (y ∷ b) (z ∷ c) = turn-Chain x y z _ _ _ (compare_parts-Chain a b c)

same_parts : (a : List ℕ) → compare_parts a a ≡ none
unfolding compare_parts
same_parts [] = refl
same_parts (x ∷ a) = ground (arith, same_parts a)

decides :
    (p q r : Option Bool) (x y z : Bool)
    → Chain p q r
    → unless_decided (not x && y) p ≡ true
    → unless_decided (not y && z) q ≡ true
    → unless_decided (not x && z) r ≡ true
decides p q r x y z h f g = ground (arith, h, f, g)

opposed :
    (p q : Option Bool) (x y : Bool)
    → Chain p q none
    → unless_decided (not x && y) p ≡ true
    → unless_decided (not y && x) q ≡ false
opposed p q x y h f = ground (arith, h, f)

back_and_forth : (a b : List ℕ) → Chain (compare_parts a b) (compare_parts b a) none
back_and_forth a b =
    subst (Chain (compare_parts a b) (compare_parts b a)) (same_parts a) (compare_parts-Chain a b a)

newer_asymmetric : (a b : String) → newer a b ≡ true → newer b a ≡ false
unfolding newer
newer_asymmetric a b h =
    opposed _ _ (contains a "-") (contains b "-") (back_and_forth (parts a) (parts b)) h

onwards : (a b c : String) → newer a b ≡ true → newer b c ≡ true → newer a c ≡ true
unfolding newer
onwards a b c h k =
    decides _ _ _ (contains a "-") (contains b "-") (contains c "-")
      (compare_parts-Chain (parts a) (parts b) (parts c)) h k

-- The static source's "newer than" is a strict order: it passes on from version to version and
-- never holds both ways, so that no chain of newer versions leads back.
pub newer_trans :
    (a b c : String)
    → newer a b ≡ true
    → newer b c ≡ true
    → (newer a c ≡ true) × (newer c a ≡ false)
newer_trans a b c h k = let onward = onwards a b c h k in (onward, newer_asymmetric a c onward)
