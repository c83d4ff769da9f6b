-- ===== src/Base/Split.antt =====
-- A text is split in one way only at a separator that one side is free of.
use Prim.Native.Nat.{ℕ}
use mathlib.Core.Path.{◌≡◌, refl}
use mathlib.Core.Bool.{true, false, ◌||◌}
use mathlib.Core.List.{[], ◌∷◌, ◌++◌}
use native.Mathlib.Omega.{arith}
use kry.Base.Texts.{Text, has_code}

pub ∷-injective : {x y : ℕ} {xs ys : Text} → x ∷ xs ≡ y ∷ ys → (x ≡ y) × (xs ≡ ys)
∷-injective h = (cc, cc)

pub has_code-append : (c : ℕ) (s t : Text) → has_code c (s ++ t) ≡ (has_code c s || has_code c t)
unfolding has_code
has_code-append c [] t = refl
has_code-append c (x ∷ s) t = ground (arith, has_code-append c s t)

has_code-middle : (c : ℕ) (s t : Text) → has_code c (s ++ c ∷ t) ≡ true
unfolding has_code
has_code-middle c [] t = ground arith
has_code-middle c (x ∷ s) t = ground (arith, has_code-middle c s t)

module _ (c : ℕ) where
  pub split_first :
      (p q r s : Text)
      → has_code c p ≡ false
      → has_code c q ≡ false
      → p ++ c ∷ r ≡ q ++ c ∷ s
      → (p ≡ q) × (r ≡ s)
  unfolding has_code
  split_first [] [] r s hp hq e = (refl, cc)
  split_first [] (y ∷ q) r s hp hq e = ground arith
  split_first (x ∷ p) [] r s hp hq e = ground arith
  split_first (x ∷ p) (y ∷ q) r s hp hq e = ground (arith, split_first p q r s)

  pub split_last :
      (p q r s : Text)
      → has_code c r ≡ false
      → has_code c s ≡ false
      → p ++ c ∷ r ≡ q ++ c ∷ s
      → (p ≡ q) × (r ≡ s)
  unfolding has_code
  split_last [] [] r s hr hs e = (refl, cc)
  split_last [] (y ∷ q) r s hr hs e = ground (arith, has_code-middle c q s)
  split_last (x ∷ p) [] r s hr hs e = ground (arith, has_code-middle c p r)
  split_last (x ∷ p) (y ∷ q) r s hr hs e = ground (arith, split_last p q r s)
