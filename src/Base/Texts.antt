-- ===== src/Base/Texts.antt =====
-- Python's `str` as a list of code points: equality, membership, joins and the order of `sorted`.
use Prim.Native.Char.{code}
use Prim.Native.String.{String}
use Prim.Native.Nat.{ℕ, compare, Ordering}
use mathlib.Core.Path.{◌≡◌, refl}
use mathlib.Core.Logic.{◌↔◌}
use mathlib.Core.Bool.{Bool, true, false, ◌&&◌, ◌||◌}
use mathlib.Core.List.{List, [], ◌∷◌, ◌++◌}
use native.Mathlib.Omega.{arith}
use kry.Base.Tests.{◌==◌, if◌then◌else◌}

abbrev pub Text : Type 0
Text = List ℕ

abbrev pub codes : String → Text
codes String.[] = []
codes (String.◌∷◌ c s) = code c ∷ codes s

unfoldable pub text_eq : Text → Text → Bool
text_eq [] [] = true
text_eq [] (y ∷ ys) = false
text_eq (x ∷ xs) [] = false
text_eq (x ∷ xs) (y ∷ ys) = x == y && text_eq xs ys

pub text_eq_iff : (s t : Text) → (text_eq s t ≡ true) ↔ (s ≡ t)
unfolding text_eq
text_eq_iff [] [] = ground arith
text_eq_iff [] (y ∷ ys) = ground arith
text_eq_iff (x ∷ xs) [] = ground arith
text_eq_iff (x ∷ xs) (y ∷ ys) = ground (arith, text_eq_iff xs ys)

pub text_eq_refl : (s : Text) → text_eq s s ≡ true
text_eq_refl s = (text_eq_iff s s).1 refl

-- `c in s`, for one character.
unfoldable pub has_code : ℕ → Text → Bool
has_code c [] = false
has_code c (x ∷ xs) = x == c || has_code c xs

-- `s in ts`.
unfoldable pub mem_text : Text → List Text → Bool
mem_text s [] = false
mem_text s (t ∷ ts) = text_eq s t || mem_text s ts

-- `",".join(ts)`.
unfoldable pub join : Text → List Text → Text
join sep [] = []
join sep (t ∷ []) = t
join sep (t ∷ u ∷ ts) = t ++ (sep ++ join sep (u ∷ ts))

-- The order of `str`: lexicographic by code point.
unfoldable pub text_le : Text → Text → Bool
text_le [] t = true
text_le (x ∷ xs) [] = false
text_le (x ∷ xs) (y ∷ ys) =
    let rest = text_le xs ys in
    elim (compare x y) [ Ordering.lt ↦ true | Ordering.eq ↦ rest | Ordering.gt ↦ false ]

unfoldable pub insert_sorted : Text → List Text → List Text
insert_sorted s [] = s ∷ []
insert_sorted s (t ∷ ts) =
    let rest = insert_sorted s ts in if text_le s t then s ∷ t ∷ ts else t ∷ rest

-- `sorted(ts)`.
unfoldable pub sorted : List Text → List Text
unfolding insert_sorted text_le
sorted [] = []
sorted (t ∷ ts) = insert_sorted t (sorted ts)

-- `len(set(ts)) != len(ts)`.
unfoldable pub has_dup : List Text → Bool
unfolding mem_text text_eq
has_dup [] = false
has_dup (t ∷ ts) = mem_text t ts || has_dup ts
