-- ===== src/Base/Joins.antt =====
-- A character that no text of a list has is not in their sorted join, unless the separator has it.
use Prim.Native.Nat.{ℕ}
use mathlib.Core.Path.{◌≡◌, refl}
use mathlib.Core.Bool.{false}
use mathlib.Core.List.{List, [], ◌∷◌, ◌++◌}
use native.Mathlib.Omega.{arith}
use kry.Base.Texts.{Text, has_code, join, insert_sorted, sorted}
use kry.Base.Split.{has_code-append}

module _ (c : ℕ) where
  abbrev pub IsFree : List Text → Type 0
  IsFree [] = Unit
  IsFree (t ∷ ts) = (has_code c t ≡ false) × IsFree ts

  insert_sorted-IsFree :
      (t : Text) (ts : List Text) → has_code c t ≡ false → IsFree ts → IsFree (insert_sorted t ts)
  unfolding insert_sorted
  insert_sorted-IsFree t [] h hs = (h, tt)
  insert_sorted-IsFree t (u ∷ ts) h hs = ground (arith, insert_sorted-IsFree t ts h hs.1)

  sorted-IsFree : (ts : List Text) → IsFree ts → IsFree (sorted ts)
  unfolding sorted
  sorted-IsFree [] h = tt
  sorted-IsFree (t ∷ ts) h = insert_sorted-IsFree t (sorted ts) h.0 (sorted-IsFree ts h.1)

  join-IsFree :
      (sep : Text) (ts : List Text)
      → has_code c sep ≡ false
      → IsFree ts
      → has_code c (join sep ts) ≡ false
  unfolding join
  join-IsFree sep [] s h = unfold has_code in refl
  join-IsFree sep (t ∷ []) s h = h.0
  join-IsFree sep (t ∷ u ∷ ts) s h = ground (
    arith,
    has_code-append c t (sep ++ join sep (u ∷ ts)),
    has_code-append c sep (join sep (u ∷ ts)),
    join-IsFree sep (u ∷ ts) s h.1,
  )

  pub join-sorted-IsFree :
      (sep : Text) (ts : List Text)
      → has_code c sep ≡ false
      → IsFree ts
      → has_code c (join sep (sorted ts)) ≡ false
  join-sorted-IsFree sep ts s h = join-IsFree sep (sorted ts) s (sorted-IsFree ts h)
