-- ===== src/Base/Dicts.antt =====
-- Python's `dict` with string keys, in insertion order.
use mathlib.Core.Path.{◌≡◌, refl}
use mathlib.Core.Option.{Option, none, some}
use mathlib.Core.List.{List, [], ◌∷◌}
use native.Mathlib.Omega.{arith}
use kry.Base.Tests.{if◌then◌else◌}
use kry.Base.Texts.{Text, text_eq, text_eq_iff}

module _ {ℓ} {V : Type ℓ} where
  -- `d.get(k)`
  unfoldable pub lookup : Text → List (Text × V) → Option V
  unfolding text_eq
  lookup k [] = none
  lookup k ((j, v) ∷ d) = if text_eq j k then some v else lookup k d

  -- `d[k] = v`
  unfoldable pub insert : Text → V → List (Text × V) → List (Text × V)
  unfolding text_eq
  insert k v [] = (k, v) ∷ []
  insert k v ((j, w) ∷ d) = if text_eq j k then (j, v) ∷ d else (j, w) ∷ insert k v d

  pub lookup-insert :
      (k j : Text) (v : V) (d : List (Text × V))
      → lookup j (insert k v d) ≡ (if text_eq k j then some v else lookup j d)
  unfolding lookup insert
  lookup-insert k j v [] = refl
  lookup-insert k j v ((i, w) ∷ d) =
      ground (arith, lookup-insert k j v d, text_eq_iff i k, text_eq_iff i j, text_eq_iff k j)
