-- ===== src/Ledger/Longest.antt =====
-- The first prefix that matches, in the order of falling lengths, is a longest one.
use kry.Base.{
  ℕ, ◌+◌, ◌≤◌, ◌≡◌, refl, arith, leb, Bool, true, false, if◌then◌else◌, Option, none, some, List,
  [], ◌∷◌, length,
}
use kry.Base.Texts.{Text}
use kry.Double.{Double}
use kry.Ledger.Cost.{starts_with, put_by_length, by_length, first_match}

-- No entry that matches is longer than the one given, and some entry matches if one is given.
pub IsLongest : Text → List (Text × Double) → Option (Text × Double) → Type 0
IsLongest model [] o = Unit {0}
IsLongest model (x ∷ xs) o =
    (starts_with x.0 model ≡ true → (y : Text × Double) × (o ≡ some y) × (length x.0 ≤ length y.0))
    × IsLongest model xs o

-- The lengths fall along a list, from n on.
IsFalling : ℕ → List (Text × Double) → Type 0
IsFalling n [] = Unit {0}
IsFalling n (x ∷ xs) = (length x.0 ≤ n) × IsFalling (length x.0) xs

either-IsFalling :
    (b : Bool) (n : ℕ) (xs ys : List (Text × Double))
    → (b ≡ true → IsFalling n xs)
    → (b ≡ false → IsFalling n ys)
    → IsFalling n (if b then xs else ys)
either-IsFalling true n xs ys f g = f refl
either-IsFalling false n xs ys f g = g refl

put_by_length-IsFalling :
    (n : ℕ) (x : Text × Double) (ys : List (Text × Double))
    → length x.0 ≤ n
    → IsFalling n ys
    → IsFalling n (put_by_length x ys)
unfolding put_by_length IsFalling
put_by_length-IsFalling n x [] h f = (h, tt)
put_by_length-IsFalling n x (y ∷ ys) h f =
    either-IsFalling (leb (length y.0) (length x.0)) n (x ∷ y ∷ ys) (y ∷ put_by_length x ys)
      (λ e. (h, (ground arith, f.1)))
      (λ e. (f.0, put_by_length-IsFalling (length y.0) x ys (ground arith) f.1))

weaker : (n m : ℕ) (xs : List (Text × Double)) → n ≤ m → IsFalling n xs → IsFalling m xs
unfolding IsFalling
weaker n m [] h f = tt
weaker n m (x ∷ xs) h f = (omega (arith, h, f.0), f.1)

by_length-IsFalling : (xs : List (Text × Double)) → (n : ℕ) × IsFalling n (by_length xs)
unfolding by_length IsFalling
by_length-IsFalling [] = (0, tt)
by_length-IsFalling (x ∷ xs) =
    let (n, f) = by_length-IsFalling xs in
    (
      n + length x.0,
      put_by_length-IsFalling (n + length x.0) x (by_length xs) (omega arith)
          (weaker n (n + length x.0) (by_length xs) (omega arith) f),
    )

falling-IsLongest :
    (model : Text) (y : Text × Double) (n : ℕ) (xs : List (Text × Double))
    → n ≤ length y.0
    → IsFalling n xs
    → IsLongest model xs (some y)
unfolding IsFalling IsLongest
falling-IsLongest model y n [] h f = tt
falling-IsLongest model y n (x ∷ xs) h f = (
  (λ e. (y, refl, omega (arith, h, f.0))),
  falling-IsLongest model y (length x.0) xs (omega (arith, h, f.0)) f.1,
)

nil-IsLongest : (model : Text) → IsLongest model [] none
unfolding IsLongest
nil-IsLongest model = tt

head_or_rest :
    (b : Bool) (model : Text) (x : Text × Double) (xs : List (Text × Double))
    (o : Option (Text × Double))
    → starts_with x.0 model ≡ b
    → IsLongest model xs (some x)
    → IsLongest model xs o
    → IsLongest model (x ∷ xs) (if b then some x else o)
unfolding IsLongest
head_or_rest true model x xs o e f g = ((λ k. (x, refl, omega arith)), f)
head_or_rest false model x xs o e f g = ((λ k. cc), g)

first-IsLongest :
    (model : Text) (n : ℕ) (xs : List (Text × Double))
    → IsFalling n xs
    → IsLongest model xs (first_match model xs)
unfolding IsFalling first_match
first-IsLongest model n [] f = nil-IsLongest model
first-IsLongest model n (x ∷ xs) f =
    head_or_rest (starts_with x.0 model) model x xs (first_match model xs) refl
      (falling-IsLongest model x (length x.0) xs (omega arith) f.1)
      (first-IsLongest model (length x.0) xs f.1)

unput :
    (b : Bool) (model : Text) (x y : Text × Double) (ys zs : List (Text × Double))
    (o : Option (Text × Double))
    → (IsLongest model zs o → IsLongest model (x ∷ ys) o)
    → IsLongest model (if b then x ∷ y ∷ ys else y ∷ zs) o
    → IsLongest model (x ∷ y ∷ ys) o
unfolding IsLongest
unput true model x y ys zs o f g = g
unput false model x y ys zs o f g = ((f g.1).0, (g.0, (f g.1).1))

put_by_length-IsLongest :
    (model : Text) (x : Text × Double) (ys : List (Text × Double)) (o : Option (Text × Double))
    → IsLongest model (put_by_length x ys) o
    → IsLongest model (x ∷ ys) o
unfolding put_by_length
put_by_length-IsLongest model x [] o g = g
put_by_length-IsLongest model x (y ∷ ys) o g =
    unput (leb (length y.0) (length x.0)) model x y ys (put_by_length x ys) o
      (put_by_length-IsLongest model x ys o) g

by_length-IsLongest :
    (model : Text) (xs : List (Text × Double)) (o : Option (Text × Double))
    → IsLongest model (by_length xs) o
    → IsLongest model xs o
unfolding by_length IsLongest
by_length-IsLongest model [] o g = tt
by_length-IsLongest model (x ∷ xs) o g =
    let whole = put_by_length-IsLongest model x (by_length xs) o g in
    (whole.0, by_length-IsLongest model xs o whole.1)

-- Of any rate table, the first match in the order of falling lengths is at least as long as every prefix in
-- the table that the model starts with, and there is one if any prefix matches.
pub first_match-IsLongest :
    (model : Text) (table : List (Text × Double))
    → IsLongest model table (first_match model (by_length table))
first_match-IsLongest model table =
    let (n, f) = by_length-IsFalling table in
    by_length-IsLongest model table (first_match model (by_length table))
      (first-IsLongest model n (by_length table) f)
