-- ===== src/Base/Results.antt =====
-- Exceptions as values: the kinds that the code tells apart.
use kry.Base.Tests.{if◌then◌else◌}
use mathlib.Core.Path.{◌≡◌, refl}
use mathlib.Core.Logic.{◌⊎◌, inl, inr}
use mathlib.Core.Bool.{Bool, true, false}

pub data Error : Type 0 where
  value_error type_error attribute_error overflow_error persistence_error callback_error
        corrupt_error os_error :
      Error

-- What a call ends in: an exception it raises, or a value it returns.
pub data Result {κ} (V : Type κ) : Type κ where
  err : (raised : Error) → Result V
  ok : (returned : V) → Result V

-- A statement `if c: raise x`.
abbrev pub raise_if : Bool → Error → Result (Unit {0})
raise_if false _ = ok tt
raise_if true x = err x

pub ok-injective {κ} : {V : Type κ} {v w : V} → ok v ≡ ok w → v ≡ w
ok-injective same = cc

pub if_ok {κ} :
    {V : Type κ} (c : Bool) (v w : V) (x : Error)
    → if◌then◌else◌ {A = Result V} c (ok v) (err x) ≡ ok w
    → (c ≡ true) × (w ≡ v)
if_ok false v w x same = cc
if_ok true v w x same = (refl, cc)

infixl 5 ◌>>◌ ◌>>=◌
-- One statement after another: an exception skips the rest.
abbrev pub ◌>>=◌ {κ μ} :
    {V : Type κ} {W : Type μ} (first : Result V) (rest : V → Result W) → Result W
err x >>= rest = err x
ok v >>= rest = rest v

abbrev pub ◌>>◌ {κ} : {W : Type κ} (first : Result (Unit {0})) (rest : Result W) → Result W
first >> rest = first >>= λ (_ : Unit {0}). rest

-- A block that returned a value: its first statement did, and so did the rest.
pub >>=-eq-ok {κ μ} :
    {V : Type κ} {W : Type μ} (first : Result V) (rest : V → Result W) {w : W}
    (whole : (first >>= rest) ≡ ok w)
    → (v : V) × (first ≡ ok v) × (rest v ≡ ok w)
>>=-eq-ok (err x) rest whole = cc
>>=-eq-ok (ok v) rest whole = (v, refl, whole)

pub Result-cases {κ} :
    {V : Type κ} (r : Result V) → ((x : Error) × (r ≡ err x)) ⊎ ((v : V) × (r ≡ ok v))
Result-cases (err x) = inl (x, refl)
Result-cases (ok v) = inr (v, refl)
