-- ===== src/Json/Limits.antt =====
-- `_check_value_limits`: the bounds on nesting and on integers, by a loop over a stack.
use kry.Base.{
  ℕ, zero, suc, ◌+◌, ◌^◌, ◌≤◌, ◌<◌, ◌≡◌, refl, arith, Bool, true, false, ◌&&◌, leb, ltb,
  if◌then◌else◌, List, [], ◌∷◌,
}
use kry.Base.Int.{pos_part, neg_part}
use kry.Json.Values.{
  Json, null, bool, int, float, str, arr, obj, Items, nil, cons, Fields, end, field,
}

-- 10 ** 640
unfoldable pub integer_limit : ℕ
integer_limit = 10 ^ 640

abbrev pub depth_limit : ℕ
depth_limit = 64

pub data Limits : Type 0 where
  within : Limits
  too_many_digits : Limits
  too_deep : Limits
  out_of_fuel : Limits

abbrev pub Stack : Type 0
Stack = List (Json × ℕ)

-- `stack.extend((child, depth) for child in children)`; the top of the stack stands first.
unfoldable pub push_items : ℕ → Items → Stack → Stack
push_items d nil st = st
push_items d (cons v vs) st = push_items d vs ((v, d) ∷ st)

unfoldable pub push_fields : ℕ → Fields → Stack → Stack
push_fields d end st = st
push_fields d (field k v vs) st = push_fields d vs ((v, d) ∷ st)

-- Every round pops an item.
unfoldable pub check_stack : ℕ → Stack → Limits
unfolding push_items push_fields
check_stack fuel [] = within
check_stack zero (x ∷ st) = out_of_fuel
check_stack (suc fuel) ((null, d) ∷ st) = check_stack fuel st
check_stack (suc fuel) ((bool b, d) ∷ st) = check_stack fuel st
check_stack (suc fuel) ((float x, d) ∷ st) = check_stack fuel st
check_stack (suc fuel) ((str s, d) ∷ st) = check_stack fuel st
check_stack (suc fuel) ((int n, d) ∷ st) =
    let rest = check_stack fuel st in
    if leb integer_limit (pos_part n + neg_part n) then too_many_digits else rest
check_stack (suc fuel) ((arr vs, d) ∷ st) =
    let rest = check_stack fuel (push_items (d + 1) vs st) in
    if ltb depth_limit (d + 1) then too_deep else rest
check_stack (suc fuel) ((obj vs, d) ∷ st) =
    let rest = check_stack fuel (push_fields (d + 1) vs st) in
    if ltb depth_limit (d + 1) then too_deep else rest

-- The number of values in a value.
unfoldable mutual
  pub size : Json → ℕ
  size null = 1
  size (bool b) = 1
  size (int n) = 1
  size (float x) = 1
  size (str s) = 1
  size (arr vs) = suc (size_items vs)
  size (obj d) = suc (size_fields d)

  pub size_items : Items → ℕ
  size_items nil = 0
  size_items (cons v vs) = size v + size_items vs

  pub size_fields : Fields → ℕ
  size_fields end = 0
  size_fields (field k v d) = size v + size_fields d

unfoldable pub check_value_limits : Json → Limits
unfolding check_stack size
check_value_limits v = check_stack (size v) ((v, 0) ∷ [])

-- The same by recursion: integers of at most 640 digits, and at most 64 containers around any value, of
-- which d stand around this one.
unfoldable mutual
  pub in_limits : ℕ → Json → Bool
  in_limits d null = true
  in_limits d (bool b) = true
  in_limits d (float x) = true
  in_limits d (str s) = true
  in_limits d (int n) = ltb (pos_part n + neg_part n) integer_limit
  in_limits d (arr vs) = if ltb depth_limit (d + 1) then false else items_in_limits (d + 1) vs
  in_limits d (obj vs) = if ltb depth_limit (d + 1) then false else fields_in_limits (d + 1) vs

  pub items_in_limits : ℕ → Items → Bool
  items_in_limits d nil = true
  items_in_limits d (cons v vs) = in_limits d v && items_in_limits d vs

  pub fields_in_limits : ℕ → Fields → Bool
  fields_in_limits d end = true
  fields_in_limits d (field k v vs) = in_limits d v && fields_in_limits d vs

stack_in_limits : Stack → Bool
unfolding in_limits
stack_in_limits [] = true
stack_in_limits ((v, d) ∷ st) = in_limits d v && stack_in_limits st

stack_size : Stack → ℕ
unfolding size
stack_size [] = 0
stack_size ((v, d) ∷ st) = size v + stack_size st

push_items-in_limits :
    (d : ℕ) (vs : Items) (st : Stack)
    → (stack_in_limits (push_items d vs st) ≡ items_in_limits d vs && stack_in_limits st)
      × (stack_size (push_items d vs st) ≡ size_items vs + stack_size st)
unfolding push_items stack_in_limits stack_size size in_limits
push_items-in_limits d nil st = (refl, omega arith)
push_items-in_limits d (cons v vs) st = ground (arith, push_items-in_limits d vs ((v, d) ∷ st))

push_fields-in_limits :
    (d : ℕ) (vs : Fields) (st : Stack)
    → (stack_in_limits (push_fields d vs st) ≡ fields_in_limits d vs && stack_in_limits st)
      × (stack_size (push_fields d vs st) ≡ size_fields vs + stack_size st)
unfolding push_fields stack_in_limits stack_size size in_limits
push_fields-in_limits d end st = (refl, omega arith)
push_fields-in_limits d (field k v vs) st = ground (arith, push_fields-in_limits d vs ((v, d) ∷ st))

abbrev pub is_within : Limits → Bool
is_within within = true
is_within _ = false

abbrev pub is_out_of_fuel : Limits → Bool
is_out_of_fuel out_of_fuel = true
is_out_of_fuel _ = false

size-pos : (v : Json) → 0 < size v
unfolding size
size-pos null = omega arith
size-pos (bool b) = omega arith
size-pos (int n) = omega arith
size-pos (float x) = omega arith
size-pos (str s) = omega arith
size-pos (arr vs) = omega arith
size-pos (obj d) = omega arith

check_stack-in_limits :
    (fuel : ℕ) (st : Stack)
    → stack_size st ≤ fuel
    → (is_within (check_stack fuel st) ≡ stack_in_limits st)
      × (is_out_of_fuel (check_stack fuel st) ≡ false)
unfolding check_stack stack_in_limits stack_size in_limits size
check_stack-in_limits fuel [] h = (refl, refl)
check_stack-in_limits zero ((v, d) ∷ st) h = absurd (omega (arith, size-pos v))
check_stack-in_limits (suc fuel) ((null, d) ∷ st) h = check_stack-in_limits fuel st (omega arith)
check_stack-in_limits (suc fuel) ((bool b, d) ∷ st) h = check_stack-in_limits fuel st (omega arith)
check_stack-in_limits (suc fuel) ((float x, d) ∷ st) h = check_stack-in_limits fuel st (omega arith)
check_stack-in_limits (suc fuel) ((str s, d) ∷ st) h = check_stack-in_limits fuel st (omega arith)
check_stack-in_limits (suc fuel) ((int n, d) ∷ st) h = ground (arith, check_stack-in_limits fuel st)
check_stack-in_limits (suc fuel) ((arr vs, d) ∷ st) h = ground (
  arith,
  push_items-in_limits (d + 1) vs st,
  check_stack-in_limits fuel (push_items (d + 1) vs st),
)
check_stack-in_limits (suc fuel) ((obj vs, d) ∷ st) h = ground (
  arith,
  push_fields-in_limits (d + 1) vs st,
  check_stack-in_limits fuel (push_fields (d + 1) vs st),
)

-- The loop over the stack ends, and accepts exactly the values whose integers have at most 640 digits and
-- whose arrays and objects are at most 64 deep.
pub check_value_limits-in_limits :
    (v : Json)
    → (is_within (check_value_limits v) ≡ in_limits 0 v)
      × (is_out_of_fuel (check_value_limits v) ≡ false)
unfolding check_value_limits stack_in_limits stack_size
check_value_limits-in_limits v = ground (arith, check_stack-in_limits (size v) ((v, 0) ∷ []))
