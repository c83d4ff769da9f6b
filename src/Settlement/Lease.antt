-- ===== src/Settlement/Lease.antt =====
-- The cross-node lease authority of kry_settlement.py: `_acquire_lease`, under its lock, and `_lease_write`.
use kry.Base.{Bool, true, false, if◌then◌else◌, Option, none, some, List, [], ◌∷◌, ◌++◌, any, all}
use kry.Base.Texts.{Text, text_eq}
use kry.Base.Dicts.{lookup, insert}
use kry.Base.Results.{Result, ok, err, attribute_error, value_error, persistence_error, ◌>>=◌}
use kry.Double.{Double, add, sub, lt, le, nano, zero_double, is_finite}
use kry.Python.{Value, float, finite_number, positive, nonnegative}

-- A stored lease; `broken` is a value that has no `get`, or none to iterate over.
pub data RawLease : Type 0 where
  broken : RawLease
  lease : Option Value → Option Value → Text → RawLease

pub record Lease : Type 0 where
  pub amount : Double
  pub ts : Double
  pub nonce : Text

pub data LeaseFile : Type 0 where
  absent : LeaseFile
  unreadable : LeaseFile
  not_object : LeaseFile
  parties : List (Text × List RawLease) → LeaseFile

abbrev pub entries : LeaseFile → List (Text × List RawLease)
entries (parties d) = d
entries _ = []

-- `json.dumps` refuses a lease whose time is not finite.
abbrev pub is_dumpable : List Lease → Bool
is_dumpable ls = all (λ l. is_finite l.ts) ls

-- `_lease_lock` gives up after a minute, and a write may fail.
pub record LeaseDisk : Type 0 where
  pub locked : Bool
  pub writes : Bool

abbrev pub or_zero_value : Option Value → Value
or_zero_value none = float zero_double
or_zero_value (some v) = v

checked_lease : Option Value → Double → Text → Result (Option Lease)
checked_lease amount stamp nonce = do
  held ← finite_number (or_zero_value amount) positive
  ok (some (record { amount = held; ts = stamp; nonce = nonce }))

-- One lease of the comprehension: dropped once expired, checked otherwise.
unfoldable pub live_lease : Double → Double → RawLease → Result (Option Lease)
unfolding checked_lease
live_lease ttl now broken = err attribute_error
live_lease ttl now (lease amount ts nonce) = do
  stamp ← finite_number (or_zero_value ts) nonnegative
  (if lt (sub now stamp) ttl then checked_lease amount stamp nonce else ok none)

abbrev pub prepend : Option Lease → List Lease → List Lease
prepend none ls = ls
prepend (some l) ls = l ∷ ls

unfoldable pub live_leases : Double → Double → List RawLease → Result (List Lease)
live_leases ttl now [] = ok []
live_leases ttl now (l ∷ ls) = do
  x ← live_lease ttl now l
  xs ← live_leases ttl now ls
  ok (prepend x xs)

-- `sum(...)` from the left.
unfoldable pub held_from : Double → List Lease → Double
held_from acc [] = acc
held_from acc (l ∷ ls) = held_from (add acc l.amount) ls

abbrev pub held : List Lease → Double
held ls = held_from zero_double ls

abbrev stored_lease : Lease → RawLease
stored_lease l = lease (some (float l.amount)) (some (float l.ts)) l.nonce

unfoldable pub stored : List Lease → List RawLease
stored [] = []
stored (l ∷ ls) = stored_lease l ∷ stored ls

abbrev pub has_nonce : Text → List Lease → Bool
has_nonce nonce ls = any (λ l. text_eq l.nonce nonce) ls

abbrev pub leases_of : Text → List (Text × List RawLease) → List RawLease
leases_of party d = elim (lookup party d) [ none ↦ [] | some ls ↦ ls ]

-- The request at hand, and what it holds of the party's leases.
module _ (disk : LeaseDisk) (party : Text) (amount ceiling : Double) (nonce : Text)
    (now : Double) where
  -- The leases to store and whether the amount is granted.
  unfoldable pub decide : List Lease → List Lease × Bool
  decide ls =
      if has_nonce nonce ls
      then (ls, le (held ls) (add ceiling nano))
      else if le (add (held ls) amount) (add ceiling nano)
      then (ls ++ record { amount = amount; ts = now; nonce = nonce } ∷ [], true)
      else (ls, false)

  unfoldable pub store : List (Text × List RawLease) → List Lease × Bool → Result Bool × LeaseFile
  store d (ls, granted) =
      if is_dumpable ls
      then (if disk.writes
          then (ok granted, parties (insert party (stored ls) d))
          else (err persistence_error, parties d))
      else (err value_error, parties d)

  unfoldable pub grant_from :
      List (Text × List RawLease) → Result (List Lease) → Result Bool × LeaseFile
  unfolding decide store
  grant_from d (ok ls) = store d (decide ls)
  grant_from d (err _) = (ok false, parties d)

  unfoldable pub acquire_unlocked : Double → LeaseFile → Result Bool × LeaseFile
  unfolding grant_from
  acquire_unlocked ttl absent = store [] (decide [])
  acquire_unlocked ttl unreadable = (ok false, unreadable)
  acquire_unlocked ttl not_object = (err attribute_error, not_object)
  acquire_unlocked ttl (parties d) = grant_from d (live_leases ttl now (leases_of party d))

  unfoldable pub acquire_lease : Double → LeaseFile → Result Bool × LeaseFile
  unfolding acquire_unlocked
  acquire_lease ttl f = if disk.locked then acquire_unlocked ttl f else (err persistence_error, f)
