-- ===== src/Settlement/Accept.antt =====
-- `verify_and_accept`: party B's side of an offer.
use kry.Base.{
  Bool, true, false, ◌&&◌, not, ltb, if◌then◌else◌, Option, none, some, List, [], ◌∷◌, ◌++◌, take,
}
use kry.Base.Int.{ℤ, pos}
use kry.Base.Texts.{Text, text_eq}
use kry.Base.Dicts.{insert}
use kry.Base.Results.{Error, Result, ok, err, value_error, attribute_error}
use kry.Double.{Double, add, sub, lt, zero_double}
use kry.Python.{Value, int, float, finite_number, positive, nonnegative}
use kry.Settlement.Host.{SettlementOffer, RoutingGrant, Host}
use kry.Settlement.Chain.{Totals, total_of, is_tampered, load_registry}
use kry.Settlement.Lease.{LeaseDisk, LeaseFile, acquire_lease}
use kry.Settlement.Settle.{Reservation, Pending, Node, offer_identity, without, reservations}

-- What `verify_attestation` and `json.loads` make of the attestation text.
pub record Attestation : Type 0 where
  pub is_valid : Bool
  -- `json.loads` raises no ValueError
  pub parses : Bool
  pub total_kry : Option Value
  pub veracity_floor : Option Value

-- The optional policy hook: not set, or what it answered.
pub data Guard : Type 0 where
  unset allows refuses raises : Guard

pub data Rejection : Type 0 where
  invalid_amount invalid_tokens attestation_invalid guard_raised guard_refused floor_too_low :
      Rejection
  insufficient_balance registry_tampered double_spend lease_denied : Rejection

pub data Outcome (A : Type 0) : Type 0 where
  granted : A → Outcome A
  rejected : Rejection → Outcome A
  raised : Error → Outcome A

infixl 5 ◌>>=◌
abbrev pub ◌>>=◌ : {A B : Type 0} → Outcome A → (A → Outcome B) → Outcome B
granted a >>= f = f a
rejected r >>= f = rejected r
raised e >>= f = raised e

abbrev pub refuse_if : Bool → Rejection → Outcome (Unit {0})
refuse_if true r = rejected r
refuse_if false r = granted tt

-- `except ValueError: return None, ...`
abbrev pub on_value_error : {A : Type 0} → Rejection → Result A → Outcome A
on_value_error r (ok a) = granted a
on_value_error r (err value_error) = rejected r
on_value_error r (err e) = raised e

abbrev pub is_positive_int : Value → Bool
is_positive_int (int (pos n)) = ltb 0 n
is_positive_int _ = false

abbrev pub guard_answer : Guard → Outcome (Unit {0})
guard_answer unset = granted tt
guard_answer allows = granted tt
guard_answer refuses = rejected guard_refused
guard_answer raises = rejected guard_raised

abbrev pub zero_or : Option Value → Value
zero_or none = float zero_double
zero_or (some v) = v

-- `except (ValueError, AttributeError): floor = 0.0`
abbrev floor_or_zero : Result Double → Outcome Double
floor_or_zero (ok f) = granted f
floor_or_zero (err value_error) = granted zero_double
floor_or_zero (err attribute_error) = granted zero_double
floor_or_zero (err e) = raised e

unfoldable pub floor_check : Double → Option Value → Outcome (Unit {0})
floor_check required floor =
    if lt zero_double required
    then (do
      f ← floor_or_zero (finite_number (zero_or floor) nonnegative)
      refuse_if (lt f required) floor_too_low)
    else granted tt

-- The checks before any state is read: the amount offered and the attested balance.
unfoldable pub accept_checks :
    SettlementOffer → Attestation → Guard → Double → Outcome (Double × Double)
accept_checks o att guard required = do
  amount ← on_value_error invalid_amount (finite_number o.kry_amount positive)
  _ ← refuse_if (not (is_positive_int o.routing_tokens)) invalid_tokens
  _ ← refuse_if (not att.is_valid) attestation_invalid
  _ ← guard_answer guard
  _ ← refuse_if (not att.parses) attestation_invalid
  attested ← on_value_error attestation_invalid (finite_number (zero_or att.total_kry) nonnegative)
  _ ← floor_check required att.veracity_floor
  _ ← refuse_if (lt attested amount) insufficient_balance
  granted (amount, attested)

-- The reservations that still hold balance: not expired, and not of this very offer.
unfoldable pub live_reservations : Double → Double → Text → List Reservation → List Reservation
live_reservations ttl now k [] = []
live_reservations ttl now k (r ∷ rs) =
    let rest = live_reservations ttl now k rs in
    if lt (sub now r.ts) ttl && not (text_eq r.offer_id k) then r ∷ rest else rest

unfoldable pub reserved_from : Double → List Reservation → Double
reserved_from acc [] = acc
reserved_from acc (r ∷ rs) = reserved_from (add acc r.amount) rs

module _ (h : Host) (ttl now : Double) where
  -- The double-spend guard, on the totals of the registry.
  unfoldable pub reserve :
      SettlementOffer → Double → Double → Totals → Pending → Outcome (Unit {0}) × Pending
  reserve o amount attested totals p =
      let live = live_reservations ttl now (offer_identity h o) (reservations o.from_party p) in
      let available =
        sub (sub attested (total_of o.from_party totals)) (reserved_from zero_double live) in
      if is_tampered totals
      then (rejected registry_tampered, p)
      else if lt available amount
      then (rejected double_spend, insert o.from_party live p)
      else (
        granted tt,
        insert o.from_party
            (live ++ record { offer_id = offer_identity h o; amount = amount; ts = now } ∷ []) p,
      )

  unfoldable pub reserve_from :
      SettlementOffer → Double → Double → Result Totals → Pending → Outcome (Unit {0}) × Pending
  reserve_from o amount attested (ok totals) p = reserve o amount attested totals p
  reserve_from o amount attested (err e) p = (raised e, p)

  -- Dropping the reservation again, when the lease layer denies or raises.
  unfoldable pub drop_reservation : SettlementOffer → Pending → Pending
  drop_reservation o p =
      insert o.from_party (without (offer_identity h o) (reservations o.from_party p)) p

  unfoldable pub leased :
      SettlementOffer → Pending → Result Bool × LeaseFile → Outcome (Unit {0}) × Pending × LeaseFile
  leased o p (ok true, f) = (granted tt, p, f)
  leased o p (ok false, f) = (rejected lease_denied, drop_reservation o p, f)
  leased o p (err e, f) = (raised e, drop_reservation o p, f)

  -- With an authority directory configured, the amount is leased there too.
  unfoldable pub lease_step :
      Option LeaseDisk
      → SettlementOffer
      → Double
      → Double
      → Pending
      → LeaseFile
      → Outcome (Unit {0}) × Pending × LeaseFile
  unfolding leased
  lease_step none o amount attested p f = (granted tt, p, f)
  lease_step (some disk) o amount attested p f =
      leased o p (acquire_lease disk o.from_party amount attested (offer_identity h o) now ttl f)

  unfoldable pub after_reserve :
      Option LeaseDisk
      → SettlementOffer
      → Double
      → Double
      → LeaseFile
      → Outcome (Unit {0}) × Pending
      → Outcome (Unit {0}) × Pending × LeaseFile
  unfolding lease_step
  after_reserve disk o amount attested f (granted _, p) = lease_step disk o amount attested p f
  after_reserve disk o amount attested f (rejected r, p) = (rejected r, p, f)
  after_reserve disk o amount attested f (raised e, p) = (raised e, p, f)

  abbrev int_of : Value → ℤ
  int_of (int n) = n
  int_of _ = pos 0

  unfoldable pub grant_of : SettlementOffer → Double → Double → RoutingGrant
  grant_of o amount attested = record {
    grant_id =
        take 12
          (h.sha256 (o.offer_id ++ (b':' ∷ (o.to_party ++ (b':' ∷ h.value_text (float now))))));
    offer_id = o.offer_id;
    granted_by = o.to_party;
    routing_tokens = int_of o.routing_tokens;
    accepted_kry = float amount;
    ts = float now;
    attested_balance = attested;
  }

  unfoldable pub conclude :
      SettlementOffer
      → Node
      → Double
      → Double
      → Outcome (Unit {0}) × Pending × LeaseFile
      → Outcome RoutingGrant × Node × LeaseFile
  conclude o n amount attested (granted _, p, f) =
      (granted (grant_of o amount attested), record n { pending = p }, f)
  conclude o n amount attested (rejected r, p, f) = (rejected r, record n { pending = p }, f)
  conclude o n amount attested (raised e, p, f) = (raised e, record n { pending = p }, f)

  unfoldable pub accept_with :
      Option LeaseDisk
      → SettlementOffer
      → Node
      → LeaseFile
      → Outcome (Double × Double)
      → Outcome RoutingGrant × Node × LeaseFile
  unfolding after_reserve reserve_from conclude
  accept_with disk o n f (rejected r) = (rejected r, n, f)
  accept_with disk o n f (raised e) = (raised e, n, f)
  accept_with disk o n f (granted (amount, attested)) = conclude o n amount attested (
      after_reserve disk o amount attested f
        (reserve_from o amount attested (load_registry h n.registry) n.pending))

  unfoldable pub verify_and_accept :
      Option LeaseDisk
      → SettlementOffer
      → Attestation
      → Guard
      → Double
      → Node
      → LeaseFile
      → Outcome RoutingGrant × Node × LeaseFile
  unfolding accept_with
  verify_and_accept disk o att guard required n f =
      accept_with disk o n f (accept_checks o att guard required)
