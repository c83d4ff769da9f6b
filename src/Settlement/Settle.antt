-- ===== src/Settlement/Settle.antt =====
-- `settle`, `_settle_locked`, `_forward_conserved` and `verify_conservation`: debit A, credit B, and the
-- registry obligation between them.  The receiver's lock and the registry's locks make the call one step.
use kry.Base.{
  Bool, true, false, ◌&&◌, ◌||◌, not, if◌then◌else◌, Option, none, some, List, [], ◌∷◌, ◌++◌, take,
}
use kry.Base.Int.{ℤ, ◌+ℤ◌}
use kry.Base.Texts.{Text, text_eq}
use kry.Base.Dicts.{lookup, insert}
use kry.Base.Results.{Result, ok, err, value_error, persistence_error, ◌>>=◌, ◌>>◌, raise_if}
use kry.Double.{Double, add, sub, abs, lt, le, eq, nano, micro, zero_double, is_finite}
use kry.Python.{Value, float, finite_number, as_float, positive, nonnegative}
use kry.Settlement.Host.{
  SettlementOffer, RoutingGrant, Basis, measured, self_asserted, SettlementReceipt, Host,
}
use kry.Settlement.Entries.{Line, lines_of, Tip, read_tip, Registry}
use kry.Settlement.Chain.{total_of, is_tampered, load_registry}
use kry.Settlement.Record.{Disk, record_settled, rollback_registry, record_partial_debit}

-- Accepted and not yet settled amounts, by party: `_PENDING_RESERVATIONS`.
pub record Reservation : Type 0 where
  pub offer_id : Text
  pub amount : Double
  pub ts : Double

abbrev pub Pending : Type 0
Pending = List (Text × List Reservation)

pub record Node : Type 0 where
  pub registry : Registry
  pub pending : Pending

-- Party B's `ReceiverLedger`, without its lock.
pub record ReceiverLedger : Type 0 where
  pub received_kry : Value
  pub routing_sold : ℤ
  pub settlements : List Text

abbrev max_of : Double → Double → Double
max_of m x = if lt m x then x else m

unfoldable pub forward_conserved : Double → Double → Double → Double → Double → Bool
forward_conserved a_before a_after b_before b_after amount =
    let a_lost = sub a_before a_after in
    let b_gained = sub b_after b_before in
    lt zero_double a_lost
    && lt zero_double b_gained
    && eq a_after (sub a_before amount)
    && eq b_after (add b_before amount)
    && le
        (max_of (max_of (abs (sub a_lost amount)) (abs (sub b_gained amount)))
          (abs (sub a_lost b_gained)))
        micro

module _ (h : Host) where
  -- `_offer_identity`
  unfoldable pub offer_identity : SettlementOffer → Text
  offer_identity o = h.sha256 (
      o.from_party
      ++ (b':'
          ∷ (o.to_party
              ++ (b':'
                  ∷ (h.value_text o.kry_amount
                      ++ (b':' ∷ (h.value_text o.routing_tokens ++ (b':' ∷ h.value_text o.ts))))))))

  -- The commit-time check against the persisted total; a grant built by hand has no ceiling.
  unfoldable pub ceiling_check : RoutingGrant → Text → Double → Registry → Result (Unit {0})
  ceiling_check g party amount r =
      if le zero_double g.attested_balance
      then (do
        committed ← load_registry h r
        raise_if (is_tampered committed) persistence_error
        raise_if (lt (add g.attested_balance nano) (add (total_of party committed) amount))
            persistence_error)
      else ok tt

-- `except ValueError` around `_read_tip`
abbrev pub tip_before : Result (Option Tip) → Result (Option Tip)
tip_before (err value_error) = err persistence_error
tip_before r = r

-- What is checked before anything is written; the tip is kept for a rollback.
unfoldable pub commit_checks :
    (h : Host) → RoutingGrant → Text → Double → Double → Double → Registry → Result (Option Tip)
commit_checks h g party amount a_before b_before r = do
  projected ← finite_number (float (add b_before amount)) nonnegative
  raise_if (not (forward_conserved a_before (sub a_before amount) b_before projected amount))
      persistence_error
  ceiling_check h g party amount r
  tip_before (read_tip r.tip)

-- Appends to the list of one party's reservations go through here: all but the offer's own.
unfoldable pub without : Text → List Reservation → List Reservation
without k [] = []
without k (r ∷ rs) = let rest = without k rs in if text_eq r.offer_id k then rest else r ∷ rest

abbrev pub or_nil : Option (List Reservation) → List Reservation
or_nil none = []
or_nil (some rs) = rs

abbrev pub reservations : Text → Pending → List Reservation
reservations party p = or_nil (lookup party p)

-- HOLE #9: the reservation is released however the locked block ends.
unfoldable pub release : (h : Host) → SettlementOffer → Pending → Pending
unfolding without
release h o p = insert o.from_party (without (offer_identity h o) (reservations o.from_party p)) p

-- The debit's answer, after the obligation is recorded.
module _ (h : Host) (d : Disk) (amount : Double) (before : List Line) (tip : Option Tip) where
  unfoldable pub shortfall : Double → Registry → Registry
  shortfall debited r =
      if lt zero_double debited
      then (record_partial_debit h d.partial before debited r).1
      else rollback_registry d.rollback before tip r

  unfoldable pub after_debit : Result Double → Registry → Result Double × Registry
  unfolding shortfall
  after_debit (err e) r = (err e, r)
  after_debit (ok debited) r =
      if lt nano (abs (sub debited amount))
      then (err persistence_error, shortfall debited r)
      else (ok debited, r)

module _ (h : Host) (d : Disk) (debit : Double → Result Value) where
  unfoldable pub after_record :
      Double → List Line → Option Tip → Result (Unit {0}) × Registry → Result Double × Registry
  after_record amount before tip (err e, r) = (err e, r)
  after_record amount before tip (ok _, r) =
      after_debit h d amount before tip (do v ← debit amount; finite_number v nonnegative) r

  unfoldable pub after_checks :
      RoutingGrant → Text → Double → Registry → Result (Option Tip) → Result Double × Registry
  after_checks g party amount r (err e) = (err e, r)
  after_checks g party amount r (ok tip) =
      after_record amount (lines_of r.file) tip
        (record_settled h d party (float amount) g.grant_id r)

  -- The block under the registry locks: the amount debited, and the registry.
  unfoldable pub commit :
      RoutingGrant → Text → Double → Double → Double → Registry → Result Double × Registry
  unfolding after_record after_checks
  commit g party amount a_before b_before r =
      after_checks g party amount r (commit_checks h g party amount a_before b_before r)

-- A's balance after the debit, read independently or inferred, and whether KRY is conserved.
unfoldable pub observe :
    Option (Result Value) → Double → Double → Double → Double → Result (Double × Bool × Basis)
observe none a_before b_before b_after debited = ok (sub a_before debited, true, self_asserted)
observe (some read) a_before b_before b_after debited = do
  v ← read
  a_after ← finite_number v nonnegative
  ok (
    a_after,
    lt a_after a_before
        && lt b_before b_after
        && (lt (abs (sub (sub a_before a_after) debited)) nano
            || forward_conserved a_before a_after b_before b_after debited),
    measured,
  )

-- `json.dumps(..., allow_nan=False)` refuses a float that is not finite.
abbrev dumpable : Value → Bool
dumpable (float d) = is_finite d
dumpable _ = true

unfoldable pub receipt_dumpable : SettlementReceipt → Bool
receipt_dumpable r =
    dumpable r.offer.kry_amount
    && dumpable r.offer.routing_tokens
    && dumpable r.offer.ts
    && dumpable r.grant.accepted_kry
    && dumpable r.grant.ts
    && is_finite r.grant.attested_balance
    && is_finite r.a_balance_before
    && is_finite r.a_balance_after
    && is_finite r.b_received_before
    && is_finite r.b_received_after

module _ (h : Host) where
  unfoldable pub receipt_of :
      SettlementOffer
      → RoutingGrant
      → Double
      → Double
      → Double
      → Double
      → Double × Bool × Basis
      → SettlementReceipt
  receipt_of o g a_before b_before b_after debited (a_after, conserved, basis) = record {
    receipt_id =
        take 12
          (h.sha256 (o.offer_id ++ (b':' ∷ (g.grant_id ++ (b':' ∷ h.value_text (float debited))))));
    offer = o;
    grant = g;
    a_balance_before = a_before;
    a_balance_after = a_after;
    b_received_before = b_before;
    b_received_after = b_after;
    conserved = conserved;
    conservation_basis = basis;
    receipt_hash = [];
  }

  unfoldable pub sign : SettlementReceipt → Result SettlementReceipt
  sign r =
      if receipt_dumpable r
      then ok (record r { receipt_hash = h.sha256 (h.receipt_text r) })
      else err value_error

  -- After the locks: the receipt.
  unfoldable pub finish :
      SettlementOffer
      → RoutingGrant
      → Option (Result Value)
      → Double
      → Double
      → Result Double
      → Result SettlementReceipt
  unfolding sign
  finish o g after a_before b_before debited = do
    moved ← debited
    let b_after = add b_before moved
    seen ← observe after a_before b_before b_after moved
    sign (receipt_of o g a_before b_before b_after moved seen)

-- B's ledger after a receipt; an exception leaves it alone.
unfoldable pub credit : RoutingGrant → Result SettlementReceipt → ReceiverLedger → ReceiverLedger
credit g (err _) b = b
credit g (ok r) b = record {
  received_kry = float r.b_received_after;
  routing_sold = b.routing_sold +ℤ g.routing_tokens;
  settlements = b.settlements ++ r.receipt_id ∷ [];
}

abbrev pub Inputs : Type 0
Inputs = Double × Double × Double

-- The three numbers that are checked before the locks are taken.
unfoldable pub settle_inputs : RoutingGrant → Value → ReceiverLedger → Result Inputs
settle_inputs g a_balance_before b = do
  amount ← finite_number g.accepted_kry positive
  a_before ← finite_number a_balance_before nonnegative
  b_before ← finite_number b.received_kry nonnegative
  ok (amount, a_before, b_before)

module _ (h : Host) (d : Disk) (debit : Double → Result Value) (after : Option (Result Value)) where
  unfoldable pub settle_with :
      SettlementOffer
      → RoutingGrant
      → ReceiverLedger
      → Node
      → Result Inputs
      → Result SettlementReceipt × ReceiverLedger × Node
  settle_with o g b n (err e) = (err e, b, n)
  settle_with o g b n (ok (amount, a_before, b_before)) =
      let (debited, registry) =
        commit h d debit g o.from_party amount a_before b_before n.registry in
      let receipt = finish h o g after a_before b_before debited in
      (receipt, credit g receipt b, record { registry = registry; pending = release h o n.pending })

  unfoldable pub settle :
      SettlementOffer
      → RoutingGrant
      → Value
      → ReceiverLedger
      → Node
      → Result SettlementReceipt × ReceiverLedger × Node
  unfolding settle_with
  settle o g a_balance_before b n = settle_with o g b n (settle_inputs g a_balance_before b)

-- The second test of the auditor's check, on the accepted amount.  On one that is no number the source raises,
-- or counts a bool as 1; here it gives false.
unfoldable pub agrees : SettlementReceipt → Result Double → Bool
agrees r (err _) = false
agrees r (ok amount) =
    forward_conserved r.a_balance_before r.a_balance_after r.b_received_before r.b_received_after
      amount

-- `verify_conservation`, an auditor's check.
unfoldable pub verify_conservation : SettlementReceipt → Bool
unfolding agrees
verify_conservation r =
    let a_lost = sub r.a_balance_before r.a_balance_after in
    let b_gained = sub r.b_received_after r.b_received_before in
    r.conserved
    && lt zero_double a_lost
    && lt zero_double b_gained
    && (lt (abs (sub a_lost b_gained)) nano || agrees r (as_float r.grant.accepted_kry))
