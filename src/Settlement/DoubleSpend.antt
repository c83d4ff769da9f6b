-- ===== src/Settlement/DoubleSpend.antt =====
-- The double-spend guards together: two accepts, an accept and its settlement, a denied lease, and a party
-- whose name is the poison key of the registry.
use kry.Base.{
  subst₂, ◌+◌, ◌≡◌, refl, true, false, not, Option, List, [], ◌∷◌, ◌++◌, arith, subst, sym, ◌∙◌, ap,
  length,
}
use kry.Base.Texts.{Text, text_eq}
use kry.Base.Results.{Result, ok, ok-injective}
use kry.Double.{
  is_finite, inf, minus_inf, nan, Double, fin, add, sub, lt, le, nano, zero_double, IsCountable,
}
use kry.Python.{Value, finite_number, positive, nonnegative, finite_number_sound, below_bound}
use kry.Settlement.Host.{SettlementOffer, RoutingGrant, SettlementReceipt, Host}
use kry.Settlement.Grants.{is_empty}
use kry.Settlement.Entries.{Entry, registry_entries}
use kry.Settlement.Record.{Disk}
use kry.Settlement.Chain.{Totals, total_of, load_registry, verify_registry}
use kry.Settlement.Lease.{LeaseDisk, LeaseFile}
use kry.Settlement.Settle.{Reservation, Node, ReceiverLedger, offer_identity, reservations, settle}
use kry.Settlement.Ceiling.{settle_ceiling}
use kry.Settlement.Accept.{
  invalid_amount, is_positive_int, invalid_tokens, attestation_invalid, guard_answer,
  insufficient_balance, Attestation, Guard, Rejection, Outcome, granted, rejected, raised, ◌>>=◌,
  zero_or, on_value_error, floor_check, refuse_if, accept_checks, live_reservations, reserved_from,
  grant_of, verify_and_accept,
}
use kry.Settlement.Accepted.{
  reservation_of, others, IsReserved, IsAccepted, verify_and_accept-granted,
}

pub >>=-eq-granted :
    {A B : Type 0} (m : Outcome A) (f : A → Outcome B) {b : B}
    → (m >>= f) ≡ granted b
    → (a : A) × (m ≡ granted a) × (f a ≡ granted b)
>>=-eq-granted (granted a) f e = (a, refl, e)
>>=-eq-granted (rejected r) f e = cc
>>=-eq-granted (raised r) f e = cc

granted-injective : {A : Type 0} {a b : A} → granted a ≡ granted b → a ≡ b
granted-injective e = cc

reserved_from-append :
    (acc : Double) (rs : List Reservation) (r : Reservation)
    → reserved_from acc (rs ++ r ∷ []) ≡ add (reserved_from acc rs) r.amount
unfolding reserved_from
reserved_from-append acc [] r = refl
reserved_from-append acc (x ∷ rs) r = reserved_from-append (add acc x.amount) rs r

live_reservations-append :
    (ttl now : Double) (k : Text) (rs : List Reservation) (r : Reservation)
    → lt (sub now r.ts) ttl ≡ true
    → text_eq r.offer_id k ≡ false
    → live_reservations ttl now k (rs ++ r ∷ []) ≡ live_reservations ttl now k rs ++ r ∷ []
unfolding live_reservations
live_reservations-append ttl now k [] r fresh other = ground arith
live_reservations-append ttl now k (x ∷ rs) r fresh other =
    ground (arith, live_reservations-append ttl now k rs r fresh other)

nonnegative-le :
    (a : Double) → is_finite a ≡ true → lt a zero_double ≡ false → le zero_double a ≡ true
unfolding lt le
nonnegative-le (fin a) f e = ground arith
nonnegative-le inf f e = cc
nonnegative-le minus_inf f e = cc
nonnegative-le nan f e = cc

nonnegative_accepted :
    (v : Value) (a : Double) → finite_number v nonnegative ≡ ok a → le zero_double a ≡ true
unfolding below_bound
nonnegative_accepted v a e =
    let (f, b) = finite_number_sound v nonnegative a e in nonnegative-le a f b

on_value_error-granted :
    {A : Type 0} (r : Rejection) (q : Result A) (a : A) → on_value_error r q ≡ granted a → q ≡ ok a
on_value_error-granted r q a e = ground arith

-- The attested balance of passed checks is the attestation's total.
checked_balance :
    (o : SettlementOffer) (att : Attestation) (guard : Guard)
    (required amount attested total : Double)
    → accept_checks o att guard required ≡ granted (amount, attested)
    → finite_number (zero_or att.total_kry) nonnegative ≡ ok total
    → attested ≡ total
unfolding accept_checks
checked_balance o att guard required amount attested total e t =
    let (a, ha, e1) =
      >>=-eq-granted (on_value_error invalid_amount (finite_number o.kry_amount positive)) _ e in
    let (u1, h1, e2) =
      >>=-eq-granted (refuse_if (not (is_positive_int o.routing_tokens)) invalid_tokens) _ e1 in
    let (u2, h2, e3) = >>=-eq-granted (refuse_if (not att.is_valid) attestation_invalid) _ e2 in
    let (u3, h3, e4) = >>=-eq-granted (guard_answer guard) _ e3 in
    let (u4, h4, e5) = >>=-eq-granted (refuse_if (not att.parses) attestation_invalid) _ e4 in
    let (b, hb, e6) =
      >>=-eq-granted
        (on_value_error attestation_invalid (finite_number (zero_or att.total_kry) nonnegative)) _
        e5 in
    let (u5, h5, e7) = >>=-eq-granted (floor_check required att.veracity_floor) _ e6 in
    let (u6, h6, e8) = >>=-eq-granted (refuse_if (lt b a) insufficient_balance) _ e7 in
    sym (ap (λ (z : Double × Double). z.1) (granted-injective e8))
    ∙ ok-injective (
        sym (
          on_value_error-granted attestation_invalid
            (finite_number (zero_or att.total_kry) nonnegative) b hb)
        ∙ t)

-- What the guard has found, for the amount and the attested balance at hand.
IsReserved-at :
    (h : Host) (ttl now : Double) (o : SettlementOffer) (n n' : Node)
    (q : Outcome (Double × Double)) (g : RoutingGrant) (amount attested : Double)
    → IsAccepted h ttl now o n n' q g
    → q ≡ granted (amount, attested)
    → IsReserved h ttl now o amount attested n.registry n.pending n'.pending
IsReserved-at h ttl now o n n' q g amount attested s e =
    subst (λ (z : Double × Double). IsReserved h ttl now o z.0 z.1 n.registry n.pending n'.pending)
      (granted-injective (sym s.checked ∙ e)) s.reserved

module _ (h : Host) (ttl : Double) where
  -- Of two offers of one party that are accepted in turn, the second later but before the first's
  -- reservation expires, the second is covered by its attested balance less what the party has settled,
  -- less the other live reservations and less the first offer's amount.
  pub second_accept_covered :
      (now now2 : Double) (disk disk2 : Option LeaseDisk) (o o2 : SettlementOffer)
      (att att2 : Attestation) (guard guard2 : Guard) (required required2 : Double) (n n' n2 : Node)
      (f f' f2 f3 : LeaseFile) (g g2 : RoutingGrant) (amount attested amount2 attested2 : Double)
      → verify_and_accept h ttl now disk o att guard required n f ≡ (granted g, n', f')
      → verify_and_accept h ttl now2 disk2 o2 att2 guard2 required2 n' f2 ≡ (granted g2, n2, f3)
      → accept_checks o att guard required ≡ granted (amount, attested)
      → accept_checks o2 att2 guard2 required2 ≡ granted (amount2, attested2)
      → o2.from_party ≡ o.from_party
      → text_eq (offer_identity h o) (offer_identity h o2) ≡ false
      → lt (sub now2 now) ttl ≡ true
      → (totals : Totals) × (load_registry h n.registry ≡ ok totals)
        × (lt
              (sub (sub attested2 (total_of o.from_party totals)) (
                add
                  (reserved_from zero_double (
                    live_reservations ttl now2
                      (offer_identity h o2)
                      (others h ttl now o n.pending)))
                  amount))
              amount2
            ≡ false)
  second_accept_covered now now2 disk disk2 o o2 att att2 guard guard2 required required2 n n' n2 f
        f' f2 f3 g g2 amount attested amount2 attested2 first second checks checks2 same_party
        distinct fresh =
      let a = verify_and_accept-granted h ttl now disk o att guard required n n' f f' g first in
      let r =
        IsReserved-at h ttl now o n n' (accept_checks o att guard required) g amount attested a
          checks in
      let s =
        verify_and_accept-granted h ttl now2 disk2 o2 att2 guard2 required2 n' n2 f2 f3 g2 second in
      let r2 =
        IsReserved-at h ttl now2 o2 n' n2 (accept_checks o2 att2 guard2 required2) g2 amount2
          attested2 s checks2 in
      let k = offer_identity h o2 in
      let counted : reserved_from zero_double (others h ttl now2 o2 n'.pending)
          ≡ add
              (reserved_from zero_double
                (live_reservations ttl now2 k (others h ttl now o n.pending)))
              amount =
        ap
          (λ q.
            reserved_from zero_double (live_reservations ttl now2 k (reservations q n'.pending)))
          same_party
        ∙ ap (λ rs. reserved_from zero_double (live_reservations ttl now2 k rs)) r.held
        ∙ ap (reserved_from zero_double) (
            live_reservations-append ttl now2 k (others h ttl now o n.pending)
              (reservation_of h ttl now o amount) fresh distinct)
        ∙ reserved_from-append zero_double
            (live_reservations ttl now2 k (others h ttl now o n.pending))
            (reservation_of h ttl now o amount) in
      (
        r2.totals,
        subst (λ z. load_registry h z ≡ ok r2.totals) a.registry r2.loaded,
        subst₂ (λ q z. lt (sub (sub attested2 (total_of q r2.totals)) z) amount2 ≡ false) same_party
            counted r2.covered,
      )

  -- The grant of an accepted offer of a party with a name, settled later on any node, on any disk and
  -- by any debit, leaves a registry that verifies and in which the party's total is at most the balance
  -- attested at acceptance and 1e-9. The registry was readable before, and its number of entries and
  -- one is exact as a float.
  pub accepted_grant_bounded :
      (now : Double) (disk : Option LeaseDisk) (o : SettlementOffer) (att : Attestation)
      (guard : Guard) (required : Double) (n n' : Node) (f f' : LeaseFile) (g : RoutingGrant)
      (attested : Double) (d : Disk) (debit : Double → Result Value) (after : Option (Result Value))
      (v : Value) (b b' : ReceiverLedger) (m m' : Node) (es : List Entry) (rc : SettlementReceipt)
      → verify_and_accept h ttl now disk o att guard required n f ≡ (granted g, n', f')
      → finite_number (zero_or att.total_kry) nonnegative ≡ ok attested
      → is_empty o.from_party ≡ false
      → registry_entries m.registry.file ≡ ok es
      → IsCountable (length es + 1)
      → settle h d debit after o g v b m ≡ (ok rc, b', m')
      → (verify_registry h m'.registry ≡ ok (true, []))
        × ((t : Totals) × (load_registry h m'.registry ≡ ok t)
            × (lt (add attested nano) (total_of o.from_party t) ≡ false))
  unfolding grant_of
  accepted_grant_bounded now disk o att guard required n n' f f' g attested d debit after v b b' m
        m' es rc accepted balance named read counted settled =
      let s = verify_and_accept-granted h ttl now disk o att guard required n n' f f' g accepted in
      let same : s.attested ≡ attested =
        checked_balance o att guard required s.amount s.attested attested s.checked balance in
      let ceiling : g.attested_balance ≡ attested = ap (λ z. z.attested_balance) s.grant ∙ same in
      let bounded : le zero_double g.attested_balance ≡ true =
        rw ceiling (nonnegative_accepted (zero_or att.total_kry) attested balance) in
      subst
        (λ z.
          (verify_registry h m'.registry ≡ ok (true, []))
          × ((t : Totals) × (load_registry h m'.registry ≡ ok t)
              × (lt (add z nano) (total_of o.from_party t) ≡ false)))
        ceiling
        (settle_ceiling h d debit after o g v b m es rc b' m' named bounded read counted settled)
