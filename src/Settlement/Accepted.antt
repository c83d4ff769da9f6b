-- ===== src/Settlement/Accepted.antt =====
-- What an accepted offer has passed and leaves, and what a refused lease leaves.
use kry.Base.{
  ◌≡◌, refl, Bool, true, false, Option, none, some, List, [], ◌∷◌, ◌++◌, Bool-cases, inl, inr,
}
use kry.Base.Texts.{Text, text_eq_refl}
use kry.Base.Dicts.{insert, lookup-insert}
use kry.Base.Results.{Result, ok, err}
use kry.Double.{Double, sub, lt, zero_double}
use kry.Settlement.Host.{SettlementOffer, RoutingGrant, Host}
use kry.Settlement.Entries.{Registry}
use kry.Settlement.Chain.{Totals, total_of, is_tampered, load_registry}
use kry.Settlement.Lease.{LeaseDisk, LeaseFile, acquire_lease}
use kry.Settlement.Settle.{Reservation, Pending, Node, offer_identity, reservations}
use kry.Settlement.Accept.{
  Attestation, Guard, Outcome, granted, rejected, raised, leased, conclude, accept_checks,
  live_reservations, reserved_from, reserve, reserve_from, lease_step, after_reserve, grant_of,
  accept_with, verify_and_accept,
}

pub reservations-insert :
    (party : Text) (rs : List Reservation) (p : Pending)
    → reservations party (insert party rs p) ≡ rs
reservations-insert party rs p = rw lookup-insert (rw (text_eq_refl party))

module _ (h : Host) (ttl now : Double) where
  -- The reservation of an offer, and those of its party that still count against it.
  abbrev pub reservation_of : SettlementOffer → Double → Reservation
  reservation_of o amount = record { offer_id = offer_identity h o; amount = amount; ts = now }

  abbrev pub others : SettlementOffer → Pending → List Reservation
  others o p = live_reservations ttl now (offer_identity h o) (reservations o.from_party p)

  -- What the double-spend guard has found when it passes.
  pub record IsReserved (o : SettlementOffer) (amount attested : Double) (r : Registry)
      (p p' : Pending) : Type 0 where
    pub totals : Totals
    pub loaded : load_registry h r ≡ ok totals
    pub clean : is_tampered totals ≡ false
    pub covered :
        lt
          (sub
            (sub attested (total_of o.from_party totals))
            (reserved_from zero_double (others o p)))
          amount
        ≡ false
    pub held : reservations o.from_party p' ≡ others o p ++ reservation_of o amount ∷ []

  reserve-granted :
      (o : SettlementOffer) (amount attested : Double) (t : Totals) (p p' : Pending) (u : Unit {0})
      → reserve h ttl now o amount attested t p ≡ (granted u, p')
      → (is_tampered t ≡ false)
        × (lt
              (sub
                (sub attested (total_of o.from_party t))
                (reserved_from zero_double (others o p)))
              amount
            ≡ false)
        × (p' ≡ insert o.from_party (others o p ++ reservation_of o amount ∷ []) p)
  unfolding reserve
  reserve-granted o amount attested t p p' u e = elim (Bool-cases (is_tampered t)) [
    | inl bad ↦ cc (rw bad at e)
    | inr clean ↦
        elim (Bool-cases (
          lt (sub (sub attested (total_of o.from_party t)) (reserved_from zero_double (others o p)))
            amount)) [
              | inl over ↦ cc (rw (clean, over) at e)
              | inr covered ↦ (clean, covered, cc (rw (clean, covered) at e))
            ]
  ]

  reserve_from-granted :
      (o : SettlementOffer) (amount attested : Double) (r : Registry) (q : Result Totals)
      (p p' : Pending) (u : Unit {0})
      → load_registry h r ≡ q
      → reserve_from h ttl now o amount attested q p ≡ (granted u, p')
      → IsReserved o amount attested r p p'
  unfolding reserve_from
  reserve_from-granted o amount attested r (ok t) p p' u l e =
      let (clean, covered, same) = reserve-granted o amount attested t p p' u e in
      record {
        totals = t;
        loaded = l;
        clean = clean;
        covered = covered;
        held =
            rw same
              (reservations-insert o.from_party (others o p ++ reservation_of o amount ∷ []) p);
      }
  reserve_from-granted o amount attested r (err x) p p' u l e = cc

  leased-granted :
      (o : SettlementOffer) (p p' : Pending) (x : Result Bool × LeaseFile) (f' : LeaseFile)
      (u : Unit {0})
      → leased h ttl now o p x ≡ (granted u, p', f')
      → p' ≡ p
  unfolding leased
  leased-granted o p p' (ok true, f) f' u e = cc
  leased-granted o p p' (ok false, f) f' u e = cc
  leased-granted o p p' (err r, f) f' u e = cc

  lease_step-granted :
      (disk : Option LeaseDisk) (o : SettlementOffer) (amount attested : Double) (p p' : Pending)
      (f f' : LeaseFile) (u : Unit {0})
      → lease_step h ttl now disk o amount attested p f ≡ (granted u, p', f')
      → p' ≡ p
  unfolding lease_step
  lease_step-granted none o amount attested p p' f f' u e = cc
  lease_step-granted (some disk) o amount attested p p' f f' u e =
      leased-granted o p p'
        (acquire_lease disk o.from_party amount attested (offer_identity h o) now ttl f) f' u e

  after_reserve-granted :
      (disk : Option LeaseDisk) (o : SettlementOffer) (amount attested : Double) (f f' : LeaseFile)
      (x : Outcome (Unit {0}) × Pending) (p' : Pending) (u : Unit {0})
      → after_reserve h ttl now disk o amount attested f x ≡ (granted u, p', f')
      → x ≡ (granted u, p')
  unfolding after_reserve
  after_reserve-granted disk o amount attested f f' (granted tt, p) p' u e =
      cc (lease_step-granted disk o amount attested p p' f f' u e)
  after_reserve-granted disk o amount attested f f' (rejected r, p) p' u e = cc
  after_reserve-granted disk o amount attested f f' (raised r, p) p' u e = cc

  conclude-granted :
      (o : SettlementOffer) (n n' : Node) (amount attested : Double)
      (x : Outcome (Unit {0}) × Pending × LeaseFile) (f' : LeaseFile) (g : RoutingGrant)
      → conclude h ttl now o n amount attested x ≡ (granted g, n', f')
      → (g ≡ grant_of h ttl now o amount attested)
        × (n'.registry ≡ n.registry)
        × (x ≡ (granted tt, n'.pending, f'))
  unfolding conclude
  conclude-granted o n n' amount attested (granted tt, p, f) f' g e = (cc, cc, cc)
  conclude-granted o n n' amount attested (rejected r, p, f) f' g e = cc
  conclude-granted o n n' amount attested (raised r, p, f) f' g e = cc

  -- What a call of `verify_and_accept` that returns a grant has done.
  pub record IsAccepted (o : SettlementOffer) (n n' : Node) (q : Outcome (Double × Double))
      (g : RoutingGrant) : Type 0 where
    pub amount : Double
    pub attested : Double
    pub checked : q ≡ granted (amount, attested)
    pub grant : g ≡ grant_of h ttl now o amount attested
    pub registry : n'.registry ≡ n.registry
    pub reserved : IsReserved o amount attested n.registry n.pending n'.pending

  accept_with-granted :
      (disk : Option LeaseDisk) (o : SettlementOffer) (n n' : Node) (f f' : LeaseFile)
      (q : Outcome (Double × Double)) (g : RoutingGrant)
      → accept_with h ttl now disk o n f q ≡ (granted g, n', f')
      → IsAccepted o n n' q g
  unfolding accept_with
  accept_with-granted disk o n n' f f' (rejected r) g e = cc
  accept_with-granted disk o n n' f f' (raised r) g e = cc
  accept_with-granted disk o n n' f f' (granted (amount, attested)) g e =
      let start = reserve_from h ttl now o amount attested (load_registry h n.registry) n.pending in
      let (same_grant, same_registry, stepped) =
        conclude-granted o n n' amount attested
          (after_reserve h ttl now disk o amount attested f start) f' g e in
      record {
        amount = amount;
        attested = attested;
        checked = refl;
        grant = same_grant;
        registry = same_registry;
        reserved =
            reserve_from-granted o amount attested n.registry (load_registry h n.registry) n.pending
              n'.pending tt refl
              (after_reserve-granted disk o amount attested f f' start n'.pending tt stepped);
      }

  pub verify_and_accept-granted :
      (disk : Option LeaseDisk) (o : SettlementOffer) (att : Attestation) (guard : Guard)
      (required : Double) (n n' : Node) (f f' : LeaseFile) (g : RoutingGrant)
      → verify_and_accept h ttl now disk o att guard required n f ≡ (granted g, n', f')
      → IsAccepted o n n' (accept_checks o att guard required) g
  unfolding verify_and_accept
  verify_and_accept-granted disk o att guard required n n' f f' g e =
      accept_with-granted disk o n n' f f' (accept_checks o att guard required) g e
