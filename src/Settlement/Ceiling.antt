-- ===== src/Settlement/Ceiling.antt =====
-- What `settle` guarantees of the registry: the attested ceiling.
use kry.Base.{◌≡◌, Bool, true, false, not, if◌then◌else◌, Option, List, [], ◌∷◌, ◌++◌}
use kry.Base.Texts.{Text}
use kry.Base.Dicts.{lookup}
use kry.Base.Results.{Error, Result, ok, persistence_error, ◌>>=◌, raise_if}
use kry.Double.{Double, add, sub, lt, le, eq, nano, zero_double}
use kry.Python.{Value, float, finite_number, positive, nonnegative}
use kry.Settlement.Host.{SettlementOffer, RoutingGrant, SettlementReceipt, Host}
use kry.Settlement.Entries.{Tip, Registry}
use kry.Settlement.Chain.{Totals, total_of, is_tampered, load_registry}
use kry.Settlement.Record.{Disk}
use kry.Base.{refl, arith, ◌+◌, length, sym, ◌∙◌, subst}
use kry.Base.Results.{>>=-eq-ok, ok-injective}
use kry.Settlement.Grants.{is_empty}
use kry.Settlement.Entries.{Entry, registry_entries}
use kry.Settlement.Chain.{Problem, verify_registry, totals_from}
use kry.Settlement.Committed.{record_settled-extends}
use kry.Settlement.Settle.{
  Node, ReceiverLedger, forward_conserved, ceiling_check, commit_checks, settle_inputs, settle,
}
use kry.Double.{IsCountable}
use kry.Settlement.Chain.{poisoned, is_tampered}
use kry.Python.{finite_number_same}
use kry.Base.Texts.{text_eq_refl}
use kry.Settlement.Appended.{finite_number-float}
use kry.Settlement.Settled.{settle-ok}

not-false : (b : Bool) → not b ≡ false → b ≡ true
not-false true e = refl
not-false false e = cc

-- The poisoned registry is seen as such.
is_tampered-poisoned : is_tampered poisoned ≡ true
unfolding is_tampered poisoned total_of lookup eq
is_tampered-poisoned = refl

module _ (h : Host) where
  load_verdict :
      (r : Registry) (es : List Entry) (verdict : Bool × List Problem) (t : Totals)
      → registry_entries r.file ≡ ok es
      → (if verdict.0
          then (do xs ← registry_entries r.file; ok (totals_from [] xs))
          else ok poisoned)
        ≡ ok t
      → is_tampered t ≡ false
      → (verdict.0 ≡ true) × (t ≡ totals_from [] es)
  load_verdict r es (true, ps) t read e clean = (refl, ok-injective (sym e ∙ rw read))
  load_verdict r es (false, ps) t read e clean =
      let tampered : is_tampered t ≡ true =
        subst (λ z. is_tampered z ≡ true) (ok-injective e) is_tampered-poisoned in
      cc

  -- Totals that are not poisoned are those of a registry that verifies.
  pub load_registry_sound :
      (r : Registry) (es : List Entry) (t : Totals)
      → registry_entries r.file ≡ ok es
      → load_registry h r ≡ ok t
      → is_tampered t ≡ false
      → (ps : List Problem) × (verify_registry h r ≡ ok (true, ps)) × (t ≡ totals_from [] es)
  unfolding load_registry
  load_registry_sound r es t read e clean =
      let (verdict, hv, rest) = >>=-eq-ok (verify_registry h r) _ e in
      let (good, same) = load_verdict r es verdict t read rest clean in
      (verdict.1, cc (hv, good), same)

  raise_if-ok : (b : Bool) (x : Error) (u : Unit {0}) → raise_if b x ≡ ok u → b ≡ false
  raise_if-ok true x u e = cc
  raise_if-ok false x u e = refl

  -- What the ceiling check has found when it passes.
  ceiling_check-ok :
      (g : RoutingGrant) (party : Text) (amount : Double) (r : Registry) (u : Unit {0})
      → le zero_double g.attested_balance ≡ true
      → ceiling_check h g party amount r ≡ ok u
      → (t : Totals) × (load_registry h r ≡ ok t)
        × (is_tampered t ≡ false)
        × (lt (add g.attested_balance nano) (add (total_of party t) amount) ≡ false)
  unfolding ceiling_check
  ceiling_check-ok g party amount r u bounded e =
      let e' = rw bounded at e in
      let (t, ht, rest) = >>=-eq-ok (load_registry h r) _ e' in
      let (w, hw, last) = >>=-eq-ok (raise_if (is_tampered t) persistence_error) _ rest in
      (
        t,
        ht,
        raise_if-ok (is_tampered t) persistence_error w hw,
        raise_if-ok _ persistence_error u last,
      )

  commit_checks-ceiling :
      (g : RoutingGrant) (party : Text) (amount a_before b_before : Double) (r : Registry)
      (tip : Option Tip)
      → commit_checks h g party amount a_before b_before r ≡ ok tip
      → (u : Unit {0}) × (ceiling_check h g party amount r ≡ ok u)
  unfolding commit_checks
  commit_checks-ceiling g party amount a_before b_before r tip e =
      let (x, hx, e1) = >>=-eq-ok (finite_number (float (add b_before amount)) nonnegative) _ e in
      let (w, hw, e2) =
        >>=-eq-ok
          (raise_if (not (forward_conserved a_before (sub a_before amount) b_before x amount))
            persistence_error)
          _ e1 in
      let (u, hu, e3) = >>=-eq-ok (ceiling_check h g party amount r) _ e2 in (u, hu)

  pub commit_checks-conserved :
      (g : RoutingGrant) (party : Text) (amount a_before b_before : Double) (r : Registry)
      (tip : Option Tip)
      → commit_checks h g party amount a_before b_before r ≡ ok tip
      → forward_conserved a_before (sub a_before amount) b_before (add b_before amount) amount
        ≡ true
  unfolding commit_checks
  commit_checks-conserved g party amount a_before b_before r tip e =
      let (x, hx, e1) = >>=-eq-ok (finite_number (float (add b_before amount)) nonnegative) _ e in
      let (w, hw, e2) =
        >>=-eq-ok
          (raise_if (not (forward_conserved a_before (sub a_before amount) b_before x amount))
            persistence_error)
          _ e1 in
      subst (λ z. forward_conserved a_before (sub a_before amount) b_before z amount ≡ true)
        (finite_number_same (add b_before amount) nonnegative x hx)
        (not-false (forward_conserved a_before (sub a_before amount) b_before x amount)
          (raise_if-ok _ persistence_error w hw))

module _ (h : Host) (d : Disk) (debit : Double → Result Value) (after : Option (Result Value)) where
  pub settle_inputs-amount :
      (g : RoutingGrant) (v : Value) (b : ReceiverLedger) (amount a_before b_before : Double)
      → settle_inputs g v b ≡ ok (amount, a_before, b_before)
      → (finite_number g.accepted_kry positive ≡ ok amount)
        × (finite_number v nonnegative ≡ ok a_before)
        × (finite_number b.received_kry nonnegative ≡ ok b_before)
  unfolding settle_inputs
  settle_inputs-amount g v b amount a_before b_before e = ground arith

  -- After a settlement under a grant with a nonnegative attested balance, by a party with a name, the
  -- registry verifies and the party's settled total is at most the attested balance and 1e-9. The
  -- registry was readable before, and its number of entries and one is exact as a float.
  pub settle_ceiling :
      (o : SettlementOffer) (g : RoutingGrant) (v : Value) (b : ReceiverLedger) (n : Node)
      (es : List Entry) (rc : SettlementReceipt) (b' : ReceiverLedger) (n' : Node)
      → is_empty o.from_party ≡ false
      → le zero_double g.attested_balance ≡ true
      → registry_entries n.registry.file ≡ ok es
      → IsCountable (length es + 1)
      → settle h d debit after o g v b n ≡ (ok rc, b', n')
      → (verify_registry h n'.registry ≡ ok (true, []))
        × ((t : Totals) × (load_registry h n'.registry ≡ ok t)
            × (lt (add g.attested_balance nano) (total_of o.from_party t) ≡ false))
  settle_ceiling o g v b n es rc b' n' named bounded read counted q =
      let s = settle-ok h d debit after o g v b n rc b' n' q in
      let (u, hu) =
        commit_checks-ceiling h g o.from_party s.amount s.a_before s.b_before n.registry
          s.committed.tip s.committed.checked in
      let (t, ht, clean, within) =
        ceiling_check-ok h g o.from_party s.amount n.registry u bounded hu in
      let (ps, verified, same) = load_registry_sound h n.registry es t read ht clean in
      let amount_ok = (settle_inputs-amount g v b s.amount s.a_before s.b_before s.inputs).0 in
      let (now, (e, now_read, now_loaded, totals)) =
        record_settled-extends h d o.from_party (float s.amount) g.grant_id n.registry n'.registry
          s.amount es ps read (finite_number-float g.accepted_kry s.amount amount_ok) named counted
          verified s.committed.recorded in
      (
        now,
        (
          totals_from [] (es ++ e ∷ []),
          now_loaded,
          rw (totals o.from_party) (
              rw (text_eq_refl o.from_party) (
                subst
                  (λ z.
                    lt (add g.attested_balance nano) (add (total_of o.from_party z) s.amount)
                    ≡ false)
                  same within)),
        ),
      )
