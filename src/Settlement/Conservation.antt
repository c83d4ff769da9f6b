-- ===== src/Settlement/Conservation.antt =====
-- What `settle` guarantees of the receipt: conservation.
use kry.Base.{◌≡◌, Bool, true, false, ◌||◌, Option, none, some}
use kry.Base.Texts.{Text}
use kry.Base.Results.{if_ok, Result, ok, value_error}
use kry.Double.{Double, add, sub, lt, zero_double}
use kry.Python.{
  as_float-finite_number, Value, float, finite_number, as_float, positive, nonnegative,
}
use kry.Settlement.Host.{
  SettlementOffer, RoutingGrant, Basis, self_asserted, SettlementReceipt, Host,
}
use kry.Settlement.Entries.{Registry}
use kry.Settlement.Record.{Disk}
use kry.Base.{refl, arith, sym, ap, ◌∙◌, subst}
use kry.Base.Results.{ok-injective}
use kry.Settlement.Settle.{
  Node, ReceiverLedger, forward_conserved, observe, receipt_dumpable, receipt_of, sign, settle,
  verify_conservation,
}
use kry.Python.{as_float-finite_number, finite_number_same}
use kry.Settlement.Settled.{IsCommitted, IsFinished, settle-ok}
use kry.Settlement.Ceiling.{commit_checks-conserved, settle_inputs-amount}

or_true : (b : Bool) → (b || true) ≡ true
or_true true = refl
or_true false = refl

forward_conserved-moved :
    (a_before a_after b_before b_after amount : Double)
    → forward_conserved a_before a_after b_before b_after amount ≡ true
    → (lt zero_double (sub a_before a_after) ≡ true)
      × (lt zero_double (sub b_after b_before) ≡ true)
unfolding forward_conserved
forward_conserved-moved a_before a_after b_before b_after amount e = ground arith

unread_seen :
    (after : Option (Result Value)) (a_before b_before b_after debited : Double)
    (seen : Double × Bool × Basis)
    → after ≡ none
    → observe after a_before b_before b_after debited ≡ ok seen
    → seen ≡ (sub a_before debited, true, self_asserted)
unfolding observe
unread_seen none a_before b_before b_after debited seen n e = ok-injective (sym e)
unread_seen (some x) a_before b_before b_after debited seen n e = cc

sign-ok :
    (h : Host) (r rc : SettlementReceipt)
    → sign h r ≡ ok rc
    → rc ≡ record r { receipt_hash = h.sha256 (h.receipt_text r) }
unfolding sign
sign-ok h r rc e =
    (if_ok (receipt_dumpable r) (record r { receipt_hash = h.sha256 (h.receipt_text r) }) rc
      value_error e).1

receipt-conserves :
    (h : Host) (o : SettlementOffer) (g : RoutingGrant) (a_before b_before amount : Double)
    (rc : SettlementReceipt)
    → as_float g.accepted_kry ≡ ok amount
    → forward_conserved a_before (sub a_before amount) b_before (add b_before amount) amount ≡ true
    → sign h (
        receipt_of h o g a_before b_before
          (add b_before amount)
          amount
          (sub a_before amount, true, self_asserted))
      ≡ ok rc
    → verify_conservation rc ≡ true
unfolding verify_conservation receipt_of
receipt-conserves h o g a_before b_before amount rc agreed fc e =
    let (lost, gained) =
      forward_conserved-moved a_before (sub a_before amount) b_before (add b_before amount) amount
        fc in
    rw (sign-ok h _ rc e) (rw (agreed, lost, gained, fc) (or_true _))

module _ (h : Host) (d : Disk) (debit : Double → Result Value) (after : Option (Result Value)) where
  -- The amounts agreed on and moved, when the debit answers with the amount that it was asked for.
  moved_exactly :
      (g : RoutingGrant) (party : Text) (amount a_before b_before moved : Double) (r r' : Registry)
      → IsCommitted h d debit g party amount a_before b_before moved r r'
      → debit amount ≡ ok (float amount)
      → moved ≡ amount
  moved_exactly g party amount a_before b_before moved r r' c e =
      finite_number_same amount nonnegative moved (
        subst (λ z. finite_number z nonnegative ≡ ok moved) (ok-injective (sym c.answered ∙ e))
          c.number)

  -- A receipt of a settlement whose debit moved exactly the agreed amount, with no independent reading of
  -- A's balance, passes the auditor's check.
  pub settle_conserves :
      (o : SettlementOffer) (g : RoutingGrant) (v : Value) (b : ReceiverLedger) (n : Node)
      (amount : Double) (rc : SettlementReceipt) (b' : ReceiverLedger) (n' : Node)
      → after ≡ none
      → as_float g.accepted_kry ≡ ok amount
      → debit amount ≡ ok (float amount)
      → settle h d debit after o g v b n ≡ (ok rc, b', n')
      → verify_conservation rc ≡ true
  settle_conserves o g v b n amount rc b' n' unread agreed moved q =
      let s = settle-ok h d debit after o g v b n rc b' n' q in
      let same : s.amount ≡ amount = ok-injective (
        sym (
          as_float-finite_number g.accepted_kry positive s.amount
            (settle_inputs-amount h d debit after g v b s.amount s.a_before s.b_before s.inputs).0)
        ∙ agreed) in
      let exact : s.moved ≡ s.amount =
        moved_exactly g o.from_party s.amount s.a_before s.b_before s.moved n.registry n'.registry
          s.committed (subst (λ z. debit z ≡ ok (float z)) (sym same) moved) in
      let f : IsFinished h o g after s.a_before s.b_before s.amount rc =
        subst (λ z. IsFinished h o g after s.a_before s.b_before z rc) exact s.finished in
      receipt-conserves h o g s.a_before s.b_before s.amount rc (agreed ∙ ap (λ z. ok z) (sym same))
        (commit_checks-conserved h g o.from_party s.amount s.a_before s.b_before n.registry
          s.committed.tip s.committed.checked)
        (subst
          (λ z.
            sign h (receipt_of h o g s.a_before s.b_before (add s.b_before s.amount) s.amount z)
            ≡ ok rc)
          (unread_seen after s.a_before s.b_before (add s.b_before s.amount) s.amount f.seen unread
            f.observed)
          f.signed)
