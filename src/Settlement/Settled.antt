-- ===== src/Settlement/Settled.antt =====
-- What a call of `settle` has done when it returns a receipt, and when it raises.
use kry.Base.{◌≡◌, Bool, false, Option, List}
use kry.Base.Texts.{Text}
use kry.Base.Results.{Result, ok, err, ◌>>=◌}
use kry.Double.{Double, add, sub, abs, lt, nano}
use kry.Python.{Value, float, finite_number, nonnegative}
use kry.Settlement.Host.{SettlementOffer, RoutingGrant, Basis, SettlementReceipt, Host}
use kry.Settlement.Entries.{Line, lines_of, Tip, Registry}
use kry.Settlement.Record.{Disk, record_settled}
use kry.Base.{refl, arith, sym, ap}
use kry.Base.Results.{>>=-eq-ok}
use kry.Settlement.Settle.{
  Node, ReceiverLedger, commit_checks, release, after_debit, after_record, after_checks, commit,
  observe, receipt_of, sign, finish, credit, Inputs, settle_inputs, settle_with, settle,
}

module _ (h : Host) (d : Disk) (debit : Double → Result Value) where
  after_debit-ok :
      (amount moved : Double) (before : List Line) (tip : Option Tip) (q : Result Double)
      (r r' : Registry)
      → after_debit h d amount before tip q r ≡ (ok moved, r')
      → (q ≡ ok moved) × (r' ≡ r) × (lt nano (abs (sub moved amount)) ≡ false)
  unfolding after_debit
  after_debit-ok amount moved before tip (err e) r r' h = ground arith
  after_debit-ok amount moved before tip (ok x) r r' h = ground arith

  -- What the block under the locks has done when it returns an amount.
  pub record IsCommitted (g : RoutingGrant) (party : Text) (amount a_before b_before moved : Double)
      (r r' : Registry) : Type 0 where
    pub tip : Option Tip
    pub checked : commit_checks h g party amount a_before b_before r ≡ ok tip
    pub recorded : record_settled h d party (float amount) g.grant_id r ≡ (ok tt, r')
    pub answer : Value
    pub answered : debit amount ≡ ok answer
    pub number : finite_number answer nonnegative ≡ ok moved
    pub exact : lt nano (abs (sub moved amount)) ≡ false

  after_record-ok :
      (amount moved : Double) (before : List Line) (tip : Option Tip)
      (x : Result (Unit {0}) × Registry) (r' : Registry)
      → after_record h d debit amount before tip x ≡ (ok moved, r')
      → (x ≡ (ok tt, r'))
        × (v : Value) × (debit amount ≡ ok v)
        × (finite_number v nonnegative ≡ ok moved)
        × (lt nano (abs (sub moved amount)) ≡ false)
  unfolding after_record
  after_record-ok amount moved before tip (err e, r) r' q = cc
  after_record-ok amount moved before tip (ok _, r) r' q =
      let (moved_ok, same, exact) =
        after_debit-ok amount moved before tip (debit amount >>= λ v. finite_number v nonnegative) r
          r' q in
      let (v, hv, hn) = >>=-eq-ok (debit amount) _ moved_ok in
      (ap (λ z. (ok tt, z)) (sym same), v, hv, hn, exact)

  after_checks-ok :
      (g : RoutingGrant) (party : Text) (amount a_before b_before moved : Double) (r r' : Registry)
      (c : Result (Option Tip))
      → commit_checks h g party amount a_before b_before r ≡ c
      → after_checks h d debit g party amount r c ≡ (ok moved, r')
      → IsCommitted g party amount a_before b_before moved r r'
  unfolding after_checks
  after_checks-ok g party amount a_before b_before moved r r' (err e) c q = cc
  after_checks-ok g party amount a_before b_before moved r r' (ok t) c q =
      let (rec, v, hv, hn, ex) =
        after_record-ok amount moved (lines_of r.file) t
          (record_settled h d party (float amount) g.grant_id r) r' q in
      record {
        tip = t;
        checked = c;
        recorded = rec;
        answer = v;
        answered = hv;
        number = hn;
        exact = ex;
      }

  pub commit-ok :
      (g : RoutingGrant) (party : Text) (amount a_before b_before moved : Double) (r r' : Registry)
      → commit h d debit g party amount a_before b_before r ≡ (ok moved, r')
      → IsCommitted g party amount a_before b_before moved r r'
  unfolding commit
  commit-ok g party amount a_before b_before moved r r' q =
      after_checks-ok g party amount a_before b_before moved r r'
        (commit_checks h g party amount a_before b_before r) refl q

-- What `finish` has done when it returns a receipt.
pub record IsFinished (h : Host) (o : SettlementOffer) (g : RoutingGrant)
    (after : Option (Result Value)) (a_before b_before moved : Double) (rc : SettlementReceipt)
    : Type 0 where
  pub seen : Double × Bool × Basis
  pub observed : observe after a_before b_before (add b_before moved) moved ≡ ok seen
  pub signed : sign h (receipt_of h o g a_before b_before (add b_before moved) moved seen) ≡ ok rc

finish-ok :
    (h : Host) (o : SettlementOffer) (g : RoutingGrant) (after : Option (Result Value))
    (a_before b_before : Double) (q : Result Double) (rc : SettlementReceipt)
    → finish h o g after a_before b_before q ≡ ok rc
    → (moved : Double) × (q ≡ ok moved) × IsFinished h o g after a_before b_before moved rc
unfolding finish
finish-ok h o g after a_before b_before (err e) rc x = cc
finish-ok h o g after a_before b_before (ok moved) rc x =
    let (s, hs, hr) = >>=-eq-ok (observe after a_before b_before (add b_before moved) moved) _ x in
    (moved, refl, record { seen = s; observed = hs; signed = hr })

module _ (h : Host) (d : Disk) (debit : Double → Result Value) (after : Option (Result Value)) where
  -- What a call of `settle` that returns a receipt has done.
  pub record IsSettled (o : SettlementOffer) (g : RoutingGrant) (v : Value) (b : ReceiverLedger)
      (n : Node) (rc : SettlementReceipt) (b' : ReceiverLedger) (n' : Node) : Type 0 where
    pub amount : Double
    pub a_before : Double
    pub b_before : Double
    pub moved : Double
    pub inputs : settle_inputs g v b ≡ ok (amount, a_before, b_before)
    pub committed :
        IsCommitted h d debit g o.from_party amount a_before b_before moved n.registry n'.registry
    pub finished : IsFinished h o g after a_before b_before moved rc
    pub credited : b' ≡ credit g (ok rc) b
    pub released : n'.pending ≡ release h o n.pending

  settle_with-ok :
      (o : SettlementOffer) (g : RoutingGrant) (v : Value) (b : ReceiverLedger) (n : Node)
      (rc : SettlementReceipt) (b' : ReceiverLedger) (n' : Node) (i : Result Inputs)
      → settle_inputs g v b ≡ i
      → settle_with h d debit after o g b n i ≡ (ok rc, b', n')
      → IsSettled o g v b n rc b' n'
  unfolding settle_with
  settle_with-ok o g v b n rc b' n' (err e) i q = cc
  settle_with-ok o g v b n rc b' n' (ok (amount, a_before, b_before)) i q =
      let c = commit h d debit g o.from_party amount a_before b_before n.registry in
      let receipt : finish h o g after a_before b_before c.0 ≡ ok rc = cc in
      let (moved, hm, hf) = finish-ok h o g after a_before b_before c.0 rc receipt in
      let same : c.1 ≡ n'.registry = cc in
      record {
        amount = amount;
        a_before = a_before;
        b_before = b_before;
        moved = moved;
        inputs = i;
        committed =
            commit-ok h d debit g o.from_party amount a_before b_before moved n.registry n'.registry
              (cc (hm, same));
        finished = hf;
        credited = cc receipt;
        released = cc;
      }

  pub settle-ok :
      (o : SettlementOffer) (g : RoutingGrant) (v : Value) (b : ReceiverLedger) (n : Node)
      (rc : SettlementReceipt) (b' : ReceiverLedger) (n' : Node)
      → settle h d debit after o g v b n ≡ (ok rc, b', n')
      → IsSettled o g v b n rc b' n'
  unfolding settle
  settle-ok o g v b n rc b' n' q = settle_with-ok o g v b n rc b' n' (settle_inputs g v b) refl q
