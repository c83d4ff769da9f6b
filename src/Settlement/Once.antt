-- ===== src/Settlement/Once.antt =====
-- A grant that has been settled cannot be settled again.
use kry.Base.{◌≡◌, false, Option}
use kry.Base.Texts.{Text}
use kry.Base.Results.{Error, Result, ok, err, persistence_error}
use kry.Double.{Double}
use kry.Python.{Value, float}
use kry.Settlement.Host.{SettlementOffer, RoutingGrant, SettlementReceipt, Host}
use kry.Settlement.Entries.{Tip, Registry}
use kry.Settlement.Record.{Disk, record_settled}
use kry.Base.{refl}
use kry.Settlement.Grants.{is_empty}
use kry.Settlement.Committed.{record_settled_once}
use kry.Settlement.Settle.{
  Node, ReceiverLedger, commit_checks, after_record, after_checks, commit, finish, credit, Inputs,
  settle_inputs, settle_with, settle,
}
use kry.Settlement.Settled.{settle-ok}

module _ (h : Host) (d : Disk) (debit : Double → Result Value) (after : Option (Result Value)) where
  -- A call that ends in an error before its debit, and leaves the registry.
  abbrev pub IsRefused :
      ReceiverLedger → Registry → Result SettlementReceipt × ReceiverLedger × Node → Type 0
  IsRefused b r (result, b', n') = ((x : Error) × (result ≡ err x)) × (b' ≡ b) × (n'.registry ≡ r)

  after_checks-refused :
      (g : RoutingGrant) (party : Text) (amount : Double) (r : Registry) (c : Result (Option Tip))
      → record_settled h d party (float amount) g.grant_id r ≡ (err persistence_error, r)
      → (x : Error) × (after_checks h d debit g party amount r c ≡ (err x, r))
  unfolding after_checks after_record
  after_checks-refused g party amount r (err e) refused = (e, refl)
  after_checks-refused g party amount r (ok tip) refused = (persistence_error, rw refused)

  settle_with-IsRefused :
      (o : SettlementOffer) (g : RoutingGrant) (b : ReceiverLedger) (n : Node) (i : Result Inputs)
      → ((amount : Double)
          → record_settled h d o.from_party (float amount) g.grant_id n.registry
            ≡ (err persistence_error, n.registry))
      → IsRefused b n.registry (settle_with h d debit after o g b n i)
  unfolding settle_with commit finish credit
  settle_with-IsRefused o g b n (err e) refused = ((e, refl), refl, refl)
  settle_with-IsRefused o g b n (ok (amount, a_before, b_before)) refused =
      let (x, hx) =
        after_checks-refused g o.from_party amount n.registry
          (commit_checks h g o.from_party amount a_before b_before n.registry) (refused amount) in
      rw hx ((x, refl), refl, refl)

module _ (h : Host) where
  -- After a settlement by a party with a name, every later call of `settle` for the same grant id, whatever
  -- the offer, the balances, the debit and the disk, ends in an error, credits nothing and leaves the
  -- registry as it is.
  pub settle_once :
      (d d2 : Disk) (debit debit2 : Double → Result Value) (after after2 : Option (Result Value))
      (o o2 : SettlementOffer) (g g2 : RoutingGrant) (v v2 : Value) (b b2 : ReceiverLedger)
      (n n2 : Node) (rc : SettlementReceipt) (b' : ReceiverLedger) (n' : Node)
      → is_empty o.from_party ≡ false
      → settle h d debit after o g v b n ≡ (ok rc, b', n')
      → g2.grant_id ≡ g.grant_id
      → n2.registry ≡ n'.registry
      → IsRefused h d2 debit2 after2 b2 n2.registry (settle h d2 debit2 after2 o2 g2 v2 b2 n2)
  unfolding settle
  settle_once d d2 debit debit2 after after2 o o2 g g2 v v2 b b2 n n2 rc b' n' named q same_grant
        same_registry =
      let s = settle-ok h d debit after o g v b n rc b' n' q in
      settle_with-IsRefused h d2 debit2 after2 o2 g2 b2 n2 (settle_inputs g2 v2 b2) (λ amount.
        rw (same_grant, same_registry)
          (record_settled_once h d d2 o.from_party o2.from_party (float s.amount) (float amount)
            g.grant_id n.registry n'.registry named s.committed.recorded))
