-- ===== src/Settlement/Shortfall.antt =====
-- What `settle` leaves when the debit falls short, and that a grant is settled once.
use kry.Base.{length-append, ◌≡◌, true, false, not, Option, none, some, List, [], ◌∷◌, ◌++◌}
use kry.Base.Texts.{Text}
use kry.Base.Results.{Result, ok, err, persistence_error, raise_if}
use kry.Double.{Double, add, sub, abs, lt, nano, zero_double}
use kry.Python.{Value, float, finite_number, nonnegative}
use kry.Settlement.Host.{SettlementOffer, RoutingGrant, Host}
use kry.Settlement.Entries.{lines_of, Tip, read_tip, Registry}
use kry.Settlement.Record.{
  partial_read, Disk, record_settled, rollback_registry, record_partial_debit,
}
use kry.Base.{refl, arith, sym, ap, ◌∙◌, subst}
use kry.Base.Results.{>>=-eq-ok}
use kry.Settlement.Grants.{is_empty}
use kry.Settlement.Entries.{Entry, registry_entries}
use kry.Settlement.Committed.{record_settled-at}
use kry.Settlement.Settle.{
  Node, ReceiverLedger, forward_conserved, ceiling_check, commit_checks, release, after_debit,
  after_record, after_checks, commit, finish, credit, settle_inputs, settle_with, settle,
}
use kry.Double.{IsCountable}
use kry.Settlement.Appended.{finite_number-float, finite_number-float}
use kry.Double.{IsCountable}
use kry.Settlement.Ceiling.{settle_inputs-amount}
use kry.Settlement.Record.{done, last_entry, replace_last}
use kry.Settlement.Recorded.{IsChecked, settled_registry, settled, registry_entries-settled}
use kry.Settlement.Appended.{finite_number-float, read_tip-tip_file}
use kry.Settlement.Settle.{tip_before, shortfall}

last_entry-append : (es : List Entry) (e : Entry) → last_entry (es ++ e ∷ []) ≡ some e
unfolding last_entry
last_entry-append [] e = refl
last_entry-append (x ∷ []) e = refl
last_entry-append (x ∷ y ∷ es) e = last_entry-append (y ∷ es) e

-- The count of a checkpoint is exact as a float.
abbrev pub IsCountableTip : Option Tip → Type 0
IsCountableTip none = Unit
IsCountableTip (some t) = IsCountable t.count

module _ (h : Host) where
  -- A partial debit of a recorded settlement: the registry is the one that a settlement of the amount
  -- really moved would have left.
  pub record_partial_debit-settled :
      (v : Value) (party g : Text) (amount moved : Double) (es : List Entry) (r : Registry)
      → IsChecked v g r amount es
      → is_empty party ≡ false
      → record_partial_debit h done (lines_of r.file) moved (settled_registry h party g amount es r)
        ≡ (ok tt, settled_registry h party g moved es r)
  unfolding record_partial_debit registry_entries replace_last
  record_partial_debit-settled v party g amount moved es r c named =
      subst
        (λ z.
          partial_read h done (lines_of r.file) moved (settled_registry h party g amount es r) z
          ≡ (ok tt, settled_registry h party g moved es r))
        (sym (registry_entries-settled h v party g amount es r c named))
        (rw (
          last_entry-append es (settled h party g amount es),
          length-append es (settled h party g amount es ∷ []),
        ))

  -- A rollback restores what is read from the registry and its checkpoint.
  pub rollback_registry-restores :
      (r r' : Registry) (tip : Option Tip)
      → read_tip r.tip ≡ ok tip
      → IsCountableTip tip
      → (registry_entries (rollback_registry done (lines_of r.file) tip r').file
          ≡ registry_entries r.file)
        × (read_tip (rollback_registry done (lines_of r.file) tip r').tip ≡ read_tip r.tip)
  unfolding rollback_registry registry_entries read_tip
  rollback_registry-restores r r' none read counted = (refl, sym read)
  rollback_registry-restores r r' (some t) read counted =
      (refl, read_tip-tip_file t.count t.tip counted ∙ sym read)

module _ (h : Host) (d : Disk) (debit : Double → Result Value) (after : Option (Result Value)) where
  -- A call of `settle` that records its obligation and then learns that another amount was moved.
  pub record IsShort (o : SettlementOffer) (g : RoutingGrant) (v : Value) (b : ReceiverLedger)
      (n : Node) (amount moved : Double) (tip : Option Tip) (r' : Registry) : Type 0 where
    pub a_before : Double
    pub b_before : Double
    pub inputs : settle_inputs g v b ≡ ok (amount, a_before, b_before)
    pub checked : commit_checks h g o.from_party amount a_before b_before n.registry ≡ ok tip
    pub recorded :
        record_settled h d o.from_party (float amount) g.grant_id n.registry ≡ (ok tt, r')
    pub answer : Value
    pub answered : debit amount ≡ ok answer
    pub number : finite_number answer nonnegative ≡ ok moved
    pub short : lt nano (abs (sub moved amount)) ≡ true

  commit-short :
      (o : SettlementOffer) (g : RoutingGrant) (v : Value) (b : ReceiverLedger) (n : Node)
      (amount moved : Double) (tip : Option Tip) (r' : Registry)
      → (s : IsShort o g v b n amount moved tip r')
      → commit h d debit g o.from_party amount s.a_before s.b_before n.registry
        ≡ (err persistence_error, shortfall h d amount (lines_of n.registry.file) tip moved r')
  unfolding commit after_checks after_record after_debit
  commit-short o g v b n amount moved tip r' s =
      rw (s.checked, s.recorded, s.answered, s.number, s.short)

  settle-short :
      (o : SettlementOffer) (g : RoutingGrant) (v : Value) (b : ReceiverLedger) (n : Node)
      (amount moved : Double) (tip : Option Tip) (r' : Registry)
      → IsShort o g v b n amount moved tip r'
      → settle h d debit after o g v b n ≡ (
        err persistence_error,
        b,
        record {
          registry = shortfall h d amount (lines_of n.registry.file) tip moved r';
          pending = release h o n.pending;
        },
      )
  unfolding settle settle_with finish credit
  settle-short o g v b n amount moved tip r' s =
      rw (s.inputs, commit-short o g v b n amount moved tip r' s)

  tip_before-ok : (q : Result (Option Tip)) (t : Option Tip) → tip_before q ≡ ok t → q ≡ ok t
  tip_before-ok q t e = ground arith

  commit_checks-tip :
      (g : RoutingGrant) (party : Text) (amount a_before b_before : Double) (r : Registry)
      (tip : Option Tip)
      → commit_checks h g party amount a_before b_before r ≡ ok tip
      → read_tip r.tip ≡ ok tip
  unfolding commit_checks
  commit_checks-tip g party amount a_before b_before r tip e =
      let (x, hx, e1) = >>=-eq-ok (finite_number (float (add b_before amount)) nonnegative) _ e in
      let (w, hw, e2) =
        >>=-eq-ok
          (raise_if (not (forward_conserved a_before (sub a_before amount) b_before x amount))
            persistence_error)
          _ e1 in
      let (u, hu, e3) = >>=-eq-ok (ceiling_check h g party amount r) _ e2 in
      tip_before-ok (read_tip r.tip) tip e3

  -- A settlement of an amount above 1e-9 that is recorded and whose debit then moves nothing, when the
  -- disk makes the rollback and the count of the checkpoint before was exact as a float: the registry's
  -- entries and its checkpoint read as before the call, which fails and does not credit B.
  pub settle_zero_debit :
      (o : SettlementOffer) (g : RoutingGrant) (v : Value) (b : ReceiverLedger) (n : Node)
      (amount moved : Double) (tip : Option Tip) (r' : Registry)
      → IsShort o g v b n amount moved tip r'
      → lt zero_double moved ≡ false
      → d.rollback ≡ done
      → IsCountableTip tip
      → let (result, b', n') = settle h d debit after o g v b n in
        (result ≡ err persistence_error)
        × (b' ≡ b)
        × (registry_entries n'.registry.file ≡ registry_entries n.registry.file)
        × (read_tip n'.registry.tip ≡ read_tip n.registry.tip)
  unfolding shortfall
  settle_zero_debit o g v b n amount moved tip r' s none_moved disk counted =
      let (files, tips) =
        rollback_registry-restores h n.registry r' tip
          (commit_checks-tip g o.from_party amount s.a_before s.b_before n.registry tip s.checked)
          counted in
      rw (settle-short o g v b n amount moved tip r' s)
        (rw (none_moved, disk) (refl, refl, files, tips))

  -- A settlement of a party with a name that is recorded, on a readable registry, and whose debit then
  -- moves an amount above 0 that is more than 1e-9 away from the agreed one, when the disk makes the
  -- adjustment: the registry is the one that a settlement of the amount moved would have left, so the
  -- grant stays consumed, and the call fails and does not credit B.
  pub settle_partial_debit :
      (o : SettlementOffer) (g : RoutingGrant) (v : Value) (b : ReceiverLedger) (n : Node)
      (amount moved : Double) (es : List Entry) (tip : Option Tip) (r' : Registry)
      → IsShort o g v b n amount moved tip r'
      → lt zero_double moved ≡ true
      → d.partial ≡ done
      → is_empty o.from_party ≡ false
      → registry_entries n.registry.file ≡ ok es
      → let (result, b', n') = settle h d debit after o g v b n in
        (result ≡ err persistence_error)
        × (b' ≡ b)
        × (n'.registry ≡ settled_registry h o.from_party g.grant_id moved es n.registry)
  unfolding shortfall
  settle_partial_debit o g v b n amount moved es tip r' s some_moved disk named read =
      let amount_ok =
        finite_number-float g.accepted_kry amount
          (settle_inputs-amount h d debit after g v b amount s.a_before s.b_before s.inputs).0 in
      let (c, same) =
        record_settled-at h d o.from_party (float amount) g.grant_id n.registry r' amount es read
          amount_ok s.recorded in
      rw (settle-short o g v b n amount moved tip r' s) (
        rw (some_moved, disk, same)
          (
            refl,
            refl,
            ap (λ z. z.1)
                (record_partial_debit-settled h (float amount) o.from_party g.grant_id amount moved
                  es n.registry c named),
          ))
