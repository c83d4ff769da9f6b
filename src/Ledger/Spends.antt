-- ===== src/Ledger/Spends.antt =====
-- `spend` refines the debit of an account.
use kry.Base.{
  ℕ, ◌+◌, ◌-◌, ◌≤◌, ◌≡◌, refl, sym, ap, subst, ◌∙◌, arith, true, false, none, if◌then◌else◌, ltb,
}
use kry.Base.Int.{pos, neg}
use kry.Base.Texts.{Text}
use kry.Base.Results.{ok, ok-injective}
use kry.Double.{Double, fin, add, sub, lt, eq, IsDouble, zero_double}
use kry.Double.Order.{add-pos, sub-pos}
use kry.Json.Values.{Json}
use kry.Ledger.Cost.{spend_cost}
use kry.Ledger.Book.{Totals, Document, accounting_of, adopted, nonnegative}
use kry.Ledger.World.{World, pure, get, after, ◌>>=◌, runs, lift_returned}
use kry.Ledger.Saving.{Moment, differ}
use kry.Ledger.Calls.{
  Interpreter, if_refreshed, refreshed, add_event, totals_set, or_tokens, max_zero, min_of,
}
use kry.Ledger.Debits.{
  affordable, debit_total, debit_actual, debit_fresh, spend_amount, spend_unkeyed, spend,
}
use kry.Ledger.Read.{IsReadable}
use kry.Ledger.Account.{
  Account, debited, totals_for, IsExact, Holds, merged_totals-debited, differ-totals_for,
  nonnegative-pos,
}
use kry.Ledger.Refines.{Takes, zero_or, refreshed-Holds, recorded-Takes}

-- min(a, b)
abbrev pub lesser : ℕ → ℕ → ℕ
lesser a b = if ltb b a then b else a

lesser-le : (a b : ℕ) → lesser a b ≤ b
lesser-le a b = ground arith

affordable-pos : (w b : ℕ) → affordable (fin (pos w)) (fin (pos b)) ≡ fin (pos (lesser w b))
unfolding affordable min_of max_zero lt
affordable-pos w b = ground arith

module _ (h : Interpreter) (m : Moment) where
  debit_actual-Takes :
      (model detail : Text) (v : ℕ) (c : Account) (d : Document) (s : World) (a : Double)
      (s' : World)
      → IsReadable h.strip d s
      → (accounting_of d).totals ≡ totals_for c
      → s.ledger.totals ≡ totals_for c
      → s.ledger.baseline ≡ totals_for c
      → differ s.ledger.totals s.ledger.baseline ≡ false
      → IsExact c
      → v ≤ c.balance
      → IsDouble (pos v)
      → IsDouble (neg (pos v))
      → IsExact (debited v c)
      → debit_actual h m model detail (fin (pos v)) (totals_for c) s ≡ (ok a, s')
      → s'.ledger.recovery_required ≡ false
      → Takes h.strip c (debited v c) (fin (pos v)) a s'
  unfolding debit_actual debit_total add_event totals_set
  debit_actual-Takes model detail v c d s a s' readable held mine base same exact small hv hn exact'
        done clear =
      let spent : nonnegative (add (fin (pos c.spent)) (fin (pos v)))
          ≡ ok (fin (pos (c.spent + v))) =
        ap nonnegative (add-pos c.spent v ∙ exact'.2) ∙ nonnegative-pos (c.spent + v) in
      let left : sub (fin (pos c.balance)) (fin (pos v)) ≡ fin (pos (c.balance - v)) =
        sub-pos c.balance v small ∙ exact'.0 in
      zero_or h.strip (eq (fin (pos v)) zero_double) _ (fin (pos v)) c (debited v c) s a s'
        (d, readable, held, same)
        (λ e.
          recorded-Takes h m _ (fin (pos v)) c (debited v c) d s a s' readable held mine
            (ap
                (λ (t : Totals). record (totals_for (debited v c)) {
                  balance = sub t.balance (fin (pos v));
                  earned = t.earned;
                })
                mine
              ∙ ap (λ x. record (totals_for (debited v c)) { balance = x }) left)
            base readable.0 (merged_totals-debited c v exact small hv hn exact')
            (subst (λ r. debit_total h m model detail (fin (pos v)) (totals_for c) r s ≡ (ok a, s'))
              spent e)
            clear)
        done

  refreshed_world : Document → World → World
  refreshed_world d s = record s { ledger = adopted d s.ledger }

  module _ (w : ℕ) (c : Account) where
    -- What a cost of w takes from the account.
    abbrev pub taken : ℕ
    taken = lesser w c.balance

    -- The amounts of the debit are values of doubles.
    abbrev pub IsPayable : Type 0
    IsPayable =
        IsExact c × IsDouble (pos taken) × IsDouble (neg (pos taken)) × IsExact (debited taken c)

    spend_amount-Takes :
        (model detail : Text) (s : World) (a : Double) (s' : World)
        → IsPayable
        → Holds h.strip c s
        → spend_amount h m model detail (fin (pos w)) s ≡ (ok a, s')
        → s'.ledger.recovery_required ≡ false
        → Takes h.strip c (debited taken c) (fin (pos taken)) a s'
    unfolding spend_amount debit_fresh if_refreshed refreshed_world adopted get ◌>>=◌ after
    spend_amount-Takes model detail s a s' (exact, hv, hn, exact') (d, readable, held, same) done
          clear =
        let run =
          runs (refreshed h m) (if_refreshed h m (debit_fresh h m model detail (fin (pos w)))) s
            true (refreshed_world d s) (refreshed-Holds h m c s d readable same) in
        let t = (accounting_of d).totals in
        let fresh_debit : debit_actual h m model detail (affordable (fin (pos w)) t.balance) t
              (refreshed_world d s)
            ≡ (ok a, s') =
          sym run ∙ done in
        debit_actual-Takes model detail taken c d (refreshed_world d s) a s'
          (refl, readable.1, readable.2, readable.3, readable.4, readable.5) held held held
          (rw held (differ-totals_for c)) exact (lesser-le w c.balance) hv hn exact'
          (subst
            (λ x. debit_actual h m model detail x (totals_for c) (refreshed_world d s) ≡ (ok a, s'))
            (affordable-pos w c.balance)
            (subst
              (λ (u : Totals).
                debit_actual h m model detail (affordable (fin (pos w)) u.balance) u
                  (refreshed_world d s)
                ≡ (ok a, s'))
              held fresh_debit))
          clear

    -- A `spend` without an id whose cost is a finite number that is not negative, on a versioned
    -- journal that may be used and holds the account, with nothing unsaved in the process. When it
    -- returns and recovery is not required then, it has either debited the account on the disk with the
    -- amount it returns, the cost or all that is left, or returned 0.0 and left the account as it was,
    -- whatever the disk does. The account's amounts, before and after, and the amount debited are
    -- exactly values of doubles.
    pub spend-Takes :
        (model : Text) (output_tokens : Json) (detail : Text) (s : World) (a : Double) (s' : World)
        → spend_cost model output_tokens ≡ ok (fin (pos w))
        → IsPayable
        → Holds h.strip c s
        → spend h m model output_tokens detail none s ≡ (ok a, s')
        → s'.ledger.recovery_required ≡ false
        → Takes h.strip c (debited taken c) (fin (pos taken)) a s'
    unfolding spend spend_unkeyed
    spend-Takes model output_tokens detail s a s' priced payable holds done clear =
        let text = or_tokens detail (h.spelled output_tokens) in
        let (cost, e, d1) = lift_returned (spend_cost model output_tokens) _ s a s' done in
        let same : cost ≡ fin (pos w) = ok-injective (sym e ∙ priced) in
        zero_or h.strip (eq (fin (pos w)) zero_double) (spend_amount h m model text (fin (pos w)))
          (fin (pos taken)) c (debited taken c) s a s' holds
          (λ e. spend_amount-Takes model text s a s' payable holds e clear)
          (subst
            (λ k.
              (if eq k zero_double then pure zero_double else spend_amount h m model text k) s
              ≡ (ok a, s'))
            same d1)
