-- ===== src/Ledger/Earns.antt =====
-- `earn` refines the credit of an account.
use kry.Base.{ℕ, ◌+◌, ◌≡◌, refl, sym, ap, subst, ◌∙◌, true, false, Option, if◌then◌else◌}
use kry.Base.Int.{pos}
use kry.Base.Texts.{Text}
use kry.Base.Results.{ok}
use kry.Double.{Double, fin, le, IsDouble, zero_double}
use kry.Double.Order.{add-pos}
use kry.Json.Values.{Json}
use kry.Ledger.Prices.{earned_kry}
use kry.Ledger.Book.{Totals, Document, accounting_of, adopted}
use kry.Ledger.World.{World, pure, get, after, ◌>>=◌, runs}
use kry.Ledger.Saving.{Moment}
use kry.Ledger.Calls.{
  Interpreter, credit, credit_from, credited_totals, if_refreshed, refreshed, earn_amount, earn,
  add_event, totals_set, earned_detail,
}
use kry.Ledger.Read.{IsReadable}
use kry.Ledger.Account.{
  Account, credited, totals_for, IsExact, Holds, merged_totals-credited, finite-pos,
  nonnegative-pos,
}
use kry.Ledger.Refines.{Takes, zero_or, refreshed-Holds, recorded-Takes}

module _ (h : Interpreter) (m : Moment) where
  credited_totals-exact :
      (c : Account) (v : ℕ)
      → IsExact (credited v c)
      → credited_totals h m (fin (pos v)) (totals_for c)
        ≡ ok (fin (pos (c.balance + v)), fin (pos (c.earned + v)))
  unfolding credited_totals
  credited_totals-exact c v (b, e, x) =
      rw
        (
          add-pos c.balance v,
          b,
          add-pos c.earned v,
          e,
          finite-pos (c.balance + v),
          nonnegative-pos (c.earned + v),
        )
        refl

  refreshed_world : Document → World → World
  refreshed_world d s = record s { ledger = adopted d s.ledger }

  credit-Takes :
      (source detail : Text) (v : ℕ) (c : Account) (d : Document) (s : World) (a : Double)
      (s' : World)
      → IsReadable h.strip d s
      → (accounting_of d).totals ≡ totals_for c
      → s.ledger.totals ≡ totals_for c
      → s.ledger.baseline ≡ totals_for c
      → IsExact c
      → IsDouble (pos v)
      → IsExact (credited v c)
      → credit h m source detail (fin (pos v)) s ≡ (ok a, s')
      → s'.ledger.recovery_required ≡ false
      → Takes h.strip c (credited v c) (fin (pos v)) a s'
  unfolding credit credit_from get ◌>>=◌ after add_event totals_set
  credit-Takes source detail v c d s a s' readable held mine base exact hv exact' done clear =
      let totals = ap (credited_totals h m (fin (pos v))) mine ∙ credited_totals-exact c v exact' in
      recorded-Takes h m _ (fin (pos v)) c (credited v c) d s a s' readable held mine
        (ap (λ (t : Totals). record (totals_for (credited v c)) { spent = t.spent }) mine) base
        readable.0 (merged_totals-credited c v exact hv exact')
        (subst (λ r. credit_from h m source detail (fin (pos v)) r s ≡ (ok a, s')) totals done)
        clear

  earn_amount-Takes :
      (source detail : Text) (v : ℕ) (c : Account) (s : World) (a : Double) (s' : World)
      → IsExact c
      → IsDouble (pos v)
      → IsExact (credited v c)
      → Holds h.strip c s
      → earn_amount h m source detail (fin (pos v)) s ≡ (ok a, s')
      → s'.ledger.recovery_required ≡ false
      → Takes h.strip c (credited v c) (fin (pos v)) a s'
  unfolding earn_amount if_refreshed refreshed_world adopted
  earn_amount-Takes source detail v c s a s' exact hv exact' (d, readable, held, same) done clear =
      let run =
        runs (refreshed h m) (if_refreshed h m (credit h m source detail (fin (pos v)))) s true
          (refreshed_world d s) (refreshed-Holds h m c s d readable same) in
      credit-Takes source detail v c d (refreshed_world d s) a s'
        (refl, readable.1, readable.2, readable.3, readable.4, readable.5) held held held exact hv
        exact' (sym run ∙ done) clear

  -- An `earn` of a finite amount that is not negative, on a versioned journal that may be used and
  -- holds the account, with nothing unsaved in the process. When it returns and recovery is not
  -- required then, it has either credited the account on the disk with the amount it returns, or
  -- returned 0.0 and left the account as it was, whatever the disk does. The account's amounts, before
  -- and after, and the amount credited are exactly values of doubles.
  pub earn-Takes :
      (tokens : Json) (event detail : Text) (avoided served : Option Text) (v : ℕ) (c : Account)
      (s : World) (a : Double) (s' : World)
      → earned_kry h.lower tokens event avoided served ≡ fin (pos v)
      → IsExact c
      → IsDouble (pos v)
      → IsExact (credited v c)
      → Holds h.strip c s
      → earn h m tokens event detail avoided served s ≡ (ok a, s')
      → s'.ledger.recovery_required ≡ false
      → Takes h.strip c (credited v c) (fin (pos v)) a s'
  unfolding earn
  earn-Takes tokens event detail avoided served v c s a s' amount exact hv exact' holds done clear =
      let text = earned_detail h detail avoided served in
      zero_or h.strip (le (fin (pos v)) zero_double) (earn_amount h m event text (fin (pos v)))
        (fin (pos v)) c (credited v c) s a s' holds
        (λ e. earn_amount-Takes event text v c s a s' exact hv exact' holds e clear)
        (subst
          (λ k.
            (if le k zero_double then pure zero_double else earn_amount h m event text k) s
            ≡ (ok a, s'))
          amount done)
