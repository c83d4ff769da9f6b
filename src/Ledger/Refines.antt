-- ===== src/Ledger/Refines.antt =====
-- `earn` and `spend` against the account: a call that returns has taken the step that it reports.
use kry.Base.{
  ◌≡◌, ◌⊎◌, inl, inr, refl, sym, ap, subst, subst₂, ◌∙◌, Bool, true, false, Option, none, some,
  if◌then◌else◌, ◌||◌,
}
use kry.Base.Texts.{Text}
use kry.Base.Results.{ok, >>=-eq-ok, ok-injective}
use kry.Double.{Double, zero_double}
use kry.Ledger.Book.{
  Totals, Document, accounting_of, Ledger, snapshot, adopt, adopted, is_versioned, ledger_parts,
}
use kry.Ledger.World.{
  M, document, World, pure, lift, get, set_ledger, after, ◌>>=◌, handle, catching, returned,
  outcome_eq,
}
use kry.Ledger.Merge.{
  merged_totals, clamped, to_write, enveloped, merged_accounting, merged_operations, ops_of,
  check_dumpable,
}
use kry.Ledger.Saving.{
  Moment, differ, refresh_locked, refresh_from, adopt_document, commit_operation,
}
use kry.Ledger.Calls.{Interpreter, recorded_body, recorded, refreshed, amount_if}
use kry.Ledger.Read.{IsReadable, read-IsReadable}
use kry.Ledger.Committed.{fresh, save_locked-IsMerged}
use kry.Ledger.Refreshed.{merged-IsReadable}
use kry.Ledger.Commit.{commit_operation-IsDurable, commit_operation-back, operation_locked-ok}
use kry.Ledger.Account.{Account, totals_for, Holds, clamped-totals_for, differ-totals_for}

same_document : (d e : Document) → document d ≡ document e → d ≡ e
same_document d e h = cc

either_totals :
    (b : Bool) (x y : Document) (t : Totals)
    → (accounting_of x).totals ≡ t
    → (accounting_of y).totals ≡ t
    → (accounting_of (if b then x else y)).totals ≡ t
either_totals true x y t hx hy = hx
either_totals false x y t hx hy = hy

snapshot-totals : (l : Ledger) → (accounting_of (snapshot l)).totals ≡ l.totals
unfolding snapshot
snapshot-totals l = either_totals l.is_format_two _ _ l.totals refl refl

enveloped-totals :
    (strip : Text → Text) (disk : Option Document) (l : Ledger) (b : Bool) (t : Totals)
    (d : Document)
    → enveloped strip none disk l b (merged_accounting strip none disk l t) ≡ ok d
    → (accounting_of d).totals ≡ clamped t
unfolding enveloped merged_accounting
enveloped-totals strip disk l true t d h =
    let acc = merged_accounting strip none disk l t in
    let (ops, merged, h1) = >>=-eq-ok (merged_operations l.ops (ops_of disk)) _ h in
    let (u, parts, h2) = >>=-eq-ok (ledger_parts strip (Document.versioned acc ops)) _ h1 in
    let (v, dumpable, h3) = >>=-eq-ok (check_dumpable acc) _ h2 in
    ap (λ x. (accounting_of x).totals) (sym (ok-injective h3))
enveloped-totals strip disk l false t d h =
    let acc = merged_accounting strip none disk l t in
    let (v, dumpable, h1) = >>=-eq-ok (check_dumpable acc) _ h in
    ap (λ x. (accounting_of x).totals) (sym (ok-injective h1))

to_write-totals :
    (strip : Text → Text) (disk : Document) (l : Ledger) (t : Totals) (d : Document)
    → merged_totals (accounting_of disk).totals l.totals l.baseline ≡ ok t
    → to_write strip none (some disk) l ≡ ok d
    → (accounting_of d).totals ≡ clamped t
unfolding to_write
to_write-totals strip disk l t d exact h =
    let (t', totals, rest) =
      >>=-eq-ok (merged_totals (accounting_of disk).totals l.totals l.baseline) _ h in
    let same : t' ≡ t = ok-injective (sym totals ∙ exact) in
    enveloped-totals strip (some disk) l (l.is_format_two || is_versioned disk) t' d rest
    ∙ ap clamped same

-- The outcomes of a call that moves an amount: the step is taken and reported, or nothing is.
abbrev pub Takes : (Text → Text) → Account → Account → Double → Double → World → Type 0
Takes strip c c' v a s' = ((a ≡ v) × Holds strip c' s') ⊎ ((a ≡ zero_double) × Holds strip c s')

-- A call that returns 0.0 at once, or goes on.
pub zero_or :
    (strip : Text → Text) (b : Bool) (rest : M Double) (v : Double) (c c' : Account) (s : World)
    (a : Double) (s' : World)
    → Holds strip c s
    → (rest s ≡ (ok a, s') → Takes strip c c' v a s')
    → (if b then pure zero_double else rest) s ≡ (ok a, s')
    → Takes strip c c' v a s'
unfolding pure
zero_or strip true rest v c c' s a s' holds later done =
    let (amount, still) = outcome_eq done in inr (sym amount, subst (Holds strip c) still holds)
zero_or strip false rest v c c' s a s' holds later done = later done

module _ (h : Interpreter) (m : Moment) where
  pub refreshed-Holds :
      (c : Account) (s : World) (d : Document)
      → IsReadable h.strip d s
      → differ s.ledger.totals s.ledger.baseline ≡ false
      → refreshed h m s ≡ (ok true, record s { ledger = adopted d s.ledger })
  unfolding refreshed refresh_locked refresh_from adopt_document adopt adopted catching handle ◌>>=◌
      after get lift set_ledger pure
  refreshed-Holds c s d readable same =
      rw (read-IsReadable h.strip m.rename d s readable, same, readable.4) refl

  concluded :
      (b : Bool) (c c' : Account) (d : Document) (v : Double) (before : Document) (t s' : World)
      → IsReadable h.strip d t
      → (accounting_of d).totals ≡ totals_for c
      → t.ledger.totals ≡ totals_for c'
      → t.ledger.baseline ≡ totals_for c
      → merged_totals (totals_for c) (totals_for c') (totals_for c) ≡ ok (totals_for c')
      → (accounting_of before).totals ≡ totals_for c
      → commit_operation h.strip m before t ≡ (ok b, s')
      → s'.ledger.recovery_required ≡ false
      → Takes h.strip c c' v (amount_if b v) s'
  concluded true c c' d v before t s' readable held new base merged kept committed clear =
      let (r, saved, durable) = commit_operation-IsDurable h.strip m before t s' committed in
      let (old, d', found, written, placed) =
        save_locked-IsMerged h.strip m t r s' readable.1 saved durable clear in
      let same : old ≡ d = same_document old d (sym found.2 ∙ readable.2) in
      let exact : merged_totals (accounting_of old).totals t.ledger.totals t.ledger.baseline
          ≡ ok (totals_for c') =
        rw (same, held, new, base) merged in
      let totals : (accounting_of d').totals ≡ totals_for c' =
        to_write-totals h.strip old (fresh t).ledger (totals_for c') d' exact written
        ∙ clamped-totals_for c' in
      inl (
        refl,
        (
          d',
          merged-IsReadable h.strip old d' t s' found written placed clear,
          totals,
          rw (placed.2 ∙ totals, placed.3 ∙ totals) (differ-totals_for c'),
        ),
      )
  concluded false c c' d v before t s' readable held new base merged kept committed clear =
      let (disk, totals, baseline) =
        commit_operation-back h.strip m before t s' readable.1 committed clear in
      inr (
        refl,
        (
          d,
          (
            clear,
            ap (λ x. x.storage) disk ∙ readable.1,
            ap (λ x. x.file) disk ∙ readable.2,
            readable.3,
            readable.4,
            rw (ap (λ x. x.incidents) disk) readable.5,
          ),
          held,
          rw (totals, baseline, kept) (differ-totals_for c),
        ),
      )

  -- A change of the ledger is saved as it was reported, or taken back.
  pub recorded-Takes :
      (change : Ledger → Ledger) (v : Double) (c c' : Account) (d : Document) (s : World)
      (a : Double) (s' : World)
      → IsReadable h.strip d s
      → (accounting_of d).totals ≡ totals_for c
      → s.ledger.totals ≡ totals_for c
      → (change (fresh s).ledger).totals ≡ totals_for c'
      → (change (fresh s).ledger).baseline ≡ totals_for c
      → (change (fresh s).ledger).recovery_required ≡ false
      → merged_totals (totals_for c) (totals_for c') (totals_for c) ≡ ok (totals_for c')
      → recorded h m change v s ≡ (ok a, s')
      → s'.ledger.recovery_required ≡ false
      → Takes h.strip c c' v a s'
  unfolding recorded recorded_body get set_ledger ◌>>=◌ after pure
  recorded-Takes change v c c' d s a s' readable held mine new base off merged done clear =
      let before = snapshot s.ledger in
      let t : World = record (fresh s) { ledger = change (fresh s).ledger } in
      let d1 = operation_locked-ok h.strip m (recorded_body h m change v) s a s' done in
      let (b, s1, committed, d2) =
        returned (commit_operation h.strip m before) (λ c. pure (amount_if c v)) t a s' d1 in
      let (amount, still) = outcome_eq d2 in
      subst₂ (λ x t. Takes h.strip c c' v x t) amount still
        (concluded b c c' d v before t s1
          (off, readable.1, readable.2, readable.3, readable.4, readable.5) held new base merged
          (snapshot-totals s.ledger ∙ mine) committed
          (ap (λ t. t.ledger.recovery_required) still ∙ clear))
