-- ===== src/Ledger/Commit.antt =====
-- `_commit_operation_locked` and `_operation_locked`, by what they return.
use kry.Base.{◌≡◌, inl, inr, refl, sym, ap, subst, ◌∙◌, Bool, true, false}
use kry.Base.Texts.{Text}
use kry.Base.Results.{Result, Error, err, ok, ok-injective, >>=-eq-ok, persistence_error}
use kry.Ledger.Book.{Document, Ledger, accounting_of, adopt, adopted, check_document, snapshot}
use kry.Ledger.World.{
  at_journal, World, M, pure, lift, get, set_ledger, after, ◌>>=◌, handle, catching, returned,
  reraised, bind-Raises, raise-Raises, lift_returned, guard_returned,
}
use kry.Ledger.Saving.{
  Moment, save_locked, commit_operation, uncommitted, operation_locked, undo, roll_back,
  set_committed,
}
use kry.Ledger.Written.{IsDurable}
use kry.Ledger.Committed.{fresh}
use kry.Ledger.Intact.{save_locked-IsIntact}

module _ (strip : Text → Text) (m : Moment) where
  uncommitted-no :
      (before : Document) (x : Error) (s s' : World) (b : Bool)
      → s.ledger.last_write_committed ≡ b
      → uncommitted strip before x b s ≡ (ok true, s')
      → (s ≡ s') × IsDurable (err x) s'
  unfolding uncommitted pure get ◌>>=◌ after
  uncommitted-no before x s s' true e done =
      (ap (λ o. o.1) done, inr (ap (λ o. o.1.ledger.last_write_committed) (sym done) ∙ e))
  uncommitted-no before x s s' false e done =
      let (u, s1, rolled, d1) = returned (roll_back strip before) _ s true s' done in
      let (c, d2) = guard_returned _ persistence_error (pure false) s1 true s' d1 in
      let no : ok false ≡ ok true = ap (λ o. o.0) d2 in cc

  commit_from :
      (before : Document) (o : Result (Unit {0}) × World) (s' : World)
      → ◌≡◌ {A = Result Bool × World}
          (handle
            (λ x. do t ← get; uncommitted strip before x t.ledger.last_write_committed)
            (after (λ _. pure true) o))
          (ok true, s')
      → (r : Result (Unit {0})) × (o ≡ (r, s')) × IsDurable r s'
  unfolding handle after pure get ◌>>=◌ uncommitted
  commit_from before (ok u, s) s' done = (ok u, ap (λ z. (ok u, z.1)) done, inl refl)
  commit_from before (err x, s) s' done =
      let (same, durable) = uncommitted-no before x s s' s.ledger.last_write_committed refl done in
      (err x, ap (λ z. (err x, z)) same, durable)

  pub commit_operation-IsDurable :
      (before : Document) (s s' : World)
      → commit_operation strip m before s ≡ (ok true, s')
      → (r : Result (Unit {0})) × (◌≡◌ {A = Result (Unit {0}) × World}
          (save_locked strip m s)
          (r, s'))
        × IsDurable r s'
  unfolding commit_operation catching ◌>>=◌
  commit_operation-IsDurable before s s' done = commit_from before (save_locked strip m s) s' done

  undo-err :
      {A : Type 0} (before : Document) (x : Error) (c : Bool) (s : World)
      → (y : Error) × (t : World) × (undo strip {A = A} before x c s ≡ (err y, t))
  unfolding undo lift
  undo-err before x true s = (x, s, refl)
  undo-err before x false s = bind-Raises _ (λ (_ : Unit {0}). lift (err x)) (λ _. raise-Raises x) s

  -- The guarded block ran through.
  pub operation_locked-ok :
      {A : Type 0} (body : Document → M A) (s : World) (a : A) (s' : World)
      → operation_locked strip body s ≡ (ok a, s')
      → body (snapshot s.ledger) (fresh s) ≡ (ok a, s')
  unfolding operation_locked set_committed set_ledger get ◌>>=◌ after catching
  operation_locked-ok body s a s' done =
      reraised (body (snapshot s.ledger) (fresh s)) a s'
        (λ x t. undo-err (snapshot s.ledger) x t.ledger.last_write_committed t) done

  -- The totals of a document, adopted.
  abbrev IsBack : Document → World → World → Type 0
  IsBack before s s' =
      (s'.disk ≡ s.disk)
      × (s'.ledger.totals ≡ (accounting_of before).totals)
      × (s'.ledger.baseline ≡ (accounting_of before).totals)
      × (s'.ledger.recovery_required ≡ s.ledger.recovery_required)

  roll_back-IsBack :
      (before : Document) (s : World) (u : Unit {0}) (s' : World)
      → roll_back strip before s ≡ (ok u, s')
      → IsBack before s s'
  unfolding roll_back adopt adopted get set_ledger ◌>>=◌ after
  roll_back-IsBack before s u s' h =
      let (l, adopting, set) =
        lift_returned (adopt strip before s.ledger)
          (λ (l : Ledger). set_ledger (record l { recovery_required = s.ledger.recovery_required }))
          s u s' h in
      let (v, valid, whole) =
        >>=-eq-ok (check_document strip before) (λ _. ok (adopted before s.ledger)) adopting in
      let same : adopted before s.ledger ≡ l = ok-injective whole in
      (
        ap (λ o. o.1.disk) (sym set),
        ap (λ o. o.1.ledger.totals) (sym set) ∙ ap (λ x. x.totals) (sym same),
        ap (λ o. o.1.ledger.baseline) (sym set) ∙ ap (λ x. x.baseline) (sym same),
        ap (λ o. o.1.ledger.recovery_required) (sym set),
      )

  uncommitted-IsBack :
      (before : Document) (x : Error) (s s' : World) (b : Bool)
      → s.ledger.last_write_committed ≡ b
      → uncommitted strip before x b s ≡ (ok false, s')
      → (b ≡ false) × IsBack before s s'
  unfolding uncommitted pure get ◌>>=◌ after
  uncommitted-IsBack before x s s' true e done =
      let no : ok true ≡ ok false = ap (λ o. o.0) done in cc
  uncommitted-IsBack before x s s' false e done =
      let (u, s1, rolled, d1) = returned (roll_back strip before) _ s false s' done in
      let (c, d2) = guard_returned _ persistence_error (pure false) s1 false s' d1 in
      (
        refl,
        subst (λ t. IsBack before s t) (ap (λ o. o.1) d2) (roll_back-IsBack before s u s1 rolled),
      )

  back_from :
      (before : Document) (s : World) (o : Result (Unit {0}) × World) (s' : World)
      → s.disk.storage ≡ at_journal
      → save_locked strip m s ≡ o
      → s'.ledger.recovery_required ≡ false
      → ◌≡◌ {A = Result Bool × World}
          (handle
            (λ x. do t ← get; uncommitted strip before x t.ledger.last_write_committed)
            (after (λ _. pure true) o))
          (ok false, s')
      → (s'.disk ≡ s.disk)
        × (s'.ledger.totals ≡ (accounting_of before).totals)
        × (s'.ledger.baseline ≡ (accounting_of before).totals)
  unfolding handle after pure get ◌>>=◌ uncommitted
  back_from before s (ok u, s1) s' at saved clear done =
      let no : ok true ≡ ok false = ap (λ o. o.0) done in cc
  back_from before s (err x, s1) s' at saved clear done =
      let (fresh_still, (disk, totals, baseline, required)) =
        uncommitted-IsBack before x s1 s' s1.ledger.last_write_committed refl done in
      (
        disk
            ∙ save_locked-IsIntact strip m s (err x) s1 at saved (sym required ∙ clear) fresh_still,
        totals,
        baseline,
      )

  -- A save that failed, and blocks nothing: the files are as they were, and the totals those before.
  pub commit_operation-back :
      (before : Document) (s s' : World)
      → s.disk.storage ≡ at_journal
      → commit_operation strip m before s ≡ (ok false, s')
      → s'.ledger.recovery_required ≡ false
      → (s'.disk ≡ s.disk)
        × (s'.ledger.totals ≡ (accounting_of before).totals)
        × (s'.ledger.baseline ≡ (accounting_of before).totals)
  unfolding commit_operation catching ◌>>=◌
  commit_operation-back before s s' at done clear =
      back_from before s (save_locked strip m s) s' at refl clear done
