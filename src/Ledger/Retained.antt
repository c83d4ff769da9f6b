-- ===== src/Ledger/Retained.antt =====
-- A debit under another id keeps the operations of the journal.
use kry.Base.{◌≡◌, sym, ap, subst, subst₂, ◌∙◌, Bool, true, false, not, Option, none, some}
use kry.Base.Texts.{Text}
use kry.Base.Dicts.{lookup}
use kry.Base.Results.{ok, value_error, persistence_error}
use kry.Double.{Double, add, sub}
use kry.Ledger.Book.{
  Operation, Document, operations_of, Totals, finite, nonnegative, snapshot, adopt,
}
use kry.Ledger.World.{
  at_journal, document, World, pure, get, set_ledger, fail_if, after, ◌>>=◌, ◌>>◌, catching,
  returned, reraised, raise-Raises, lift_returned, guard_returned, outcome_eq,
}
use kry.Ledger.Reading.{is_journal, storage_path, read_locked}
use kry.Ledger.Merge.{to_write}
use kry.Ledger.Saving.{
  Moment, refresh_locked, refresh_from, adopt_document, differ, commit_operation,
}
use kry.Ledger.Calls.{Purpose, Interpreter, totals_set}
use kry.Ledger.Debits.{
  cost_for, or_unavailable, keyed_change, keyed_saved, keyed_clocked, keyed_body, keyed_block,
  keyed_debit_of, keyed_fresh, replayed, keyed_found,
}
use kry.Ledger.Read.{IsReadable, read_journal}
use kry.Ledger.Written.{IsWritten}
use kry.Ledger.Commit.{commit_operation-IsDurable, operation_locked-ok}
use kry.Ledger.Committed.{fresh, save_locked-IsMerged}
use kry.Ledger.Refreshed.{saved_over, refresh_locked-journal}
use kry.Ledger.Merged.{undo_not, merged_operations-keeps, to_write-versioned}

-- The journal on the disk has an operation under an id.
abbrev pub Has : Text → Operation → World → Type 0
Has k op s = (d : Document) × (s.disk.file ≡ document d) × (lookup k (operations_of d) ≡ some op)

pub same_document : (d e : Document) → document d ≡ document e → d ≡ e
same_document d e h = cc

module _ (h : Interpreter) (m : Moment) (k : Text) (op : Operation) where
  written-Has :
      (old d : Document) (s s' : World)
      → IsReadable h.strip old s
      → to_write h.strip none (some old) (fresh s).ledger ≡ ok d
      → IsWritten h.strip d s s'
      → Has k op s
      → Has k op s'
  written-Has old d s s' readable written (placed, valid, totals, baseline) (e, file, found) =
      let (vd, merged, recovery) =
        to_write-versioned h.strip old (fresh s).ledger d readable.3 written in
      let same : e ≡ old = same_document e old (sym file ∙ readable.2) in
      (
        d,
        ap (λ x. x.file) placed,
        merged_operations-keeps k op s.ledger.ops (operations_of old) (operations_of d)
            (subst (λ x. lookup k (operations_of x) ≡ some op) same found) merged,
      )

  refreshed_from-Has :
      (b : Bool) (old : Document) (s s' : World)
      → IsReadable h.strip old s
      → refresh_from h.strip m b (some old) s ≡ (ok tt, s')
      → Has k op s
      → Has k op s'
  unfolding refresh_from adopt_document get set_ledger ◌>>=◌ after
  refreshed_from-Has true old s s' readable e has =
      let (d, merged, written) = saved_over h.strip m m.refresh_write old s s' readable e in
      written-Has old d s s' readable merged written has
  refreshed_from-Has false old s s' readable e has =
      let (l, adopted, set) = lift_returned (adopt h.strip old s.ledger) set_ledger s tt s' e in
      subst (λ x. Has k op x) (ap (λ o. o.1) set) has

  refresh_locked-Has :
      (s s' : World)
      → s.disk.storage ≡ at_journal
      → refresh_locked h.strip m s ≡ (ok tt, s')
      → Has k op s
      → Has k op s'
  unfolding refresh_locked get ◌>>=◌ after
  refresh_locked-Has s s' at e has =
      let (o, s1, read, rest) =
        returned (read_locked h.strip m.rename)
          (λ disk. get >>= λ (t : World).
            refresh_from h.strip m (differ t.ledger.totals t.ledger.baseline) disk)
          s tt s' e in
      let (old, found, readable, still) = read_journal h.strip m.rename s o s1 at read in
      refreshed_from-Has (differ s.ledger.totals s.ledger.baseline) old s s' readable
        (subst₂
          (λ q t.
            refresh_from h.strip m (differ t.ledger.totals t.ledger.baseline) q t ≡ (ok tt, s'))
          found still rest)
        has

  saved-Has :
      (actual : Double) (before : Document) (s : World) (a : Double) (s' : World)
      → s.disk.storage ≡ at_journal
      → keyed_saved h m actual before s ≡ (ok a, s')
      → s'.ledger.recovery_required ≡ false
      → Has k op s
      → Has k op s'
  unfolding keyed_saved pure
  saved-Has actual before s a s' at done clear has =
      let (b, s1, committed, d1) =
        returned (commit_operation h.strip m before)
          (λ c. fail_if (not c) persistence_error >> pure actual) s a s' done in
      let (sure, d2) = guard_returned (not b) persistence_error (pure actual) s1 a s' d1 in
      let (amount, still) = outcome_eq d2 in
      let yes_committed : commit_operation h.strip m before s ≡ (ok true, s1) =
        subst (λ c. commit_operation h.strip m before s ≡ (ok c, s1)) (undo_not b sure) committed in
      let (r, saved, durable) = commit_operation-IsDurable h.strip m before s s1 yes_committed in
      let clear1 : s1.ledger.recovery_required ≡ false =
        ap (λ t. t.ledger.recovery_required) still ∙ clear in
      let (old, d, readable, merged, written) =
        save_locked-IsMerged h.strip m s r s1 at saved durable clear1 in
      subst (λ x. Has k op x) still (written-Has old d s s1 readable merged written has)

  keyed_block-Has :
      (j : Text) (q : Purpose) (actual balance spent : Double) (s : World) (a : Double) (s' : World)
      → s.disk.storage ≡ at_journal
      → keyed_block h m j q actual balance spent s ≡ (ok a, s')
      → s'.ledger.recovery_required ≡ false
      → Has k op s
      → Has k op s'
  unfolding keyed_block keyed_body keyed_clocked keyed_saved get set_ledger ◌>>=◌ after pure
  keyed_block-Has j q actual balance spent s a s' at done clear has =
      let before = snapshot s.ledger in
      let l = keyed_change h m j q actual balance spent (fresh s).ledger in
      let d1 =
        operation_locked-ok h.strip m (keyed_body h m j q actual balance spent) s a s' done in
      let t : World = record (fresh s) {
        ledger = record (totals_set balance s.ledger.totals.earned spent (fresh s).ledger) {
          is_format_two = true;
        };
      } in
      let (now, clock, d2) =
        lift_returned (nonnegative m.now)
          (λ (_ : Double). set_ledger l >> keyed_saved h m actual before) t a s' d1 in
      saved-Has actual before (record (fresh s) { ledger = l }) a s' at d2 clear has

  keyed_debit_of-Has :
      (j : Text) (q : Purpose) (actual : Double) (t : Totals) (s : World) (a : Double) (s' : World)
      → s.disk.storage ≡ at_journal
      → keyed_debit_of h m j q actual t s ≡ (ok a, s')
      → s'.ledger.recovery_required ≡ false
      → Has k op s
      → Has k op s'
  unfolding keyed_debit_of
  keyed_debit_of-Has j q actual t s a s' at done clear has =
      let (balance, e1, d1) = lift_returned (finite (sub t.balance actual)) _ s a s' done in
      let (spent, e2, d2) = lift_returned (nonnegative (add t.spent actual)) _ s a s' d1 in
      let (free, d3) =
        guard_returned _ value_error (keyed_block h m j q actual balance spent) s a s' d2 in
      keyed_block-Has j q actual balance spent s a s' at d3 clear has

  keyed_fresh-Has :
      (j : Text) (q : Purpose) (disk : Option Document) (s : World) (a : Double) (s' : World)
      → s.disk.storage ≡ at_journal
      → keyed_fresh h m j q disk s ≡ (ok a, s')
      → s'.ledger.recovery_required ≡ false
      → Has k op s
      → Has k op s'
  unfolding keyed_fresh get ◌>>=◌ after catching
  keyed_fresh-Has j q disk s a s' at done clear has =
      let (free, d1) = guard_returned _ value_error _ s a s' done in
      let (cost, priced, d2) = lift_returned (cost_for h m q) _ s a s' d1 in
      let (u, s1, current, d3) = returned (or_unavailable (refresh_locked h.strip m)) _ s a s' d2 in
      let refreshed =
        reraised (refresh_locked h.strip m s) u s1 (λ x t. raise-Raises persistence_error t)
          current in
      keyed_debit_of-Has j q _ s1.ledger.totals s1 a s'
        (refresh_locked-journal h.strip m s s1 at refreshed) d3 clear
        (refresh_locked-Has s s1 at refreshed has)

  -- A debit under any id keeps each operation of the journal.
  pub keyed_found-Has :
      (j : Text) (q : Purpose) (d : Document) (o : Option Operation) (s : World) (a : Double)
      (s' : World)
      → s.disk.storage ≡ at_journal
      → keyed_found h m j q (some d) o s ≡ (ok a, s')
      → s'.ledger.recovery_required ≡ false
      → Has k op s
      → Has k op s'
  unfolding keyed_found replayed get ◌>>=◌ after pure
  keyed_found-Has j q d none s a s' at done clear has =
      keyed_fresh-Has j q (some d) s a s' at done clear has
  keyed_found-Has j q d (some x) s a s' at done clear has =
      let (same, d1) = guard_returned _ value_error _ s a s' done in
      let (p, path, d2) = lift_returned (storage_path s.disk) _ s a s' d1 in
      let (journal, d3) =
        guard_returned (not (is_journal p)) persistence_error (pure x.amount) s a s' d2 in
      subst (λ t. Has k op t) (outcome_eq d3).1 has
