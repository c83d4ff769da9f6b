-- ===== src/Ledger/Recorded.antt =====
-- What a keyed debit that returned has left in the journal.
use kry.Base.{
  ◌≡◌, refl, ap, subst, subst₂, ◌∙◌, Bool, true, false, ◌||◌, not, Option, none, some,
  if◌then◌else◌,
}
use kry.Base.Texts.{Text, text_eq, text_eq_refl}
use kry.Base.Dicts.{lookup, insert, lookup-insert}
use kry.Base.Results.{ok, value_error, persistence_error}
use kry.Double.{Double, zero_double, add, sub, lt}
use kry.Ledger.Book.{
  Kind, spend_kind, debit_kind, Operation, Operations, Document, operations_of, Ledger,
  validate_op_id, Totals, finite, nonnegative, snapshot,
}
use kry.Ledger.World.{
  at_journal, World, pure, lift, get, set_ledger, fail_if, after, ◌>>=◌, ◌>>◌, handle, catching,
  returned, reraised, raise-Raises, lift_returned, guard_returned, outcome_eq,
}
use kry.Ledger.Reading.{is_journal, storage_path, path_from}
use kry.Ledger.Merge.{same_kind}
use kry.Ledger.Saving.{Moment, refresh_locked, commit_operation}
use kry.Ledger.Calls.{Purpose, spending, debiting, Interpreter, kind_of, totals_set, add_event}
use kry.Ledger.Debits.{
  cost_for, or_unavailable, keyed_change, keyed_saved, keyed_clocked, keyed_body, keyed_block,
  keyed_debit_of, keyed_fresh, operation_of, replayed, keyed_found, keyed_debit, debit_event,
}
use kry.Ledger.Read.{IsReadable, read-IsReadable}
use kry.Ledger.Commit.{commit_operation-IsDurable, operation_locked-ok}
use kry.Ledger.Committed.{fresh, IsMerged, save_locked-IsMerged}
use kry.Ledger.Refreshed.{merged-IsReadable, refresh_locked-journal}
use kry.Ledger.Merged.{undo_not, merged_operations-has, to_write-versioned}

same_kind_refl : (k : Kind) → same_kind k k ≡ true
same_kind_refl spend_kind = refl
same_kind_refl debit_kind = refl

both_true : (b c : Bool) → (not b || not c) ≡ false → (b ≡ true) × (c ≡ true)
both_true true true h = (refl, refl)
both_true _ _ h = cc

either_ops :
    (b : Bool) (x y : Ledger) (ops : Operations)
    → x.ops ≡ ops
    → y.ops ≡ ops
    → (if b then x else y).ops ≡ ops
either_ops true x y ops hx hy = hx
either_ops false x y ops hx hy = hy

module _ (h : Interpreter) where
  -- The journal records the debit of an amount under an id, for the given parameters.
  abbrev pub IsRecorded : Text → Purpose → Double → World → Type 0
  IsRecorded k q a s =
      (d : Document) × (op : Operation) × IsReadable h.strip d s
      × (lookup k (operations_of d) ≡ some op)
      × (same_kind op.kind (kind_of q) ≡ true)
      × (text_eq op.params_sha256 (h.params_sha256 q) ≡ true)
      × (op.amount ≡ a)

  -- A recorded debit is answered with its amount, and changes nothing.
  pub replay-IsRecorded :
      (m : Moment) (k j : Text) (q : Purpose) (a : Double) (s : World)
      → validate_op_id h.strip k ≡ ok j
      → IsRecorded k q a s
      → keyed_debit h m k q s ≡ (ok a, s)
  unfolding keyed_debit ◌>>=◌ after lift catching handle keyed_found replayed fail_if get
      storage_path path_from pure
  replay-IsRecorded m k j q a s valid (d, op, readable, found, kind, digest, amount) =
      rw
        (
          valid,
          read-IsReadable h.strip m.rename d s readable,
          found,
          kind,
          digest,
          readable.1,
          readable.2,
          amount,
        )
        refl

  module _ (m : Moment) where
    debit_event-ops :
        (q : Purpose) (actual : Double) (l : Ledger) → (debit_event h m q actual l).ops ≡ l.ops
    unfolding debit_event add_event
    debit_event-ops (spending model tokens detail) actual l = refl
    debit_event-ops (debiting amount) actual l = refl

    keyed_change-ops :
        (k : Text) (q : Purpose) (actual balance spent : Double) (l : Ledger)
        → (keyed_change h m k q actual balance spent l).ops
          ≡ insert k (operation_of h m q actual) l.ops
    unfolding keyed_change totals_set
    keyed_change-ops k q actual balance spent l =
        either_ops (lt zero_double actual) _ _ _ (debit_event-ops q actual _) refl

    changed :
        (k : Text) (q : Purpose) (actual balance spent : Double) (l : Ledger)
        → lookup k (keyed_change h m k q actual balance spent l).ops
          ≡ some (operation_of h m q actual)
    changed k q actual balance spent l =
        rw
          (
            keyed_change-ops k q actual balance spent l,
            lookup-insert k k (operation_of h m q actual) l.ops,
            text_eq_refl k,
          )
          refl

    merged-IsRecorded :
        (k : Text) (q : Purpose) (op : Operation) (s s' : World)
        → lookup k s.ledger.ops ≡ some op
        → same_kind op.kind (kind_of q) ≡ true
        → text_eq op.params_sha256 (h.params_sha256 q) ≡ true
        → IsMerged h.strip m s s'
        → s'.ledger.recovery_required ≡ false
        → IsRecorded k q op.amount s'
    merged-IsRecorded k q op s s' found kind digest (old, d, readable, written, placed) clear =
        let (vd, merged, recovery) =
          to_write-versioned h.strip old (fresh s).ledger d readable.3 written in
        (
          d,
          op,
          merged-IsReadable h.strip old d s s' readable written placed clear,
          merged_operations-has k op s.ledger.ops (operations_of old) (operations_of d) found
              merged,
          kind,
          digest,
          refl,
        )

    saved_block :
        (k : Text) (q : Purpose) (actual : Double) (before : Document) (s : World) (a : Double)
        (s' : World)
        → s.disk.storage ≡ at_journal
        → lookup k s.ledger.ops ≡ some (operation_of h m q actual)
        → keyed_saved h m actual before s ≡ (ok a, s')
        → s'.ledger.recovery_required ≡ false
        → IsRecorded k q a s'
    unfolding keyed_saved pure
    saved_block k q actual before s a s' at found done clear =
        let (b, s1, committed, d1) =
          returned (commit_operation h.strip m before)
            (λ c. fail_if (not c) persistence_error >> pure actual) s a s' done in
        let (sure, d2) = guard_returned (not b) persistence_error (pure actual) s1 a s' d1 in
        let (amount, still) = outcome_eq d2 in
        let yes_committed : commit_operation h.strip m before s ≡ (ok true, s1) =
          subst (λ c. commit_operation h.strip m before s ≡ (ok c, s1)) (undo_not b sure)
            committed in
        let (r, saved, durable) = commit_operation-IsDurable h.strip m before s s1 yes_committed in
        let clear1 : s1.ledger.recovery_required ≡ false =
          ap (λ t. t.ledger.recovery_required) still ∙ clear in
        subst₂ (λ x t. IsRecorded k q x t) amount still
          (merged-IsRecorded k q (operation_of h m q actual) s s1 found (same_kind_refl (kind_of q))
            (text_eq_refl (h.params_sha256 q))
            (save_locked-IsMerged h.strip m s r s1 at saved durable clear1) clear1)

    keyed_block-IsRecorded :
        (k : Text) (q : Purpose) (actual balance spent : Double) (s : World) (a : Double)
        (s' : World)
        → s.disk.storage ≡ at_journal
        → keyed_block h m k q actual balance spent s ≡ (ok a, s')
        → s'.ledger.recovery_required ≡ false
        → IsRecorded k q a s'
    unfolding keyed_block keyed_body keyed_clocked keyed_saved get set_ledger ◌>>=◌ after pure
    keyed_block-IsRecorded k q actual balance spent s a s' at done clear =
        let before = snapshot s.ledger in
        let l = keyed_change h m k q actual balance spent (fresh s).ledger in
        let d1 =
          operation_locked-ok h.strip m (keyed_body h m k q actual balance spent) s a s' done in
        let t : World = record (fresh s) {
          ledger = record (totals_set balance s.ledger.totals.earned spent (fresh s).ledger) {
            is_format_two = true;
          };
        } in
        let (now, clock, d2) =
          lift_returned (nonnegative m.now)
            (λ (_ : Double). set_ledger l >> keyed_saved h m actual before) t a s' d1 in
        saved_block k q actual before (record (fresh s) { ledger = l }) a s' at
          (changed k q actual balance spent (fresh s).ledger) d2 clear

    keyed_debit_of-IsRecorded :
        (k : Text) (q : Purpose) (actual : Double) (t : Totals) (s : World) (a : Double)
        (s' : World)
        → s.disk.storage ≡ at_journal
        → keyed_debit_of h m k q actual t s ≡ (ok a, s')
        → s'.ledger.recovery_required ≡ false
        → IsRecorded k q a s'
    unfolding keyed_debit_of
    keyed_debit_of-IsRecorded k q actual t s a s' at done clear =
        let (balance, e1, d1) = lift_returned (finite (sub t.balance actual)) _ s a s' done in
        let (spent, e2, d2) = lift_returned (nonnegative (add t.spent actual)) _ s a s' d1 in
        let (free, d3) =
          guard_returned _ value_error (keyed_block h m k q actual balance spent) s a s' d2 in
        keyed_block-IsRecorded k q actual balance spent s a s' at d3 clear

    keyed_fresh-IsRecorded :
        (k : Text) (q : Purpose) (disk : Option Document) (s : World) (a : Double) (s' : World)
        → s.disk.storage ≡ at_journal
        → keyed_fresh h m k q disk s ≡ (ok a, s')
        → s'.ledger.recovery_required ≡ false
        → IsRecorded k q a s'
    unfolding keyed_fresh get ◌>>=◌ after catching
    keyed_fresh-IsRecorded k q disk s a s' at done clear =
        let (free, d1) = guard_returned _ value_error _ s a s' done in
        let (cost, priced, d2) = lift_returned (cost_for h m q) _ s a s' d1 in
        let (u, s1, current, d3) =
          returned (or_unavailable (refresh_locked h.strip m)) _ s a s' d2 in
        keyed_debit_of-IsRecorded k q _ s1.ledger.totals s1 a s'
          (refresh_locked-journal h.strip m s s1 at (
            reraised (refresh_locked h.strip m s) u s1 (λ x t. raise-Raises persistence_error t)
              current))
          d3 clear

    -- The outcome of a first call and of a retry.
    pub keyed_found-IsRecorded :
        (k : Text) (q : Purpose) (d : Document) (o : Option Operation) (s : World) (a : Double)
        (s' : World)
        → lookup k (operations_of d) ≡ o
        → IsReadable h.strip d s
        → keyed_found h m k q (some d) o s ≡ (ok a, s')
        → s'.ledger.recovery_required ≡ false
        → IsRecorded k q a s'
    unfolding keyed_found replayed get ◌>>=◌ after pure
    keyed_found-IsRecorded k q d none s a s' found readable done clear =
        keyed_fresh-IsRecorded k q (some d) s a s' readable.1 done clear
    keyed_found-IsRecorded k q d (some op) s a s' found readable done clear =
        let (same, d1) = guard_returned _ value_error _ s a s' done in
        let (p, path, d2) = lift_returned (storage_path s.disk) _ s a s' d1 in
        let (journal, d3) =
          guard_returned (not (is_journal p)) persistence_error (pure op.amount) s a s' d2 in
        let (amount, still) = outcome_eq d3 in
        let (kind, digest) = both_true (same_kind op.kind (kind_of q)) _ same in
        subst (λ t. IsRecorded k q a t) still (d, op, readable, found, kind, digest, amount)
