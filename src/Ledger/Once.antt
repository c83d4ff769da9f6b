-- ===== src/Ledger/Once.antt =====
-- `_keyed_debit`: an id is debited once, and a retry is answered from the journal.
use kry.Base.{◌≡◌, refl, sym, subst, ◌∙◌, subst₂, false, some}
use kry.Base.Texts.{Text}
use kry.Base.Dicts.{lookup}
use kry.Base.Results.{ok, persistence_error}
use kry.Double.{Double}
use kry.Ledger.Book.{adopt, adopted, Operation, operations_of, validate_op_id}
use kry.Ledger.World.{
  at_journal, World, M, pure, lift, get, fail_if, after, ◌>>=◌, handle, catching, returned,
  reraised, raise-Raises, lift_returned,
}
use kry.Ledger.Reading.{storage_path, path_from, read_locked}
use kry.Ledger.Saving.{Moment}
use kry.Ledger.Calls.{Purpose, Interpreter}
use kry.Ledger.Debits.{
  ledger_operation, durable_snapshot, snapshot_of, or_unavailable, or_no_operations, keyed_found,
  keyed_debit,
}
use kry.Ledger.Read.{read_journal, read-IsReadable}
use kry.Ledger.Retained.{keyed_found-Has, same_document}
use kry.Ledger.Recorded.{IsRecorded, replay-IsRecorded, keyed_found-IsRecorded}

module _ (h : Interpreter) where
  abbrev debit_read : Moment → Text → Purpose → M Double
  debit_read m k q = do
    disk ← or_unavailable (read_locked h.strip m.rename)
    keyed_found h m k q disk (lookup k (or_no_operations disk))

  -- What a debit that returned has left in the journal.
  keyed_debit-IsRecorded :
      (m : Moment) (k : Text) (q : Purpose) (s : World) (a : Double) (s' : World)
      → s.disk.storage ≡ at_journal
      → keyed_debit h m k q s ≡ (ok a, s')
      → s'.ledger.recovery_required ≡ false
      → (j : Text) × (validate_op_id h.strip k ≡ ok j) × IsRecorded h k q a s'
  unfolding keyed_debit catching
  keyed_debit-IsRecorded m k q s a s' at done clear =
      let (j, valid, d1) =
        lift_returned (validate_op_id h.strip k) (λ (_ : Text). debit_read m k q) s a s' done in
      let (o, s1, read, d2) =
        returned (or_unavailable (read_locked h.strip m.rename))
          (λ disk. keyed_found h m k q disk (lookup k (or_no_operations disk))) s a s' d1 in
      let (d, found, readable, still) = read_journal h.strip m.rename s o s1 at (
        reraised (read_locked h.strip m.rename s) o s1 (λ x t. raise-Raises persistence_error t)
          read) in
      (
        j,
        valid,
        keyed_found-IsRecorded h m k q d (lookup k (operations_of d)) s a s' refl readable
            (subst₂ (λ x t. keyed_found h m k q x (lookup k (or_no_operations x)) t ≡ (ok a, s'))
              found still d2)
            clear,
      )

  found_after :
      (m : Moment) (k j : Text) (q : Purpose) (a : Double) (s : World)
      → validate_op_id h.strip k ≡ ok j
      → IsRecorded h k q a s
      → (op : Operation) × (ledger_operation h m k s ≡ (ok (some op), s)) × (op.amount ≡ a)
  unfolding ledger_operation durable_snapshot snapshot_of adopt adopted catching handle ◌>>=◌ after
      lift get storage_path path_from fail_if pure
  found_after m k j q a s valid (d, op, readable, found, kind, digest, amount) = (
    op,
    rw
        (
          valid,
          read-IsReadable h.strip m.rename d s readable,
          readable.4,
          readable.1,
          readable.2,
          readable.3,
          found,
        )
        refl,
    amount,
  )

  -- A debit under any id that returns keeps a recorded debit.
  IsRecorded-kept :
      (m : Moment) (k j : Text) (q p : Purpose) (a b : Double) (s s' : World)
      → IsRecorded h k q a s
      → keyed_debit h m j p s ≡ (ok b, s')
      → s'.ledger.recovery_required ≡ false
      → IsRecorded h k q a s'
  unfolding keyed_debit catching
  IsRecorded-kept m k j q p a b s s' (d, op, readable, found, kind, digest, amount) done clear =
      let (i, valid, (e, x, readable', found', kind', digest', amount')) =
        keyed_debit-IsRecorded m j p s b s' readable.1 done clear in
      let (i', valid', d1) =
        lift_returned (validate_op_id h.strip j) (λ (_ : Text). debit_read m j p) s b s' done in
      let (o, s1, read, d2) =
        returned (or_unavailable (read_locked h.strip m.rename))
          (λ disk. keyed_found h m j p disk (lookup j (or_no_operations disk))) s b s' d1 in
      let (old, got, readable1, still) = read_journal h.strip m.rename s o s1 readable.1 (
        reraised (read_locked h.strip m.rename s) o s1 (λ x t. raise-Raises persistence_error t)
          read) in
      let (d', file, kept) =
        keyed_found-Has h m k op j p old (lookup j (operations_of old)) s b s' readable.1
          (subst₂ (λ x t. keyed_found h m j p x (lookup j (or_no_operations x)) t ≡ (ok b, s')) got
            still d2)
          clear (d, readable.2, found) in
      let same : d' ≡ e = same_document d' e (sym file ∙ readable'.2) in
      (
        e,
        op,
        readable',
        subst (λ z. lookup k (operations_of z) ≡ some op) same kept,
        kind,
        digest,
        amount,
      )

  -- A run of debits, under any ids and at any moments, each of which returns with no recovery required.
  pub data Debits : World → World → Type 0 where
    no_more : (s : World) → Debits s s
    debit_first :
        (s t u : World) (m : Moment) (k : Text) (q : Purpose) (a : Double)
        → keyed_debit h m k q s ≡ (ok a, t)
        → t.ledger.recovery_required ≡ false
        → Debits t u
        → Debits s u

  IsRecorded-Debits :
      (k : Text) (q : Purpose) (a : Double) (s t : World)
      → Debits s t
      → IsRecorded h k q a s
      → IsRecorded h k q a t
  IsRecorded-Debits k q a _ _ (no_more s) r = r
  IsRecorded-Debits k q a _ _ (debit_first s t u m j p b done clear rest) r =
      IsRecorded-Debits k q a t u rest (IsRecorded-kept m k j q p a b s t r done clear)

  -- After a debit under an id that returned, made on a ledger whose storage is the fenced journal and with
  -- no recovery required afterwards, and after any further debits, each of which returned with no recovery
  -- required: the first call made again, whatever the clock and the disk do then, returns the same
  -- amount, and `ledger_operation` finds the id with that amount; both leave the state as it is.
  pub keyed_debit_once :
      (m m' : Moment) (k : Text) (q : Purpose) (s : World) (a : Double) (s' t : World)
      → s.disk.storage ≡ at_journal
      → keyed_debit h m k q s ≡ (ok a, s')
      → s'.ledger.recovery_required ≡ false
      → Debits s' t
      → (keyed_debit h m' k q t ≡ (ok a, t))
        × ((op : Operation) × (ledger_operation h m' k t ≡ (ok (some op), t)) × (op.amount ≡ a))
  keyed_debit_once m m' k q s a s' t at done clear more =
      let (j, valid, recorded) = keyed_debit-IsRecorded m k q s a s' at done clear in
      let still = IsRecorded-Debits k q a s' t more recorded in
      (replay-IsRecorded h m' k j q a t valid still, found_after m' k j q a t valid still)
