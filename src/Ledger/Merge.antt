-- ===== src/Ledger/Merge.antt =====
-- What `_save_locked` is about to write: the change since the last save, added onto the durable ledger.
-- The display fields `usd_equivalent_saved` and `efficiency_ratio`, which nothing reads back, are left out.
use kry.Base.{
  Bool, true, false, ◌&&◌, ◌||◌, not, if◌then◌else◌, Option, none, some, List, [], ◌∷◌, ◌++◌, map,
  all,
}
use kry.Base.Texts.{Text, text_eq, mem_text}
use kry.Base.Dicts.{lookup, insert}
use kry.Base.Results.{Result, err, ok, value_error, ◌>>=◌, ◌>>◌, raise_if}
use kry.Double.{Double, is_finite, add, sub, lt, le, eq, zero_double}
use kry.Json.Values.{Fields, are_dumpable_fields}
use kry.Ledger.Book.{
  Event, Totals, Kind, spend_kind, debit_kind, Operation, Operations, Accounting, Document, legacy,
  versioned, accounting_of, operations_of, is_versioned, finite, ledger_parts, check_event, newest,
  Ledger, no_totals,
}

abbrev totals_of : Option Document → Totals
totals_of none = no_totals
totals_of (some d) = (accounting_of d).totals

abbrev events_of : Option Document → List Event
events_of none = []
events_of (some d) = (accounting_of d).events

abbrev pub ops_of : Option Document → Operations
ops_of none = []
ops_of (some d) = operations_of d

abbrev is_format_two : Option Document → Bool
is_format_two none = false
is_format_two (some d) = is_versioned d

unfoldable pub merged_total : Double → Double → Double → Result Double
unfolding add sub
merged_total disk mine base = do d ← finite disk; m ← finite mine; finite (add d (sub m base))

unfoldable pub merged_totals : Totals → Totals → Totals → Result Totals
unfolding merged_total
merged_totals disk mine base = do
  b ← merged_total disk.balance mine.balance base.balance
  e ← merged_total disk.earned mine.earned base.earned
  x ← merged_total disk.spent mine.spent base.spent
  ok (record { balance = b; earned = e; spent = x })

-- The legacy clamp of a negative balance.
unfoldable pub clamped : Totals → Totals
unfolding lt
clamped t =
    if lt t.balance zero_double
    then record { balance = zero_double; earned = t.earned; spent = t.earned }
    else t

abbrev is_empty : Text → Bool
is_empty [] = true
is_empty (c ∷ s) = false

abbrev is_valid_event : Result (Unit {0}) → Bool
is_valid_event (ok _) = true
is_valid_event (err x) = false

-- Another writer's events: valid, with an id that this process does not hold.
unfoldable pub others : (Text → Text) → List Text → List Event → List Event
unfolding check_event
others strip mine [] = []
others strip mine (e ∷ es) =
    let rest = others strip mine es in
    if is_valid_event (check_event strip e) && not (is_empty e.tx_id) && not (mem_text e.tx_id mine)
    then e ∷ rest
    else rest

-- `_combined.sort(key=lambda x: x.ts)`, which is stable.
unfoldable pub put_by_ts : Event → List Event → List Event
unfolding le
put_by_ts e [] = e ∷ []
put_by_ts e (f ∷ fs) = let rest = put_by_ts e fs in if le e.ts f.ts then e ∷ f ∷ fs else f ∷ rest

unfoldable pub by_ts : List Event → List Event
unfolding put_by_ts
by_ts [] = []
by_ts (e ∷ es) = put_by_ts e (by_ts es)

unfoldable pub merged_events : (Text → Text) → List Event → List Event → List Event
unfolding by_ts others newest
merged_events strip mine disk =
    newest (by_ts (mine ++ others strip (map (λ (e : Event). e.tx_id) mine) disk))

-- The recovery that an acknowledgement hands over, or the durable one, or this process's own.
abbrev pub merged_recovery : Option Fields → Option Document → Ledger → Fields
merged_recovery (some r) disk l = r
merged_recovery none (some d) l = (accounting_of d).recovery
merged_recovery none none l = l.recovery

abbrev pub same_kind : Kind → Kind → Bool
same_kind spend_kind spend_kind = true
same_kind debit_kind debit_kind = true
same_kind _ _ = false

unfoldable pub same_operation : Operation → Operation → Bool
unfolding eq text_eq
same_operation a b =
    same_kind a.kind b.kind
    && eq a.amount b.amount
    && text_eq a.params_sha256 b.params_sha256
    && eq a.ts b.ts

abbrev pub conflicts : Operation → Option Operation → Bool
conflicts a none = false
conflicts a (some b) = not (same_operation b a)

-- The loop over this process's operations.
unfoldable pub merged_operations : Operations → Operations → Result Operations
unfolding lookup insert same_operation
merged_operations [] disk = ok disk
merged_operations ((k, op) ∷ ops) disk = do
  raise_if (conflicts op (lookup k disk)) value_error
  merged_operations ops (insert k op disk)

-- `_json_dumps(data)`, which rejects numbers that are not finite.
unfoldable pub check_dumpable : Accounting → Result (Unit {0})
unfolding are_dumpable_fields
check_dumpable a =
    raise_if
      (not (
        are_dumpable_fields a.recovery
        && all (λ (e : Event). is_finite e.ts && is_finite e.amount) a.events))
      value_error

module _ (strip : Text → Text) (recovery : Option Fields) (disk : Option Document)
    (l : Ledger) where
  unfoldable pub merged_accounting : Totals → Accounting
  unfolding clamped merged_events
  merged_accounting t = record {
    totals = clamped t;
    events = merged_events strip l.events (events_of disk);
    cycle_count = l.cycle_count;
    recovery = merged_recovery recovery disk l;
  }

  unfoldable pub enveloped : Bool → Accounting → Result Document
  unfolding ledger_parts merged_operations check_dumpable
  enveloped true a = do
    ops ← merged_operations l.ops (ops_of disk)
    ledger_parts strip (versioned a ops)
    check_dumpable a
    ok (versioned a ops)
  enveloped false a = do check_dumpable a; ok (legacy a)

  unfoldable pub to_write : Result Document
  unfolding merged_totals merged_accounting enveloped
  to_write = do
    t ← merged_totals (totals_of disk) l.totals l.baseline
    enveloped (l.is_format_two || is_format_two disk) (merged_accounting t)
