-- ===== src/Ledger/Book.antt =====
-- What the ledger's file holds and what a process holds of it: `KRYLedger`, `_adopt`, `_ledger_parts`
-- and `_operation_snapshot`.  A document is one that has the keys of a ledger: any other JSON value is
-- `malformed` where the file is read.
use kry.Base.{
  ℕ, ◌-◌, ◌==◌, Bool, true, false, ◌&&◌, ◌||◌, not, if◌then◌else◌, List, [], ◌∷◌, length, drop, all,
  leb,
}
use kry.Base.Int.{ℤ}
use kry.Base.Texts.{Text, has_code}
use kry.Base.Results.{Result, ok, value_error, ◌>>=◌, ◌>>◌, raise_if}
use kry.Double.{Double, lt, zero_double}
use kry.Json.Values.{Fields, float}
use kry.Ledger.Prices.{finite_number}

-- `KRYEvent`
pub record Event : Type 0 where
  pub ts : Double
  pub kind : Text
  pub source : Text
  pub amount : Double
  pub detail : Text
  pub tx_id : Text

-- The three scalars that are merged by their change: `_MERGE_FIELDS`.
pub record Totals : Type 0 where
  pub balance : Double
  pub earned : Double
  pub spent : Double

-- A record of the operation journal, without its key.
pub data Kind : Type 0 where
  spend_kind debit_kind : Kind

pub record Operation : Type 0 where
  pub kind : Kind
  pub amount : Double
  pub params_sha256 : Text
  pub ts : Double

abbrev pub Operations : Type 0
Operations = List (Text × Operation)

-- An absent `recovery` is the empty one.
pub record Accounting : Type 0 where
  pub totals : Totals
  pub events : List Event
  pub cycle_count : ℤ
  pub recovery : Fields

-- A legacy ledger is its accounting; format 2 wraps it with the operations.
pub data Document : Type 0 where
  legacy : Accounting → Document
  versioned : Accounting → Operations → Document

abbrev pub accounting_of : Document → Accounting
accounting_of (legacy a) = a
accounting_of (versioned a ops) = a

abbrev pub operations_of : Document → Operations
operations_of (legacy a) = []
operations_of (versioned a ops) = ops

abbrev pub is_versioned : Document → Bool
is_versioned (legacy a) = false
is_versioned (versioned a ops) = true

-- `_finite_number` of a float.
abbrev pub finite : Double → Result Double
finite d = finite_number false (float d)

abbrev pub nonnegative : Double → Result Double
nonnegative d = finite_number true (float d)

-- `str.strip` is a method of the interpreter.
module _ (strip : Text → Text) where
  -- `_validate_op_id`
  unfoldable pub validate_op_id : Text → Result Text
  unfolding has_code
  validate_op_id k = do
    raise_if (length (strip k) == 0 || (has_code b':' k || has_code b',' k)) value_error
    ok k

  abbrev pub is_lower_hex : ℕ → Bool
  is_lower_hex c = (leb b'0' c && leb c b'9') || (leb b'a' c && leb c b'f')

  -- One turn of the loop of `_ledger_parts`.
  unfoldable pub check_operation : Double → Text → Operation → Result (Unit {0})
  unfolding validate_op_id
  check_operation spent k op = do
    _ ← validate_op_id k
    _ ← nonnegative op.amount
    _ ← nonnegative op.ts
    raise_if (not (length op.params_sha256 == 64 && all is_lower_hex op.params_sha256)) value_error
    raise_if (lt spent op.amount) value_error
    ok tt

  unfoldable pub check_operations : Double → Operations → Result (Unit {0})
  unfolding check_operation
  check_operations spent [] = ok tt
  check_operations spent ((k, op) ∷ ops) = check_operation spent k op >> check_operations spent ops

  -- `_ledger_parts`
  unfoldable pub ledger_parts : Document → Result (Unit {0})
  unfolding check_operations
  ledger_parts (legacy a) = ok tt
  ledger_parts (versioned a ops) = do
    _ ← nonnegative a.totals.spent
    check_operations a.totals.spent ops

  -- `_event_from_raw`
  unfoldable pub check_event : Event → Result (Unit {0})
  check_event e = do _ ← nonnegative e.ts; _ ← finite e.amount; ok tt

  unfoldable pub check_events : List Event → Result (Unit {0})
  unfolding check_event
  check_events [] = ok tt
  check_events (e ∷ es) = check_event e >> check_events es

  unfoldable pub check_totals : Totals → Result (Unit {0})
  check_totals t = do _ ← finite t.balance; _ ← nonnegative t.earned; _ ← nonnegative t.spent; ok tt

  -- What `_adopt` and `_read_locked` both ask of a document.
  unfoldable pub check_document : Document → Result (Unit {0})
  unfolding ledger_parts check_totals check_events
  check_document d = do
    ledger_parts d
    check_totals (accounting_of d).totals
    check_events (accounting_of d).events

-- `events[-500:]`
unfoldable pub newest : List Event → List Event
newest es = drop (length es - 500) es

-- `KRYLedger`, with the fields that `__post_init__` adds.
pub record Ledger : Type 0 where
  pub totals : Totals
  pub events : List Event
  pub cycle_count : ℤ
  pub baseline : Totals
  pub recovery_required : Bool
  pub last_write_committed : Bool
  pub recovery : Fields
  pub is_format_two : Bool
  pub ops : Operations

abbrev pub no_totals : Totals
no_totals = record { balance = zero_double; earned = zero_double; spent = zero_double }

-- `KRYLedger()`
abbrev pub new_ledger : Ledger
new_ledger = record {
  totals = no_totals;
  events = [];
  cycle_count = ℤ.pos 0;
  baseline = no_totals;
  recovery_required = false;
  last_write_committed = false;
  recovery = Fields.end;
  is_format_two = false;
  ops = [];
}

-- The assignments of `_adopt`, after its checks.
unfoldable pub adopted : Document → Ledger → Ledger
unfolding newest
adopted d l = record l {
  totals = (accounting_of d).totals;
  events = newest (accounting_of d).events;
  cycle_count = (accounting_of d).cycle_count;
  baseline = (accounting_of d).totals;
  recovery_required = false;
  recovery = (accounting_of d).recovery;
  is_format_two = is_versioned d;
  ops = operations_of d;
}

-- `_adopt`: a document that fails a check changes nothing.
unfoldable pub adopt : (Text → Text) → Document → Ledger → Result Ledger
unfolding check_document adopted
adopt strip d l = check_document strip d >> ok (adopted d l)

-- `_operation_snapshot`
abbrev own_accounting : Ledger → Accounting
own_accounting l = record {
  totals = l.totals;
  events = l.events;
  cycle_count = l.cycle_count;
  recovery = l.recovery;
}

unfoldable pub snapshot : Ledger → Document
snapshot l =
    if l.is_format_two then versioned (own_accounting l) l.ops else legacy (own_accounting l)
