-- ===== src/Ledger/Debits.antt =====
-- `spend`, `_keyed_debit`, `debit_kry`, and the readers of a durable snapshot.
use kry.Base.{Bool, true, false, ◌&&◌, ◌||◌, not, if◌then◌else◌, Option, none, some, []}
use kry.Base.Texts.{Text, codes, text_eq}
use kry.Base.Dicts.{lookup, insert}
use kry.Base.Results.{Result, err, ok, value_error, persistence_error}
use kry.Double.{Double, add, sub, lt, le, eq, zero_double}
use kry.Json.Values.{Json, float}
use kry.Ledger.Cost.{spend_cost}
use kry.Ledger.Book.{
  Totals, Operation, Operations, Document, accounting_of, operations_of, validate_op_id, Ledger,
  new_ledger, adopt, finite, nonnegative,
}
use kry.Ledger.World.{M, pure, lift, get, set_ledger, fail_if, ◌>>=◌, ◌>>◌, catching}
use kry.Ledger.Reading.{is_journal, storage_path, read_locked}
use kry.Ledger.Merge.{same_kind}
use kry.Ledger.Saving.{Moment, refresh_locked, commit_operation, operation_locked}
use kry.Ledger.Calls.{
  Purpose, spending, debiting, Interpreter, kind_of, max_zero, min_of, operation_number, or_tokens,
  add_event, totals_set, recorded, spend_event, if_refreshed, refreshed,
}

-- min(cost, max(0.0, balance))
unfoldable pub affordable : Double → Double → Double
unfolding min_of max_zero
affordable cost balance = min_of cost (max_zero balance)

abbrev record_operation : Text → Operation → Ledger → Ledger
record_operation k op l = record l { is_format_two = true; ops = insert k op l.ops }

abbrev pub or_no_operations : Option Document → Operations
or_no_operations none = []
or_no_operations (some d) = operations_of d

-- `accounting.get("balance", 0.0) < 0`
abbrev is_overdrawn : Option Document → Bool
is_overdrawn none = false
is_overdrawn (some d) = lt (accounting_of d).totals.balance zero_double

-- `except Exception as exc: raise LedgerPersistenceError`
abbrev pub or_unavailable : {A : Type 0} → M A → M A
or_unavailable c = catching c (λ x. lift (err persistence_error))

module _ (h : Interpreter) (m : Moment) where
  -- The unkeyed debit, after the new total; `except ValueError: return 0.0`.
  unfoldable pub debit_total : Text → Text → Double → Totals → Result Double → M Double
  unfolding recorded add_event totals_set
  debit_total model detail actual t (err x) = pure zero_double
  debit_total model detail actual t (ok spent) =
      recorded h m
        (λ l.
          add_event (spend_event h m actual model detail)
            (totals_set (sub l.totals.balance actual) l.totals.earned spent l))
        actual

  unfoldable pub debit_actual : Text → Text → Double → Totals → M Double
  unfolding debit_total eq
  debit_actual model detail actual t =
      if eq actual zero_double
      then pure zero_double
      else debit_total model detail actual t (nonnegative (add t.spent actual))

  unfoldable pub debit_fresh : Text → Text → Double → M Double
  unfolding debit_actual affordable
  debit_fresh model detail cost = do
    s ← get
    debit_actual model detail (affordable cost s.ledger.totals.balance) s.ledger.totals

  unfoldable pub spend_amount : Text → Text → Double → M Double
  unfolding if_refreshed refreshed debit_fresh
  spend_amount model detail cost = do
    is_current ← refreshed h m
    if_refreshed h m (debit_fresh model detail cost) is_current

  unfoldable pub spend_unkeyed : Text → Json → Text → M Double
  unfolding spend_amount spend_cost
  spend_unkeyed model output_tokens detail = do
    cost ← lift (spend_cost model output_tokens)
    if eq cost zero_double
        then pure zero_double
        else spend_amount model (or_tokens detail (h.spelled output_tokens)) cost

  unfoldable pub cost_for : Purpose → Result Double
  unfolding spend_cost
  cost_for (spending model tokens detail) = spend_cost model (float tokens)
  cost_for (debiting amount) = ok amount

  unfoldable pub debit_event : Purpose → Double → Ledger → Ledger
  unfolding add_event
  debit_event (spending model tokens detail) actual l =
      add_event (spend_event h m actual model (or_tokens detail (h.spelled (float tokens)))) l
  debit_event (debiting amount) actual l =
      add_event (spend_event h m actual (codes "debit_kry") (codes "direct KRY debit")) l

  abbrev pub operation_of : Purpose → Double → Operation
  operation_of q actual = record {
    kind = kind_of q;
    amount = actual;
    params_sha256 = h.params_sha256 q;
    ts = m.now;
  }

  unfoldable pub keyed_change : Text → Purpose → Double → Double → Double → Ledger → Ledger
  unfolding totals_set debit_event insert
  keyed_change k q actual balance spent l =
      let changed =
        record_operation k (operation_of q actual) (totals_set balance l.totals.earned spent l) in
      let logged = debit_event q actual changed in if lt zero_double actual then logged else changed

  -- The end of the locked block: a failed save raises.
  unfoldable pub keyed_saved : Double → Document → M Double
  unfolding commit_operation
  keyed_saved actual before = do
    is_durable ← commit_operation h.strip m before
    fail_if (not is_durable) persistence_error
    pure actual

  -- The clock is checked between the assignments.
  unfoldable pub keyed_clocked :
      Text → Purpose → Double → Double → Double → Ledger → Document → M Double
  unfolding keyed_saved keyed_change
  keyed_clocked k q actual balance spent l before = do
    _ ← lift (nonnegative m.now)
    set_ledger (keyed_change k q actual balance spent l)
    keyed_saved actual before

  unfoldable pub keyed_body : Text → Purpose → Double → Double → Double → Document → M Double
  unfolding keyed_clocked totals_set
  keyed_body k q actual balance spent before = do
    s ← get
    set_ledger
        (record (totals_set balance s.ledger.totals.earned spent s.ledger) { is_format_two = true })
    keyed_clocked k q actual balance spent s.ledger before

  unfoldable pub keyed_block : Text → Purpose → Double → Double → Double → M Double
  unfolding operation_locked keyed_body
  keyed_block k q actual balance spent =
      operation_locked h.strip (keyed_body k q actual balance spent)

  unfoldable pub keyed_debit_of : Text → Purpose → Double → Totals → M Double
  unfolding keyed_block add sub lt le
  keyed_debit_of k q actual t = do
    balance ← lift (finite (sub t.balance actual))
    spent ← lift (nonnegative (add t.spent actual))
    fail_if (lt zero_double actual && (le t.balance balance || le spent t.spent)) value_error
    keyed_block k q actual balance spent

  -- The first debit under an id.
  unfoldable pub keyed_fresh : Text → Purpose → Option Document → M Double
  unfolding cost_for refresh_locked affordable keyed_debit_of
  keyed_fresh k q disk = do
    s ← get
    fail_if (is_overdrawn disk || lt s.ledger.totals.balance zero_double) value_error
    cost ← lift (cost_for q)
    or_unavailable (refresh_locked h.strip m)
    t ← get
    keyed_debit_of k q (affordable cost t.ledger.totals.balance) t.ledger.totals

  -- A retry: the recorded amount, if the parameters are the recorded ones.
  unfoldable pub replayed : Purpose → Operation → M Double
  unfolding storage_path text_eq
  replayed q op = do
    fail_if
        (not (same_kind op.kind (kind_of q)) || not (text_eq op.params_sha256 (h.params_sha256 q)))
        value_error
    s ← get
    p ← lift (storage_path s.disk)
    fail_if (not (is_journal p)) persistence_error
    pure op.amount

  unfoldable pub keyed_found : Text → Purpose → Option Document → Option Operation → M Double
  unfolding replayed keyed_fresh
  keyed_found k q disk (some op) = replayed q op
  keyed_found k q disk none = keyed_fresh k q disk

  -- `_keyed_debit`
  unfoldable pub keyed_debit : Text → Purpose → M Double
  unfolding keyed_found read_locked lookup validate_op_id
  keyed_debit k q = do
    _ ← lift (validate_op_id h.strip k)
    disk ← or_unavailable (read_locked h.strip m.rename)
    keyed_found k q disk (lookup k (or_no_operations disk))

  -- `debit_kry`
  unfoldable pub debit_kry : Json → Text → M Double
  unfolding keyed_debit operation_number
  debit_kry amount k = do a ← lift (operation_number amount); keyed_debit k (debiting a)

  -- `spend`, of a model and a detail that are texts.
  unfoldable pub spend : Text → Json → Text → Option Text → M Double
  unfolding spend_unkeyed keyed_debit operation_number
  spend model output_tokens detail none = spend_unkeyed model output_tokens detail
  spend model output_tokens detail (some k) = do
    tokens ← lift (operation_number output_tokens)
    keyed_debit k (spending model tokens detail)

  -- `_durable_snapshot`: a fresh ledger, and whether its journal is fenced.
  unfoldable pub snapshot_of : Option Document → Result Ledger
  unfolding adopt
  snapshot_of none = ok new_ledger
  snapshot_of (some d) = adopt h.strip d new_ledger

  unfoldable pub durable_snapshot : M (Ledger × Bool)
  unfolding read_locked snapshot_of storage_path
  durable_snapshot = do
    disk ← read_locked h.strip m.rename
    l ← lift (snapshot_of disk)
    s ← get
    p ← lift (storage_path s.disk)
    pure (l, is_journal p)

  -- `ledger_operation`
  unfoldable pub ledger_operation : Text → M (Option Operation)
  unfolding durable_snapshot lookup validate_op_id
  ledger_operation k = do
    _ ← lift (validate_op_id h.strip k)
    found ← or_unavailable durable_snapshot
    fail_if (not found.0.is_format_two || not found.1) value_error
    pure (lookup k found.0.ops)

  -- `can_afford`
  unfoldable pub can_afford : Text → Json → M Bool
  unfolding durable_snapshot spend_cost eq le
  can_afford model output_tokens = do
    cost ← lift (spend_cost model output_tokens)
    if eq cost zero_double
        then pure true
        else catching (do found ← durable_snapshot; pure (le cost found.0.totals.balance))
            (λ x. pure false)
