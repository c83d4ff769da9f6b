-- ===== src/Ledger/Recovery.antt =====
-- `load_or_create` and `acknowledge_ledger_recovery`: how a process gets a ledger, and how an operator
-- takes up a ledger that is blocked.
use kry.Base.{Bool, true, false, ◌&&◌, ◌||◌, not, Option, none, some, List, [], ◌∷◌, ◌==◌, length}
use kry.Base.Texts.{Text, codes}
use kry.Base.Results.{Result, Error, err, ok, value_error, os_error, persistence_error}
use kry.Double.{Double, lt, zero_double}
use kry.Json.Values.{Json, Fields, str, float, obj}
use kry.Json.Values
use kry.Ledger.Book.{Document, is_versioned, Ledger, new_ledger, adopt}
use kry.Ledger.World.{
  Storage, at_legacy, LedgerFile, absent, unreadable, undecodable, malformed, document, Disk, World,
  M, pure, lift, get, set_ledger, fail_if, ◌>>=◌, ◌>>◌, catching,
}
use kry.Ledger.Reading.{is_journal, storage_path, read_locked, Rename}
use kry.Ledger.Saving.{Moment, save_over, adopt_document}

abbrev is_unfenced : Storage → Bool
is_unfenced at_legacy = true
is_unfenced _ = false

abbrev is_absent : LedgerFile → Bool
is_absent absent = true
is_absent _ = false

abbrev has_incident : List (Text × Text) → Bool
has_incident [] = false
has_incident (x ∷ xs) = true

abbrev pub same_format : Bool → Bool → Bool
same_format true v = v
same_format false v = not v

-- `bool(_ledger_incidents() or _MINT_LOG_PATH.exists())`, when there is no legacy file.
unfoldable pub is_lost : Disk → Bool
is_lost d =
    is_unfenced d.storage && is_absent d.file && (has_incident d.incidents || d.has_mint_log)

-- The texts in an object, by their keys.
unfoldable pub incident_fields : List (Text × Text) → Fields
incident_fields [] = Fields.end
incident_fields ((name, hash) ∷ rest) = Fields.field name (str hash) (incident_fields rest)

unfoldable pub activation_field : Option Json → Fields
activation_field none = Fields.end
activation_field (some v) = Fields.field (codes "journal_activation") v Fields.end

-- The recovery that an acknowledgement writes.
unfoldable pub acknowledged_recovery : Text → Double → List (Text × Text) → Option Json → Fields
unfolding incident_fields activation_field
acknowledged_recovery reason now incidents activation = Fields.field (codes "reason") (str reason) (
    Fields.field (codes "ts") (float now) (
      Fields.field (codes "incidents") (obj (incident_fields incidents))
        (activation_field activation)))

-- `_ledger_json_loads(path.read_text())`
unfoldable pub loaded : LedgerFile → Result Document
loaded absent = err os_error
loaded unreadable = err os_error
loaded undecodable = err value_error
loaded malformed = err value_error
loaded (document d) = ok d

-- The calls inside work on a ledger of their own, which becomes the process's when they return.
unfoldable pub taken_up : {A : Type 0} → Ledger → Result A × World → Result A × World
taken_up before (ok a, s) = (ok a, s)
taken_up before (err x, s) = (err x, record s { ledger = before })

unfoldable pub on_new_ledger : {A : Type 0} → M A → M A
unfolding taken_up
on_new_ledger m s = taken_up s.ledger (m (record s { ledger = new_ledger }))

module _ (strip : Text → Text) where
  -- `load_or_create`: a read that fails leaves a new ledger, which may be blocked.
  unfoldable pub load_or_create : Rename → M (Unit {0})
  unfolding read_locked adopt_document is_lost
  load_or_create r = do
    s ← get
    set_ledger (record new_ledger { recovery_required = is_lost s.disk })
    catching (do disk ← read_locked strip r; adopt_document strip disk) (λ x. pure tt)

  -- `except Exception: if not ledger._last_write_committed: raise`
  unfoldable pub unless_committed : Error → Bool → M (Unit {0})
  unless_committed x true = pure tt
  unless_committed x false = lift (err x)

  -- The acknowledgement is read back.
  unfoldable pub read_back : Moment → M (Unit {0})
  unfolding read_locked
  read_back m =
      catching (do _ ← read_locked strip m.rename; pure tt) (λ x. lift (err persistence_error))

  unfoldable pub save_acknowledged : Moment → Text → Document → Ledger → M (Unit {0})
  unfolding acknowledged_recovery save_over unless_committed
  save_acknowledged m reason d l = do
    s ← get
    catching
        (save_over strip m.write m
          (some (
            acknowledged_recovery reason m.now s.disk.incidents
              (kry.Json.Values.get (codes "journal_activation") l.recovery)))
          (some d))
        (λ x. do t ← get; unless_committed x t.ledger.last_write_committed)

  unfoldable pub acknowledge_loaded : Moment → Text → Document → M (Unit {0})
  unfolding adopt save_acknowledged read_back
  acknowledge_loaded m reason d = do
    s ← get
    l ← lift (adopt strip d s.ledger)
    set_ledger l
    fail_if (lt l.totals.balance zero_double) value_error
    save_acknowledged m reason d l
    read_back m

  -- `acknowledge_ledger_recovery`
  unfoldable pub acknowledge_ledger_recovery : Moment → Text → M (Unit {0})
  unfolding on_new_ledger acknowledge_loaded loaded storage_path
  acknowledge_ledger_recovery m reason = do
    fail_if (length (strip reason) == 0) value_error
    s ← get
    p ← lift (storage_path s.disk)
    d ← lift (loaded s.disk.file)
    fail_if (not (same_format (is_journal p) (is_versioned d))) value_error
    on_new_ledger (acknowledge_loaded m reason d)
