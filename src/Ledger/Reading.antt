-- ===== src/Ledger/Reading.antt =====
-- `_read_locked` and `_quarantine`: the durable ledger, or a refusal that keeps what may be valid.
use kry.Base.{
  ℕ, suc, ◌==◌, Bool, true, false, ◌&&◌, ◌||◌, not, if◌then◌else◌, Option, none, some, List, [],
  ◌∷◌, length, all,
}
use kry.Base.Texts.{Text, codes}
use kry.Base.Results.{Result, Error, err, ok, value_error, os_error, raise_if}
use kry.Base.Results
use kry.Double.{eq, zero_double}
use kry.Json.Values.{Json, Fields, is_text, or_json, obj, null}
use kry.Json.Values
use kry.Ledger.Book.{Document, Totals, accounting_of, is_versioned, check_document}
use kry.Ledger.World.{
  Storage, at_legacy, at_journal, blocked, LedgerFile, absent, unreadable, undecodable, malformed,
  document, Disk, World, M, pure, lift, get, set_ledger, set_disk, fail_if, ◌>>=◌, ◌>>◌, catching,
}

pub data StoragePath : Type 0 where
  legacy_path journal_path : StoragePath

abbrev pub is_journal : StoragePath → Bool
is_journal legacy_path = false
is_journal journal_path = true

-- `_ledger_storage_path`: a fenced journal that is no file is refused.
unfoldable pub path_from : Storage → LedgerFile → Result StoragePath
path_from at_legacy f = ok legacy_path
path_from at_journal absent = err value_error
path_from at_journal f = ok journal_path
path_from blocked f = err value_error

unfoldable pub storage_path : Disk → Result StoragePath
unfolding path_from
storage_path d = path_from d.storage d.file

unfoldable pub require_recovery : M (Unit {0})
require_recovery = do s ← get; set_ledger (record (s.ledger) { recovery_required = true })

-- `try: _ledger_storage_path()  except ValueError: self._recovery_required = True; raise`
unfoldable pub locate : M StoragePath
unfolding storage_path require_recovery
locate = do s ← get; catching (lift (storage_path s.disk)) (λ x. do require_recovery; lift (err x))

-- Whether the rename of an invalid ledger works: the name and the hash of what it leaves.
pub data Rename : Type 0 where
  moved : Text → Text → Rename
  not_moved : Rename

-- The journal's marker stays, and refuses a journal that is gone.
abbrev pub without_file : Storage → Storage
without_file at_journal = blocked
without_file p = p

unfoldable pub quarantined : Rename → Disk → Disk
quarantined not_moved d = d
quarantined (moved name hash) d = record d {
  storage = without_file d.storage;
  file = absent;
  incidents = (name, hash) ∷ d.incidents;
}

unfoldable pub quarantine : Rename → M (Unit {0})
unfolding require_recovery quarantined
quarantine r = do require_recovery; s ← get; set_disk (quarantined r s.disk)

abbrev count_fields : Fields → ℕ
count_fields Fields.end = 0
count_fields (Fields.field k v d) = suc (count_fields d)

-- `value == _ledger_incidents()`, dicts whose keys are distinct.
unfoldable pub same_incidents : Json → List (Text × Text) → Bool
same_incidents (obj d) names =
    count_fields d == length names
    && all (λ (entry : Text × Text). is_text entry.1 (or_json null (kry.Json.Values.get entry.0 d)))
        names
same_incidents v names = false

-- `recovery.get("incidents", {})`
abbrev pub incidents_of : Fields → Json
incidents_of r = or_json (obj Fields.end) (kry.Json.Values.get (codes "incidents") r)

abbrev is_some_incident : List (Text × Text) → Bool
is_some_incident [] = false
is_some_incident (x ∷ xs) = true

-- `any(self._baseline.values())`
abbrev pub has_baseline : Totals → Bool
has_baseline t =
    not (eq t.balance zero_double) || not (eq t.earned zero_double) || not (eq t.spent zero_double)

unfoldable pub is_history_missing : World → Bool
is_history_missing s =
    s.ledger.recovery_required
    || has_baseline s.ledger.baseline
    || s.disk.has_mint_log
    || is_some_incident s.disk.incidents

module _ (strip : Text → Text) (r : Rename) where
  -- The block whose failure quarantines the file.
  unfoldable pub check_read : StoragePath → Document → Result (Unit {0})
  unfolding check_document
  check_read p d =
      kry.Base.Results.◌>>◌ (raise_if (is_journal p && not (is_versioned d)) value_error)
        (check_document strip d)

  unfoldable pub refuse_contents : {A : Type 0} → M A
  unfolding quarantine
  refuse_contents = do quarantine r; lift (err value_error)

  unfoldable pub bound_if : Bool → Document → M (Option Document)
  unfolding require_recovery
  bound_if true d = pure (some d)
  bound_if false d = do require_recovery; lift (err value_error)

  unfoldable pub bound : Document → M (Option Document)
  unfolding bound_if same_incidents
  bound d = do
    s ← get
    bound_if (same_incidents (incidents_of (accounting_of d).recovery) s.disk.incidents) d

  unfoldable pub read_file : StoragePath → LedgerFile → M (Option Document)
  unfolding refuse_contents check_read bound is_history_missing
  read_file p absent = do s ← get; fail_if (is_history_missing s) value_error; pure none
  read_file p unreadable = lift (err os_error)
  read_file p undecodable = refuse_contents
  read_file p malformed = refuse_contents
  read_file p (document d) = do catching (lift (check_read p d)) (λ x. refuse_contents); bound d

  -- `_read_locked`; `{}` is none.
  unfoldable pub read_locked : M (Option Document)
  unfolding locate read_file
  read_locked = do
    s ← get
    fail_if s.ledger.recovery_required value_error
    p ← locate
    read_file p s.disk.file
