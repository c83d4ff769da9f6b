-- ===== src/Ledger/Saving.antt =====
-- `_save_locked`, `_refresh_locked`, `_operation_locked` and `_commit_operation_locked`: a write replaces
-- the file whole or is taken back, and one that cannot be told blocks the ledger.
use kry.Base.{Bool, true, false, ◌&&◌, ◌||◌, not, Option, none, some, List, [], ◌∷◌}
use kry.Base.Texts.{Text, codes, text_eq}
use kry.Base.Results.{Result, Error, err, ok, value_error, os_error, persistence_error, raise_if}
use kry.Base.Results
use kry.Double.{Double, eq, lt, zero_double}
use kry.Json.Values.{Json, Fields, str, obj}
use kry.Ledger.Book.{
  is_versioned, Totals, Document, legacy, versioned, accounting_of, adopt, snapshot, check_document,
}
use kry.Ledger.World.{
  Storage, at_legacy, at_journal, blocked, document, M, pure, lift, get, set_ledger, set_disk,
  fail_if, ◌>>=◌, ◌>>◌, catching,
}
use kry.Ledger.Reading.{StoragePath, legacy_path, require_recovery, locate, Rename, read_locked}
use kry.Ledger.Merge.{to_write}

-- How a write ends.  `acknowledged`: it raised after the new file was durable, and its pending marker is
-- gone; `left_pending`: the same with the marker left.  `not_replaced`: it raised and left nothing, the
-- flag for hard links that an activation was refused.  `uncertain`: the file is replaced or not, and
-- whether durably is not known; the marker is left.
pub data Write : Type 0 where
  replaced acknowledged left_pending : Write
  not_replaced uncertain : Bool → Write

-- The clock, the ids drawn, the pending marker's name and hash, and what the disk does: to a file that is
-- quarantined, to the write of the refresh and to the write of the operation itself.
pub record Moment : Type 0 where
  pub now : Double
  pub tx_id : Text
  pub attempt : Text
  pub marker : Text × Text
  pub rename : Rename
  pub refresh_write : Write
  pub write : Write

unfoldable pub put_field : Text → Json → Fields → Fields
unfolding text_eq
put_field k v Fields.end = Fields.field k v Fields.end
put_field k v (Fields.field j w d) =
    let rest = Fields.field j w (put_field k v d) in
    kry.Base.if◌then◌else◌ (text_eq j k) (Fields.field j v d) rest

-- `_Activation.activate` adds its identity to the recovery of the journal that it publishes.
unfoldable pub with_identity : Text → Document → Document
unfolding put_field
with_identity attempt (legacy a) = legacy a
with_identity attempt (versioned a ops) =
    versioned
      (record a {
        recovery =
            put_field (codes "journal_activation")
              (obj (
                Fields.field (codes "schema") (str (codes "activation/1"))
                  (Fields.field (codes "attempt_id") (str attempt) Fields.end)))
              a.recovery;
      })
      ops

abbrev pub new_storage : Document → Storage
new_storage (legacy a) = at_legacy
new_storage (versioned a ops) = at_journal

-- A pending activation blocks every path.
abbrev pub pending_storage : Bool → Storage → Storage
pending_storage true p = blocked
pending_storage false p = p

-- `os.replace`, or the publication of the journal and of the marker on the legacy path.
unfoldable pub put_file : Document → M (Unit {0})
put_file doc = do
  s ← get
  set_disk (record (s.disk) { storage = new_storage doc; file = document doc })

unfoldable pub put_file_if : Bool → Document → M (Unit {0})
unfolding put_file
put_file_if true doc = put_file doc
put_file_if false doc = pure tt

unfoldable pub leave_marker : Bool → Text × Text → M (Unit {0})
leave_marker activating marker = do
  s ← get
  set_disk (record (s.disk) {
    storage = pending_storage activating s.disk.storage;
    incidents = marker ∷ s.disk.incidents;
  })

unfoldable pub set_committed : Bool → M (Unit {0})
set_committed c = do s ← get; set_ledger (record (s.ledger) { last_write_committed = c })

unfoldable pub clear_recovery : M (Unit {0})
clear_recovery = do s ← get; set_ledger (record (s.ledger) { recovery_required = false })

abbrev pub refusal : Bool → Bool → Error
refusal true true = persistence_error
refusal _ _ = os_error

-- How every save starts.
unfoldable pub begin_save : M StoragePath
unfolding set_committed locate
begin_save = do set_committed false; s ← get; fail_if s.ledger.recovery_required value_error; locate

abbrev pub differ : Totals → Totals → Bool
differ t u = not (eq t.balance u.balance) || not (eq t.earned u.earned) || not (eq t.spent u.spent)

abbrev pub is_refused : Error → Bool
is_refused persistence_error = true
is_refused _ = false

module _ (strip : Text → Text) where
  -- `self._adopt(data); self._last_write_committed = True`
  unfoldable pub adopt_written : Document → M (Unit {0})
  unfolding adopt
  adopt_written doc = do
    s ← get
    l ← lift (adopt strip doc s.ledger)
    set_ledger (record l { last_write_committed = true })

  -- The new file is in place; `_adopt` raises on none that was just checked.
  unfoldable pub confirm : Bool → Text × Text → Document → M (Unit {0})
  unfolding put_file require_recovery adopt_written leave_marker
  confirm activating marker doc = do
    put_file doc
    require_recovery
    catching (adopt_written doc) (λ x. do leave_marker activating marker; lift (err x))

  unfoldable pub write_out : Write → Bool → Text × Text → Document → M (Unit {0})
  unfolding confirm clear_recovery leave_marker require_recovery put_file_if
  write_out replaced activating marker doc = confirm activating marker doc
  write_out acknowledged activating marker doc = do
    confirm activating marker doc
    lift (err os_error)
  write_out left_pending activating marker doc = do
    confirm activating marker doc
    require_recovery
    leave_marker activating marker
    lift (err os_error)
  write_out (not_replaced links) activating marker doc = do
    clear_recovery
    lift (err (refusal activating links))
  write_out (uncertain shown) activating marker doc = do
    put_file_if shown doc
    require_recovery
    leave_marker activating marker
    lift (err os_error)

  -- `validated_ledger`, of the original and of the candidate.
  unfoldable pub validated : Bool → Document → Result (Unit {0})
  unfolding check_document
  validated wrong_format d =
      kry.Base.Results.◌>>◌ (check_document strip d)
        (raise_if (wrong_format || lt (accounting_of d).totals.balance zero_double) value_error)

  unfoldable pub validated_all : Option Document → Document → Result (Unit {0})
  unfolding validated
  validated_all none d = validated (not (is_versioned d)) d
  validated_all (some original) d =
      kry.Base.Results.◌>>◌ (validated (is_versioned original) original)
        (validated (not (is_versioned d)) d)

  unfoldable pub put_document :
      Write → Moment → StoragePath → Option Document → Document → M (Unit {0})
  unfolding validated_all with_identity write_out
  put_document w m legacy_path disk (versioned a ops) = do
    lift (validated_all disk (with_identity m.attempt (versioned a ops)))
    write_out w true m.marker (with_identity m.attempt (versioned a ops))
  put_document w m p disk d = write_out w false m.marker d

  unfoldable pub save_onto :
      Write → Moment → Option Fields → StoragePath → Option Document → M (Unit {0})
  unfolding put_document to_write
  save_onto w m recovery p disk = do
    s ← get
    d ← lift (to_write strip recovery disk s.ledger)
    put_document w m p disk d

  -- `_save_locked()`, which reads the durable ledger itself.
  unfoldable pub save_locked : Moment → M (Unit {0})
  unfolding begin_save save_onto read_locked
  save_locked m = do
    p ← begin_save
    disk ← read_locked strip m.rename
    save_onto m.write m none p disk

  -- `_save_locked(on_disk, recovery=...)`
  unfoldable pub save_over : Write → Moment → Option Fields → Option Document → M (Unit {0})
  unfolding begin_save save_onto
  save_over w m recovery disk = do p ← begin_save; save_onto w m recovery p disk

  unfoldable pub adopt_document : Option Document → M (Unit {0})
  unfolding adopt
  adopt_document none = pure tt
  adopt_document (some d) = do s ← get; l ← lift (adopt strip d s.ledger); set_ledger l

  unfoldable pub refresh_from : Moment → Bool → Option Document → M (Unit {0})
  unfolding save_over adopt_document
  refresh_from m true disk = save_over m.refresh_write m none disk
  refresh_from m false disk = adopt_document disk

  -- `_refresh_locked`
  unfoldable pub refresh_locked : Moment → M (Unit {0})
  unfolding refresh_from read_locked eq
  refresh_locked m = do
    disk ← read_locked strip m.rename
    s ← get
    refresh_from m (differ s.ledger.totals s.ledger.baseline) disk

  -- `uncertain = self._recovery_required; self._adopt(before); self._recovery_required = uncertain`
  unfoldable pub roll_back : Document → M (Unit {0})
  unfolding adopt
  roll_back before = do
    s ← get
    l ← lift (adopt strip before s.ledger)
    set_ledger (record l { recovery_required = s.ledger.recovery_required })

  -- The except clause of `_commit_operation_locked`.
  unfoldable pub uncommitted : Document → Error → Bool → M Bool
  unfolding roll_back
  uncommitted before x true = pure true
  uncommitted before x false = do
    roll_back before
    s ← get
    fail_if (s.ledger.recovery_required || is_refused x) persistence_error
    pure false

  -- `_commit_operation_locked`: whether the operation is durable.
  unfoldable pub commit_operation : Moment → Document → M Bool
  unfolding save_locked uncommitted
  commit_operation m before =
      catching (do save_locked m; pure true)
        (λ x. do s ← get; uncommitted before x s.ledger.last_write_committed)

  unfoldable pub undo : {A : Type 0} → Document → Error → Bool → M A
  unfolding roll_back require_recovery
  undo before x true = lift (err x)
  undo before x false = do
    catching (roll_back before) (λ y. do require_recovery; lift (err y))
    lift (err x)

  -- `with ledger._operation_locked() as before:`
  unfoldable pub operation_locked : {A : Type 0} → (Document → M A) → M A
  unfolding set_committed undo snapshot
  operation_locked body = do
    s ← get
    set_committed false
    catching (body (snapshot s.ledger))
        (λ x. do t ← get; undo (snapshot s.ledger) x t.ledger.last_write_committed)
