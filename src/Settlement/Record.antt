-- ===== src/Settlement/Record.antt =====
-- Writing to the registry: `_record_settled`, `_undo_registry_append`, `_rollback_registry` and
-- `_record_partial_debit`.  What the disk does with each write is an argument.
use kry.Base.{
  ℕ, ◌+◌, Bool, true, false, if◌then◌else◌, Option, none, some, List, [], ◌∷◌, ◌++◌, length, any,
}
use kry.Base.Texts.{Text}
use kry.Base.Results.{Result, ok, err, persistence_error, ◌>>=◌}
use kry.Double.{Double}
use kry.Python.{Value, str, float, finite_number, positive}
use kry.Settlement.Host.{Host}
use kry.Settlement.Grants.{Grants, single, parse_grants, has_grant}
use kry.Settlement.Entries.{
  RawEntry, Line, object, malformed, Entry, lines_of, registry_entries, TipFile, missing, tip_file,
  Tip, Registry,
}
use kry.Settlement.Chain.{last_hash, genesis, entry_digest}

-- An append that raises may have written nothing, part of the line, or all of it (a failed fsync).
pub data Append : Type 0 where
  written lost torn unsynced : Append

-- A rewrite by a temporary file and a new tip: both done, none, or the file alone.
pub data Rewrite : Type 0 where
  done not_replaced tip_left : Rewrite

pub record Disk : Type 0 where
  pub append : Append
  pub tip : Bool
  pub undo : Bool
  pub rollback : Rewrite
  pub partial : Rewrite

-- The entry that one settlement writes.
abbrev pub settled_entry : Text → Text → Double → Text → Text → RawEntry
settled_entry party prev amount grant hash = record {
  party = some (str party);
  amount = some (float amount);
  prev_hash = some (str prev);
  entry_hash = some (str hash);
  grant_id = some (str grant);
  grant_ids = none;
}

unfoldable pub already_settled : Text → List Entry → Bool
already_settled g es = any (λ e. has_grant g e.grants) es

-- Truncating back to the size before, or removing a file that was not there.  A failure is logged.
unfoldable pub undo_append : Bool → Option (List Line) → Registry → Registry
undo_append true before r = record r { file = before }
undo_append false before r = r

-- The append and the new checkpoint.
unfoldable pub append_settled : Disk → Line → ℕ → Text → Registry → Result (Unit {0}) × Registry
unfolding undo_append
append_settled d line n hash r =
    let after = record r { file = some (lines_of r.file ++ line ∷ []) } in
    elim d.append [
      | lost ↦ (err persistence_error, r)
      | torn ↦ (err persistence_error, record r { file = some (lines_of r.file ++ malformed ∷ []) })
      | unsynced ↦ (err persistence_error, after)
      | written ↦
          if d.tip
          then (ok tt, record after { tip = tip_file n hash })
          else (err persistence_error, undo_append d.undo r.file after)
    ]

-- `raise SettlementPersistenceError(...) from exc`
abbrev pub as_persistence_error {ℓ} : {A : Type ℓ} → Result A → Result A
as_persistence_error (ok a) = ok a
as_persistence_error (err _) = err persistence_error

-- The checks before the write: the amount, the grant id, the entries, and that the grant is new.
unfoldable pub settle_checks : Value → Text → Registry → Result (Double × List Entry)
settle_checks v g r = do
  amount ← as_persistence_error (finite_number v positive)
  _ ← as_persistence_error (parse_grants (some (str g)) none)
  es ← as_persistence_error (registry_entries r.file)
  if already_settled g es then err persistence_error else ok (amount, es)

module _ (h : Host) (d : Disk) where
  unfoldable pub write_settled :
      Text → Text → Double → List Entry → Registry → Result (Unit {0}) × Registry
  write_settled party g amount es r =
      let prev = last_hash genesis es in
      let hash = entry_digest h prev party amount g in
      append_settled d (object (settled_entry party prev amount g hash)) (length es + 1) hash r

  unfoldable pub write_checked :
      Text → Text → Registry → Result (Double × List Entry) → Result (Unit {0}) × Registry
  write_checked party g r (ok (amount, es)) = write_settled party g amount es r
  write_checked party g r (err e) = (err e, r)

  unfoldable pub record_settled : Text → Value → Text → Registry → Result (Unit {0}) × Registry
  unfolding write_checked write_settled
  record_settled party v g r = write_checked party g r (settle_checks v g r)

-- `_rollback_registry`: a failure is logged.  With no tip before, the one written since is removed.
abbrev pub restored_tip : Option Tip → TipFile
restored_tip none = missing
restored_tip (some t) = tip_file t.count t.tip

unfoldable pub rollback_registry : Rewrite → List Line → Option Tip → Registry → Registry
rollback_registry done before t r = record { file = some before; tip = restored_tip t }
rollback_registry not_replaced before t r = r
rollback_registry tip_left before t r = record r { file = some before }

-- The last entry of a list that is not empty.
unfoldable pub last_entry : List Entry → Option Entry
last_entry [] = none
last_entry (e ∷ []) = some e
last_entry (e ∷ f ∷ es) = last_entry (f ∷ es)

-- The grant keys of an entry that is written back.
abbrev pub raw_grant_id : Grants → Option Value
raw_grant_id (single g) = some (str g)
raw_grant_id _ = none

unfoldable pub replace_last :
    Rewrite → List Line → Line → ℕ → Text → Registry → Result (Unit {0}) × Registry
replace_last done before line n hash r =
    (ok tt, record { file = some (before ++ line ∷ []); tip = tip_file n hash })
replace_last not_replaced before line n hash r = (err persistence_error, r)
replace_last tip_left before line n hash r =
    (err persistence_error, record r { file = some (before ++ line ∷ []) })

-- `_record_partial_debit`: the last entry again, with the amount that was really debited.
module _ (h : Host) where
  unfoldable pub partial_of :
      Rewrite
      → List Line
      → Double
      → Registry
      → List Entry
      → Option Entry
      → Result (Unit {0}) × Registry
  partial_of w before amount r es none = (err persistence_error, r)
  partial_of w before amount r es (some e) = elim e.grants [
    | single g ↦
        let hash = entry_digest h e.prev_hash e.party amount g in
        replace_last w before (object (settled_entry e.party e.prev_hash amount g hash)) (length es)
          hash r
    | _ ↦ (err persistence_error, r)
  ]

  unfoldable pub partial_read :
      Rewrite → List Line → Double → Registry → Result (List Entry) → Result (Unit {0}) × Registry
  unfolding partial_of
  partial_read w before amount r (err _) = (err persistence_error, r)
  partial_read w before amount r (ok es) = partial_of w before amount r es (last_entry es)

  unfoldable pub record_partial_debit :
      Rewrite → List Line → Double → Registry → Result (Unit {0}) × Registry
  unfolding partial_read
  record_partial_debit w before amount r = partial_read w before amount r (registry_entries r.file)
