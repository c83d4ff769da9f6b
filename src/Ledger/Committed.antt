-- ===== src/Ledger/Committed.antt =====
-- A committed save over a journal: what was read, and what is on the disk afterwards.
use kry.Base.{◌≡◌, inl, inr, refl, sym, ap, subst, subst₂, ◌∙◌, false, none, some}
use kry.Base.Texts.{Text}
use kry.Base.Results.{Result, Error, err, ok, value_error, ok-injective}
use kry.Ledger.Book.{Document}
use kry.Ledger.World.{
  at_journal, LedgerFile, document, World, M, lift, get, fail_if, after, ◌>>=◌, ◌>>◌, stepped,
  set_ledger, lift_parts, guard_returned,
}
use kry.Ledger.Reading.{
  StoragePath, journal_path, storage_path, path_from, locate, read_locked, require_recovery,
  quarantine, Rename,
}
use kry.Ledger.Merge.{to_write}
use kry.Ledger.Saving.{Moment, set_committed, put_document, save_onto, begin_save, save_locked}
use kry.Ledger.Read.{IsReadable, read_journal, locate-ok}
use kry.Ledger.Keeps.{
  IsIntact, require_recovery-IsIntact, quarantine-IsIntact, Keeps, Keeps-bind, Keeps-get,
  Keeps-fail_if, IsUncommitted, require_recovery-IsUncommitted, quarantine-IsUncommitted,
  Keeps-locate, Keeps-read_locked,
}
use kry.Ledger.Written.{IsWritten, IsDurable, write_out-IsWritten}

-- The state in which a save starts.
abbrev pub fresh : World → World
fresh s = record s { ledger = record (s.ledger) { last_write_committed = false } }

never :
    {B : Type 0} (x : Error) (r : Result (Unit {0})) (s : World)
    → r ≡ err x
    → IsUncommitted s
    → IsDurable r s
    → B
never x r s e u (inl done) = cc
never x r s e u (inr done) = cc

unfoldable starting : M StoragePath
unfolding locate
starting = do s ← get; fail_if s.ledger.recovery_required value_error; locate

Keeps-starting :
    {P : World → Type 0} (required : Keeps P require_recovery)
    (refused : (r : Rename) → Keeps P (quarantine r))
    → Keeps P starting
unfolding starting
Keeps-starting required refused = Keeps-bind get _ Keeps-get (λ s.
    Keeps-bind (fail_if s.ledger.recovery_required value_error) _
      (Keeps-fail_if s.ledger.recovery_required value_error) (λ _. Keeps-locate required refused))

pub begin_save-IsIntact : (s : World) → IsIntact s.disk (begin_save s).1
unfolding begin_save set_committed set_ledger get ◌>>=◌ after starting
begin_save-IsIntact s =
    (Keeps-starting (require_recovery-IsIntact s.disk) (quarantine-IsIntact s.disk)).at (fresh s)
      (inr refl)

pub begin_save-IsUncommitted : (s : World) → IsUncommitted (begin_save s).1
unfolding begin_save set_committed set_ledger get ◌>>=◌ after starting
begin_save-IsUncommitted s =
    (Keeps-starting require_recovery-IsUncommitted quarantine-IsUncommitted).at (fresh s) refl

pub begin_save-ok :
    (s : World) (p : StoragePath) (s' : World)
    → begin_save s ≡ (ok p, s')
    → (storage_path s.disk ≡ ok p) × (s' ≡ fresh s) × (s.ledger.recovery_required ≡ false)
unfolding begin_save set_committed set_ledger get ◌>>=◌ after
begin_save-ok s p s' h =
    let (off, h1) = guard_returned s.ledger.recovery_required value_error locate (fresh s) p s' h in
    let (path, still) = locate-ok (fresh s) p s' h1 in (path, still, off)

-- The path of a journal.
pub storage_path-journal :
    (f : LedgerFile) (d : Document) (p : StoragePath)
    → f ≡ document d
    → path_from at_journal f ≡ ok p
    → p ≡ journal_path
unfolding path_from
storage_path-journal LedgerFile.absent d p e h = cc
storage_path-journal LedgerFile.unreadable d p e h = cc
storage_path-journal LedgerFile.undecodable d p e h = cc
storage_path-journal LedgerFile.malformed d p e h = cc
storage_path-journal (document c) d p e h = sym (ok-injective h)

module _ (strip : Text → Text) (m : Moment) where
  -- The document that a committed save has merged into the journal, and left there.
  abbrev pub IsMerged : World → World → Type 0
  IsMerged s s' =
      (old : Document) × (d : Document) × IsReadable strip old s
      × (to_write strip none (some old) (fresh s).ledger ≡ ok d)
      × IsWritten strip d s s'

  onto :
      (old : Document) (s : World) (p : StoragePath) (r : Result (Unit {0})) (s' : World)
      → IsReadable strip old s
      → storage_path s.disk ≡ ok p
      → ◌≡◌ {A = Result (Unit {0}) × World}
          (save_onto strip m.write m none p (some old) (fresh s))
          (r, s')
      → IsDurable r s'
      → s'.ledger.recovery_required ≡ false
      → IsMerged s s'
  unfolding save_onto get ◌>>=◌ after put_document storage_path lift
  onto old s p r s' readable path h durable clear =
      elim (stepped (lift (to_write strip none (some old) (fresh s).ledger)) _ (fresh s) r s' h) [
        | inl (x, e, raised) ↦
            never x r s' raised (ap (λ o. o.1.ledger.last_write_committed) (sym e)) durable
        | inr (d, s1, e, rest) ↦
            let journal : p ≡ journal_path =
              storage_path-journal s.disk.file old p readable.2
                (subst (λ q. path_from q s.disk.file ≡ ok p) readable.1 path) in
            let (same, still) =
              lift_parts (to_write strip none (some old) (fresh s).ledger) (ok d) (fresh s) s1 e in
            let written : ◌≡◌ {A = Result (Unit {0}) × World}
                (put_document strip m.write m journal_path (some old) d (fresh s)) (r, s') =
              subst₂
                (λ q t.
                  ◌≡◌ {A = Result (Unit {0}) × World}
                    (put_document strip m.write m q (some old) d t) (r, s'))
                journal (sym still) rest in
            (
              old,
              d,
              readable,
              same,
              write_out-IsWritten strip false m.marker d (fresh s) m.write r s' written refl durable
                  clear,
            )
      ]

  read_then :
      (s : World) (p : StoragePath) (r : Result (Unit {0})) (s' : World)
      → s.disk.storage ≡ at_journal
      → storage_path s.disk ≡ ok p
      → ◌≡◌ {A = Result (Unit {0}) × World}
          ((read_locked strip m.rename >>= λ disk. save_onto strip m.write m none p disk) (fresh s))
          (r, s')
      → IsDurable r s'
      → s'.ledger.recovery_required ≡ false
      → IsMerged s s'
  read_then s p r s' at path h durable clear =
      elim (stepped (read_locked strip m.rename) _ (fresh s) r s' h) [
        | inl (x, e, raised) ↦
            never x r s' raised
              (sym (ap (λ o. o.1.ledger.last_write_committed) e)
                ∙ (Keeps-read_locked require_recovery-IsUncommitted quarantine-IsUncommitted strip
                      m.rename).at
                    (fresh s) refl)
              durable
        | inr (o, s1, read, rest) ↦
            let (old, found, readable, still) =
              read_journal strip m.rename (fresh s) o s1 at read in
            onto old s p r s' readable path
              (subst₂
                (λ q t.
                  ◌≡◌ {A = Result (Unit {0}) × World} (save_onto strip m.write m none p q t)
                    (r, s'))
                found still rest)
              durable clear
      ]

  pub save_locked-IsMerged :
      (s : World) (r : Result (Unit {0})) (s' : World)
      → s.disk.storage ≡ at_journal
      → ◌≡◌ {A = Result (Unit {0}) × World} (save_locked strip m s) (r, s')
      → IsDurable r s'
      → s'.ledger.recovery_required ≡ false
      → IsMerged s s'
  unfolding save_locked
  save_locked-IsMerged s r s' at h durable clear = elim (stepped begin_save _ s r s' h) [
    | inl (x, e, raised) ↦
        never x r s' raised
          (sym (ap (λ o. o.1.ledger.last_write_committed) e) ∙ begin_save-IsUncommitted s) durable
    | inr (p, s1, begun, rest) ↦
        let (path, start, off) = begin_save-ok s p s1 begun in
        read_then s p r s' at path
          (subst
            (λ t.
              ◌≡◌ {A = Result (Unit {0}) × World}
                ((read_locked strip m.rename >>= λ disk. save_onto strip m.write m none p disk) t)
                (r, s'))
            start rest)
          durable clear
  ]
