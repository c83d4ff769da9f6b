-- ===== src/Ledger/Refreshed.antt =====
-- A refresh of a journal leaves a journal.
use kry.Base.{◌≡◌, refl, sym, ap, subst, subst₂, ◌∙◌, Bool, true, false, none, some}
use kry.Base.Texts.{Text}
use kry.Base.Results.{ok}
use kry.Ledger.Book.{Document, is_versioned, adopt}
use kry.Ledger.World.{at_journal, World, get, after, ◌>>=◌, returned, set_ledger, lift_returned}
use kry.Ledger.Reading.{
  same_incidents, incidents_of, journal_path, storage_path, path_from, read_locked,
}
use kry.Ledger.Merge.{to_write}
use kry.Ledger.Saving.{
  Moment, new_storage, put_document, save_onto, begin_save, save_over, refresh_from, refresh_locked,
  adopt_document, differ, Write,
}
use kry.Ledger.Read.{IsReadable, read_journal}
use kry.Ledger.Written.{IsWritten, write_out-ok}
use kry.Ledger.Committed.{fresh, begin_save-ok, storage_path-journal}
use kry.Ledger.Merged.{to_write-versioned}

pub new_storage-journal : (d : Document) → is_versioned d ≡ true → new_storage d ≡ at_journal
new_storage-journal (Document.legacy a) v = cc
new_storage-journal (Document.versioned a ops) v = refl

-- A document merged into a journal is a journal that may be used.
pub merged-IsReadable :
    (strip : Text → Text) (old d : Document) (s s' : World)
    → IsReadable strip old s
    → to_write strip none (some old) (fresh s).ledger ≡ ok d
    → IsWritten strip d s s'
    → s'.ledger.recovery_required ≡ false
    → IsReadable strip d s'
merged-IsReadable strip old d s s' (off, at, file, v, sound, same) written
      (placed, valid, totals, baseline) clear =
    let (vd, merged, recovery) = to_write-versioned strip old (fresh s).ledger d v written in
    (
      clear,
      ap (λ x. x.storage) placed ∙ new_storage-journal d vd,
      ap (λ x. x.file) placed,
      vd,
      valid,
      subst₂ (λ x y. same_incidents (incidents_of x) y ≡ true) (sym recovery)
          (sym (ap (λ x. x.incidents) placed)) same,
    )

module _ (strip : Text → Text) (m : Moment) where
  -- What a save that returned has written over a journal.
  pub saved_over :
      (w : Write) (old : Document) (s s' : World)
      → IsReadable strip old s
      → save_over strip w m none (some old) s ≡ (ok tt, s')
      → (d : Document) × (to_write strip none (some old) (fresh s).ledger ≡ ok d)
        × IsWritten strip d s s'
  unfolding save_over save_onto get ◌>>=◌ after put_document storage_path
  saved_over w old s s' readable h =
      let (p, s1, begun, rest) =
        returned begin_save (λ q. save_onto strip w m none q (some old)) s tt s' h in
      let (path, start, off) = begin_save-ok s p s1 begun in
      let journal : p ≡ journal_path =
        storage_path-journal s.disk.file old p readable.2
          (subst (λ q. path_from q s.disk.file ≡ ok p) readable.1 path) in
      let onto : save_onto strip w m none journal_path (some old) (fresh s) ≡ (ok tt, s') =
        subst₂ (λ q t. save_onto strip w m none q (some old) t ≡ (ok tt, s')) journal start rest in
      let (d, merged, put) =
        lift_returned (to_write strip none (some old) (fresh s).ledger)
          (put_document strip w m journal_path (some old)) (fresh s) tt s' onto in
      (d, merged, write_out-ok strip false m.marker d (fresh s) w s' put)

  refreshed_from :
      (b : Bool) (old : Document) (s s' : World)
      → IsReadable strip old s
      → refresh_from strip m b (some old) s ≡ (ok tt, s')
      → s'.disk.storage ≡ at_journal
  unfolding refresh_from adopt_document get set_ledger ◌>>=◌ after
  refreshed_from true old s s' readable h =
      let (d, merged, (placed, valid, totals, baseline)) =
        saved_over m.refresh_write old s s' readable h in
      let (v, ops, recovery) = to_write-versioned strip old (fresh s).ledger d readable.3 merged in
      ap (λ x. x.storage) placed ∙ new_storage-journal d v
  refreshed_from false old s s' readable h =
      let (l, adopted, set) = lift_returned (adopt strip old s.ledger) set_ledger s tt s' h in
      ap (λ o. o.1.disk.storage) (sym set) ∙ readable.1

  pub refresh_locked-journal :
      (s s' : World)
      → s.disk.storage ≡ at_journal
      → refresh_locked strip m s ≡ (ok tt, s')
      → s'.disk.storage ≡ at_journal
  unfolding refresh_locked get ◌>>=◌ after
  refresh_locked-journal s s' at h =
      let (o, s1, read, rest) =
        returned (read_locked strip m.rename)
          (λ disk. get >>= λ (t : World).
            refresh_from strip m (differ t.ledger.totals t.ledger.baseline) disk)
          s tt s' h in
      let (old, found, readable, still) = read_journal strip m.rename s o s1 at read in
      refreshed_from (differ s.ledger.totals s.ledger.baseline) old s s' readable (
        subst₂
          (λ q t. refresh_from strip m (differ t.ledger.totals t.ledger.baseline) q t ≡ (ok tt, s'))
          found still rest)
