-- ===== src/Ledger/Unblocked.antt =====
-- An acknowledged ledger is read again.
use kry.Base.{◌≡◌, refl, sym, ap, subst, ◌∙◌, false, Option, none}
use kry.Base.Texts.{Text}
use kry.Base.Results.{raise_if, Result, ok, err, value_error, persistence_error}
use kry.Ledger.Book.{Document, Ledger, new_ledger, adopt}
use kry.Ledger.World.{
  LedgerFile, document, World, pure, lift, get, set_ledger, fail_if, after, ◌>>=◌, ◌>>◌, handle,
  catching, returned, runs, reraised, raise-Raises, lift_returned, guard_returned, outcome_eq,
}
use kry.Ledger.Reading.{
  Rename, StoragePath, storage_path, read_file, read_locked, is_history_missing, check_read, bound,
  bound_if, locate,
}
use kry.Ledger.Saving.{Moment}
use kry.Ledger.Recovery.{
  read_back, save_acknowledged, acknowledge_loaded, acknowledge_ledger_recovery, on_new_ledger,
  taken_up, loaded,
}
use kry.Ledger.Read.{seen, refuse_contents-err, locate-ok}

module _ (strip : Text → Text) (r r' : Rename) where
  file_again :
      (p : StoragePath) (f : LedgerFile) (s : World) (o : Option Document) (s' : World)
      → read_file strip r p f s ≡ (ok o, s')
      → (read_file strip r' p f s ≡ (ok o, s)) × (s' ≡ s)
  unfolding read_file get ◌>>=◌ after lift pure fail_if bound bound_if catching handle check_read
  file_again p LedgerFile.absent s o s' h =
      let (off, h1) = guard_returned (is_history_missing s) value_error (pure none) s o s' h in
      let (found, still) = outcome_eq h1 in (rw (off, found) refl, sym still)
  file_again p LedgerFile.unreadable s o s' h = cc
  file_again p LedgerFile.undecodable s o s' h =
      let (x, t, raised) = refuse_contents-err strip r {A = Option Document} s in cc
  file_again p LedgerFile.malformed s o s' h =
      let (x, t, raised) = refuse_contents-err strip r {A = Option Document} s in cc
  file_again p (document d) s o s' h =
      let (valid, same, found, still) = seen strip r d p s o s' h in
      (rw (valid, same, found) refl, still)

  not_failing :
      (s : World)
      → s.ledger.recovery_required ≡ false
      → fail_if s.ledger.recovery_required value_error s ≡ (ok tt, s)
  unfolding fail_if
  not_failing s off = ap (λ c. (raise_if c value_error, s)) off

  locate_run : (s : World) (p : StoragePath) → storage_path s.disk ≡ ok p → locate s ≡ (ok p, s)
  unfolding locate get ◌>>=◌ after catching handle lift
  locate_run s p path = rw path refl

  same_read :
      {p : StoragePath} {s : World} {o : Option Document}
      → s.ledger.recovery_required ≡ false
      → storage_path s.disk ≡ ok p
      → read_file strip r' p s.disk.file s ≡ (ok o, s)
      → read_locked strip r' s ≡ (ok o, s)
  unfolding read_locked get ◌>>=◌ after
  same_read {p = p} {s = s} off path again =
      runs (fail_if s.ledger.recovery_required value_error) _ s tt s (not_failing s off)
      ∙ (runs locate (λ q. read_file strip r' q s.disk.file) s p s (locate_run s p path) ∙ again)

  -- A read that returned returns again, and changes nothing.
  read_again :
      (s : World) (o : Option Document) (s' : World)
      → read_locked strip r s ≡ (ok o, s')
      → (read_locked strip r' s' ≡ (ok o, s')) × (s'.ledger.recovery_required ≡ false)
  unfolding read_locked get ◌>>=◌ after fail_if locate catching handle lift
  read_again s o s' h =
      let (off, h1) = guard_returned s.ledger.recovery_required value_error _ s o s' h in
      let (p, s1, here, h2) = returned locate (λ q. read_file strip r q s.disk.file) s o s' h1 in
      let (path, still) = locate-ok s p s1 here in
      let (again, kept) =
        file_again p s.disk.file s o s'
          (subst (λ t. read_file strip r p s.disk.file t ≡ (ok o, s')) still h2) in
      subst (λ t. (read_locked strip r' t ≡ (ok o, t)) × (t.ledger.recovery_required ≡ false))
        (sym kept) (same_read off path again, off)

taken_up-ok :
    {A : Type 0} (before : Ledger) (o : Result A × World) (a : A) (s' : World)
    → taken_up before o ≡ (ok a, s')
    → o ≡ (ok a, s')
unfolding taken_up
taken_up-ok before (ok b, s) a s' h = h
taken_up-ok before (err x, s) a s' h = cc

module _ (strip : Text → Text) (m : Moment) where
  read_back-ok :
      (s : World) (u : Unit {0}) (s' : World)
      → read_back strip m s ≡ (ok u, s')
      → (o : Option Document) × (read_locked strip m.rename s ≡ (ok o, s'))
  unfolding read_back catching pure
  read_back-ok s u s' h =
      let inner : (read_locked strip m.rename >>= λ _. pure tt) s ≡ (ok u, s') =
        reraised ((read_locked strip m.rename >>= λ _. pure tt) s) u s'
          (λ x t. raise-Raises persistence_error t) h in
      let (o, s1, read, end) = returned (read_locked strip m.rename) (λ _. pure tt) s u s' inner in
      (o, subst (λ t. read_locked strip m.rename s ≡ (ok o, t)) (outcome_eq end).1 read)

  -- An acknowledgement that returns ends the block: recovery is no longer required, and a read of the
  -- ledger from there returns and changes nothing.
  pub acknowledged_reads :
      (reason : Text) (r' : Rename) (s : World) (s' : World)
      → acknowledge_ledger_recovery strip m reason s ≡ (ok tt, s')
      → (s'.ledger.recovery_required ≡ false)
        × ((o : Option Document) × (read_locked strip r' s' ≡ (ok o, s')))
  unfolding acknowledge_ledger_recovery acknowledge_loaded on_new_ledger get set_ledger ◌>>=◌ after
  acknowledged_reads reason r' s s' h =
      let (named, h1) = guard_returned _ value_error _ s tt s' h in
      let (p, path, h2) = lift_returned (storage_path s.disk) _ s tt s' h1 in
      let (d, file, h3) = lift_returned (loaded s.disk.file) _ s tt s' h2 in
      let (format, h4) =
        guard_returned _ value_error (on_new_ledger (acknowledge_loaded strip m reason d)) s tt s'
          h3 in
      let t : World = record s { ledger = new_ledger } in
      let h5 = taken_up-ok s.ledger (acknowledge_loaded strip m reason d t) tt s' h4 in
      let (l, adopting, h6) = lift_returned (adopt strip d new_ledger) _ t tt s' h5 in
      let (solvent, h7) =
        guard_returned _ value_error (save_acknowledged strip m reason d l >> read_back strip m)
          (record s { ledger = l }) tt s' h6 in
      let (u, s1, saved, h8) =
        returned (save_acknowledged strip m reason d l) (λ (_ : Unit {0}). read_back strip m)
          (record s { ledger = l }) tt s' h7 in
      let (o, read) = read_back-ok s1 tt s' h8 in
      let (again, off) = read_again strip m.rename r' s1 o s' read in (off, (o, again))
