-- ===== src/Ledger/Read.antt =====
-- What a read that returns has seen, and that it changes nothing.
use kry.Base.{◌≡◌, refl, sym, ap, subst, ◌∙◌, Bool, true, false, Option, some}
use kry.Base.Texts.{Text}
use kry.Base.Results.{Result, Error, err, ok, ok-injective, value_error}
use kry.Ledger.Book.{Document, accounting_of, is_versioned, check_document}
use kry.Ledger.World.{
  at_journal, LedgerFile, document, World, returned, guard_returned, get, lift, catching, handle,
  reraised, lift, outcome_eq, set_disk, ◌>>=◌, after, fail_if, pure, set_ledger,
}
use kry.Ledger.Reading.{
  quarantine, quarantined, StoragePath, journal_path, storage_path, path_from, locate, Rename,
  read_locked, read_file, check_read, same_incidents, incidents_of, bound, bound_if,
  refuse_contents, require_recovery,
}

-- A journal that may be used: it is readable, valid, and bound to the incidents that are there.
abbrev pub IsReadable : (Text → Text) → Document → World → Type 0
IsReadable strip d s =
    (s.ledger.recovery_required ≡ false)
    × (s.disk.storage ≡ at_journal)
    × (s.disk.file ≡ document d)
    × (is_versioned d ≡ true)
    × (check_document strip d ≡ ok tt)
    × (same_incidents (incidents_of (accounting_of d).recovery) s.disk.incidents ≡ true)

abbrev blocked_world : World → World
blocked_world t = record t { ledger = record (t.ledger) { recovery_required = true } }

pub locate-ok :
    (s : World) (p : StoragePath) (s' : World)
    → locate s ≡ (ok p, s')
    → (storage_path s.disk ≡ ok p) × (s' ≡ s)
unfolding locate catching ◌>>=◌ after get lift require_recovery set_ledger
locate-ok s p s' h =
    let e : ◌≡◌ {A = Result StoragePath × World} (storage_path s.disk, s) (ok p, s') =
      reraised (storage_path s.disk, s) p s' (λ x t. (x, blocked_world t, refl)) h in
    (ap (λ z. z.0) e, sym (ap (λ z. z.1) e))

module _ (strip : Text → Text) (r : Rename) where
  pub refuse_contents-err :
      {A : Type 0} (s : World)
      → (x : Error) × (t : World) × (refuse_contents strip r {A = A} s ≡ (err x, t))
  unfolding refuse_contents ◌>>=◌ after get lift require_recovery set_ledger quarantine set_disk
  refuse_contents-err s = (
    value_error,
    record { ledger = record (s.ledger) { recovery_required = true }; disk = quarantined r s.disk },
    refl,
  )

  bound_if-ok :
      (b : Bool) (d : Document) (s : World) (o : Option Document) (s' : World)
      → bound_if strip r b d s ≡ (ok o, s')
      → (b ≡ true) × (o ≡ some d) × (s' ≡ s)
  unfolding bound_if pure ◌>>=◌ after get lift require_recovery set_ledger
  bound_if-ok true d s o s' h = let (e, f) = outcome_eq h in (refl, sym e, sym f)
  bound_if-ok false d s o s' h = cc

  pub seen :
      (d : Document) (p : StoragePath) (s : World) (o : Option Document) (s' : World)
      → read_file strip r p (document d) s ≡ (ok o, s')
      → (check_read strip r p d ≡ ok tt)
        × (same_incidents (incidents_of (accounting_of d).recovery) s.disk.incidents ≡ true)
        × (o ≡ some d)
        × (s' ≡ s)
  unfolding read_file bound catching lift get ◌>>=◌ after
  seen d p s o s' h =
      let (u, s1, first, rest) =
        returned (catching (lift (check_read strip r p d)) (λ x. refuse_contents strip r))
          (λ (_ : Unit {0}). bound strip r d) s o s' h in
      let e : ◌≡◌ {A = Result (Unit {0}) × World} (check_read strip r p d, s) (ok u, s1) =
        reraised (check_read strip r p d, s) u s1 (λ x t. refuse_contents-err t) first in
      let still : s1 ≡ s = sym (ap (λ z. z.1) e) in
      let (same, found, kept) =
        bound_if-ok (same_incidents (incidents_of (accounting_of d).recovery) s1.disk.incidents) d
          s1 o s' rest in
      (ap (λ z. z.0) e, rw (← still) same, found, kept ∙ still)

  check_read-ok :
      (d : Document)
      → check_read strip r journal_path d ≡ ok tt
      → (is_versioned d ≡ true) × (check_document strip d ≡ ok tt)
  unfolding check_read
  check_read-ok (Document.legacy a) h = cc
  check_read-ok (Document.versioned a ops) h = (refl, h)

  journal_seen :
      (s : World) (f : LedgerFile) (p : StoragePath) (o : Option Document) (s' : World)
      → s.ledger.recovery_required ≡ false
      → s.disk.storage ≡ at_journal
      → s.disk.file ≡ f
      → path_from at_journal f ≡ ok p
      → read_file strip r p f s ≡ (ok o, s')
      → (d : Document) × (o ≡ some d) × IsReadable strip d s × (s' ≡ s)
  unfolding path_from read_file lift refuse_contents check_read
  journal_seen s LedgerFile.absent p o s' a b c e h = cc
  journal_seen s LedgerFile.unreadable p o s' a b c e h = cc
  journal_seen s LedgerFile.undecodable p o s' a b c e h =
      let (x, t, raised) = refuse_contents-err {A = Option Document} s in cc
  journal_seen s LedgerFile.malformed p o s' a b c e h =
      let (x, t, raised) = refuse_contents-err {A = Option Document} s in cc
  journal_seen s (document d) p o s' a b c e h =
      let (valid, same, found, kept) = seen d p s o s' h in
      let (new_format, sound) =
        check_read-ok d
          (subst (λ q. check_read strip r q d ≡ ok tt) (sym (ok-injective e)) valid) in
      (d, found, (a, b, c, new_format, sound, same), kept)

  -- A read of a journal that returns has found one that may be used, and changed nothing.
  pub read_journal :
      (s : World) (o : Option Document) (s' : World)
      → s.disk.storage ≡ at_journal
      → read_locked strip r s ≡ (ok o, s')
      → (d : Document) × (o ≡ some d) × IsReadable strip d s × (s' ≡ s)
  unfolding read_locked ◌>>=◌ after get storage_path
  read_journal s o s' at h =
      let (off, h1) = guard_returned s.ledger.recovery_required value_error _ s o s' h in
      let (p, s1, here, h2) = returned locate _ s o s' h1 in
      let (path, still) = locate-ok s p s1 here in
      journal_seen s s.disk.file p o s' off at refl (rw (← at) path) (
        subst
          (λ t.
            ◌≡◌ {A = Result (Option Document) × World} (read_file strip r p s.disk.file t)
              (ok o, s'))
          still h2)

  -- A journal that may be used is read.
  pub read-IsReadable :
      (d : Document) (s : World) → IsReadable strip d s → read_locked strip r s ≡ (ok (some d), s)
  unfolding read_locked ◌>>=◌ after get fail_if lift locate storage_path path_from catching handle
      read_file bound bound_if check_read pure
  read-IsReadable (Document.legacy a) s (off, at, file, new_format, sound, same) = cc
  read-IsReadable (Document.versioned a ops) s (off, at, file, new_format, sound, same) =
      rw (off, at, file, sound, same) refl
