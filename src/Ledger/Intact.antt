-- ===== src/Ledger/Intact.antt =====
-- A save that is not committed, and blocks nothing, leaves the files as they were.
use kry.Base.{◌≡◌, ◌⊎◌, inl, inr, refl, sym, ap, subst, subst₂, true, false, none, some}
use kry.Base.Texts.{Text}
use kry.Base.Results.{Result, Result-cases, err, ok}
use kry.Ledger.Book.{Document, check_document}
use kry.Ledger.World.{
  at_journal, Disk, World, lift, get, after, ◌>>=◌, stepped, lift_parts, set_ledger,
}
use kry.Ledger.Reading.{StoragePath, journal_path, storage_path, path_from, read_locked}
use kry.Ledger.Merge.{to_write}
use kry.Ledger.Saving.{
  Write, replaced, acknowledged, left_pending, not_replaced, uncertain, Moment, write_out,
  put_document, save_onto, begin_save, save_locked, clear_recovery,
}
use kry.Ledger.Read.{IsReadable, read_journal}
use kry.Ledger.Keeps.{
  IsUncommitted, IsIntact, Keeps-read_locked, require_recovery-IsIntact, quarantine-IsIntact,
}
use kry.Ledger.Written.{
  confirm-ok, confirm-IsBlocking, left_pending-IsBlocking, uncertain-IsBlocking, acknowledged_run,
  acknowledged-IsBlocking,
}
use kry.Ledger.Committed.{fresh, begin_save-ok, begin_save-IsIntact, storage_path-journal}

-- The files are as they were, unless recovery is required or the write is committed.
abbrev IsSettled : Disk → World → Type 0
IsSettled d s =
    (s.ledger.recovery_required ≡ true) ⊎ ((s.ledger.last_write_committed ≡ true) ⊎ (s.disk ≡ d))

module _ (strip : Text → Text) (mk : Text × Text) (d : Document) (s : World) where
  write_out-IsSettled : (w : Write) → IsSettled s.disk (write_out strip w false mk d s).1
  unfolding write_out clear_recovery set_ledger get ◌>>=◌ after lift
  write_out-IsSettled replaced = elim (Result-cases (check_document strip d)) [
    | inl (x, e) ↦ inl (confirm-IsBlocking strip false mk d s x e)
    | inr (v, e) ↦
        inr (inl (ap (λ o. o.1.ledger.last_write_committed) (confirm-ok strip false mk d s e)))
  ]
  write_out-IsSettled acknowledged = elim (Result-cases (check_document strip d)) [
    | inl (x, e) ↦ inl (acknowledged-IsBlocking strip false mk d s x e)
    | inr (v, e) ↦
        inr
          (inl (ap (λ o. o.1.ledger.last_write_committed) (acknowledged_run strip false mk d s e)))
  ]
  write_out-IsSettled left_pending = inl (left_pending-IsBlocking strip false mk d s)
  write_out-IsSettled (uncertain b) = inl (uncertain-IsBlocking strip false mk d s b)
  write_out-IsSettled (not_replaced b) = inr (inr refl)

settled :
    (d : Disk) (s : World)
    → IsSettled d s
    → s.ledger.recovery_required ≡ false
    → IsUncommitted s
    → s.disk ≡ d
settled d s (inl x) clear fresh_still = cc
settled d s (inr (inl x)) clear fresh_still = cc
settled d s (inr (inr x)) clear fresh_still = x

intact : (d : Disk) (s : World) → IsIntact d s → s.ledger.recovery_required ≡ false → s.disk ≡ d
intact d s (inl x) clear = cc
intact d s (inr x) clear = x

module _ (strip : Text → Text) (m : Moment) where
  onto :
      (old : Document) (s : World) (p : StoragePath) (r : Result (Unit {0})) (s' : World)
      → IsReadable strip old s
      → storage_path s.disk ≡ ok p
      → ◌≡◌ {A = Result (Unit {0}) × World}
          (save_onto strip m.write m none p (some old) (fresh s))
          (r, s')
      → s'.ledger.recovery_required ≡ false
      → IsUncommitted s'
      → s'.disk ≡ s.disk
  unfolding save_onto get ◌>>=◌ after put_document storage_path
  onto old s p r s' readable path h clear open_still =
      let merging = to_write strip none (some old) (fresh s).ledger in
      elim (stepped (lift merging) (put_document strip m.write m p (some old)) (fresh s) r s' h) [
        | inl (x, e, raised) ↦
            let (same, still) = lift_parts merging (err x) (fresh s) s' e in
            ap (λ t. t.disk) (sym still)
        | inr (d, s1, e, rest) ↦
            let journal : p ≡ journal_path =
              storage_path-journal s.disk.file old p readable.2
                (subst (λ q. path_from q s.disk.file ≡ ok p) readable.1 path) in
            let (same, still) = lift_parts merging (ok d) (fresh s) s1 e in
            let written : ◌≡◌ {A = Result (Unit {0}) × World}
                (put_document strip m.write m journal_path (some old) d (fresh s)) (r, s') =
              subst₂
                (λ q t.
                  ◌≡◌ {A = Result (Unit {0}) × World}
                    (put_document strip m.write m q (some old) d t) (r, s'))
                journal (sym still) rest in
            settled s.disk s'
              (subst (λ t. IsSettled s.disk t) (ap (λ o. o.1) written)
                (write_out-IsSettled strip m.marker d (fresh s) m.write))
              clear open_still
      ]

  read_then :
      (s : World) (p : StoragePath) (r : Result (Unit {0})) (s' : World)
      → s.disk.storage ≡ at_journal
      → storage_path s.disk ≡ ok p
      → ◌≡◌ {A = Result (Unit {0}) × World}
          ((read_locked strip m.rename >>= λ disk. save_onto strip m.write m none p disk) (fresh s))
          (r, s')
      → s'.ledger.recovery_required ≡ false
      → IsUncommitted s'
      → s'.disk ≡ s.disk
  read_then s p r s' at path h clear open_still =
      elim (stepped (read_locked strip m.rename) _ (fresh s) r s' h) [
        | inl (x, e, raised) ↦
            intact s.disk s'
              (subst (λ t. IsIntact s.disk t) (ap (λ o. o.1) e)
                ((Keeps-read_locked (require_recovery-IsIntact s.disk) (quarantine-IsIntact s.disk)
                    strip m.rename).at
                  (fresh s) (inr refl)))
              clear
        | inr (o, s1, read, rest) ↦
            let (old, found, readable, still) =
              read_journal strip m.rename (fresh s) o s1 at read in
            onto old s p r s' readable path
              (subst₂
                (λ q t.
                  ◌≡◌ {A = Result (Unit {0}) × World} (save_onto strip m.write m none p q t)
                    (r, s'))
                found still rest)
              clear open_still
      ]

  pub save_locked-IsIntact :
      (s : World) (r : Result (Unit {0})) (s' : World)
      → s.disk.storage ≡ at_journal
      → ◌≡◌ {A = Result (Unit {0}) × World} (save_locked strip m s) (r, s')
      → s'.ledger.recovery_required ≡ false
      → IsUncommitted s'
      → s'.disk ≡ s.disk
  unfolding save_locked
  save_locked-IsIntact s r s' at h clear open_still = elim (stepped begin_save _ s r s' h) [
    | inl (x, e, raised) ↦
        intact s.disk s' (subst (λ t. IsIntact s.disk t) (ap (λ o. o.1) e) (begin_save-IsIntact s))
          clear
    | inr (p, s1, begun, rest) ↦
        let (path, start, off) = begin_save-ok s p s1 begun in
        read_then s p r s' at path
          (subst
            (λ t.
              ◌≡◌ {A = Result (Unit {0}) × World}
                ((read_locked strip m.rename >>= λ disk. save_onto strip m.write m none p disk) t)
                (r, s'))
            start rest)
          clear open_still
  ]
