-- ===== src/Ledger/Written.antt =====
-- What is on the disk after a write that is committed.
use kry.Base.{◌≡◌, ◌⊎◌, inl, inr, refl, sym, ap, ◌∙◌, ◌∷◌, Bool, true, false}
use kry.Base.Texts.{Text}
use kry.Base.Results.{Result, Result-cases, Error, err, ok, os_error}
use kry.Ledger.Book.{accounting_of, Document, check_document, adopt, adopted}
use kry.Ledger.World.{
  document, Disk, World, M, pure, lift, get, set_ledger, set_disk, after, ◌>>=◌, handle, catching,
  Raises, bind-Raises, raise-Raises, absurd_outcome,
}
use kry.Ledger.Reading.{require_recovery}
use kry.Ledger.Saving.{
  pending_storage, Write, replaced, acknowledged, left_pending, not_replaced, uncertain,
  new_storage, put_file, put_file_if, leave_marker, clear_recovery, adopt_written, confirm,
  write_out, refusal,
}
use kry.Ledger.Keeps.{IsUncommitted}

-- The file holds the document, which any reader adopts.
abbrev pub IsWritten : (Text → Text) → Document → World → World → Type 0
IsWritten strip d s s' =
    (s'.disk ≡ record (s.disk) { storage = new_storage d; file = document d })
    × (check_document strip d ≡ ok tt)
    × (s'.ledger.totals ≡ (accounting_of d).totals)
    × (s'.ledger.baseline ≡ (accounting_of d).totals)

-- The outcome of a save whose write is committed.
abbrev pub IsDurable : Result (Unit {0}) → World → Type 0
IsDurable r s = (r ≡ ok tt) ⊎ (s.ledger.last_write_committed ≡ true)

module _ (strip : Text → Text) (act : Bool) (mk : Text × Text) (d : Document) (s : World) where
  abbrev placed : Disk
  placed = record (s.disk) { storage = new_storage d; file = document d }

  abbrev confirmed_world : World
  confirmed_world = record {
    ledger = record (adopted d (record (s.ledger) { recovery_required = true })) {
      last_write_committed = true;
    };
    disk = placed;
  }

  pub confirm-ok :
      check_document strip d ≡ ok tt → confirm strip act mk d s ≡ (ok tt, confirmed_world)
  unfolding confirm put_file set_disk get ◌>>=◌ after require_recovery set_ledger catching handle
      adopt_written adopt lift adopted
  confirm-ok h = rw h refl

  abbrev failed_world : World
  failed_world = record {
    ledger = record (s.ledger) { recovery_required = true };
    disk = record placed {
      storage = pending_storage act (new_storage d);
      incidents = mk ∷ s.disk.incidents;
    };
  }

  confirm-err :
      (x : Error)
      → check_document strip d ≡ err x
      → confirm strip act mk d s ≡ (err x, failed_world)
  unfolding confirm put_file set_disk get ◌>>=◌ after require_recovery set_ledger catching handle
      adopt_written adopt lift leave_marker
  confirm-err x h = rw h refl

  abbrev IsBlocking : Result (Unit {0}) × World → Type 0
  IsBlocking o = o.1.ledger.recovery_required ≡ true

  pub confirm-IsBlocking :
      (x : Error) → check_document strip d ≡ err x → IsBlocking (confirm strip act mk d s)
  confirm-IsBlocking x h = ap (λ o. o.1.ledger.recovery_required) (confirm-err x h)

  pub left_pending-IsBlocking : IsBlocking (write_out strip left_pending act mk d s)
  unfolding write_out ◌>>=◌ after require_recovery set_ledger get leave_marker set_disk lift
  left_pending-IsBlocking = elim (Result-cases (check_document strip d)) [
    | inl (x, e) ↦ rw (confirm-err x e) refl
    | inr (v, e) ↦ rw (confirm-ok e) refl
  ]

  pub uncertain-IsBlocking : (b : Bool) → IsBlocking (write_out strip (uncertain b) act mk d s)
  unfolding write_out ◌>>=◌ after require_recovery set_ledger get leave_marker set_disk lift
      put_file_if put_file pure
  uncertain-IsBlocking true = refl
  uncertain-IsBlocking false = refl

  pub acknowledged_run :
      check_document strip d ≡ ok tt
      → write_out strip acknowledged act mk d s ≡ (err os_error, confirmed_world)
  unfolding write_out ◌>>=◌ after lift
  acknowledged_run h = rw (confirm-ok h) refl

  pub acknowledged-IsBlocking :
      (x : Error)
      → check_document strip d ≡ err x
      → IsBlocking (write_out strip acknowledged act mk d s)
  unfolding write_out ◌>>=◌ after lift
  acknowledged-IsBlocking x h = rw (confirm-err x h) refl

  placed_by :
      {o : Result (Unit {0}) × World} {r r' : Result (Unit {0})} {s' : World}
      → ◌≡◌ {A = Result (Unit {0}) × World} o (r, s')
      → ◌≡◌ {A = Result (Unit {0}) × World} o (r', confirmed_world)
      → check_document strip d ≡ ok tt
      → IsWritten strip d s s'
  unfolding adopted
  placed_by {s' = s'} h e valid =
      let same : s' ≡ confirmed_world = ap (λ z. z.1) (sym h ∙ e) in
      (
        ap (λ t. t.disk) same,
        valid,
        ap (λ t. t.ledger.totals) same,
        ap (λ t. t.ledger.baseline) same,
      )

  not_blocking :
      {B : Type 0} {o : Result (Unit {0}) × World} (r : Result (Unit {0})) (s' : World)
      → ◌≡◌ {A = Result (Unit {0}) × World} o (r, s')
      → IsBlocking o
      → s'.ledger.recovery_required ≡ false
      → B
  not_blocking {o = o} r s' h blocking clear =
      let e : o.1.ledger.recovery_required ≡ s'.ledger.recovery_required =
        ap (λ z. z.1.ledger.recovery_required) h in
      cc

  -- A write that is durable, and blocks nothing, has put the document in place.
  pub write_out-IsWritten :
      (w : Write) (r : Result (Unit {0})) (s' : World)
      → ◌≡◌ {A = Result (Unit {0}) × World} (write_out strip w act mk d s) (r, s')
      → IsUncommitted s
      → IsDurable r s'
      → s'.ledger.recovery_required ≡ false
      → IsWritten strip d s s'
  unfolding write_out clear_recovery lift set_ledger get ◌>>=◌ after
  write_out-IsWritten replaced r s' h fresh durable clear =
      elim (Result-cases (check_document strip d)) [
        | inl (x, e) ↦ not_blocking r s' h (confirm-IsBlocking x e) clear
        | inr (v, e) ↦ placed_by h (confirm-ok e) e
      ]
  write_out-IsWritten acknowledged r s' h fresh durable clear =
      elim (Result-cases (check_document strip d)) [
        | inl (x, e) ↦ not_blocking r s' h (acknowledged-IsBlocking x e) clear
        | inr (v, e) ↦ placed_by h (acknowledged_run e) e
      ]
  write_out-IsWritten left_pending r s' h fresh durable clear =
      not_blocking r s' h left_pending-IsBlocking clear
  write_out-IsWritten (uncertain b) r s' h fresh durable clear =
      not_blocking r s' h (uncertain-IsBlocking b) clear
  write_out-IsWritten (not_replaced b) r s' h fresh (inl done) clear = cc
  write_out-IsWritten (not_replaced b) r s' h fresh (inr done) clear =
      let e : s.ledger.last_write_committed ≡ s'.ledger.last_write_committed =
        ap (λ z. z.1.ledger.last_write_committed) h in
      cc

  never_returns : {B : Type 0} {s' : World} (m : M (Unit {0})) → Raises m → m s ≡ (ok tt, s') → B
  never_returns m all h = let (y, t, e) = all s in absurd_outcome (sym e ∙ h)

  -- A write that returns has put the document in place.
  pub write_out-ok :
      (w : Write) (s' : World) → write_out strip w act mk d s ≡ (ok tt, s') → IsWritten strip d s s'
  unfolding write_out
  write_out-ok replaced s' h = elim (Result-cases (check_document strip d)) [
    | inl (x, e) ↦ absurd_outcome (sym (confirm-err x e) ∙ h)
    | inr (v, e) ↦ placed_by h (confirm-ok e) e
  ]
  write_out-ok acknowledged s' h =
      never_returns (write_out strip acknowledged act mk d)
        (bind-Raises (confirm strip act mk d) _ (λ _. raise-Raises os_error)) h
  write_out-ok left_pending s' h =
      never_returns (write_out strip left_pending act mk d)
        (bind-Raises (confirm strip act mk d) _ (λ _.
          bind-Raises require_recovery _
            (λ _. bind-Raises (leave_marker act mk) _ (λ _. raise-Raises os_error))))
        h
  write_out-ok (uncertain b) s' h =
      never_returns (write_out strip (uncertain b) act mk d)
        (bind-Raises (put_file_if b d) _ (λ _.
          bind-Raises require_recovery _
            (λ _. bind-Raises (leave_marker act mk) _ (λ _. raise-Raises os_error))))
        h
  write_out-ok (not_replaced b) s' h =
      never_returns (write_out strip (not_replaced b) act mk d)
        (bind-Raises clear_recovery _ (λ _. raise-Raises (refusal act b))) h
