-- ===== src/Displacement/Minted.antt =====
-- What a confirmed displacement mints.
use kry.Base.{◌≡◌, refl, false, Bool, some}
use kry.Base.Texts.{Text}
use kry.Base.Dicts.{lookup, insert}
use kry.Base.Results.{ok}
use kry.Double.{Double}
use kry.Python.{Value}
use kry.Displacement.Store.{
  confirmed, Kwargs, PendingRecord, Store, parsed, load, write, write_then, is_late, Libraries,
  new_id, record_checks, new_record, record_loaded, record_checked, record_pending,
}
use kry.Displacement.Confirm.{
  ConfirmCall, with_receipt, mint_written, confirm_pending, confirm_found, confirm_loaded, confirm,
}
use kry.Displacement.Once.{lookup-insert-same}

-- The record of a displacement whose mint gave x.
abbrev pub minted_record :
    {M R : Type 0} → ConfirmCall M R → Double → Double → Kwargs → R → PendingRecord
minted_record c now t kwargs x = record (new_record now t kwargs) {
  status = confirmed;
  receipt_id = some (some (c.receipt_name x));
}

confirm_found-minted :
    {M R : Type 0} (c : ConfirmCall M R) (pid : Text) (now t : Double) (kwargs : Kwargs) (d : Store)
    (m m' : M) (x : R)
    → is_late c.now (new_record now t kwargs) ≡ false
    → c.first_write ≡ ok tt
    → c.second_write ≡ ok tt
    → c.mint kwargs m ≡ (ok (some x), m')
    → confirm_found c pid d (parsed d) m (some (new_record now t kwargs))
      ≡ (ok (some x), parsed (insert pid (minted_record c now t kwargs x) d), m')
unfolding confirm_found confirm_pending mint_written with_receipt write write_then
confirm_found-minted c pid now t kwargs d m m' x early first second minted =
    rw (early, first, minted, second) refl

-- A displacement that is recorded and then confirmed before it is late, with writes that succeed, mints
-- exactly the arguments it was recorded with: the call returns the mint's receipt, and the store holds the
-- displacement as confirmed, with the receipt's id.
pub record_then_confirm :
    {M R : Type 0} (l : Libraries) (c : ConfirmCall M R) (default_ttl ttl : Value) (seed : Text)
    (now t : Double) (q : Bool) (kwargs : Kwargs) (d : Store) (m m' : M) (x : R)
    → record_checks l default_ttl ttl kwargs ≡ ok t
    → is_late c.now (new_record now t kwargs) ≡ false
    → c.first_write ≡ ok tt
    → c.second_write ≡ ok tt
    → c.mint kwargs m ≡ (ok (some x), m')
    → (d' : Store) × (confirm c
          (new_id l seed)
          (record_pending l default_ttl seed now q (ok tt) kwargs ttl (parsed d)).1
          m
        ≡ (ok (some x), parsed d', m'))
      × (lookup (new_id l seed) d' ≡ some (minted_record c now t kwargs x))
unfolding confirm confirm_loaded load record_pending record_checked record_loaded write write_then
record_then_confirm l c default_ttl ttl seed now t q kwargs d m m' x checked early first second
      minted =
    (
      insert (new_id l seed) (minted_record c now t kwargs x)
          (insert (new_id l seed) (new_record now t kwargs) d),
      rw checked (
          rw (lookup-insert-same (new_id l seed) (new_record now t kwargs) d) (
            confirm_found-minted c (new_id l seed) now t kwargs
              (insert (new_id l seed) (new_record now t kwargs) d) m m' x early first second
              minted)),
      lookup-insert-same (new_id l seed) (minted_record c now t kwargs x)
          (insert (new_id l seed) (new_record now t kwargs) d),
    )
