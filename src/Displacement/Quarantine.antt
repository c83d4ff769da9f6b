-- ===== src/Displacement/Quarantine.antt =====
-- A corrupt store: the call that finds it fails, and the next one starts over.
use kry.Base.{◌≡◌, refl, Bool, true, [], ◌∷◌}
use kry.Base.Texts.{Text}
use kry.Base.Results.{ok, err, corrupt_error}
use kry.Double.{Double}
use kry.Python.{Value}
use kry.Displacement.Store.{
  Kwargs, no_file, unparseable, parsed, load, write, write_then, Libraries, new_id, record_checks,
  new_record, record_loaded, record_checked, record_pending,
}
use kry.Displacement.Confirm.{ConfirmCall, confirm, confirm_loaded}

-- `confirm` on a store that does not parse raises PendingStoreCorrupt and mints nothing, and renames the
-- file; the next `record_pending` with valid arguments then succeeds, in a store that holds nothing else.
pub corrupt_store_forgotten :
    {M R : Type 0} (l : Libraries) (c : ConfirmCall M R) (pid : Text) (m : M)
    (default_ttl ttl : Value) (seed : Text) (now t : Double) (q : Bool) (kwargs : Kwargs)
    → c.renamed ≡ true
    → record_checks l default_ttl ttl kwargs ≡ ok t
    → (confirm c pid unparseable m ≡ (err corrupt_error, no_file, m))
      × (record_pending l default_ttl seed now q (ok tt) kwargs ttl (confirm c pid unparseable m).1
          ≡ (ok (new_id l seed), parsed ((new_id l seed, new_record now t kwargs) ∷ [])))
unfolding confirm confirm_loaded load record_pending record_checked record_loaded write write_then
    kry.Base.Dicts.insert
corrupt_store_forgotten l c pid m default_ttl ttl seed now t q kwargs renamed checked =
    (rw renamed refl, rw (renamed, checked) refl)
