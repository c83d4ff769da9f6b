-- ===== src/Displacement/Confirm.antt =====
-- `confirm`: a pending displacement is written down as confirmed, then minted, then given its receipt id.
use kry.Base.{Bool, true, false, if◌then◌else◌, Option, none, some}
use kry.Base.Texts.{Text}
use kry.Base.Dicts.{lookup, insert}
use kry.Base.Results.{Result, ok, err}
use kry.Double.{Double}
use kry.Displacement.Store.{
  confirmed, expired, is_pending, Kwargs, PendingRecord, Store, StoreFile, load, write, is_late,
  write_then,
}

-- One call of `confirm`: the clock, whether a corrupt store can be renamed, the two writes, and the mint
-- with its own state.  A process that dies before or after the mint is a mint that raises having done
-- nothing, or a second write that raises.
pub record ConfirmCall (M R : Type 0) : Type 0 where
  pub now : Double
  pub renamed : Bool
  pub first_write : Result (Unit {0})
  pub second_write : Result (Unit {0})
  pub mint : Kwargs → M → Result (Option R) × M
  pub receipt_name : R → Text

module _ {M R : Type 0} (c : ConfirmCall M R) (pid : Text) where
  abbrev pub receipt_of_mint : Option R → Option Text
  receipt_of_mint none = none
  receipt_of_mint (some r) = some (c.receipt_name r)

  unfoldable pub with_receipt :
      Store → PendingRecord → StoreFile → Result (Option R) × M → Result (Option R) × StoreFile × M
  with_receipt d r f (err e, m) = (err e, f, m)
  with_receipt d r f (ok o, m) =
      let (x, f') = write_then o (
        write c.second_write
          (insert pid (record r { status = confirmed; receipt_id = some (receipt_of_mint o) }) d)
          f) in
      (x, f', m)

  -- The flip is on disk before the mint.
  unfoldable pub mint_written :
      Store → PendingRecord → M → Result (Unit {0}) × StoreFile → Result (Option R) × StoreFile × M
  unfolding with_receipt
  mint_written d r m (err e, f) = (err e, f, m)
  mint_written d r m (ok _, f) = with_receipt d r f (c.mint r.mint_kwargs m)

  unfoldable pub confirm_pending :
      Store → PendingRecord → StoreFile → M → Bool → Result (Option R) × StoreFile × M
  unfolding mint_written
  confirm_pending d r f m true =
      let (x, f') =
        write_then none (write c.first_write (insert pid (record r { status = expired }) d) f) in
      (x, f', m)
  confirm_pending d r f m false =
      mint_written d r m (write c.first_write (insert pid (record r { status = confirmed }) d) f)

  unfoldable pub confirm_found :
      Store → StoreFile → M → Option PendingRecord → Result (Option R) × StoreFile × M
  unfolding confirm_pending
  confirm_found d f m none = (ok none, f, m)
  confirm_found d f m (some r) =
      if is_pending r.status then confirm_pending d r f m (is_late c.now r) else (ok none, f, m)

  unfoldable pub confirm_loaded : M → Result Store × StoreFile → Result (Option R) × StoreFile × M
  unfolding confirm_found
  confirm_loaded m (err e, f) = (err e, f, m)
  confirm_loaded m (ok d, f) = confirm_found d f m (lookup pid d)

  unfoldable pub confirm : StoreFile → M → Result (Option R) × StoreFile × M
  unfolding confirm_loaded
  confirm f m = confirm_loaded m (load c.renamed f)
