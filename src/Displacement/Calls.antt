-- ===== src/Displacement/Calls.antt =====
-- A sequence of calls on one store and one mint, each with its own clock, disk and mint.
use kry.Base.{Bool, false, ◌||◌, List, [], ◌∷◌}
use kry.Base.Texts.{Text, text_eq}
use kry.Base.Results.{Result}
use kry.Double.{Double}
use kry.Python.{Value}
use kry.Displacement.Store.{
  Kwargs, StoreFile, Libraries, new_id, record_pending, reject, sweep_expired,
}
use kry.Displacement.Confirm.{ConfirmCall, confirm}

pub data Call (M R : Type 0) : Type 0 where
  record_call : Value → Text → Double → Bool → Result (Unit {0}) → Kwargs → Value → Call M R
  confirm_call : ConfirmCall M R → Text → Call M R
  reject_call : Text → Bool → Result (Unit {0}) → Call M R
  sweep_call : Double → Bool → Result (Unit {0}) → Call M R

module _ {M R : Type 0} (l : Libraries) where
  unfoldable pub run_call : Call M R → StoreFile → M → StoreFile × M
  run_call (record_call dt seed now q w kwargs ttl) f m =
      ((record_pending l dt seed now q w kwargs ttl f).1, m)
  run_call (confirm_call c pid) f m = let (x, f', m') = confirm c pid f m in (f', m')
  run_call (reject_call pid q w) f m = ((reject pid q w f).1, m)
  run_call (sweep_call now q w) f m = ((sweep_expired now q w f).1, m)

  unfoldable pub run : List (Call M R) → StoreFile → M → StoreFile × M
  unfolding run_call
  run [] f m = (f, m)
  run (c ∷ cs) f m = let (f', m') = run_call c f m in run cs f' m'

  -- Whether a call of `record_pending` draws this id again.
  unfoldable pub draws : Text → Call M R → Bool
  unfolding new_id text_eq
  draws pid (record_call dt seed now q w kwargs ttl) = text_eq (new_id l seed) pid
  draws pid (confirm_call c p) = false
  draws pid (reject_call p q w) = false
  draws pid (sweep_call now q w) = false

  unfoldable pub any_draws : Text → List (Call M R) → Bool
  unfolding draws
  any_draws pid [] = false
  any_draws pid (c ∷ cs) = draws pid c || any_draws pid cs
