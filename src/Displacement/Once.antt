-- ===== src/Displacement/Once.antt =====
-- A displacement reaches the mint at most once.
use kry.Base.{
  ℕ, zero, suc, ◌≡◌, refl, sym, arith, Bool, true, false, if◌then◌else◌, Option, none, some, List,
  [], ◌∷◌, ◌⊎◌, inl, inr, ◌≢◌, Bool-cases, subst,
}
use kry.Base.Texts.{Text, text_eq, text_eq_refl}
use kry.Base.Dicts.{lookup, insert, lookup-insert}
use kry.Base.Results.{Result, ok, err}
use kry.Double.{Double}
use kry.Displacement.Store.{
  Status, pending, confirmed, expired, rejected, is_pending, Kwargs, PendingRecord, Store,
  StoreFile, no_file, unparseable, parsed, load, write, write_then, is_late, Libraries, new_id,
  record_checks, new_record, record_checked, record_pending, reject_found, reject_loaded, reject,
  sweeps, swept_record, swept_store, swept_count, sweep_loaded, sweep_expired, write_swept,
}
use kry.Displacement.Confirm.{
  ConfirmCall, with_receipt, mint_written, confirm_pending, confirm_found, confirm_loaded, confirm,
}
use kry.Displacement.Calls.{
  Call, record_call, confirm_call, reject_call, sweep_call, run_call, run, draws, any_draws,
}

-- The id is in the store, and no longer pending.
abbrev pub is_used : Option PendingRecord → Bool
is_used none = false
is_used (some r) = if is_pending r.status then false else true

abbrev pub IsUsed : Text → StoreFile → Type 0
IsUsed pid f = (d : Store) × (f ≡ parsed d) × (is_used (lookup pid d) ≡ true)

-- A write is of another id, or of a record that is not pending.
insert-used :
    (pid k : Text) (r : PendingRecord) (d : Store)
    → (is_pending r.status ≡ false) ⊎ (text_eq k pid ≡ false)
    → is_used (lookup pid d) ≡ true
    → is_used (lookup pid (insert k r d)) ≡ true
insert-used pid k r d h u = ground (arith, lookup-insert k pid r d)

insert-confirmed :
    (pid k : Text) (r : PendingRecord) (d : Store)
    → is_pending r.status ≡ false
    → (is_used (lookup pid d) ≡ true) ⊎ (text_eq k pid ≡ true)
    → is_used (lookup pid (insert k r d)) ≡ true
insert-confirmed pid k r d e h = ground (arith, lookup-insert k pid r d)

write-IsUsed :
    (pid : Text) (w : Result (Unit {0})) (d : Store) (f : StoreFile)
    → IsUsed pid f
    → is_used (lookup pid d) ≡ true
    → IsUsed pid (write w d f).1
unfolding write
write-IsUsed pid (ok _) d f u h = (d, refl, h)
write-IsUsed pid (err e) d f u h = u

write_then-file {ℓ} :
    {A : Type ℓ} (a : A) (x : Result (Unit {0}) × StoreFile) → (write_then a x).1 ≡ x.1
unfolding write_then
write_then-file a (ok _, f) = refl
write_then-file a (err e, f) = refl

write_then-IsUsed {ℓ} :
    {A : Type ℓ} (a : A) (pid : Text) (w : Result (Unit {0})) (d : Store) (f : StoreFile)
    → IsUsed pid f
    → is_used (lookup pid d) ≡ true
    → IsUsed pid (write_then a (write w d f)).1
write_then-IsUsed a pid w d f u h =
    subst (IsUsed pid) (sym (write_then-file a (write w d f))) (write-IsUsed pid w d f u h)

swept-used :
    (pid : Text) (now : Double) (d : Store)
    → is_used (lookup pid d) ≡ true
    → is_used (lookup pid (swept_store now d)) ≡ true
unfolding swept_store swept_record lookup
swept-used pid now [] u = u
swept-used pid now ((k, r) ∷ d) u = ground (arith, swept-used pid now d)

record_checked-IsUsed :
    (pid p : Text) (now : Double) (q : Bool) (w : Result (Unit {0})) (kwargs : Kwargs) (d : Store)
    (t : Result Double)
    → text_eq p pid ≡ false
    → is_used (lookup pid d) ≡ true
    → IsUsed pid (record_checked p now q w kwargs (parsed d) t).1
unfolding record_checked load kry.Displacement.Store.record_loaded
record_checked-IsUsed pid p now q w kwargs d (err e) h u = (d, refl, u)
record_checked-IsUsed pid p now q w kwargs d (ok t) h u =
    write_then-IsUsed p pid w _ _ (d, refl, u)
      (insert-used pid p (new_record now t kwargs) d (inr h) u)

reject_found-IsUsed :
    (pid p : Text) (w : Result (Unit {0})) (d : Store) (o : Option PendingRecord)
    → is_used (lookup pid d) ≡ true
    → IsUsed pid (reject_found p w d (parsed d) o).1
unfolding reject_found
reject_found-IsUsed pid p w d none u = (d, refl, u)
reject_found-IsUsed pid p w d (some r) u = elim (Bool-cases (is_pending r.status)) [
  | inl e ↦ rw e (
      write_then-IsUsed true pid w _ _ (d, refl, u)
        (insert-used pid p (record r { status = rejected }) d (inl refl) u))
  | inr e ↦ rw e (d, refl, u)
]

write_swept-IsUsed :
    (pid : Text) (w : Result (Unit {0})) (n : ℕ) (d : Store) (f : StoreFile)
    → IsUsed pid f
    → is_used (lookup pid d) ≡ true
    → IsUsed pid (write_swept w n d f).1
write_swept-IsUsed pid w zero d f u h = u
write_swept-IsUsed pid w (suc n) d f u h = write_then-IsUsed (suc n) pid w d f u h

module _ {M R : Type 0} (c : ConfirmCall M R) (pid : Text) where
  with_receipt-IsUsed :
      (p : Text) (d : Store) (r : PendingRecord) (f : StoreFile) (x : Result (Option R) × M)
      → IsUsed pid f
      → (is_used (lookup pid d) ≡ true) ⊎ (text_eq p pid ≡ true)
      → IsUsed pid (with_receipt c p d r f x).1
  unfolding with_receipt
  with_receipt-IsUsed p d r f (err e, m) u h = u
  with_receipt-IsUsed p d r f (ok o, m) u h =
      write_then-IsUsed o pid c.second_write _ f u (insert-confirmed pid p _ d refl h)

  mint_written-IsUsed :
      (p : Text) (d d' : Store) (r : PendingRecord) (m : M) (w : Result (Unit {0}))
      → is_used (lookup pid d) ≡ true
      → is_used (lookup pid d') ≡ true
      → IsUsed pid (mint_written c p d r m (write w d' (parsed d))).1
  unfolding mint_written write
  mint_written-IsUsed p d d' r m (err e) u h = (d, refl, u)
  mint_written-IsUsed p d d' r m (ok _) u h =
      with_receipt-IsUsed p d r (parsed d') (c.mint r.mint_kwargs m) (d', refl, h) (inl u)

  confirm_pending-IsUsed :
      (p : Text) (d : Store) (r : PendingRecord) (m : M) (late : Bool)
      → is_used (lookup pid d) ≡ true
      → IsUsed pid (confirm_pending c p d r (parsed d) m late).1
  unfolding confirm_pending
  confirm_pending-IsUsed p d r m true u =
      write_then-IsUsed none pid c.first_write _ _ (d, refl, u)
        (insert-used pid p (record r { status = expired }) d (inl refl) u)
  confirm_pending-IsUsed p d r m false u =
      mint_written-IsUsed p d _ r m c.first_write u
        (insert-used pid p (record r { status = confirmed }) d (inl refl) u)

  confirm_found-IsUsed :
      (p : Text) (d : Store) (m : M) (o : Option PendingRecord)
      → is_used (lookup pid d) ≡ true
      → IsUsed pid (confirm_found c p d (parsed d) m o).1
  unfolding confirm_found
  confirm_found-IsUsed p d m none u = (d, refl, u)
  confirm_found-IsUsed p d m (some r) u = elim (Bool-cases (is_pending r.status)) [
    | inl e ↦ rw e (confirm_pending-IsUsed p d r m (is_late c.now r) u)
    | inr e ↦ rw e (d, refl, u)
  ]

  confirm_found-used :
      (d : Store) (m : M) (o : Option PendingRecord)
      → is_used o ≡ true
      → confirm_found c pid d (parsed d) m o ≡ (ok none, parsed d, m)
  unfolding confirm_found
  confirm_found-used d m none u = cc
  confirm_found-used d m (some r) u = ground arith

  -- On an id that is used, `confirm` returns None and touches neither the store nor the mint.
  pub confirm-used : (f : StoreFile) (m : M) → IsUsed pid f → confirm c pid f m ≡ (ok none, f, m)
  unfolding confirm confirm_loaded load
  confirm-used f m (d, e, u) =
      subst (λ z. confirm c pid z m ≡ (ok none, z, m)) (sym e)
        (confirm_found-used d m (lookup pid d) u)

module _ {M R : Type 0} (l : Libraries) where
  run_call-IsUsed :
      (pid : Text) (c : Call M R) (d : Store) (m : M)
      → draws l pid c ≡ false
      → is_used (lookup pid d) ≡ true
      → IsUsed pid (run_call l c (parsed d) m).0
  unfolding run_call draws record_pending reject reject_loaded sweep_expired sweep_loaded load
      confirm confirm_loaded
  run_call-IsUsed pid (record_call dt seed now q w kwargs ttl) d m h u =
      record_checked-IsUsed pid (new_id l seed) now q w kwargs d (record_checks l dt ttl kwargs) h u
  run_call-IsUsed pid (confirm_call c p) d m h u = confirm_found-IsUsed c pid p d m (lookup p d) u
  run_call-IsUsed pid (reject_call p q w) d m h u = reject_found-IsUsed pid p w d (lookup p d) u
  run_call-IsUsed pid (sweep_call now q w) d m h u =
      write_swept-IsUsed pid w (swept_count now d) (swept_store now d) (parsed d) (d, refl, u)
        (swept-used pid now d u)

  run-IsUsed :
      (pid : Text) (cs : List (Call M R)) (f : StoreFile) (m : M)
      → any_draws l pid cs ≡ false
      → IsUsed pid f
      → IsUsed pid (run l cs f m).0
  unfolding run any_draws
  run-IsUsed pid [] f m h u = u
  run-IsUsed pid (c ∷ cs) f m h (d, e, u) =
      let parts : (draws l pid c ≡ false) × (any_draws l pid cs ≡ false) = ground arith in
      run-IsUsed pid cs _ _ parts.1
        (subst (λ z. IsUsed pid (run_call l c z m).0) (sym e) (run_call-IsUsed pid c d m parts.0 u))

module _ {M R : Type 0} (c : ConfirmCall M R) (pid : Text) where
  abbrev IsSpent : M → Result (Option R) × StoreFile × M → Type 0
  IsSpent m (x, f', m') = (m' ≡ m) ⊎ IsUsed pid f'

  mint_written-IsSpent :
      (d : Store) (r : PendingRecord) (f : StoreFile) (m : M) (w : Result (Unit {0}))
      → IsSpent m
          (mint_written c pid d r m (write w (insert pid (record r { status = confirmed }) d) f))
  unfolding mint_written write
  mint_written-IsSpent d r f m (err e) = inl refl
  mint_written-IsSpent d r f m (ok _) = inr (
      with_receipt-IsUsed c pid pid d r _ (c.mint r.mint_kwargs m)
        (_, refl, insert-confirmed pid pid _ d refl (inr (text_eq_refl pid)))
        (inr (text_eq_refl pid)))

  confirm_pending-IsSpent :
      (d : Store) (r : PendingRecord) (f : StoreFile) (m : M) (late : Bool)
      → IsSpent m (confirm_pending c pid d r f m late)
  unfolding confirm_pending
  confirm_pending-IsSpent d r f m true = inl refl
  confirm_pending-IsSpent d r f m false = mint_written-IsSpent d r f m c.first_write

  confirm_found-IsSpent :
      (d : Store) (f : StoreFile) (m : M) (o : Option PendingRecord)
      → IsSpent m (confirm_found c pid d f m o)
  unfolding confirm_found
  confirm_found-IsSpent d f m none = inl refl
  confirm_found-IsSpent d f m (some r) = elim (Bool-cases (is_pending r.status)) [
    | inl e ↦ rw e (confirm_pending-IsSpent d r f m (is_late c.now r))
    | inr e ↦ rw e (inl refl)
  ]

  confirm_loaded-IsSpent :
      (m : M) (x : Result Store × StoreFile) → IsSpent m (confirm_loaded c pid m x)
  unfolding confirm_loaded
  confirm_loaded-IsSpent m (err e, f) = inl refl
  confirm_loaded-IsSpent m (ok d, f) = confirm_found-IsSpent d f m (lookup pid d)

  -- However a call of `confirm` ends, the mint is as it was, or the id is down as no longer pending.
  pub confirm_spends :
      (f : StoreFile) (m : M) → ((confirm c pid f m).2 ≡ m) ⊎ IsUsed pid (confirm c pid f m).1
  unfolding confirm
  confirm_spends f m = confirm_loaded-IsSpent m (load c.renamed f)

only_right {ℓ κ} : {A : Type ℓ} {B : Type κ} → A ⊎ B → ¬ A → B
only_right (inl a) apart = absurd (apart a)
only_right (inr b) apart = b

-- Once a call of `confirm` has changed the mint, however it ended, and after any further calls that do not
-- record the same id again, a call of `confirm` with that id returns None and changes neither the store nor
-- the mint.
pub confirm_once :
    {M R : Type 0} (l : Libraries) (pid : Text) (c c2 : ConfirmCall M R) (cs : List (Call M R))
    (f : StoreFile) (m : M)
    → (confirm c pid f m).2 ≢ m
    → any_draws l pid cs ≡ false
    → let (f2, m2) = run l cs (confirm c pid f m).1 (confirm c pid f m).2 in
      confirm c2 pid f2 m2 ≡ (ok none, f2, m2)
confirm_once l pid c c2 cs f m changed fresh =
    confirm-used c2 pid _ _
      (run-IsUsed l pid cs _ _ fresh (only_right (confirm_spends c pid f m) changed))

pub lookup-insert-same :
    (k : Text) (r : PendingRecord) (d : Store) → lookup k (insert k r d) ≡ some r
lookup-insert-same k r d = ground (arith, lookup-insert k k r d, text_eq_refl k)
