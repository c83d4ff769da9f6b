-- ===== src/Ledger/World.antt =====
-- The state that the ledger's operations change: the process's `KRYLedger`, and the files under
-- KRY_DATA_DIR.  A call of M may raise, and leaves the state as it was when it raised.  The ledger's
-- locks make every public operation one step.
use kry.Base.{◌≡◌, ◌⊎◌, inl, inr, refl, sym, ap, Bool, true, false, List}
use kry.Base.Texts.{Text}
use kry.Base.Results.{Result, Error, err, ok, ok-injective, raise_if}
use kry.Ledger.Book.{Document, Ledger}

-- What `_ledger_storage_path` makes of the files: the legacy file, the journal behind a complete fence,
-- or an activation that is neither complete nor abandoned, or a fence that is broken.
pub data Storage : Type 0 where
  at_legacy at_journal blocked : Storage

-- What stands at that path.  `malformed` is JSON of another shape than a ledger, text that is no JSON,
-- or a versioned ledger with duplicate fields; `undecodable` is no UTF-8.
pub data LedgerFile : Type 0 where
  absent unreadable undecodable malformed : LedgerFile
  document : Document → LedgerFile

-- `incidents` are the quarantined and pending files, by name, with the hash of their bytes.
pub record Disk : Type 0 where
  pub storage : Storage
  pub file : LedgerFile
  pub incidents : List (Text × Text)
  pub has_mint_log : Bool

pub record World : Type 0 where
  pub ledger : Ledger
  pub disk : Disk

abbrev pub M : Type 0 → Type 0
M A = World → Result A × World

unfoldable pub pure : {A : Type 0} → A → M A
pure a s = (ok a, s)

unfoldable pub lift : {A : Type 0} → Result A → M A
lift r s = (r, s)

unfoldable pub get : M World
get s = (ok s, s)

unfoldable pub set_ledger : Ledger → M (Unit {0})
set_ledger l s = (ok tt, record s { ledger = l })

unfoldable pub set_disk : Disk → M (Unit {0})
set_disk d s = (ok tt, record s { disk = d })

unfoldable pub fail_if : Bool → Error → M (Unit {0})
fail_if c x s = (raise_if c x, s)

unfoldable pub after : {A B : Type 0} → (A → M B) → Result A × World → Result B × World
after k (err x, s) = (err x, s)
after k (ok a, s) = k a s

infixl 5 ◌>>=◌ ◌>>◌
unfoldable pub ◌>>=◌ : {A B : Type 0} → M A → (A → M B) → M B
unfolding after
◌>>=◌ m k s = after k (m s)

abbrev pub ◌>>◌ : {B : Type 0} → M (Unit {0}) → M B → M B
m >> k = m >>= λ (_ : Unit {0}). k

unfoldable pub handle : {A : Type 0} → (Error → M A) → Result A × World → Result A × World
handle h (ok a, s) = (ok a, s)
handle h (err x, s) = h x s

-- `try: m  except Exception: h`, which starts from the state that m left.
unfoldable pub catching : {A : Type 0} → M A → (Error → M A) → M A
unfolding handle
catching m h s = handle h (m s)

after-eq-ok :
    {A B : Type 0} (o : Result A × World) (k : A → M B) (b : B) (s' : World)
    → after k o ≡ (ok b, s')
    → (a : A) × (s1 : World) × (o ≡ (ok a, s1)) × (k a s1 ≡ (ok b, s'))
unfolding after
after-eq-ok (err x, s) k b s' h = cc
after-eq-ok (ok a, s) k b s' h = (a, s, refl, h)

-- A call that returned: its first part did, and so did the rest.
pub returned :
    {A B : Type 0} (m : M A) (k : A → M B) (s : World) (b : B) (s' : World)
    → (m >>= k) s ≡ (ok b, s')
    → (a : A) × (s1 : World) × (m s ≡ (ok a, s1)) × (k a s1 ≡ (ok b, s'))
unfolding ◌>>=◌
returned m k s b s' h = after-eq-ok (m s) k b s' h

-- A first part that leaves the state alone.
pub lift_returned :
    {A B : Type 0} (r : Result A) (k : A → M B) (s : World) (b : B) (s' : World)
    → (lift r >>= k) s ≡ (ok b, s')
    → (a : A) × (r ≡ ok a) × (k a s ≡ (ok b, s'))
unfolding ◌>>=◌ lift after
lift_returned (err x) k s b s' h = cc
lift_returned (ok a) k s b s' h = (a, refl, h)

pub guard_returned :
    {B : Type 0} (c : Bool) (x : Error) (k : M B) (s : World) (b : B) (s' : World)
    → (fail_if c x >> k) s ≡ (ok b, s')
    → (c ≡ false) × (k s ≡ (ok b, s'))
unfolding ◌>>=◌ fail_if after
guard_returned true x k s b s' h = cc
guard_returned false x k s b s' h = (refl, h)

-- Running the first part, when what it does is known.
pub runs :
    {A B : Type 0} (m : M A) (k : A → M B) (s : World) (a : A) (s1 : World)
    → m s ≡ (ok a, s1)
    → (m >>= k) s ≡ k a s1
unfolding ◌>>=◌ after
runs m k s a s1 h = rw h refl

-- An except clause that always raises returns nothing of its own.
pub reraised :
    {A : Type 0} {h : Error → M A} (o : Result A × World) (a : A) (s' : World)
    → ((x : Error) (t : World) → (y : Error) × (t' : World) × (h x t ≡ (err y, t')))
    → handle h o ≡ (ok a, s')
    → o ≡ (ok a, s')
unfolding handle
reraised (ok b, s) a s' raises e = e
reraised (err x, s) a s' raises e = let (y, t', raised) = raises x s in cc

pub outcome_eq :
    {A : Type 0} {a b : A} {s t : World}
    → ◌≡◌ {A = Result A × World} (ok a, s) (ok b, t)
    → (a ≡ b) × (s ≡ t)
outcome_eq h = (ok-injective (ap (λ z. z.0) h), ap (λ z. z.1) h)

after-cases :
    {A B : Type 0} (o : Result A × World) (k : A → M B) (r : Result B) (s' : World)
    → ◌≡◌ {A = Result B × World} (after k o) (r, s')
    → ((x : Error) × (o ≡ (err x, s')) × (r ≡ err x))
      ⊎ ((a : A) × (s1 : World) × (o ≡ (ok a, s1)) × (k a s1 ≡ (r, s')))
unfolding after
after-cases (err x, s) k r s' h = inl (x, ap (λ z. (err x, z.1)) h, sym (ap (λ z. z.0) h))
after-cases (ok a, s) k r s' h = inr (a, s, refl, h)

-- How a block ends: its first part raised, or it returned and the rest ends it.
pub stepped :
    {A B : Type 0} (m : M A) (k : A → M B) (s : World) (r : Result B) (s' : World)
    → ◌≡◌ {A = Result B × World} ((m >>= k) s) (r, s')
    → ((x : Error) × (m s ≡ (err x, s')) × (r ≡ err x))
      ⊎ ((a : A) × (s1 : World) × (m s ≡ (ok a, s1)) × (k a s1 ≡ (r, s')))
unfolding ◌>>=◌
stepped m k s r s' h = after-cases (m s) k r s' h

pub lift_parts :
    {A : Type 0} (o : Result A) (r : Result A) (s t : World) → lift o s ≡ (r, t) → (o ≡ r) × (s ≡ t)
unfolding lift
lift_parts o r s t h = (ap (λ z. z.0) h, ap (λ z. z.1) h)

-- A call that never returns.
abbrev pub Raises : {A : Type 0} → M A → Type 0
Raises m = (s : World) → (y : Error) × (t : World) × (m s ≡ (err y, t))

pub raise-Raises : {A : Type 0} (x : Error) → Raises {A = A} (lift (err x))
unfolding lift
raise-Raises x s = (x, s, refl)

after-err :
    {A B : Type 0} (k : A → M B) (o : Result A × World)
    → ((a : A) → Raises (k a))
    → (y : Error) × (t : World) × (after k o ≡ (err y, t))
unfolding after
after-err k (err y, s) all = (y, s, refl)
after-err k (ok a, s) all = all a s

-- A block whose end raises.
pub bind-Raises :
    {A B : Type 0} (m : M A) (k : A → M B) → ((a : A) → Raises (k a)) → Raises (m >>= k)
unfolding ◌>>=◌
bind-Raises m k all s = after-err k (m s) all

-- No call both raises and returns.
pub absurd_outcome {κ} :
    {A : Type 0} {B : Type κ} {x : Error} {a : A} {s t : World}
    → ◌≡◌ {A = Result A × World} (err x, s) (ok a, t)
    → B
absurd_outcome {x = x} {a = a} h = let e : err x ≡ ok a = ap (λ z. z.0) h in cc
