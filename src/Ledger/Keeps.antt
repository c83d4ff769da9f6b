-- ===== src/Ledger/Keeps.antt =====
-- What a call leaves as it was, whether it returns or raises.
use kry.Base.{refl, ◌⊎◌, inl, ◌≡◌, true, false, Bool}
use kry.Base.Texts.{Text}
use kry.Base.Results.{Result, Error, err, ok}
use kry.Ledger.Book.{Document}
use kry.Ledger.World.{
  Disk, World, M, LedgerFile, pure, lift, get, fail_if, after, ◌>>=◌, handle, catching, set_ledger,
  set_disk,
}
use kry.Ledger.Reading.{
  StoragePath, Rename, storage_path, require_recovery, locate, quarantine, refuse_contents, bound,
  bound_if, read_file, read_locked,
}

pub record Keeps {A : Type 0} (P : World → Type 0) (m : M A) : Type 0 where
  pub at : (s : World) → P s → P (m s).1

module _ {P : World → Type 0} where
  pub Keeps-pure : {A : Type 0} (a : A) → Keeps P (pure a)
  unfolding pure
  Keeps-pure a = record { at = λ s h. h }

  pub Keeps-lift : {A : Type 0} (r : Result A) → Keeps P (lift r)
  unfolding lift
  Keeps-lift r = record { at = λ s h. h }

  pub Keeps-get : Keeps P get
  unfolding get
  Keeps-get = record { at = λ s h. h }

  pub Keeps-fail_if : (c : Bool) (x : Error) → Keeps P (fail_if c x)
  unfolding fail_if
  Keeps-fail_if c x = record { at = λ s h. h }

  kept_after :
      {A B : Type 0} (k : A → M B) (o : Result A × World)
      → ((a : A) → Keeps P (k a))
      → P o.1
      → P (after k o).1
  unfolding after
  kept_after k (err x, s) kept h = h
  kept_after k (ok a, s) kept h = (kept a).at s h

  pub Keeps-bind :
      {A B : Type 0} (m : M A) (k : A → M B)
      → Keeps P m
      → ((a : A) → Keeps P (k a))
      → Keeps P (m >>= k)
  unfolding ◌>>=◌
  Keeps-bind m k first rest = record { at = λ s h. kept_after k (m s) rest (first.at s h) }

  kept_handled :
      {A : Type 0} (k : Error → M A) (o : Result A × World)
      → ((x : Error) → Keeps P (k x))
      → P o.1
      → P (handle k o).1
  unfolding handle
  kept_handled k (ok a, s) kept h = h
  kept_handled k (err x, s) kept h = (kept x).at s h

  pub Keeps-catching :
      {A : Type 0} (m : M A) (k : Error → M A)
      → Keeps P m
      → ((x : Error) → Keeps P (k x))
      → Keeps P (catching m k)
  unfolding catching
  Keeps-catching m k first rest = record { at = λ s h. kept_handled k (m s) rest (first.at s h) }

pub ruleset keeps_rules =
    (Keeps-pure, Keeps-lift, Keeps-get, Keeps-fail_if, Keeps-bind, Keeps-catching)

-- A read keeps what its two refusals keep.
module _ {P : World → Type 0} (required : Keeps P require_recovery)
    (refused : (r : Rename) → Keeps P (quarantine r)) where
  pub Keeps-locate : Keeps P locate
  unfolding locate
  Keeps-locate = Keeps-bind get _ Keeps-get (λ s.
      Keeps-catching _ _ (Keeps-lift (storage_path s.disk))
        (λ x. Keeps-bind require_recovery _ required (λ _. Keeps-lift (err x))))

  module _ (strip : Text → Text) (r : Rename) where
    Keeps-refuse_contents : {A : Type 0} → Keeps P (refuse_contents strip r {A = A})
    unfolding refuse_contents
    Keeps-refuse_contents = search (keeps_rules, refused)

    Keeps-bound_if : (b : Bool) (d : Document) → Keeps P (bound_if strip r b d)
    unfolding bound_if
    Keeps-bound_if true d = search keeps_rules
    Keeps-bound_if false d = search (keeps_rules, required)

    Keeps-bound : (d : Document) → Keeps P (bound strip r d)
    unfolding bound
    Keeps-bound d = search (keeps_rules, Keeps-bound_if)

    Keeps-read_file : (p : StoragePath) (f : LedgerFile) → Keeps P (read_file strip r p f)
    unfolding read_file
    Keeps-read_file p LedgerFile.absent = search keeps_rules
    Keeps-read_file p LedgerFile.unreadable = search keeps_rules
    Keeps-read_file p LedgerFile.undecodable = search Keeps-refuse_contents
    Keeps-read_file p LedgerFile.malformed = search Keeps-refuse_contents
    Keeps-read_file p (LedgerFile.document d) =
        search (keeps_rules, Keeps-refuse_contents, Keeps-bound)

    pub Keeps-read_locked : Keeps P (read_locked strip r)
    unfolding read_locked
    Keeps-read_locked = search (keeps_rules, Keeps-locate, Keeps-read_file)

-- No write of the operation at hand is committed yet.
abbrev pub IsUncommitted : World → Type 0
IsUncommitted s = s.ledger.last_write_committed ≡ false

pub require_recovery-IsUncommitted : Keeps IsUncommitted require_recovery
unfolding require_recovery set_ledger ◌>>=◌ after get
require_recovery-IsUncommitted = record { at = λ s h. h }

pub quarantine-IsUncommitted : (r : Rename) → Keeps IsUncommitted (quarantine r)
unfolding quarantine set_disk require_recovery set_ledger ◌>>=◌ after get
quarantine-IsUncommitted r = record { at = λ s h. h }

-- The files are these, or recovery is required.
abbrev pub IsIntact : Disk → World → Type 0
IsIntact d s = (s.ledger.recovery_required ≡ true) ⊎ (s.disk ≡ d)

pub require_recovery-IsIntact : (d : Disk) → Keeps (IsIntact d) require_recovery
unfolding require_recovery set_ledger ◌>>=◌ after get
require_recovery-IsIntact d = record { at = λ s h. inl refl }

pub quarantine-IsIntact : (d : Disk) (r : Rename) → Keeps (IsIntact d) (quarantine r)
unfolding quarantine set_disk require_recovery set_ledger ◌>>=◌ after get
quarantine-IsIntact d r = record { at = λ s h. inl refl }
