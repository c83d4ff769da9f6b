-- ===== src/Displacement/Store.antt =====
-- The side store of pending displacements: `_load`, `_store`, `record_pending`, `reject`,
-- `sweep_expired` and `stats`.  Records have the shape that this module writes and read back as they were
-- written: a write that JSON refuses, as of an infinite argument, is a write that raises.  The clock, the seed of
-- an id, and what the disk does (the rename of a corrupt store, each write) are arguments.
use kry.Base.{
  ℕ, zero, suc, ◌+◌, Bool, true, false, ◌&&◌, not, if◌then◌else◌, Option, none, some, List, [], ◌∷◌,
  ◌++◌, take,
}
use kry.Base.Texts.{Text, codes}
use kry.Base.Dicts.{lookup, insert}
use kry.Base.Results.{Result, ok, err, value_error, corrupt_error, ◌>>=◌, ◌>>◌, raise_if}
use kry.Double.{Double, is_finite, of_int, add, lt, zero_double}
use kry.Python.{Value, none_value, int, float, str}

pub data Status : Type 0 where
  pending confirmed expired rejected : Status

abbrev pub is_pending : Status → Bool
is_pending pending = true
is_pending _ = false

abbrev pub Kwargs : Type 0
Kwargs = List (Text × Value)

-- The receipt id is absent until a mint returned; then it is null or the id.
pub record PendingRecord : Type 0 where
  pub created_ts : Double
  pub ttl : Double
  pub status : Status
  pub mint_kwargs : Kwargs
  pub receipt_id : Option (Option Text)

abbrev pub Store : Type 0
Store = List (Text × PendingRecord)

pub data StoreFile : Type 0 where
  no_file unparseable : StoreFile
  parsed : Store → StoreFile

-- A corrupt store is renamed, when the rename works, and the call fails.
unfoldable pub load : Bool → StoreFile → Result Store × StoreFile
load renamed no_file = (ok [], no_file)
load true unparseable = (err corrupt_error, no_file)
load false unparseable = (err corrupt_error, unparseable)
load renamed (parsed d) = (ok d, parsed d)

-- A temporary file, then `os.replace`: a write that raises leaves the file as it was.
unfoldable pub write : Result (Unit {0}) → Store → StoreFile → Result (Unit {0}) × StoreFile
write (ok _) d f = (ok tt, parsed d)
write (err e) d f = (err e, f)

-- SHA-256 and the reading of a `float` from text are not under src/.
pub record Libraries : Type 0 where
  pub sha256 : Text → Text
  pub parse_float : Text → Option Double

abbrev pub has_key : Text → Kwargs → Bool
has_key k d = elim (lookup k d) [ none ↦ false | some _ ↦ true ]

-- `now > rec["created_ts"] + rec["ttl"]`
unfoldable pub is_late : Double → PendingRecord → Bool
is_late now r = lt (add r.created_ts r.ttl) now

abbrev pub or_value_error : Option Double → Result Double
or_value_error none = err value_error
or_value_error (some t) = ok t

module _ (l : Libraries) where
  -- The seed is the text of the clock, the process id and the evidence.
  unfoldable pub new_id : Text → Text
  new_id seed = codes "PEND-" ++ take 16 (l.sha256 seed)

  -- `float(raw_ttl)`, its errors and a bool turned into ValueError.
  unfoldable pub ttl_number : Value → Result Double
  ttl_number (int n) = if is_finite (of_int n) then ok (of_int n) else err value_error
  ttl_number (float d) = ok d
  ttl_number (str s) = or_value_error (l.parse_float s)
  ttl_number _ = err value_error

  abbrev or_default : Value → Value → Value
  or_default d none_value = d
  or_default d v = v

  -- The checks before anything is written; the first value is `_DEFAULT_TTL`.
  unfoldable pub record_checks : Value → Value → Kwargs → Result Double
  record_checks default_ttl ttl kwargs = do
    raise_if (not (has_key (codes "event_type") kwargs && has_key (codes "tokens_saved") kwargs))
        value_error
    t ← ttl_number (or_default default_ttl ttl)
    raise_if (not (is_finite t)) value_error
    raise_if (lt t zero_double) value_error
    ok t

abbrev pub new_record : Double → Double → Kwargs → PendingRecord
new_record now t kwargs = record {
  created_ts = now;
  ttl = t;
  status = pending;
  mint_kwargs = kwargs;
  receipt_id = none;
}

-- `_store` under the lock, then what the call returns.
unfoldable pub write_then {ℓ} :
    {A : Type ℓ} → A → Result (Unit {0}) × StoreFile → Result A × StoreFile
write_then a (ok _, f) = (ok a, f)
write_then a (err e, f) = (err e, f)

unfoldable pub record_loaded :
    Text → PendingRecord → Result (Unit {0}) → Result Store × StoreFile → Result Text × StoreFile
record_loaded pid r w (err e, f) = (err e, f)
record_loaded pid r w (ok d, f) = write_then pid (write w (insert pid r d) f)

unfoldable pub record_checked :
    Text
    → Double
    → Bool
    → Result (Unit {0})
    → Kwargs
    → StoreFile
    → Result Double
    → Result Text × StoreFile
unfolding record_loaded
record_checked pid now q w kwargs f (err e) = (err e, f)
record_checked pid now q w kwargs f (ok t) =
    record_loaded pid (new_record now t kwargs) w (load q f)

unfoldable pub record_pending :
    Libraries
    → Value
    → Text
    → Double
    → Bool
    → Result (Unit {0})
    → Kwargs
    → Value
    → StoreFile
    → Result Text × StoreFile
unfolding record_checked
record_pending l default_ttl seed now q w kwargs ttl f =
    record_checked (new_id l seed) now q w kwargs f (record_checks l default_ttl ttl kwargs)

unfoldable pub reject_found :
    Text → Result (Unit {0}) → Store → StoreFile → Option PendingRecord → Result Bool × StoreFile
reject_found pid w d f none = (ok false, f)
reject_found pid w d f (some r) =
    if is_pending r.status
    then write_then true (write w (insert pid (record r { status = rejected }) d) f)
    else (ok false, f)

unfoldable pub reject_loaded :
    Text → Result (Unit {0}) → Result Store × StoreFile → Result Bool × StoreFile
unfolding reject_found
reject_loaded pid w (err e, f) = (err e, f)
reject_loaded pid w (ok d, f) = reject_found pid w d f (lookup pid d)

unfoldable pub reject : Text → Bool → Result (Unit {0}) → StoreFile → Result Bool × StoreFile
unfolding reject_loaded
reject pid q w f = reject_loaded pid w (load q f)

-- The loop of `sweep_expired`.
abbrev pub sweeps : Double → PendingRecord → Bool
sweeps now r = is_pending r.status && is_late now r

unfoldable pub swept_record : Double → PendingRecord → PendingRecord
swept_record now r = if sweeps now r then record r { status = expired } else r

unfoldable pub swept_store : Double → Store → Store
unfolding swept_record
swept_store now [] = []
swept_store now ((k, r) ∷ d) = (k, swept_record now r) ∷ swept_store now d

unfoldable pub swept_count : Double → Store → ℕ
swept_count now [] = 0
swept_count now ((k, r) ∷ d) =
    let rest = swept_count now d in if sweeps now r then suc rest else rest

-- `if swept: _store(data)`
abbrev pub write_swept : Result (Unit {0}) → ℕ → Store → StoreFile → Result ℕ × StoreFile
write_swept w zero d f = (ok 0, f)
write_swept w (suc n) d f = write_then (suc n) (write w d f)

unfoldable pub sweep_loaded :
    Double → Result (Unit {0}) → Result Store × StoreFile → Result ℕ × StoreFile
sweep_loaded now w (err e, f) = (err e, f)
sweep_loaded now w (ok d, f) = write_swept w (swept_count now d) (swept_store now d) f

unfoldable pub sweep_expired : Double → Bool → Result (Unit {0}) → StoreFile → Result ℕ × StoreFile
unfolding sweep_loaded
sweep_expired now q w f = sweep_loaded now w (load q f)

-- The value of each status in JSON.
abbrev pub status_text : Status → Text
status_text pending = codes "pending"
status_text confirmed = codes "confirmed"
status_text expired = codes "expired"
status_text rejected = codes "rejected"

abbrev pub or_none : Option ℕ → ℕ
or_none none = 0
or_none (some n) = n

-- The loop of `stats`.
unfoldable pub counted : List (Text × ℕ) → Store → List (Text × ℕ)
counted out [] = out
counted out ((k, r) ∷ d) =
    let s = status_text r.status in counted (insert s (or_none (lookup s out) + 1) out) d

unfoldable pub stats : Bool → StoreFile → Result (List (Text × ℕ)) × StoreFile
stats q f = let (d, f') = load q f in ((do es ← d; ok (counted [] es)), f')
