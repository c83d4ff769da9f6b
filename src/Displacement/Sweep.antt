-- ===== src/Displacement/Sweep.antt =====
-- Expiry: what a sweep leaves behind, and the counts by status.
use kry.Base.{
  ℕ, zero, suc, ◌+◌, ◌≡◌, ◌≢◌, refl, arith, ap, subst, Bool, true, false, List, [], ◌∷◌, length,
  Bool-cases, inl, inr,
}
use kry.Base.Texts.{Text}
use kry.Base.Dicts.{lookup, insert}
use kry.Base.Results.{Result, ok}
use kry.Double.{Double, add, lt}
use kry.Displacement.Store.{
  Status, pending, expired, is_pending, is_late, PendingRecord, Store, parsed, write, load,
  write_then, swept_record, swept_store, swept_count, write_swept, sweep_loaded, sweep_expired,
  status_text, or_none, counted, stats,
}

-- What a sweep at a time is to make of a store, with the number of displacements that it expires: a
-- displacement is expired when it is pending and the sum of its creation and its time to live is below
-- the time, and else kept.
pub data IsSwept (now : Double) : Store → Store → ℕ → Type 0 where
  swept_all : IsSwept now [] [] 0
  expire :
      (k : Text) (r : PendingRecord) (d d' : Store) (n : ℕ)
      → r.status ≡ pending
      → lt (add r.created_ts r.ttl) now ≡ true
      → IsSwept now d d' n
      → IsSwept now ((k, r) ∷ d) ((k, record r { status = expired }) ∷ d') (suc n)
  keep_young :
      (k : Text) (r : PendingRecord) (d d' : Store) (n : ℕ)
      → lt (add r.created_ts r.ttl) now ≡ false
      → IsSwept now d d' n
      → IsSwept now ((k, r) ∷ d) ((k, r) ∷ d') n
  keep_closed :
      (k : Text) (r : PendingRecord) (d d' : Store) (n : ℕ)
      → r.status ≢ pending
      → IsSwept now d d' n
      → IsSwept now ((k, r) ∷ d) ((k, r) ∷ d') n

is_pending-pending : (x : Status) → is_pending x ≡ true → x ≡ pending
is_pending-pending x e = ground arith

is_pending-other : (x : Status) → is_pending x ≡ false → x ≢ pending
is_pending-other x e h = cc (subst (λ y. is_pending y ≡ false) h e)

swept_store-IsSwept :
    (now : Double) (d : Store) → IsSwept now d (swept_store now d) (swept_count now d)
unfolding swept_store swept_count swept_record is_late
swept_store-IsSwept now [] = swept_all
swept_store-IsSwept now ((k, r) ∷ d) =
    let rest = swept_store-IsSwept now d in
    elim (Bool-cases (is_pending r.status)) [
      | inl p ↦ elim (Bool-cases (lt (add r.created_ts r.ttl) now)) [
        | inl late ↦
            rw (p, late)
              (expire k r d (swept_store now d) (swept_count now d) (is_pending-pending r.status p)
                late rest)
        | inr young ↦
            rw (p, young) (keep_young k r d (swept_store now d) (swept_count now d) young rest)
      ]
      | inr p ↦ rw p (
          keep_closed k r d (swept_store now d) (swept_count now d) (is_pending-other r.status p)
            rest)
    ]

IsSwept-none : (now : Double) (d d' : Store) (n : ℕ) → IsSwept now d d' n → n ≡ 0 → d' ≡ d
IsSwept-none now [] [] n swept_all e = refl
IsSwept-none now _ _ n (expire k r d d' m p late rest) e = absurd (omega arith)
IsSwept-none now _ _ n (keep_young k r d d' m young rest) e =
    ap (λ z. (k, r) ∷ z) (IsSwept-none now d d' m rest e)
IsSwept-none now _ _ n (keep_closed k r d d' m p rest) e =
    ap (λ z. (k, r) ∷ z) (IsSwept-none now d d' m rest e)

write_swept-written :
    (d d' : Store) (n : ℕ)
    → (n ≡ 0 → d' ≡ d)
    → write_swept (ok tt) n d' (parsed d) ≡ (ok n, parsed d')
unfolding write_then write
write_swept-written d d' zero same = rw (same refl) refl
write_swept-written d d' (suc n) same = refl

-- After a sweep no displacement is late at its time.
swept_count-swept : (now : Double) (d : Store) → swept_count now (swept_store now d) ≡ 0
unfolding swept_count swept_store swept_record
swept_count-swept now [] = refl
swept_count-swept now ((k, r) ∷ d) = ground (arith, swept_count-swept now d)

-- A sweep of a store that parses, whose write succeeds, returns the number of displacements that are
-- pending and whose creation and time to live add up to less than its time, expires those, and keeps
-- every other as it was; a second sweep at that time counts none and changes nothing, whatever the disk
-- does then.
pub sweep_expired-IsSwept :
    (now : Double) (q q' : Bool) (w : Result (Unit {0})) (d : Store)
    → (d' : Store) × (n : ℕ) × IsSwept now d d' n
      × (sweep_expired now q (ok tt) (parsed d) ≡ (ok n, parsed d'))
      × (sweep_expired now q' w (parsed d') ≡ (ok 0, parsed d'))
unfolding sweep_expired sweep_loaded load
sweep_expired-IsSwept now q q' w d =
    let swept = swept_store-IsSwept now d in
    (
      swept_store now d,
      swept_count now d,
      swept,
      write_swept-written d (swept_store now d) (swept_count now d)
          (IsSwept-none now d (swept_store now d) (swept_count now d) swept),
      rw (swept_count-swept now d) refl,
    )

-- The numbers of a dict of counts, added up.
unfoldable pub total_count : List (Text × ℕ) → ℕ
total_count [] = 0
total_count ((k, n) ∷ out) = n + total_count out

total_count-insert :
    (k : Text) (out : List (Text × ℕ))
    → total_count (insert k (or_none (lookup k out) + 1) out) ≡ suc (total_count out)
unfolding total_count insert lookup
total_count-insert k [] = refl
total_count-insert k ((j, n) ∷ out) = ground (arith, total_count-insert k out)

total_count-counted :
    (out : List (Text × ℕ)) (d : Store) → total_count (counted out d) ≡ total_count out + length d
unfolding counted
total_count-counted out [] = omega arith
total_count-counted out ((k, r) ∷ d) =
    let ih =
      total_count-counted
        (insert (status_text r.status) (or_none (lookup (status_text r.status) out) + 1) out) d in
    omega (arith, ih, total_count-insert (status_text r.status) out)

-- The counts by status add up to the number of displacements in the store.
pub total_count-stats :
    (q : Bool) (d : Store)
    → (out : List (Text × ℕ)) × (stats q (parsed d) ≡ (ok out, parsed d))
      × (total_count out ≡ length d)
unfolding stats load total_count
total_count-stats q d = (counted [] d, refl, omega (arith, total_count-counted [] d))
