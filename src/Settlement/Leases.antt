-- ===== src/Settlement/Leases.antt =====
-- What the lease authority grants: the live leases of a party stay within its ceiling, and a replay of one
-- offer holds balance once.
use kry.Base.{◌≡◌, refl, Bool, true, some, List, [], ◌∷◌, ◌++◌, any, arith, Bool-cases, inl, inr}
use kry.Base.Texts.{Text, text_eq, text_eq_refl}
use kry.Base.Dicts.{lookup, insert, lookup-insert}
use kry.Base.Results.{Result, ok, err}
use kry.Double.{Double, add, le, nano, zero_double}
use kry.Settlement.Lease.{
  RawLease, Lease, LeaseFile, entries, absent, unreadable, not_object, parties, LeaseDisk,
  live_leases, held_from, held, is_dumpable, stored, has_nonce, leases_of, decide, store,
  grant_from, acquire_unlocked, acquire_lease,
}

held_from-append :
    (acc : Double) (ls : List Lease) (l : Lease)
    → held_from acc (ls ++ l ∷ []) ≡ add (held_from acc ls) l.amount
unfolding held_from
held_from-append acc [] l = refl
held_from-append acc (x ∷ ls) l = held_from-append (add acc x.amount) ls l

any-last :
    (p : Lease → Bool) (ls : List Lease) (l : Lease) → p l ≡ true → any p (ls ++ l ∷ []) ≡ true
any-last p [] l e = ground arith
any-last p (x ∷ ls) l e = ground (arith, any-last p ls l e)

module _ (disk : LeaseDisk) (party : Text) (amount ceiling : Double) (nonce : Text)
    (now ttl : Double) where
  -- A granted request: the leases that are then stored for the party include one of this nonce, and sum
  -- to at most the ceiling and 1e-9.
  abbrev pub IsWithin : LeaseFile → Type 0
  IsWithin f' =
      (ls : List Lease) × (lookup party (entries f') ≡ some (stored ls))
      × (has_nonce nonce ls ≡ true)
      × (le (held ls) (add ceiling nano) ≡ true)

  decide-within :
      (ls : List Lease)
      → (decide disk party amount ceiling nonce now ls).1 ≡ true
      → (has_nonce nonce (decide disk party amount ceiling nonce now ls).0 ≡ true)
        × (le (held (decide disk party amount ceiling nonce now ls).0) (add ceiling nano) ≡ true)
  unfolding decide
  decide-within ls e = elim (Bool-cases (has_nonce nonce ls)) [
    | inl replay ↦ rw replay (replay, rw replay at e)
    | inr new ↦ elim (Bool-cases (le (add (held ls) amount) (add ceiling nano))) [
      | inl fits ↦
          rw (new, fits)
            (
              any-last (λ l. text_eq l.nonce nonce) ls _ (text_eq_refl nonce),
              rw (held_from-append zero_double ls _) fits,
            )
      | inr over ↦ cc (rw (new, over) at e)
    ]
  ]

  store-IsWithin :
      (d : List (Text × List RawLease)) (x : List Lease × Bool) (f' : LeaseFile)
      → (x.1 ≡ true → (has_nonce nonce x.0 ≡ true) × (le (held x.0) (add ceiling nano) ≡ true))
      → store disk party amount ceiling nonce now d x ≡ (ok true, f')
      → IsWithin f'
  unfolding store
  store-IsWithin d (ls, g) f' bound e = elim (Bool-cases (is_dumpable ls)) [
    | inl dumpable ↦ elim (Bool-cases disk.writes) [
      | inl writes ↦
          let e' = rw (dumpable, writes) at e in
          let granted : g ≡ true = cc e' in
          let same : f' ≡ parties (insert party (stored ls) d) = cc e' in
          (
            ls,
            rw same (rw lookup-insert (rw (text_eq_refl party))),
            (bound granted).0,
            (bound granted).1,
          )
      | inr fails ↦ cc (rw (dumpable, fails) at e)
    ]
    | inr refused ↦ cc (rw refused at e)
  ]

  grant_from-IsWithin :
      (d : List (Text × List RawLease)) (r : Result (List Lease)) (f' : LeaseFile)
      → grant_from disk party amount ceiling nonce now d r ≡ (ok true, f')
      → IsWithin f'
  unfolding grant_from
  grant_from-IsWithin d (ok ls) f' e =
      store-IsWithin d (decide disk party amount ceiling nonce now ls) f' (decide-within ls) e
  grant_from-IsWithin d (err x) f' e = cc

  acquire_unlocked-IsWithin :
      (f f' : LeaseFile)
      → acquire_unlocked disk party amount ceiling nonce now ttl f ≡ (ok true, f')
      → IsWithin f'
  unfolding acquire_unlocked
  acquire_unlocked-IsWithin absent f' e =
      store-IsWithin [] (decide disk party amount ceiling nonce now []) f' (decide-within []) e
  acquire_unlocked-IsWithin unreadable f' e = cc
  acquire_unlocked-IsWithin not_object f' e = cc
  acquire_unlocked-IsWithin (parties d) f' e =
      grant_from-IsWithin d (live_leases ttl now (leases_of party d)) f' e

  -- After a granted request the stored leases of the party sum to at most the ceiling and 1e-9, and one of
  -- them is this offer's; so for a replay of an offer as for a new one.
  pub acquire_lease-IsWithin :
      (f f' : LeaseFile)
      → acquire_lease disk party amount ceiling nonce now ttl f ≡ (ok true, f')
      → IsWithin f'
  unfolding acquire_lease
  acquire_lease-IsWithin f f' e = elim (Bool-cases disk.locked) [
    | inl held_lock ↦ acquire_unlocked-IsWithin f f' (rw held_lock at e)
    | inr lost ↦ cc
  ]
