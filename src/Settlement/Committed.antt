-- ===== src/Settlement/Committed.antt =====
-- `_record_settled` as a whole: what a success leaves, and what an error leaves.
use kry.Base.{
  ◌≢◌, ◌+◌, ◌≡◌, refl, true, false, List, [], ◌∷◌, ◌++◌, arith, length, sym, subst₂, ◌∙◌, none,
  some, if◌then◌else◌,
}
use kry.Base.Results.{
  Error, Result, ok, err, persistence_error, value_error, ok-injective, >>=-eq-ok, ◌>>=◌,
}
use kry.Base.Texts.{Text, text_eq, text_eq_refl}
use kry.Double.{Double, add, IsCountable}
use kry.Python.{Value, str, finite_number, positive}
use kry.Settlement.Host.{Host}
use kry.Settlement.Grants.{parse_grants, is_empty, has_grant}
use kry.Settlement.Entries.{
  text_of, nonempty_text_of, as_value_error, text_of, nonempty_text_of, as_value_error, RawEntry,
  Line, object, blank, malformed, Entry, parse_entry, entries_of, lines_of, registry_entries,
  Registry,
}
use kry.Settlement.Chain.{
  load_registry, Problem, genesis, verify_registry, last_hash, total_of, totals_from,
}
use kry.Settlement.Record.{
  Disk, settled_entry, already_settled, append_settled, as_persistence_error, settle_checks,
  write_settled, record_settled,
}
use kry.Settlement.Appended.{total_of-add_entry, totals_from-append}
use kry.Settlement.Tamper.{verify_registry-chain}
use kry.Settlement.Record.{torn, unsynced, undo_append, write_checked}
use kry.Settlement.Recorded.{
  IsChecked, settle_checks-IsChecked, settled_hash, settled_registry, settled, write_settled-ok,
  registry_entries-settled, verify_registry-settled,
}

unnamed_entry :
    (r : RawEntry) → r.party ≡ some (str []) → as_value_error (parse_entry r) ≡ err value_error
unfolding parse_entry nonempty_text_of text_of
unnamed_entry r e = ground arith

entries_of-unnamed :
    (ls : List Line) (es : List Entry) (r : RawEntry)
    → entries_of ls ≡ ok es
    → r.party ≡ some (str [])
    → entries_of (ls ++ object r ∷ []) ≡ err value_error
unfolding entries_of
entries_of-unnamed [] es r e n = rw (unnamed_entry r n)
entries_of-unnamed (blank ∷ ls) es r e n = entries_of-unnamed ls es r e n
entries_of-unnamed (malformed ∷ ls) es r e n = cc
entries_of-unnamed (object x ∷ ls) es r e n =
    let (y, hy, rest) = >>=-eq-ok (as_value_error (parse_entry x)) _ e in
    let (ys, hys, done) = >>=-eq-ok (entries_of ls) _ rest in
    rw (hy, entries_of-unnamed ls ys r hys n)

module _ (h : Host) where
  write_checked-ok :
      (d : Disk) (party g : Text) (r r' : Registry) (c : Result (Double × List Entry))
      → write_checked h d party g r c ≡ (ok tt, r')
      → (amount : Double) × (es : List Entry) × (c ≡ ok (amount, es))
        × (r' ≡ settled_registry h party g amount es r)
  unfolding write_checked
  write_checked-ok d party g r r' (ok (amount, es)) e =
      (amount, es, refl, write_settled-ok h d party g amount es r r' e)
  write_checked-ok d party g r r' (err x) e = cc

  -- What a recorded settlement has checked and written.
  pub record_settled-ok :
      (d : Disk) (party : Text) (v : Value) (g : Text) (r r' : Registry)
      → record_settled h d party v g r ≡ (ok tt, r')
      → (amount : Double) × (es : List Entry) × IsChecked v g r amount es
        × (r' ≡ settled_registry h party g amount es r)
  unfolding record_settled
  record_settled-ok d party v g r r' e =
      let (amount, es, checked, same) = write_checked-ok d party g r r' (settle_checks v g r) e in
      (amount, es, settle_checks-IsChecked v g r amount es checked, same)

  -- The same, for the amount and the entries at hand.
  pub record_settled-at :
      (d : Disk) (party : Text) (v : Value) (g : Text) (r r' : Registry) (amount : Double)
      (es : List Entry)
      → registry_entries r.file ≡ ok es
      → finite_number v positive ≡ ok amount
      → record_settled h d party v g r ≡ (ok tt, r')
      → IsChecked v g r amount es × (r' ≡ settled_registry h party g amount es r)
  record_settled-at d party v g r r' amount es read valued e =
      let (a, xs, c, same) = record_settled-ok d party v g r r' e in
      subst₂ (λ b ys. IsChecked v g r b ys × (r' ≡ settled_registry h party g b ys r))
        (ok-injective (sym c.valued ∙ valued)) (ok-injective (sym c.read ∙ read)) (c, same)

  pub load_registry-verified :
      (r : Registry) (es : List Entry) (ps : List Problem)
      → registry_entries r.file ≡ ok es
      → verify_registry h r ≡ ok (true, ps)
      → load_registry h r ≡ ok (totals_from [] es)
  unfolding load_registry
  load_registry-verified r es ps read v = rw (v, read)

  -- On a registry that verifies, a recorded settlement of a party with a name leaves a registry that
  -- verifies without a problem, whose one new entry counts the amount to that party's total and to no
  -- other. The number of entries and one is exact as a float.
  pub record_settled-extends :
      (d : Disk) (party : Text) (v : Value) (g : Text) (r r' : Registry) (amount : Double)
      (es : List Entry) (ps : List Problem)
      → registry_entries r.file ≡ ok es
      → finite_number v positive ≡ ok amount
      → is_empty party ≡ false
      → IsCountable (length es + 1)
      → verify_registry h r ≡ ok (true, ps)
      → record_settled h d party v g r ≡ (ok tt, r')
      → (verify_registry h r' ≡ ok (true, []))
        × ((e : Entry) × (registry_entries r'.file ≡ ok (es ++ e ∷ []))
            × (load_registry h r' ≡ ok (totals_from [] (es ++ e ∷ [])))
            × ((p : Text)
                → total_of p (totals_from [] (es ++ e ∷ [])) ≡ (
                    if text_eq party p
                    then add (total_of party (totals_from [] es)) amount
                    else total_of p (totals_from [] es))))
  record_settled-extends d party v g r r' amount es ps read valued named counted verified e =
      let (c, same) = record_settled-at d party v g r r' amount es read valued e in
      let chain = verify_registry-chain h r es ps read verified in
      let new = settled h party g amount es in
      let now_verified : verify_registry h r' ≡ ok (true, []) =
        rw same (verify_registry-settled h v party g amount es r c named counted chain) in
      let now_read : registry_entries r'.file ≡ ok (es ++ new ∷ []) =
        rw same
          (unfold registry_entries in registry_entries-settled h v party g amount es r c named) in
      (
        now_verified,
        (
          new,
          now_read,
          load_registry-verified r' (es ++ new ∷ []) [] now_read now_verified,
          λ p. rw (totals_from-append [] es new) (total_of-add_entry (totals_from [] es) new p),
        ),
      )

  pub any-last :
      (g : Text) (es : List Entry) (e : Entry)
      → has_grant g e.grants ≡ true
      → already_settled g (es ++ e ∷ []) ≡ true
  unfolding already_settled
  any-last g [] e s = ground arith
  any-last g (x ∷ es) e s = ground (arith, any-last g es e s)

  pub settled_grant :
      (party g : Text) (amount : Double) (es : List Entry)
      → has_grant g (settled h party g amount es).grants ≡ true
  unfolding has_grant
  settled_grant party g amount es = ground (arith, text_eq_refl g)

  bind_persistence :
      {A B : Type 0} (m : Result A) (f : A → Result B)
      → ((a : A) → f a ≡ err persistence_error)
      → (as_persistence_error m >>= f) ≡ err persistence_error
  bind_persistence (ok a) f all = all a
  bind_persistence (err e) f all = refl

  pub settle_checks-settled :
      (v : Value) (g : Text) (r : Registry) (es : List Entry)
      → registry_entries r.file ≡ ok es
      → already_settled g es ≡ true
      → settle_checks v g r ≡ err persistence_error
  unfolding settle_checks
  settle_checks-settled v g r es read s =
      bind_persistence (finite_number v positive) _
        (λ a. bind_persistence (parse_grants (some (str g)) none) _ (λ x. rw (read, s)))

  -- A grant is consumed once: after a recorded settlement of a party with a name, recording the same
  -- grant again, for any party and amount and on any disk, fails and leaves the registry as it is.
  pub record_settled_once :
      (d d' : Disk) (party party' : Text) (v v' : Value) (g : Text) (r r' : Registry)
      → is_empty party ≡ false
      → record_settled h d party v g r ≡ (ok tt, r')
      → record_settled h d' party' v' g r' ≡ (err persistence_error, r')
  unfolding record_settled
  record_settled_once d d' party party' v v' g r r' named e =
      let (a, es, c, same) = record_settled-ok d party v g r r' e in
      let read : registry_entries r'.file ≡ ok (es ++ settled h party g a es ∷ []) =
        rw same (unfold registry_entries in registry_entries-settled h v party g a es r c named) in
      rw (
        settle_checks-settled v' g r' (es ++ settled h party g a es ∷ []) read
          (any-last g es (settled h party g a es) (settled_grant party g a es)))

  write_checked_atomic :
      (d : Disk) (party g : Text) (r r' : Registry) (x : Error) (c : Result (Double × List Entry))
      → d.append ≢ torn
      → d.append ≢ unsynced
      → d.undo ≡ true
      → write_checked h d party g r c ≡ (err x, r')
      → r' ≡ r
  unfolding write_checked write_settled append_settled undo_append
  write_checked_atomic d party g r r' x (ok (amount, es)) whole_line synced undo e = ground arith
  write_checked_atomic d party g r r' x (err y) whole_line synced undo e = ground arith

  -- When the disk writes no torn or unsynced line and can undo, a settlement that fails to be recorded
  -- leaves the registry and its checkpoint as they were.
  pub record_settled_atomic :
      (d : Disk) (party : Text) (v : Value) (g : Text) (r r' : Registry) (x : Error)
      → d.append ≢ torn
      → d.append ≢ unsynced
      → d.undo ≡ true
      → record_settled h d party v g r ≡ (err x, r')
      → r' ≡ r
  unfolding record_settled
  record_settled_atomic d party v g r r' x whole_line synced undo e =
      write_checked_atomic d party g r r' x (settle_checks v g r) whole_line synced undo e

  -- A settlement of a party without a name is recorded like any other, and from then on no entry of the
  -- registry can be read.
  pub unnamed_party_blocks_registry :
      (d : Disk) (v : Value) (g : Text) (r r' : Registry)
      → record_settled h d [] v g r ≡ (ok tt, r')
      → registry_entries r'.file ≡ err value_error
  unfolding registry_entries
  unnamed_party_blocks_registry d v g r r' e =
      let (a, es, c, same) = record_settled-ok d [] v g r r' e in
      rw same (
        entries_of-unnamed (lines_of r.file) es
          (settled_entry [] (last_hash genesis es) a g (settled_hash h [] g a es)) c.read refl)
