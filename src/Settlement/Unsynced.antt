-- ===== src/Settlement/Unsynced.antt =====
-- A registry line that is written but whose `fsync` fails: the checkpoint stays behind, and the entry counts.
use kry.Base.{
  ℕ, suc, ◌≡◌, refl, true, false, if◌then◌else◌, Option, none, some, List, [], ◌∷◌, ◌++◌, arith, ap,
  length, length-append, subst, sym,
}
use kry.Base.Results.{Result, ok, err, persistence_error, ok-injective}
use kry.Base.Texts.{Text, text_eq}
use kry.Double.{Double, add}
use kry.Python.{Value}
use kry.Settlement.Host.{Host}
use kry.Settlement.Grants.{is_empty, has_grant}
use kry.Settlement.Entries.{Entry, Tip, read_tip, registry_entries, Registry}
use kry.Settlement.Chain.{
  Problem, genesis, check_chain, check_tip, tip_problems, judge, verify_registry, load_registry,
  total_of, totals_from,
}
use kry.Settlement.Appended.{total_of-add_entry, totals_from-append}
use kry.Settlement.Record.{Disk, unsynced, append_settled, settle_checks, record_settled}
use kry.Settlement.Recorded.{
  settle_checks-IsChecked, settled_hash, settled, settled_registry, registry_entries-settled,
  check_chain-settled,
}
use kry.Settlement.Tamper.{verify_registry_sound}
use kry.Settlement.Committed.{
  load_registry-verified, any-last, settled_grant, settle_checks-settled,
}

check_tip-longer :
    (n : ℕ) (p p' : Text) (t : Option Tip) → check_tip n p t ≡ [] → check_tip (suc n) p' t ≡ []
unfolding check_tip
check_tip-longer n p p' none e = refl
check_tip-longer n p p' (some t) e = ground arith

-- A checkpoint that fits a registry fits a longer one.
tip_problems-longer :
    (n : ℕ) (p p' : Text) (t : Result (Option Tip))
    → tip_problems n p t ≡ ok []
    → tip_problems (suc n) p' t ≡ ok []
unfolding tip_problems
tip_problems-longer n p p' (ok t) e = ap ok (check_tip-longer n p p' t (ok-injective e))
tip_problems-longer n p p' (err x) e = ground arith

module _ (h : Host) where
  append_settled-unsynced :
      (d : Disk) (party : Text) (v : Value) (g : Text) (r : Registry) (amount : Double)
      (es : List Entry)
      → d.append ≡ unsynced
      → settle_checks v g r ≡ ok (amount, es)
      → record_settled h d party v g r
        ≡ (err persistence_error, record r { file = (settled_registry h party g amount es r).file })
  unfolding record_settled append_settled
  append_settled-unsynced d party v g r amount es unsync checked = rw (checked, unsync) refl

  judge-behind :
      (r : Registry) (es : List Entry) (e : Entry) (hash : Text)
      → tip_problems (length es) (check_chain h genesis 1 es).1 (read_tip r.tip) ≡ ok []
      → check_chain h genesis 1 (es ++ e ∷ []) ≡ ([], hash)
      → judge h r.tip (ok (es ++ e ∷ [])) ≡ ok (true, [])
  unfolding judge
  judge-behind r es e hash tip chain =
      let longer : tip_problems (length (es ++ e ∷ [])) hash (read_tip r.tip) ≡ ok [] =
        subst (λ n. tip_problems n hash (read_tip r.tip) ≡ ok [])
          (omega (arith, length-append es (e ∷ [])))
          (tip_problems-longer (length es) (check_chain h genesis 1 es).1 hash (read_tip r.tip)
            tip) in
      rw (chain, longer) refl

  again :
      (d : Disk) (party : Text) (v : Value) (g : Text) (r : Registry) (es : List Entry) (e : Entry)
      → registry_entries r.file ≡ ok (es ++ e ∷ [])
      → has_grant g e.grants ≡ true
      → record_settled h d party v g r ≡ (err persistence_error, r)
  unfolding record_settled
  again d party v g r es e read consumed =
      rw (settle_checks-settled h v g r (es ++ e ∷ []) read (any-last h g es e consumed))

  -- On a registry that verifies, a settlement of a party with a name that passes the checks and whose
  -- line is written while its `fsync` fails reports an error and is not undone: the registry that it
  -- leaves verifies without a problem, counts the amount to that party's total and to no other, and
  -- refuses every later settlement of the same grant, on any disk, without a change.
  pub unsynced_settlement_counted :
      (d d' : Disk) (party party' : Text) (v v' : Value) (g : Text) (r : Registry) (amount : Double)
      (es : List Entry) (ps : List Problem)
      → d.append ≡ unsynced
      → is_empty party ≡ false
      → settle_checks v g r ≡ ok (amount, es)
      → verify_registry h r ≡ ok (true, ps)
      → let (result, r') = record_settled h d party v g r in
        (result ≡ err persistence_error)
        × (verify_registry h r' ≡ ok (true, []))
        × ((e : Entry) × (load_registry h r' ≡ ok (totals_from [] (es ++ e ∷ [])))
            × ((p : Text)
                → total_of p (totals_from [] (es ++ e ∷ [])) ≡ (
                    if text_eq party p
                    then add (total_of party (totals_from [] es)) amount
                    else total_of p (totals_from [] es))))
        × (record_settled h d' party' v' g r' ≡ (err persistence_error, r'))
  unfolding verify_registry
  unsynced_settlement_counted d d' party party' v v' g r amount es ps unsync named checked
        verified =
      let c = settle_checks-IsChecked v g r amount es checked in
      let new = settled h party g amount es in
      let r' = record r { file = (settled_registry h party g amount es r).file } in
      let read : registry_entries r'.file ≡ ok (es ++ new ∷ []) =
        unfold registry_entries in registry_entries-settled h v party g amount es r c named in
      let (chain, tip) = verify_registry_sound h r es ps c.read verified in
      let verifies : verify_registry h r' ≡ ok (true, []) =
        subst (λ z. judge h r.tip z ≡ ok (true, [])) (sym read)
          (judge-behind r es new (settled_hash h party g amount es) tip
            (check_chain-settled h party g amount es chain)) in
      rw (append_settled-unsynced d party v g r amount es unsync checked) (
        refl,
        verifies,
        (
          new,
          load_registry-verified h r' (es ++ new ∷ []) [] read verifies,
          λ p. rw (totals_from-append [] es new) (total_of-add_entry (totals_from [] es) new p),
        ),
        again d' party' v' g r' es new read (settled_grant h party g amount es),
      )
