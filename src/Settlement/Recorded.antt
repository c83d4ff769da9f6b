-- ===== src/Settlement/Recorded.antt =====
-- The outcomes of `_record_settled`: what a success has checked and written, and what an error leaves.
use kry.Base.{
  ℕ, ◌+◌, ◌≡◌, refl, true, false, List, [], ◌∷◌, ◌++◌, arith, length, sym, subst, none, some,
  if◌then◌else◌, length-append,
}
use kry.Base.Results.{Result, ok, err, persistence_error, >>=-eq-ok}
use kry.Base.Texts.{join, sorted, insert_sorted, Text, text_eq_refl}
use kry.Double.{Double, IsCountable}
use kry.Python.{Value, str, finite_number, positive}
use kry.Settlement.Host.{Host}
use kry.Settlement.Grants.{Grants, single, parse_grants, grants_payload, is_empty}
use kry.Settlement.Entries.{
  object, Entry, entries_of, lines_of, registry_entries, tip_file, Registry,
}
use kry.Settlement.Chain.{
  genesis, entry_digest, expected_hash, check_chain, check_tip, tip_problems, judge,
  verify_registry, last_hash,
}
use kry.Settlement.Record.{
  Disk, settled_entry, already_settled, append_settled, as_persistence_error, settle_checks,
  write_settled,
}
use kry.Settlement.Appended.{
  new_entry, parse_entry-settled, entries_of-append, read_tip-tip_file, check_chain-append,
}

parse_grants-single :
    (g : Text) (x : Grants) → parse_grants (some (str g)) none ≡ ok x → x ≡ single g
unfolding parse_grants
parse_grants-single g x e = ground arith

as_persistence_error-ok {ℓ} :
    {A : Type ℓ} (r : Result A) (a : A) → as_persistence_error r ≡ ok a → r ≡ ok a
as_persistence_error-ok (ok b) a h = h
as_persistence_error-ok (err e) a h = cc

fresh_checks :
    (g : Text) (xs : List Entry) (a amount : Double) (es : List Entry)
    → if◌then◌else◌ {A = Result (Double × List Entry)}
        (already_settled g xs)
        (err persistence_error)
        (ok (a, xs))
      ≡ ok (amount, es)
    → (already_settled g xs ≡ false) × (a ≡ amount) × (xs ≡ es)
fresh_checks g xs a amount es e = ground arith

-- The facts that `settle_checks` has established.
pub record IsChecked (v : Value) (g : Text) (r : Registry) (amount : Double) (es : List Entry)
    : Type 0 where
  pub valued : finite_number v positive ≡ ok amount
  pub granted : parse_grants (some (str g)) none ≡ ok (single g)
  pub read : registry_entries r.file ≡ ok es
  pub fresh : already_settled g es ≡ false

pub settle_checks-IsChecked :
    (v : Value) (g : Text) (r : Registry) (amount : Double) (es : List Entry)
    → settle_checks v g r ≡ ok (amount, es)
    → IsChecked v g r amount es
unfolding settle_checks
settle_checks-IsChecked v g r amount es e =
    let (a, ha, r1) = >>=-eq-ok (as_persistence_error (finite_number v positive)) _ e in
    let (x, hx, r2) = >>=-eq-ok (as_persistence_error (parse_grants (some (str g)) none)) _ r1 in
    let (xs, hxs, r3) = >>=-eq-ok (as_persistence_error (registry_entries r.file)) _ r2 in
    let (fresh, same_amount, same_entries) = fresh_checks g xs a amount es r3 in
    record {
      valued =
          subst (λ z. finite_number v positive ≡ ok z) same_amount
            (as_persistence_error-ok (finite_number v positive) a ha);
      granted =
          subst (λ z. parse_grants (some (str g)) none ≡ ok z)
            (parse_grants-single g x
              (as_persistence_error-ok (parse_grants (some (str g)) none) x hx))
            (as_persistence_error-ok (parse_grants (some (str g)) none) x hx);
      read =
          subst (λ z. registry_entries r.file ≡ ok z) same_entries
            (as_persistence_error-ok (registry_entries r.file) xs hxs);
      fresh = subst (λ z. already_settled g z ≡ false) same_entries fresh;
    }

module _ (h : Host) where
  -- The hash and the registry of a settlement that is written in full.
  abbrev pub settled_hash : Text → Text → Double → List Entry → Text
  settled_hash party g amount es = entry_digest h (last_hash genesis es) party amount g

  abbrev pub settled_registry : Text → Text → Double → List Entry → Registry → Registry
  settled_registry party g amount es r = record {
    file = some (
        lines_of r.file
        ++ object
            (settled_entry party (last_hash genesis es) amount g (settled_hash party g amount es))
          ∷ []);
    tip = tip_file (length es + 1) (settled_hash party g amount es);
  }

  pub write_settled-ok :
      (d : Disk) (party g : Text) (amount : Double) (es : List Entry) (r r' : Registry)
      → write_settled h d party g amount es r ≡ (ok tt, r')
      → r' ≡ settled_registry party g amount es r
  unfolding write_settled append_settled
  write_settled-ok d party g amount es r r' e = ground arith

  -- The entry of a settlement, as it reads back.
  abbrev pub settled : Text → Text → Double → List Entry → Entry
  settled party g amount es =
      new_entry party (last_hash genesis es) amount g (settled_hash party g amount es)

  pub settled-expected_hash :
      (party g : Text) (amount : Double) (es : List Entry)
      → settled_hash party g amount es
        ≡ expected_hash h (last_hash genesis es) (settled party g amount es)
  unfolding expected_hash grants_payload join sorted insert_sorted
  settled-expected_hash party g amount es = refl

  -- The lines of a settlement that is written read back as one more entry.
  pub registry_entries-settled :
      (v : Value) (party g : Text) (amount : Double) (es : List Entry) (r : Registry)
      → IsChecked v g r amount es
      → is_empty party ≡ false
      → entries_of (
          lines_of r.file
          ++ object
              (settled_entry party (last_hash genesis es) amount g (settled_hash party g amount es))
            ∷ [])
        ≡ ok (es ++ settled party g amount es ∷ [])
  unfolding registry_entries
  registry_entries-settled v party g amount es r c named =
      entries_of-append (lines_of r.file) es
        (settled_entry party (last_hash genesis es) amount g (settled_hash party g amount es))
        (settled party g amount es) c.read
        (parse_entry-settled v party (last_hash genesis es) g (settled_hash party g amount es)
          amount c.valued named c.granted)

  pub check_chain-settled :
      (party g : Text) (amount : Double) (es : List Entry)
      → (check_chain h genesis 1 es).0 ≡ []
      → check_chain h genesis 1 (es ++ settled party g amount es ∷ [])
        ≡ ([], settled_hash party g amount es)
  check_chain-settled party g amount es v =
      check_chain-append h genesis 1 es (settled party g amount es) v
        (settled-expected_hash party g amount es)

  check_tip_self : (n : ℕ) (s : Text) → check_tip n s (some (record { count = n; tip = s })) ≡ []
  unfolding check_tip
  check_tip_self n s = ground (arith, text_eq_refl s)

  judge-verified :
      (es : List Entry) (n : ℕ) (hash : Text)
      → check_chain h genesis 1 es ≡ ([], hash)
      → length es ≡ n
      → IsCountable n
      → judge h (tip_file n hash) (ok es) ≡ ok (true, [])
  unfolding judge tip_problems
  judge-verified es n hash chain len counted =
      rw (chain, len, read_tip-tip_file n hash counted, check_tip_self n hash)

  -- With the new checkpoint the longer registry verifies.
  pub verify_registry-settled :
      (v : Value) (party g : Text) (amount : Double) (es : List Entry) (r : Registry)
      → IsChecked v g r amount es
      → is_empty party ≡ false
      → IsCountable (length es + 1)
      → (check_chain h genesis 1 es).0 ≡ []
      → verify_registry h (settled_registry party g amount es r) ≡ ok (true, [])
  unfolding verify_registry registry_entries
  verify_registry-settled v party g amount es r c named counted chain =
      subst
        (λ z. judge h (tip_file (length es + 1) (settled_hash party g amount es)) z ≡ ok (true, []))
        (sym (registry_entries-settled v party g amount es r c named))
        (judge-verified (es ++ settled party g amount es ∷ []) (length es + 1)
          (settled_hash party g amount es) (check_chain-settled party g amount es chain)
          (length-append es _) counted)
