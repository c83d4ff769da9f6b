-- ===== src/Ledger/Merged.antt =====
-- What the merge keeps of the journal: the operations of both sides, and the recovery.
use kry.Base.{
  ◌≡◌, refl, sym, ap, subst, ◌∙◌, arith, Bool, true, false, ◌&&◌, ◌||◌, not, if◌then◌else◌, Option,
  none, some, List, [], ◌∷◌,
}
use kry.Base.Texts.{Text, text_eq, text_eq_iff}
use kry.Base.Dicts.{lookup, insert, lookup-insert}
use kry.Base.Results.{ok, value_error, ok-injective, >>=-eq-ok, raise_if}
use kry.Double.{Double, eq}
use kry.Ledger.Book.{
  Kind, spend_kind, debit_kind, Operation, Operations, Document, versioned, accounting_of,
  operations_of, is_versioned, Ledger, ledger_parts,
}
use kry.Ledger.Merge.{
  same_kind, same_operation, conflicts, merged_operations, merged_totals, merged_accounting,
  enveloped, check_dumpable, to_write,
}

eq_sound : (a b : Double) → eq a b ≡ true → a ≡ b
unfolding eq
eq_sound (Double.fin (kry.Base.Int.ℤ.pos a)) (Double.fin (kry.Base.Int.ℤ.pos b)) h = ground arith
eq_sound (Double.fin (kry.Base.Int.ℤ.pos a)) (Double.fin (kry.Base.Int.ℤ.negsuc b)) h = ground arith
eq_sound (Double.fin (kry.Base.Int.ℤ.negsuc a)) (Double.fin (kry.Base.Int.ℤ.pos b)) h = ground arith
eq_sound (Double.fin (kry.Base.Int.ℤ.negsuc a)) (Double.fin (kry.Base.Int.ℤ.negsuc b)) h =
    ground arith
eq_sound Double.inf Double.inf h = refl
eq_sound Double.minus_inf Double.minus_inf h = refl
eq_sound _ _ h = cc

same_kind_sound : (a b : Kind) → same_kind a b ≡ true → a ≡ b
same_kind_sound spend_kind spend_kind h = refl
same_kind_sound debit_kind debit_kind h = refl
same_kind_sound _ _ h = cc

both : (a b : Bool) → (a && b) ≡ true → (a ≡ true) × (b ≡ true)
both true b h = (refl, h)
both false b h = cc

same_operation_sound : (a b : Operation) → same_operation a b ≡ true → a ≡ b
unfolding same_operation
same_operation_sound a b h =
    let (h1, t) = both _ (eq a.ts b.ts) h in
    let (h2, d) = both _ (text_eq a.params_sha256 b.params_sha256) h1 in
    let (k, x) = both (same_kind a.kind b.kind) (eq a.amount b.amount) h2 in
    let e1 = same_kind_sound a.kind b.kind k in
    let e2 = eq_sound a.amount b.amount x in
    let e3 = (text_eq_iff a.params_sha256 b.params_sha256).0 d in
    let e4 = eq_sound a.ts b.ts t in cc

passed : (c : Bool) → raise_if c value_error ≡ ok tt → c ≡ false
passed false h = refl
passed true h = cc

pub undo_not : (b : Bool) → not b ≡ false → b ≡ true
undo_not true h = refl
undo_not false h = cc

unconflicted :
    (op new : Operation) (o : Option Operation)
    → raise_if (conflicts new o) value_error ≡ ok tt
    → o ≡ some op
    → new ≡ op
unconflicted op new none h e = cc
unconflicted op new (some old) h e =
    let same : old ≡ new =
      same_operation_sound old new (undo_not (same_operation old new) (passed _ h)) in
    cc

inserted :
    (k j : Text) (op new : Operation) (disk : Operations) (b : Bool)
    → text_eq j k ≡ b
    → (j ≡ k → new ≡ op)
    → (b ≡ false → lookup k disk ≡ some op)
    → lookup k (insert j new disk) ≡ some op
inserted k j op new disk true e here there =
    rw (lookup-insert j k new disk, e) (ap some (here ((text_eq_iff j k).0 e)))
inserted k j op new disk false e here there = rw (lookup-insert j k new disk, e) (there refl)

-- An operation of the journal stays what it was.
pub merged_operations-keeps :
    (k : Text) (op : Operation) (ops disk out : Operations)
    → lookup k disk ≡ some op
    → merged_operations ops disk ≡ ok out
    → lookup k out ≡ some op
unfolding merged_operations
merged_operations-keeps k op [] disk out h e = rw (← ok-injective e) h
merged_operations-keeps k op ((j, new) ∷ ops) disk out h e =
    let (u, free, rest) = >>=-eq-ok (raise_if (conflicts new (lookup j disk)) value_error) _ e in
    merged_operations-keeps k op ops (insert j new disk) out
      (inserted k j op new disk (text_eq j k) refl
        (λ same. unconflicted op new (lookup j disk) free (rw same h)) (λ _. h))
      rest

found_first :
    (k j : Text) (op new : Operation) (ops disk out rest : Operations) (b : Bool)
    → text_eq j k ≡ b
    → ◌≡◌ {A = Option Operation} (if b then some new else lookup k ops) (some op)
    → merged_operations rest (insert j new disk) ≡ ok out
    → (lookup k ops ≡ some op → lookup k out ≡ some op)
    → lookup k out ≡ some op
found_first k j op new ops disk out rest true e h merged later =
    merged_operations-keeps k op rest (insert j new disk) out (rw (lookup-insert j k new disk, e) h)
      merged
found_first k j op new ops disk out rest false e h merged later = later h

-- An operation of the process is in the merged journal.
pub merged_operations-has :
    (k : Text) (op : Operation) (ops disk out : Operations)
    → lookup k ops ≡ some op
    → merged_operations ops disk ≡ ok out
    → lookup k out ≡ some op
unfolding merged_operations lookup
merged_operations-has k op [] disk out h e = cc
merged_operations-has k op ((j, new) ∷ ops) disk out h e =
    let (u, free, rest) = >>=-eq-ok (raise_if (conflicts new (lookup j disk)) value_error) _ e in
    found_first k j op new ops disk out ops (text_eq j k) refl h rest
      (λ found. merged_operations-has k op ops (insert j new disk) out found rest)

or_true : (b : Bool) → (b || true) ≡ true
or_true true = refl
or_true false = refl

module _ (strip : Text → Text) (old : Document) (l : Ledger) where
  -- Over a versioned ledger only a versioned ledger is written, with its recovery.
  pub to_write-versioned :
      (d : Document)
      → is_versioned old ≡ true
      → to_write strip none (some old) l ≡ ok d
      → (is_versioned d ≡ true)
        × (merged_operations l.ops (operations_of old) ≡ ok (operations_of d))
        × ((accounting_of d).recovery ≡ (accounting_of old).recovery)
  unfolding to_write enveloped
  to_write-versioned d v h =
      let (t, totals, h1) =
        >>=-eq-ok (merged_totals (accounting_of old).totals l.totals l.baseline) _ h in
      let acc = merged_accounting strip none (some old) l t in
      let h2 : enveloped strip none (some old) l true acc ≡ ok d =
        subst (λ b. enveloped strip none (some old) l b acc ≡ ok d)
          (ap (λ b. l.is_format_two || b) v ∙ or_true l.is_format_two) h1 in
      let (ops, merged, h3) = >>=-eq-ok (merged_operations l.ops (operations_of old)) _ h2 in
      let (u, parts, h4) = >>=-eq-ok (ledger_parts strip (versioned acc ops)) _ h3 in
      let (w, dumpable, h5) = >>=-eq-ok (check_dumpable acc) _ h4 in
      let same : versioned acc ops ≡ d = ok-injective h5 in
      (
        ap is_versioned (sym same),
        merged ∙ ap (λ x. ok (operations_of x)) same,
        ap (λ x. (accounting_of x).recovery) (sym same),
      )
