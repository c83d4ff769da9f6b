-- ===== src/Settlement/Separable.antt =====
-- The grant ids that `_entry_grant_payload` accepts keep the hashed text of an entry unambiguous.
use kry.Base.{◌≡◌, refl, false, List, [], ◌∷◌, arith, subst, Option, none, some}
use kry.Base.Results.{ok-injective, >>=-eq-ok, ok}
use kry.Base.Texts.{Text, codes, has_code}
use kry.Base.Joins.{IsFree, join-sorted-IsFree}
use kry.Python.{Value, Values, nil, cons, str, list}
use kry.Settlement.Grants.{
  distinct, is_grant_id, grant_id_of, grant_ids_of, parse_grants, Grants, grants_payload,
}
use kry.Settlement.Entries.{
  RawEntry, as_value_error, as_value_error-ok, Line, blank, malformed, object, parse_entry,
  entries_of, Entry,
}

-- The payload of every entry is free of the separator, as `_entry_grant_payload` checks.
abbrev pub IsSeparable : List Entry → Type 0
IsSeparable [] = Unit
IsSeparable (e ∷ es) = (has_code b':' (grants_payload e.grants) ≡ false) × IsSeparable es

-- What `parse_grants` accepts has no separator.
grant_id_of-free : (v : Value) (g : Text) → grant_id_of v ≡ ok g → has_code b':' g ≡ false
unfolding grant_id_of is_grant_id
grant_id_of-free (str s) g e = ground arith
grant_id_of-free _ g e = cc

distinct-eq : (gs ds : List Text) → distinct gs ≡ ok ds → gs ≡ ds
unfolding distinct
distinct-eq gs ds e = ground arith

grant_ids_of-IsFree : (vs : Values) (gs : List Text) → grant_ids_of vs ≡ ok gs → IsFree b':' gs
unfolding grant_ids_of
grant_ids_of-IsFree nil [] e = tt
grant_ids_of-IsFree nil (g ∷ gs) e = cc
grant_ids_of-IsFree (cons v vs) gs e =
    let (g, hg, rest) = >>=-eq-ok (grant_id_of v) _ e in
    let (gs', hgs, done) = >>=-eq-ok (grant_ids_of vs) _ rest in
    subst (IsFree b':') (ok-injective done)
      (grant_id_of-free v g hg, grant_ids_of-IsFree vs gs' hgs)

parse_grants-free :
    (a b : Option Value) (g : Grants)
    → parse_grants a b ≡ ok g
    → has_code b':' (grants_payload g) ≡ false
unfolding parse_grants
parse_grants-free (some a) (some b) g e = cc
parse_grants-free none none g e =
    subst (λ x. has_code b':' (grants_payload x) ≡ false) (ok-injective e)
      (unfold grants_payload has_code in refl)
parse_grants-free (some v) none g e =
    let (t, ht, done) = >>=-eq-ok (grant_id_of v) _ e in
    subst (λ x. has_code b':' (grants_payload x) ≡ false) (ok-injective done)
      (unfold grants_payload in
        join-sorted-IsFree b':' (codes ",") (t ∷ []) (unfold has_code in refl)
          (grant_id_of-free v t ht, tt))
parse_grants-free none (some (list vs)) g e =
    let (ts, hts, rest) = >>=-eq-ok (grant_ids_of vs) _ e in
    let (ds, hds, done) = >>=-eq-ok (distinct ts) _ rest in
    subst (λ x. has_code b':' (grants_payload x) ≡ false) (ok-injective done)
      (unfold grants_payload in
        join-sorted-IsFree b':' (codes ",") ds (unfold has_code in refl)
          (subst (IsFree b':') (distinct-eq ts ds hds) (grant_ids_of-IsFree vs ts hts)))
parse_grants-free none (some _) g e = cc

parse_entry-grants :
    (r : RawEntry) (e : Entry)
    → parse_entry r ≡ ok e
    → parse_grants r.grant_id r.grant_ids ≡ ok e.grants
unfolding parse_entry
parse_entry-grants r e h = ground arith

pub entries_of-IsSeparable :
    (ls : List Line) (es : List Entry) → entries_of ls ≡ ok es → IsSeparable es
unfolding entries_of
entries_of-IsSeparable [] es e = subst IsSeparable (ok-injective e) tt
entries_of-IsSeparable (blank ∷ ls) es e = entries_of-IsSeparable ls es e
entries_of-IsSeparable (malformed ∷ ls) es e = cc
entries_of-IsSeparable (object r ∷ ls) es e =
    let (x, hx, rest) = >>=-eq-ok (as_value_error (parse_entry r)) _ e in
    let (xs, hxs, done) = >>=-eq-ok (entries_of ls) _ rest in
    subst IsSeparable (ok-injective done) (
      parse_grants-free r.grant_id r.grant_ids x.grants
          (parse_entry-grants r x (as_value_error-ok (parse_entry r) x hx)),
      entries_of-IsSeparable ls xs hxs,
    )
