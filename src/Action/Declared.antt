-- ===== src/Action/Declared.antt =====
-- The attestation of a log of receipts, and that it keeps the verifier's limits.
use kry.Base.{
  ℕ, suc, ◌<◌, ◌≡◌, refl, sym, ap, subst, arith, Bool, true, ◌&&◌, ltb, Option, none, some, List,
  [], ◌∷◌, map, length,
}
use kry.Base.Int.{pos}
use kry.Base.Texts.{Text, codes, text_eq}
use kry.Base.Results.{ok}
use kry.Json.Values.{
  Json, int, str, float, arr, obj, items, of_list, Fields, end, field, get, get_or,
}
use kry.Json.Limits.{in_limits, items_in_limits, integer_limit}
use kry.Action.Receipt.{ActionReceipt, receipt_fields, json_of, genesis}
use kry.Action.Log.{LogFile, line_of}
use kry.Action.Chain.{IsLog, lines_of-IsLog, tip_of}
use kry.Action.Attest.{link_fields, links_from, veracity, floor_of, build_action_attestation}
use kry.Action.Stranger.{is_credited, count_links}
use kry.Action.Fresh.{link_of, link_json}
use kry.Action.Surveyed.{count_anchored-links, count_links-le}

links_from-lines :
    (prev : Text) (rs : List ActionReceipt)
    → links_from (str prev) (map line_of rs) ≡ ok (map link_of rs, str (tip_of prev rs))
unfolding links_from link_of receipt_fields get text_eq
links_from-lines prev [] = refl
links_from-lines prev (r ∷ rs) = rw (links_from-lines r.chain_hash rs) refl

abbrev pub survey_of : List ActionReceipt → Fields
survey_of rs =
    let n = count_links is_credited (map link_json rs) in
    let total = length (map link_of rs) in
    field (codes "anchored_actions") (int (pos n)) (
      field (codes "total_actions") (int (pos total))
        (field (codes "veracity_floor") (float (floor_of n total)) end))

abbrev pub attestation_of : List ActionReceipt → Fields
attestation_of rs = field (codes "kind") (str (codes "kry_action_attestation")) (
    field (codes "action_hash_version") (int (pos 1)) (
      field (codes "action_count") (int (pos (length (map link_of rs)))) (
        field (codes "chain_tip") (str (tip_of genesis rs)) (
          field (codes "links") (arr (of_list (map (λ d. obj d) (map link_of rs))))
            (field (codes "veracity") (obj (survey_of rs)) end)))))

pub build_action_attestation-IsLog :
    (f : Option LogFile) (rs : List ActionReceipt)
    → IsLog f rs
    → build_action_attestation f ≡ ok (attestation_of rs)
unfolding build_action_attestation veracity
build_action_attestation-IsLog f rs l =
    rw (lines_of-IsLog f rs l)
      (rw (links_from-lines genesis rs) (rw (count_anchored-links rs) refl))

pub items-of_list : (vs : List Json) → items (of_list vs) ≡ vs
items-of_list [] = refl
items-of_list (v ∷ vs) = ap (λ us. v ∷ us) (items-of_list vs)

pub links_json : (rs : List ActionReceipt) → map (λ d. obj d) (map link_of rs) ≡ map link_json rs
links_json [] = refl
links_json (r ∷ rs) = ap (λ vs. link_json r ∷ vs) (links_json rs)

pub length-map : {A B : Type 0} (g : A → B) (xs : List A) → length (map g xs) ≡ length xs
length-map g [] = refl
length-map g (x ∷ xs) = ap suc (length-map g xs)

json_of-in_limits : (d : ℕ) (o : Option Text) → in_limits d (json_of o) ≡ true
unfolding in_limits
json_of-in_limits d none = refl
json_of-in_limits d (some s) = refl

int-in_limits : (d n : ℕ) → n < integer_limit → in_limits d (int (pos n)) ≡ true
unfolding in_limits
int-in_limits d n h = ground arith

one_allowed : ltb 1 integer_limit ≡ true
unfolding integer_limit
one_allowed = refl

both : (a b : Bool) → a ≡ true → b ≡ true → (a && b) ≡ true
both a b e g = cc

link-in_limits : (r : ActionReceipt) → in_limits 2 (link_json r) ≡ true
unfolding in_limits link_of link_fields receipt_fields get get_or text_eq
link-in_limits r =
    rw (json_of-in_limits 3 r.result_commit, json_of-in_limits 3 r.server_evidence_commit)
      (rw one_allowed refl)

links-in_limits : (rs : List ActionReceipt) → items_in_limits 2 (of_list (map link_json rs)) ≡ true
unfolding in_limits
links-in_limits [] = refl
links-in_limits (r ∷ rs) = both _ _ (link-in_limits r) (links-in_limits rs)

few_links :
    (rs : List ActionReceipt) → length rs < integer_limit → length (map link_of rs) < integer_limit
few_links rs h = subst (λ n. n < integer_limit) (sym (length-map link_of rs)) h

few_credited :
    (rs : List ActionReceipt)
    → length rs < integer_limit
    → count_links is_credited (map link_json rs) < integer_limit
few_credited rs h =
    omega (arith, h, count_links-le is_credited (map link_json rs), length-map link_json rs)

pub attestation-in_limits :
    (rs : List ActionReceipt)
    → length rs < integer_limit
    → in_limits 0 (obj (attestation_of rs)) ≡ true
unfolding in_limits
attestation-in_limits rs h =
    let links =
      subst (λ vs. items_in_limits 2 (of_list vs) ≡ true) (sym (links_json rs))
        (links-in_limits rs) in
    let total = int-in_limits 1 (length (map link_of rs)) (few_links rs h) in
    let counted =
      int-in_limits 1 (count_links is_credited (map link_json rs)) (few_credited rs h) in
    both _ _ one_allowed
      (both _ _ total (both _ _ links (both _ _ (both _ _ counted (both _ _ total refl)) refl)))
