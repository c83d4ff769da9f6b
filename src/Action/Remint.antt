-- ===== src/Action/Remint.antt =====
-- What a published anchor fixes: every attestation that is valid and agrees with it has the same first
-- receipts.
use kry.Base.{
  ℕ, zero, suc, ◌≤◌, ◌≡◌, refl, sym, ap, ◌∙◌, arith, Bool, true, false, Option, none, some, List,
  [], ◌∷◌, length, take, if◌then◌else◌, ltb,
}
use kry.Base.Int.{ℤ}
use kry.Base.Texts.{Text, codes, text_eq_iff, has_code}
use kry.Base.Split.{split_last}
use kry.Base.Results.{Result, ok, >>=-eq-ok, ok-injective}
use kry.Json.Values.{Json, null, int, str, arr, obj, items, Fields, get_or}
use kry.Action.Receipt.{Host, link_hash, genesis}
use kry.Action.Stranger.{
  Verdict, valid, invalid, Refusal, Warning, Walk, Step, next, stop, walk_links, start, fields_of,
  check_totals, verify_links, verify_fields, verify_json, verify_action_attestation,
}
use kry.Action.Anchor.{
  AnchorRefusal, nth, chain_hash_of, tip_at, same_text, check_count, check_position, check_links,
  check_anchor, anchor_json, verify_against_anchor,
}
use kry.Action.Walked.{payload_texts, chain_from, IsWalked, walk_links-IsWalked}

-- No two inputs share a digest, and a digest has no colon.
pub record IsDigest (h : Host) : Type 0 where
  pub injective : (s t : Text) → h.sha256 s ≡ h.sha256 t → s ≡ t
  pub colon : (s : Text) → has_code b':' (h.sha256 s) ≡ false

link_hash-injective :
    (h : Host) (g : IsDigest h) (p q s t : Text)
    → link_hash h p (h.sha256 s) ≡ link_hash h q (h.sha256 t)
    → (p ≡ q) × (s ≡ t)
unfolding link_hash
link_hash-injective h g p q s t e =
    let (prev, hashes) =
      split_last b':' p q (h.sha256 s) (h.sha256 t) (g.colon s) (g.colon t) (g.injective _ _ e) in
    (prev, g.injective s t hashes)

chain_from-injective :
    (h : Host) (g : IsDigest h) (p q : Text) (ss ts : List Text)
    → length ss ≡ length ts
    → chain_from h p ss ≡ chain_from h q ts
    → (p ≡ q) × (ss ≡ ts)
chain_from-injective h g p q [] [] n e = (e, refl)
chain_from-injective h g p q [] (t ∷ ts) n e = absurd (omega arith)
chain_from-injective h g p q (s ∷ ss) [] n e = absurd (omega arith)
chain_from-injective h g p q (s ∷ ss) (t ∷ ts) n e =
    let (links, rest) =
      chain_from-injective h g (link_hash h p (h.sha256 s)) (link_hash h q (h.sha256 t)) ss ts
        (omega arith) e in
    let (prev, same) = link_hash-injective h g p q s t links in (prev, cc (same, rest))

abbrev array_items : Json → List Json
array_items (arr vs) = items vs
array_items _ = []

-- The links of a document.
abbrev pub links_of : Json → List Json
links_of v = array_items (get_or (codes "links") null (fields_of v))

past_invalid :
    (c : Bool) (r : Refusal) (ws us : List Warning) (m : Result Verdict)
    → (if c then m else ok (invalid r ws)) ≡ ok (valid us)
    → m ≡ ok (valid us)
past_invalid true r ws us m e = e
past_invalid false r ws us m e = cc

check_totals-next :
    (att : Fields) (vs : List Json) (s : Step) (ws : List Warning)
    → check_totals att vs s ≡ valid ws
    → (w : Walk) × (s ≡ next w)
unfolding check_totals
check_totals-next att vs (next w) ws e = (w, refl)
check_totals-next att vs (stop r us) ws e = cc

verify_links-walked :
    (h : Host) (att : Fields) (links : Json) (ws : List Warning)
    → verify_links h att links ≡ ok (valid ws)
    → (w : Walk) × (walk_links h 0 start (array_items links) ≡ ok (next w))
unfolding verify_links
verify_links-walked h att (arr vs) ws e =
    let (s, walked, e') = >>=-eq-ok (walk_links h 0 start (items vs)) _ e in
    let (w, passed) = check_totals-next att (items vs) s ws (ok-injective e') in
    (w, walked ∙ ap (λ z. ok z) passed)
verify_links-walked h att _ ws e = cc

verify_json-walked :
    (h : Host) (v : Json) (ws : List Warning)
    → verify_json h v ≡ ok (valid ws)
    → (w : Walk) × (walk_links h 0 start (links_of v) ≡ ok (next w))
unfolding verify_json verify_fields
verify_json-walked h (obj att) ws e =
    let versioned = past_invalid _ _ _ ws _ e in
    verify_links-walked h att (get_or (codes "links") null att) ws
      (past_invalid _ _ _ ws _ versioned)
verify_json-walked h _ ws e = cc

valid_walked :
    (h : Host) (v : Json) (ws : List Warning)
    → verify_action_attestation h v ≡ ok (valid ws)
    → (w : Walk) × (walk_links h 0 start (links_of v) ≡ ok (next w))
unfolding verify_action_attestation
valid_walked h v ws e = verify_json-walked h v ws (past_invalid _ _ _ ws _ e)

-- What an anchor fixes of a document that agrees with it.
pub record IsAnchored (vs : List Json) (tip : Json) (k : ℕ) : Type 0 where
  pub counted : k ≤ length vs
  pub agreed : same_text tip (tip_at k vs) ≡ true

past_refusal :
    (c : Bool) (r : AnchorRefusal) (m : Option AnchorRefusal)
    → (if c then m else some r) ≡ none
    → (c ≡ true) × (m ≡ none)
past_refusal true r m e = (refl, e)
past_refusal false r m e = cc

check_count-IsAnchored :
    (vs : List Json) (tip : Json) (k : ℕ) → check_count vs tip k ≡ none → IsAnchored vs tip k
unfolding check_count
check_count-IsAnchored vs tip k e =
    let parts : (ltb (length vs) k ≡ false) × (same_text tip (tip_at k vs) ≡ true) = ground arith in
    record { counted = ground arith; agreed = parts.1 }

check_position-IsAnchored :
    (vs : List Json) (tip count : Json)
    → check_position vs tip count ≡ none
    → (k : ℕ) × (count ≡ int (ℤ.pos k)) × IsAnchored vs tip k
unfolding check_position
check_position-IsAnchored vs tip (int (ℤ.pos k)) e = (k, refl, check_count-IsAnchored vs tip k e)
check_position-IsAnchored vs tip _ e = cc

-- The count and the tip of an anchor.
abbrev pub count_of : Json → Json
count_of anchor = get_or (codes "count") null (fields_of anchor)

abbrev pub published_tip : Json → Json
published_tip anchor = get_or (codes "chain_tip") null (fields_of anchor)

check_links-IsAnchored :
    (anchor : Fields) (tip links : Json)
    → check_links anchor tip links ≡ none
    → (k : ℕ) × (get_or (codes "count") null anchor ≡ int (ℤ.pos k))
      × IsAnchored (array_items links) tip k
unfolding check_links
check_links-IsAnchored anchor tip (arr vs) e =
    check_position-IsAnchored (items vs) tip (get_or (codes "count") null anchor)
      ((past_refusal _ _ _ e).1)
check_links-IsAnchored anchor tip _ e = cc

anchor_json-IsAnchored :
    (att anchor : Json)
    → anchor_json att anchor ≡ none
    → (k : ℕ) × (count_of anchor ≡ int (ℤ.pos k))
      × IsAnchored (links_of att) (published_tip anchor) k
unfolding anchor_json check_anchor
anchor_json-IsAnchored att (obj anchor) e =
    let (kind, e') = past_refusal _ _ _ e in
    let (tip, e2) = past_refusal _ _ _ e' in
    check_links-IsAnchored anchor (published_tip (obj anchor))
      (get_or (codes "links") null (fields_of att)) e2
anchor_json-IsAnchored att _ e = cc

check_anchor-IsAnchored :
    (att anchor : Json)
    → verify_against_anchor att anchor ≡ none
    → (k : ℕ) × (count_of anchor ≡ int (ℤ.pos k))
      × IsAnchored (links_of att) (published_tip anchor) k
unfolding verify_against_anchor
check_anchor-IsAnchored att anchor e = anchor_json-IsAnchored att anchor ((past_refusal _ _ _ e).1)

same_text-text : (tip v : Json) → same_text tip v ≡ true → (t : Text) × (tip ≡ str t) × (v ≡ str t)
same_text-text (str s) (str t) e = (t, cc ((text_eq_iff t s).0 e), refl)
same_text-text (str s) _ e = cc
same_text-text _ v e = cc

prefix_tip :
    (h : Host) (vs : List Json) (last : Text) (tip : Json) (k : ℕ)
    → IsWalked h genesis vs last
    → IsAnchored vs tip k
    → tip ≡ str (chain_from h genesis (take k (payload_texts h vs)))
unfolding tip_at
prefix_tip h vs last tip zero w a =
    let (t, published, held) = same_text-text tip (str genesis) a.agreed in published ∙ sym held
prefix_tip h vs last tip (suc k) w a =
    let (t, published, held) = same_text-text tip (chain_hash_of (nth vs k)) a.agreed in
    let (c, chained, same) =
      same_text-text (str (chain_from h genesis (take (suc k) (payload_texts h vs))))
        (chain_hash_of (nth vs k)) (w.stamped k a.counted) in
    published ∙ (sym held ∙ (same ∙ sym chained))

length-take {ℓ} : {A : Type ℓ} (k : ℕ) (xs : List A) → k ≤ length xs → length (take k xs) ≡ k
length-take zero xs l = refl
length-take (suc k) [] l = absurd (omega arith)
length-take (suc k) (x ∷ xs) l = ap suc (length-take k xs (omega arith))

length-payload_texts : (h : Host) (vs : List Json) → length (payload_texts h vs) ≡ length vs
length-payload_texts h [] = refl
length-payload_texts h (v ∷ vs) = ap suc (length-payload_texts h vs)

str-injective : {s t : Text} → str s ≡ str t → s ≡ t
str-injective e = cc

int-injective : {j k : ℕ} → int (ℤ.pos j) ≡ int (ℤ.pos k) → j ≡ k
int-injective e = cc

length-prefix :
    (h : Host) (vs : List Json) (k : ℕ) → k ≤ length vs → length (take k (payload_texts h vs)) ≡ k
length-prefix h vs k l =
    length-take k (payload_texts h vs) (omega (arith, length-payload_texts h vs))

same_prefix :
    (h : Host) (g : IsDigest h) (us vs : List Json) (a b : Text) (tip : Json) (j k : ℕ)
    → IsWalked h genesis us a
    → IsWalked h genesis vs b
    → IsAnchored us tip j
    → IsAnchored vs tip k
    → j ≡ k
    → take j (payload_texts h us) ≡ take k (payload_texts h vs)
same_prefix h g us vs a b tip j k wu wv au av e =
    (chain_from-injective h g genesis genesis (take j (payload_texts h us))
      (take k (payload_texts h vs))
      (length-prefix h us j au.counted ∙ (e ∙ sym (length-prefix h vs k av.counted)))
      (str-injective (sym (prefix_tip h us a tip j wu au) ∙ prefix_tip h vs b tip k wv av))).1

-- Under a digest without collisions: two attestations that are both valid, and both agree with one published
-- anchor, bind the same fields in each of the first receipts, as many as the anchor counts.  An operator
-- who mints the log again after publication is caught by the anchor.
pub anchored_prefix_fixed :
    (h : Host) (g : IsDigest h) (att att2 anchor : Json) (ws ws2 : List Warning)
    → verify_action_attestation h att ≡ ok (valid ws)
    → verify_action_attestation h att2 ≡ ok (valid ws2)
    → verify_against_anchor att anchor ≡ none
    → verify_against_anchor att2 anchor ≡ none
    → (k : ℕ) × (count_of anchor ≡ int (ℤ.pos k))
      × (k ≤ length (links_of att))
      × (take k (payload_texts h (links_of att)) ≡ take k (payload_texts h (links_of att2)))
anchored_prefix_fixed h g att att2 anchor ws ws2 e e2 a a2 =
    let (w, walked) = valid_walked h att ws e in
    let (w2, walked2) = valid_walked h att2 ws2 e2 in
    let (k, count, held) = check_anchor-IsAnchored att anchor a in
    let (k2, count2, held2) = check_anchor-IsAnchored att2 anchor a2 in
    (
      k,
      count,
      held.counted,
      same_prefix h g (links_of att) (links_of att2) w.prev w2.prev (published_tip anchor) k k2
            (walk_links-IsWalked h 0 start w (links_of att) walked)
            (walk_links-IsWalked h 0 start w2 (links_of att2) walked2) held held2
            (int-injective (sym count ∙ count2))
          ∙ ap (λ j. take j (payload_texts h (links_of att2))) (int-injective (sym count2 ∙ count)),
    )
