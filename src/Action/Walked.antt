-- ===== src/Action/Walked.antt =====
-- The hashes of the links that the loop of `verify_action_attestation` passes.
use kry.Base.{
  ℕ, zero, suc, ◌+◌, ◌<◌, ◌≡◌, refl, ap, ◌∙◌, arith, Bool, true, false, List, [], ◌∷◌, map, length,
  take, if◌then◌else◌,
}
use kry.Base.Texts.{Text, codes, mem_text}
use kry.Base.Results.{Result, ok, >>=-eq-ok, ok-injective}
use kry.Json.Values.{Json, null, str, obj, Fields, get_or, is_text}
use kry.Action.Receipt.{Host, canon, payload, link_hash}
use kry.Action.Stranger.{
  Walk, Step, Refusal, Warning, next, stop, receipt_payload, step_ts, step_hashes, step_id,
  step_link, walk_on, walk_links, fields_of,
}
use kry.Action.Anchor.{nth, chain_hash_of}

-- The texts whose digests the chain is made of.
abbrev pub payload_text : Host → Json → Text
payload_text h v = h.json_text (payload (receipt_payload h (fields_of v)))

abbrev pub payload_texts : Host → List Json → List Text
payload_texts h vs = map (payload_text h) vs

-- The chain hash after texts.
abbrev pub chain_from : Host → Text → List Text → Text
chain_from h prev [] = prev
chain_from h prev (t ∷ ts) = chain_from h (link_hash h prev (h.sha256 t)) ts

-- A link that the loop passes is chained to the hash before it.
abbrev IsPassed : Host → Walk → Json → Step → Type 0
IsPassed h w v (stop r ws) = Unit {0}
IsPassed h w v (next w') =
    (w'.prev ≡ link_hash h w.prev (h.sha256 (payload_text h v)))
    × (is_text w'.prev (get_or (codes "chain_hash") null (fields_of v)) ≡ true)

past_stop :
    (c : Bool) (r : Refusal) (ws : List Warning) (s : Step) (w : Walk)
    → (if c then stop r ws else s) ≡ next w
    → (c ≡ false) × (s ≡ next w)
past_stop true r ws s w e = cc
past_stop false r ws s w e = (refl, e)

else_stop :
    (c : Bool) (r : Refusal) (ws : List Warning) (s : Step) (w : Walk)
    → (if c then s else stop r ws) ≡ next w
    → (c ≡ true) × (s ≡ next w)
else_stop true r ws s w e = (refl, e)
else_stop false r ws s w e = cc

next-prev : {w w' : Walk} → next w ≡ next w' → w'.prev ≡ w.prev
next-prev e = cc

step_ts-prev :
    (h : Host) (i : ℕ) (prev : Text) (w w' : Walk) (d : Fields)
    → step_ts h i prev w d ≡ next w'
    → w'.prev ≡ prev
unfolding step_ts
step_ts-prev h i prev w w' d e = next-prev ((past_stop _ _ _ _ w' e).1)

step_hashes-passed :
    (h : Host) (i : ℕ) (w w' : Walk) (d : Fields) (receipt : Text)
    → step_hashes h i w d receipt ≡ next w'
    → (w'.prev ≡ link_hash h w.prev receipt)
      × (is_text (link_hash h w.prev receipt) (get_or (codes "chain_hash") null d) ≡ true)
unfolding step_hashes
step_hashes-passed h i w w' d receipt e =
    let inner = (else_stop _ _ _ _ w' e).1 in
    let (chained, stamped) = else_stop _ _ _ _ w' inner in
    (step_ts-prev h i (link_hash h w.prev receipt) w w' d stamped, chained)

past_duplicate :
    (c : Bool) (r : Refusal) (ws : List Warning) (m : Result Step) (w : Walk)
    → (if c then ok (stop r ws) else m) ≡ ok (next w)
    → m ≡ ok (next w)
past_duplicate true r ws m w e = cc
past_duplicate false r ws m w e = e

canon-ok : (h : Host) (v : Json) (t : Text) → canon h v ≡ ok t → t ≡ h.json_text v
unfolding canon
canon-ok h v t e = ground arith

step_id-IsPassed :
    (h : Host) (i : ℕ) (w w' : Walk) (d : Fields) (id : Json)
    → step_id h i w d id ≡ ok (next w')
    → IsPassed h w (obj d) (next w')
unfolding step_id
step_id-IsPassed h i w w' d (str rid) e =
    let hashed = past_duplicate (mem_text rid w.seen) _ _ _ w' e in
    let (t, texts, e') = >>=-eq-ok (canon h (payload (receipt_payload h d))) _ hashed in
    let (linked, stamped) =
      step_hashes-passed h i (record w { seen = rid ∷ w.seen }) w' d (h.sha256 t)
        (ok-injective e') in
    let same : t ≡ payload_text h (obj d) = canon-ok h _ t texts in
    let prev = rw same at linked in (prev, rw prev (rw same at stamped))
step_id-IsPassed h i w w' d _ e = cc

step_link-IsPassed :
    (h : Host) (i : ℕ) (w w' : Walk) (v : Json)
    → step_link h i w v ≡ ok (next w')
    → IsPassed h w v (next w')
unfolding step_link
step_link-IsPassed h i w w' (obj d) e = step_id-IsPassed h i w w' d _ e
step_link-IsPassed h i w w' _ e = cc

walk_step :
    (h : Host) (i : ℕ) (w w' : Walk) (vs : List Json) (s : Step)
    → walk_on h s (λ x. walk_links h i x vs) ≡ ok (next w')
    → (x : Walk) × (s ≡ next x) × (walk_links h i x vs ≡ ok (next w'))
walk_step h i w w' vs (next x) e = (x, refl, e)
walk_step h i w w' vs (stop r ws) e = cc

-- The links that were passed, from the hash prev to the hash last.
pub record IsWalked (h : Host) (prev : Text) (vs : List Json) (last : Text) : Type 0 where
  pub ends : last ≡ chain_from h prev (payload_texts h vs)
  pub stamped :
      (k : ℕ)
      → k < length vs
      → is_text (chain_from h prev (take (suc k) (payload_texts h vs))) (chain_hash_of (nth vs k))
        ≡ true

stamped_links :
    (h : Host) (prev next_prev last : Text) (v : Json) (vs : List Json)
    → next_prev ≡ link_hash h prev (h.sha256 (payload_text h v))
    → is_text next_prev (get_or (codes "chain_hash") null (fields_of v)) ≡ true
    → IsWalked h next_prev vs last
    → (k : ℕ) → k < length (v ∷ vs)
    → is_text
        (chain_from h prev (take (suc k) (payload_texts h (v ∷ vs))))
        (chain_hash_of (nth (v ∷ vs) k))
      ≡ true
stamped_links h prev np last v vs e t w zero l = rw (← e) t
stamped_links h prev np last v vs e t w (suc k) l = rw (← e) (w.stamped k (omega arith))

pub walk_links-IsWalked :
    (h : Host) (i : ℕ) (w w' : Walk) (vs : List Json)
    → walk_links h i w vs ≡ ok (next w')
    → IsWalked h w.prev vs w'.prev
unfolding walk_links
walk_links-IsWalked h i w w' [] e = record {
  ends = next-prev (ok-injective e);
  stamped = λ k l. absurd (omega arith);
}
walk_links-IsWalked h i w w' (v ∷ vs) e =
    let (s, stepped, e') = >>=-eq-ok (step_link h i w v) _ e in
    let (x, continued, e2) = walk_step h (i + 1) w w' vs s e' in
    let (prev, stamp) = step_link-IsPassed h i w x v (rw continued at stepped) in
    let rest = walk_links-IsWalked h (i + 1) x w' vs e2 in
    record {
      ends = rest.ends ∙ ap (λ z. chain_from h z (payload_texts h vs)) prev;
      stamped = stamped_links h w.prev x.prev w'.prev v vs prev stamp rest;
    }
