-- ===== src/Action/Fresh.antt =====
-- The verifier's walk over the links of a log that `record` wrote.
use kry.Base.{
  ℕ, suc, ◌+◌, ◌≤◌, ◌≡◌, refl, sym, ap, ◌∙◌, subst, arith, true, false, Bool-cases, inl, inr, List,
  [], ◌∷◌, ◌++◌, map,
}
use kry.Base.Texts.{Text, codes, text_eq, text_eq_refl, text_eq_iff, mem_text}
use kry.Base.Results.{ok}
use kry.Double.{Double, is_finite}
use kry.Json.Values.{Json, float, obj, Fields, get, get_or}
use kry.Action.Receipt.{Host, bad_f64, canon_f64, payload, ActionReceipt, receipt_fields}
use kry.Action.Log.{receipt_id_of}
use kry.Action.Chain.{receipt_parts, canon-receipt, IsLinked, IsChain, tip_of}
use kry.Action.Attest.{link_fields}
use kry.Action.Stranger.{
  Walk, Step, next, receipt_payload, step_ts, step_hashes, step_id, step_link, walk_links,
}

-- Digits tell numbers apart, and no finite double is packed as the sentinel, which is a nan.
pub record IsFaithful (h : Host) : Type 0 where
  pub digits : (m n : ℕ) → h.int_text m ≡ h.int_text n → m ≡ n
  pub packed : (d : Double) → is_finite d ≡ true → text_eq (h.pack_f64 d) bad_f64 ≡ false

unfoldable pub link_of : ActionReceipt → Fields
link_of r = link_fields (receipt_fields r)

abbrev pub link_json : ActionReceipt → Json
link_json r = obj (link_of r)

receipt_payload-link :
    (h : Host) (r : ActionReceipt) → receipt_payload h (link_of r) ≡ receipt_parts h r
unfolding receipt_payload link_of link_fields receipt_fields get get_or text_eq
receipt_payload-link h r = refl

canon_f64-finite :
    (h : Host) (d : Double)
    → IsFaithful h
    → is_finite d ≡ true
    → text_eq (canon_f64 h (float d)) bad_f64 ≡ false
unfolding canon_f64
canon_f64-finite h d g e = rw e (g.packed d e)

-- Where the walk goes on after a link.
IsPast : Walk → ActionReceipt → Step → Type 0
IsPast w r s = (x : Walk) × (s ≡ next x) × (x.prev ≡ r.chain_hash) × (x.seen ≡ w.seen)

step_ts-receipt :
    (h : Host) (i : ℕ) (w : Walk) (r : ActionReceipt)
    → IsFaithful h
    → is_finite r.ts ≡ true
    → IsPast w r (step_ts h i r.chain_hash w (link_of r))
unfolding IsPast step_ts link_of link_fields receipt_fields get get_or text_eq
step_ts-receipt h i w r g e = rw (canon_f64-finite h r.ts g e) (_, refl, refl, refl)

step_hashes-receipt :
    (h : Host) (i n : ℕ) (w : Walk) (r : ActionReceipt)
    → IsFaithful h
    → IsLinked h w.prev n r
    → IsPast w r
        (step_hashes h i w (link_of r) (h.sha256 (h.json_text (payload (receipt_parts h r)))))
unfolding step_hashes link_of link_fields receipt_fields get get_or text_eq
step_hashes-receipt h i n w r g l = rw (← l.hashed) (
    rw (text_eq_refl r.receipt_hash)
      (rw (← l.chained) (rw (text_eq_refl r.chain_hash) (step_ts-receipt h i w r g l.timed))))

-- No number from n on is the number of a link that was seen.
abbrev pub IsUnseen : Host → ℕ → List Text → Type 0
IsUnseen h n seen = (m : ℕ) → n ≤ m → mem_text (receipt_id_of h m) seen ≡ false

prefix-injective : (s t : Text) → codes "act-" ++ s ≡ codes "act-" ++ t → s ≡ t
prefix-injective s t e = cc

id_differs :
    (h : Host) (m n : ℕ)
    → IsFaithful h
    → suc n ≤ m
    → text_eq (receipt_id_of h m) (receipt_id_of h n) ≡ false
unfolding receipt_id_of
id_differs h m n g le = elim (Bool-cases (text_eq (receipt_id_of h m) (receipt_id_of h n))) [
  | inl same ↦
      let equal : m ≡ n = g.digits m n (
        prefix-injective (h.int_text m) (h.int_text n)
          ((text_eq_iff (receipt_id_of h m) (receipt_id_of h n)).0 same)) in
      absurd (omega (arith, equal, le))
  | inr differ ↦ differ
]

seen_next :
    (h : Host) (n : ℕ) (seen : List Text) (id : Text)
    → IsFaithful h
    → id ≡ receipt_id_of h n
    → IsUnseen h n seen
    → IsUnseen h (suc n) (id ∷ seen)
unfolding mem_text
seen_next h n seen id g e u m le = rw (e, id_differs h m n g le) (u m (omega (arith, le)))

step_link-receipt :
    (h : Host) (i n : ℕ) (w : Walk) (r : ActionReceipt)
    → IsFaithful h
    → IsUnseen h n w.seen
    → IsLinked h w.prev n r
    → (s : Step) × (step_link h i w (link_json r) ≡ ok s)
      × IsPast (record w { seen = r.receipt_id ∷ w.seen }) r s
unfolding step_link step_id link_of link_fields receipt_fields get get_or text_eq
step_link-receipt h i n w r g u l =
    let fresh : mem_text r.receipt_id w.seen ≡ false = rw l.id (u n (omega arith)) in
    (
      _,
      rw (fresh, receipt_payload-link h r, canon-receipt h r) refl,
      step_hashes-receipt h i n (record w { seen = r.receipt_id ∷ w.seen }) r g l,
    )

-- The whole walk.
pub walk_links-chain :
    (h : Host) (i n : ℕ) (w : Walk) (rs : List ActionReceipt)
    → IsFaithful h
    → IsUnseen h n w.seen
    → IsChain h w.prev n rs
    → (x : Walk) × (walk_links h i w (map link_json rs) ≡ ok (next x)) × (x.prev ≡ tip_of w.prev rs)
unfolding walk_links IsPast
walk_links-chain h i n w [] g u c = (w, refl, refl)
walk_links-chain h i n w (r ∷ rs) g u c =
    let (s, stepped, past) = step_link-receipt h i n w r g u c.0 in
    let (x, is_next, prev, seen) = past in
    let (y, walked, tip) =
      walk_links-chain h (i + 1) (suc n) x rs g
        (subst (IsUnseen h (suc n)) (sym seen) (seen_next h n w.seen r.receipt_id g c.0.id u))
        (subst (λ p. IsChain h p (suc n) rs) (sym prev) c.1) in
    (y, rw (stepped, is_next) walked, tip ∙ ap (λ p. tip_of p rs) prev)
