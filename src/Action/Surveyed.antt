-- ===== src/Action/Surveyed.antt =====
-- The counts and the floor that an attestation declares are those that the verifier derives.
use kry.Base.{
  ℕ, zero, suc, ◌+◌, ◌-◌, ◌*◌, ◌≤◌, ◌<◌, ◌≡◌, refl, ap, ◌∙◌, arith, Bool, true, false, ◌&&◌, not,
  ltb, if◌then◌else◌, some, List, [], ◌∷◌, map, length,
}
use kry.Base.Int.{pos}
use kry.Base.Texts.{Text, text_eq, mem_text}
use kry.Base.Results.{Result, ok}
use kry.Double.{fin, round_to, literal, one_units, IsDouble, sub, abs, lt}
use kry.Double.Order.{round_to-le, sub-pos, one_exact, round_decimals-le}
use native.Mathlib.Nat.{mul-le-mul_right, mul_comm}
use kry.Json.Values.{Json, str, float, Fields, get, get_or, truthy}
use kry.Action.Receipt.{ActionReceipt, receipt_fields, anchored_tiers, self_reported, json_of}
use kry.Action.Attest.{link_fields, credited_tier, count_anchored, is_anchored, floor_of}
use kry.Action.Stranger.{is_credited, count_links, check_floor, valid, Warning}
use kry.Action.Fresh.{link_of, link_json}

credited :
    (m b : Bool) (t : Text)
    → mem_text t anchored_tiers ≡ m
    → is_anchored (if m && not b then str self_reported else str t) ≡ (m && b)
unfolding mem_text text_eq
credited true true t e = e
credited true false t e = refl
credited false b t e = e

credited_tier-link :
    (r : ActionReceipt)
    → (t : Json) × (credited_tier (link_of r) ≡ ok t) × (is_anchored t ≡ is_credited (link_of r))
unfolding credited_tier is_credited link_of link_fields receipt_fields get get_or text_eq
credited_tier-link r = (
  _,
  refl,
  credited (mem_text r.evidence_tier anchored_tiers) (truthy (json_of r.server_evidence_commit))
      r.evidence_tier refl,
)

bumped :
    (b : Bool) (n : ℕ)
    → ◌≡◌ {A = Result ℕ} (ok (if b then n + 1 else n)) (ok (if b then suc n else n))
bumped b n = ground arith

pub count_anchored-links :
    (rs : List ActionReceipt)
    → count_anchored (map link_of rs) ≡ ok (count_links is_credited (map link_json rs))
unfolding count_anchored count_links
count_anchored-links [] = refl
count_anchored-links (r ∷ rs) =
    let (t, e, a) = credited_tier-link r in
    rw (e, count_anchored-links rs, a) (bumped (is_credited (link_of r)) _)

pub count_links-le : (p : Fields → Bool) (vs : List Json) → count_links p vs ≤ length vs
unfolding count_links
count_links-le p [] = omega arith
count_links-le p (v ∷ vs) = ground (arith, count_links-le p vs)

positive : (n : ℕ) → ltb 0 (suc n) ≡ true
positive n = ground arith

zero_exact : IsDouble (pos 0)
unfolding round_to
zero_exact = refl

-- A fraction of at most 1.
literal-le :
    (n den : ℕ) → 0 < den → n ≤ den → (v : ℕ) × (literal n den ≡ fin (pos v)) × (v ≤ one_units)
unfolding literal
literal-le n den p le =
    round_to-le (n * one_units) one_units den p
      (omega (arith, mul-le-mul_right one_units le, mul_comm den one_units)) one_exact

-- A floor is a number from 0 to 1.
pub floor_of-fin : (n total : ℕ) → n ≤ total → (v : ℕ) × (floor_of n total ≡ fin (pos v))
unfolding floor_of
floor_of-fin n zero le = (0, refl)
floor_of-fin n (suc total) le =
    let (a, is_a, small) = literal-le n (suc total) (omega arith) le in
    let (v, is_v, bound) = round_decimals-le 4 a small in (v, rw (positive total, is_a) is_v)

self_difference : (v : ℕ) → sub (fin (pos v)) (fin (pos v)) ≡ fin (pos 0)
self_difference v =
    sub-pos v v (omega arith)
    ∙ (ap (λ n. round_to (pos n) 1) {x = v - v} {y = 0} (omega arith) ∙ zero_exact)

pub check_floor-same :
    (v : ℕ) (ws : List Warning)
    → check_floor (fin (pos v)) ws (some (float (fin (pos v)))) ≡ valid ws
unfolding check_floor abs lt literal
check_floor-same v ws = rw (self_difference v) refl
