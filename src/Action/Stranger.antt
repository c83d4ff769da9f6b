-- ===== src/Action/Stranger.antt =====
-- scripts/kry_action_verify.py: the check of an attestation by code that imports no part of kry.  Its
-- canonical encodings are those of the package, byte for byte, and taken from there.
use kry.Base.{
  ℕ, zero, suc, ◌+◌, ◌-◌, ◌*◌, ◌==◌, Bool, true, false, ◌&&◌, not, if◌then◌else◌, Option, none,
  some, List, [], ◌∷◌, ◌++◌, length,
}
use kry.Base.Int.{ℤ}
use kry.Base.Texts.{Text, codes, text_eq, mem_text}
use kry.Base.Results.{Result, ok, ◌>>=◌}
use kry.Double.{Double, fin, one_units, sub, abs, lt, literal, is_finite, of_int}
use kry.Json.Values.{
  Json, null, int, float, str, arr, obj, items, Fields, end, get, get_or, is_text, truthy,
}
use kry.Json.Limits.{check_value_limits, is_within}
use kry.Action.Receipt.{
  Host, canon, canon_f64, bad_f64, PayloadParts, payload, link_hash, genesis, self_reported,
  anchored_tiers,
}
use kry.Action.Attest.{floor_of}

-- The first thing that is wrong; a number is the position of the link.
pub data Refusal : Type 0 where
  over_limits not_an_object bad_kind bad_version no_links : Refusal
  link_not_object id_not_text duplicate_id receipt_broken chain_broken bad_ts : ℕ → Refusal
  tip_mismatch count_mismatch bad_veracity bad_floor floor_mismatch : Refusal

pub data Warning : Type 0 where
  ts_backwards : ℕ → Warning
  coerced : ℕ → Warning
  no_floor : Warning

pub data Verdict : Type 0 where
  valid : List Warning → Verdict
  invalid : Refusal → List Warning → Verdict

-- The variables of the loop over the links.
pub record Walk : Type 0 where
  pub prev : Text
  pub seen : List Text
  pub last_ts : Option Json
  pub warnings : List Warning

pub data Step : Type 0 where
  next : Walk → Step
  stop : Refusal → List Warning → Step

-- `_receipt_payload`
module _ (h : Host) where
  unfoldable pub receipt_payload : Fields → PayloadParts
  unfolding get get_or canon_f64
  receipt_payload link = record {
    tool = get_or (codes "tool") (str []) link;
    args_commit = get_or (codes "args_commit") (str []) link;
    result_commit = get_or (codes "result_commit") null link;
    status = get_or (codes "status") (str []) link;
    ts = canon_f64 h (get_or (codes "ts") null link);
    agent_id = get_or (codes "agent_id") (str []) link;
    evidence_tier = get_or (codes "evidence_tier") (str []) link;
    server_evidence_commit = get_or (codes "server_evidence_commit") null link;
  }

-- A number as an exact value, for the comparison of two timestamps.
abbrev pub exact : Json → Option Double
exact (int (ℤ.pos n)) = some (fin (ℤ.pos (n * one_units)))
exact (int (ℤ.negsuc n)) = some (fin (ℤ.negsuc (suc n * one_units - 1)))
exact (float d) = some d
exact _ = none

abbrev pub before : Option Double → Option Double → Bool
before (some a) (some b) = lt a b
before _ _ = false

abbrev pub exact_of : Option Json → Option Double
exact_of none = none
exact_of (some v) = exact v

abbrev pub or_last : Option Json → Json → Option Json
or_last last (int n) = some (int n)
or_last last (float d) = some (float d)
or_last last _ = last

abbrev pub is_given : Option Json → Bool
is_given none = false
is_given (some v) = true

module _ (h : Host) where
  -- The warning about a timestamp, and the next state of the loop.
  unfoldable pub step_ts : ℕ → Text → Walk → Fields → Step
  unfolding get get_or canon_f64 text_eq lt
  step_ts i prev w link =
      let ts = get_or (codes "ts") null link in
      if is_given (get (codes "ts") link) && text_eq (canon_f64 h ts) bad_f64
      then stop (bad_ts i) w.warnings
      else next (record {
        prev = prev;
        seen = w.seen;
        last_ts = or_last w.last_ts ts;
        warnings =
            if before (exact ts) (exact_of w.last_ts)
            then w.warnings ++ ts_backwards i ∷ []
            else w.warnings;
      })

  unfoldable pub step_hashes : ℕ → Walk → Fields → Text → Step
  unfolding step_ts link_hash
  step_hashes i w link receipt =
      let chain = link_hash h w.prev receipt in
      if is_text receipt (get_or (codes "receipt_hash") null link)
      then (if is_text chain (get_or (codes "chain_hash") null link)
          then step_ts i chain w link
          else stop (chain_broken i) w.warnings)
      else stop (receipt_broken i) w.warnings

  unfoldable pub step_id : ℕ → Walk → Fields → Json → Result Step
  unfolding step_hashes receipt_payload canon mem_text
  step_id i w link (str rid) =
      if mem_text rid w.seen then ok (stop (duplicate_id i) w.warnings) else (do
        p ← canon h (payload (receipt_payload h link))
        ok (step_hashes i (record w { seen = rid ∷ w.seen }) link (h.sha256 p)))
  step_id i w link v = ok (stop (id_not_text i) w.warnings)

  unfoldable pub step_link : ℕ → Walk → Json → Result Step
  unfolding step_id
  step_link i w (obj link) = step_id i w link (get_or (codes "receipt_id") null link)
  step_link i w v = ok (stop (link_not_object i) w.warnings)

  abbrev pub walk_on : Step → (Walk → Result Step) → Result Step
  walk_on (next w) rest = rest w
  walk_on (stop r ws) rest = ok (stop r ws)

  unfoldable pub walk_links : ℕ → Walk → List Json → Result Step
  unfolding step_link
  walk_links i w [] = ok (next w)
  walk_links i w (v ∷ vs) = do s ← step_link i w v; walk_on s (λ w'. walk_links (i + 1) w' vs)

abbrev pub start : Walk
start = record { prev = genesis; seen = []; last_ts = none; warnings = [] }

abbrev pub fields_of : Json → Fields
fields_of (obj d) = d
fields_of _ = end

abbrev pub anchored_text : Json → Bool
anchored_text (str t) = mem_text t anchored_tiers
anchored_text _ = false

-- `_effective_tier(link) in _ANCHORED_TIERS`; no link gives a default tier that is anchored.
unfoldable pub is_credited : Fields → Bool
unfolding get get_or mem_text
is_credited link =
    anchored_text (get_or (codes "evidence_tier") (str self_reported) link)
    && truthy (get_or (codes "server_evidence_commit") null link)

unfoldable pub is_coerced : Fields → Bool
unfolding get get_or mem_text
is_coerced link =
    anchored_text (get_or (codes "evidence_tier") null link)
    && not (truthy (get_or (codes "server_evidence_commit") null link))

-- `sum(1 for link in links if ...)`
unfoldable pub count_links : (Fields → Bool) → List Json → ℕ
count_links p [] = 0
count_links p (v ∷ vs) = let rest = count_links p vs in if p (fields_of v) then suc rest else rest

abbrev pub warn_coerced : ℕ → List Warning → List Warning
warn_coerced zero ws = ws
warn_coerced (suc n) ws = ws ++ coerced (suc n) ∷ []

-- A claimed floor, as a double; too large an integer is not finite.
abbrev pub claimed_floor : Json → Option Double
claimed_floor (int n) = if is_finite (of_int n) then some (of_int n) else none
claimed_floor (float d) = if is_finite d then some d else none
claimed_floor _ = none

unfoldable pub check_floor : Double → List Warning → Option Json → Verdict
unfolding sub abs lt literal of_int
check_floor derived ws none = valid (ws ++ no_floor ∷ [])
check_floor derived ws (some v) = elim (claimed_floor v) [
  | none ↦ invalid bad_floor ws
  | some claimed ↦
      if lt (literal 1 100) (abs (sub claimed derived)) then invalid floor_mismatch ws else valid ws
]

unfoldable pub check_veracity : Double → List Warning → Option Json → Verdict
unfolding check_floor
check_veracity derived ws none = check_floor derived ws none
check_veracity derived ws (some (obj v)) = check_floor derived ws (get (codes "veracity_floor") v)
check_veracity derived ws (some v) = invalid bad_veracity ws

-- `isinstance(v, int) and v == n`, and no bool.
abbrev pub is_int : ℕ → Json → Bool
is_int n (int (ℤ.pos m)) = m == n
is_int n _ = false

-- After the loop: the tip, the count and the veracity surface.
unfoldable pub check_totals : Fields → List Json → Step → Verdict
unfolding check_veracity is_credited is_coerced count_links floor_of text_eq get get_or
check_totals att links (stop r ws) = invalid r ws
check_totals att links (next w) =
    if is_text w.prev (get_or (codes "chain_tip") null att)
    then (if is_int (length links) (get_or (codes "action_count") null att)
        then check_veracity (floor_of (count_links is_credited links) (length links))
            (warn_coerced (count_links is_coerced links) w.warnings) (get (codes "veracity") att)
        else invalid count_mismatch w.warnings)
    else invalid tip_mismatch w.warnings

module _ (h : Host) where
  unfoldable pub verify_links : Fields → Json → Result Verdict
  unfolding walk_links check_totals
  verify_links att (arr vs) = do
    s ← walk_links h 0 start (items vs)
    ok (check_totals att (items vs) s)
  verify_links att v = ok (invalid no_links [])

  unfoldable pub verify_fields : Fields → Result Verdict
  unfolding verify_links
  verify_fields att =
      if is_text (codes "kry_action_attestation") (get_or (codes "kind") null att)
      then (if is_int 1 (get_or (codes "action_hash_version") null att)
          then verify_links att (get_or (codes "links") null att)
          else ok (invalid bad_version []))
      else ok (invalid bad_kind [])

  unfoldable pub verify_json : Json → Result Verdict
  unfolding verify_fields
  verify_json (obj att) = verify_fields att
  verify_json v = ok (invalid not_an_object [])

  unfoldable pub verify_action_attestation : Json → Result Verdict
  unfolding verify_json check_value_limits
  verify_action_attestation v =
      if is_within (check_value_limits v) then verify_json v else ok (invalid over_limits [])
