-- ===== src/Settlement/Chain.antt =====
-- The hash chain of the settlement registry: `verify_registry` and `_load_registry`.
use kry.Base.{
  ℕ, suc, Bool, true, false, ◌&&◌, not, ltb, ◌==◌, if◌then◌else◌, Option, none, some, List, [], ◌∷◌,
  ◌++◌, length,
}
use kry.Base.Texts.{Text, codes, text_eq}
use kry.Base.Dicts.{lookup, insert}
use kry.Base.Results.{Result, ok, err, value_error, ◌>>=◌}
use kry.Double.{Double, add, zero_double, literal, eq}
use kry.Settlement.Host.{float_text, Host}
use kry.Settlement.Grants.{grants_payload}
use kry.Settlement.Entries.{Entry, Tip, TipFile, Registry, registry_entries, read_tip}

abbrev pub Totals : Type 0
Totals = List (Text × Double)

abbrev pub or_zero : Option Double → Double
or_zero none = zero_double
or_zero (some a) = a

-- `totals.get(party, 0.0)`
unfoldable pub total_of : Text → Totals → Double
unfolding lookup
total_of p d = or_zero (lookup p d)

-- `totals[e["party"]] = totals.get(e["party"], 0.0) + e["amount"]`
unfoldable pub add_entry : Totals → Entry → Totals
add_entry d e = insert e.party (add (total_of e.party d) e.amount) d

unfoldable pub totals_from : Totals → List Entry → Totals
totals_from d [] = d
totals_from d (e ∷ es) = totals_from (add_entry d e) es

unfoldable pub genesis : Text
genesis = codes "0000000000000000000000000000000000000000000000000000000000000000"

module _ (h : Host) where
  -- The text `f"{prev}:{party}:{amount}:{payload}"`.
  unfoldable pub entry_text : Text → Text → Double → Text → Text
  entry_text prev party amount payload =
      prev ++ (b':' ∷ (party ++ (b':' ∷ (float_text h amount ++ (b':' ∷ payload)))))

  unfoldable pub entry_digest : Text → Text → Double → Text → Text
  entry_digest prev party amount payload = h.sha256 (entry_text prev party amount payload)

  unfoldable pub expected_hash : Text → Entry → Text
  expected_hash prev e = entry_digest prev e.party e.amount (grants_payload e.grants)

-- The messages of `verify_registry`.
pub data Problem : Type 0 where
  unreadable : Problem
  hash_broken : ℕ → Problem
  tip_invalid : Problem
  truncated : Problem
  tip_mismatch : Problem

-- The loop over the entries: the broken ones, by number from 1, and the last hash.
unfoldable pub check_chain : (h : Host) → Text → ℕ → List Entry → List Problem × Text
check_chain h prev i [] = ([], prev)
check_chain h prev i (e ∷ es) =
    let (rest, last) = check_chain h e.entry_hash (suc i) es in
    (if text_eq e.entry_hash (expected_hash h prev e) then rest else hash_broken i ∷ rest, last)

-- `entries[-1]["entry_hash"] if entries else "0" * 64`
unfoldable pub last_hash : Text → List Entry → Text
last_hash prev [] = prev
last_hash prev (e ∷ es) = last_hash e.entry_hash es

-- HOLE F: the live log must not be shorter than the checkpoint, nor end elsewhere at its length.
unfoldable pub check_tip : ℕ → Text → Option Tip → List Problem
check_tip count prev none = []
check_tip count prev (some t) =
    if ltb count t.count
    then truncated ∷ []
    else if count == t.count && not (text_eq prev t.tip)
    then tip_mismatch ∷ []
    else []

-- `except ValueError`: what else reading the tip may raise goes on to the caller.
unfoldable pub tip_problems : ℕ → Text → Result (Option Tip) → Result (List Problem)
tip_problems count prev (ok t) = ok (check_tip count prev t)
tip_problems count prev (err value_error) = ok (tip_invalid ∷ [])
tip_problems count prev (err e) = err e

abbrev pub is_nil {ℓ} : {A : Type ℓ} → List A → Bool
is_nil [] = true
is_nil (_ ∷ _) = false

verify_entries : (h : Host) → TipFile → List Entry → Result (Bool × List Problem)
verify_entries h tip es = do
  let chain = check_chain h genesis 1 es
  problems ← tip_problems (length es) chain.1 (read_tip tip)
  ok (is_nil (chain.0 ++ problems), chain.0 ++ problems)

-- With the entries read, or a `ValueError` from reading them.
unfoldable pub judge : (h : Host) → TipFile → Result (List Entry) → Result (Bool × List Problem)
unfolding verify_entries
judge h tip (ok es) = verify_entries h tip es
judge h tip (err _) = ok (false, unreadable ∷ [])

unfoldable pub verify_registry : (h : Host) → Registry → Result (Bool × List Problem)
unfolding judge
verify_registry h r = judge h r.tip (registry_entries r.file)

-- The poisoned registry `{"__tampered__": True}`; True counts as the number 1.
abbrev pub tampered_key : Text
tampered_key = codes "__tampered__"

unfoldable pub poisoned : Totals
unfolding literal
poisoned = (tampered_key, literal 1 1) ∷ []

-- `registry.get("__tampered__")` as a condition.
unfoldable pub is_tampered : Totals → Bool
is_tampered d = not (eq (total_of tampered_key d) zero_double)

unfoldable pub load_registry : (h : Host) → Registry → Result Totals
load_registry h r = do
  verdict ← verify_registry h r
  if verdict.0 then (do es ← registry_entries r.file; ok (totals_from [] es)) else ok poisoned
