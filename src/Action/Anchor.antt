-- ===== src/Action/Anchor.antt =====
-- `verify_against_anchor` and the command line of scripts/kry_action_verify.py.
use kry.Base.{
  ℕ, zero, suc, ◌+◌, ◌-◌, ◌==◌, Bool, true, false, ◌&&◌, ◌||◌, not, ltb, if◌then◌else◌, Option,
  none, some, List, [], ◌∷◌, length, all, any,
}
use kry.Base.Int.{ℤ}
use kry.Base.Texts.{codes, text_eq}
use kry.Base.Results.{Result, ok, err, ◌>>=◌}
use kry.Json.Values.{Json, null, int, str, arr, obj, items, Fields, get, get_or, is_text}
use kry.Json.Limits.{check_value_limits, is_within}
use kry.Action.Receipt.{Host, is_hex, genesis}
use kry.Action.Stranger.{Verdict, valid, invalid, fields_of, is_given, verify_action_attestation}

pub data AnchorRefusal : Type 0 where
  over_limits not_an_anchor bad_tip no_links bad_links bad_count : AnchorRefusal
  actions_dropped tip_differs unreadable_anchor : AnchorRefusal

abbrev pub nth : List Json → ℕ → Option Json
nth [] i = none
nth (v ∷ vs) zero = some v
nth (v ∷ vs) (suc i) = nth vs i

abbrev pub is_object : Json → Bool
is_object (obj d) = true
is_object _ = false

abbrev pub has_chain_hash : Json → Bool
has_chain_hash v = is_object v && is_given (get (codes "chain_hash") (fields_of v))

abbrev pub is_tip : Json → Bool
is_tip (str s) = length s == 64 && all is_hex s
is_tip _ = false

abbrev pub chain_hash_of : Option Json → Json
chain_hash_of none = null
chain_hash_of (some v) = get_or (codes "chain_hash") null (fields_of v)

-- `GENESIS if a_count == 0 else links[a_count - 1].get("chain_hash")`
unfoldable pub tip_at : ℕ → List Json → Json
unfolding get get_or
tip_at zero vs = str genesis
tip_at (suc i) vs = chain_hash_of (nth vs i)

-- `tip_at != a_tip`, for a tip that is a text.
abbrev pub same_text : Json → Json → Bool
same_text (str s) v = is_text s v
same_text _ v = false

unfoldable pub check_count : List Json → Json → ℕ → Option AnchorRefusal
unfolding tip_at text_eq
check_count links tip count =
    if ltb (length links) count
    then some actions_dropped
    else if same_text tip (tip_at count links)
    then none
    else some tip_differs

unfoldable pub check_position : List Json → Json → Json → Option AnchorRefusal
unfolding check_count
check_position links tip (int (ℤ.pos count)) = check_count links tip count
check_position links tip v = some bad_count

unfoldable pub check_links : Fields → Json → Json → Option AnchorRefusal
unfolding check_position get get_or
check_links anchor tip (arr vs) =
    if all has_chain_hash (items vs)
    then check_position (items vs) tip (get_or (codes "count") null anchor)
    else some bad_links
check_links anchor tip v = some no_links

unfoldable pub check_anchor : Json → Fields → Option AnchorRefusal
unfolding check_links get get_or text_eq
check_anchor att anchor =
    if is_text (codes "kry_action_anchor") (get_or (codes "kind") null anchor)
    then (let tip = get_or (codes "chain_tip") null anchor in
        if is_tip tip
        then check_links anchor tip (get_or (codes "links") null (fields_of att))
        else some bad_tip)
    else some not_an_anchor

unfoldable pub anchor_json : Json → Json → Option AnchorRefusal
unfolding check_anchor
anchor_json att (obj anchor) = check_anchor att anchor
anchor_json att v = some not_an_anchor

-- The first refusal, or none.
unfoldable pub verify_against_anchor : Json → Json → Option AnchorRefusal
unfolding anchor_json check_value_limits
verify_against_anchor att anchor =
    if is_within (check_value_limits att) && is_within (check_value_limits anchor)
    then anchor_json att anchor
    else some over_limits

-- How the reading of a document ends: JSON, a ValueError, or another error.
pub data Document : Type 0 where
  read : Json → Document
  parse_failure oversized unreadable : Document

pub data CliVerdict : Type 0 where
  valid_verdict invalid_verdict parse_error : CliVerdict

abbrev pub no_refusal : Option AnchorRefusal → Bool
no_refusal none = true
no_refusal (some r) = false

-- The anchor's part: an oversized one ends the run, any other that cannot be read fails the check.
unfoldable pub check_document : Json → Option Document → Result Bool
unfolding verify_against_anchor
check_document att none = ok true
check_document att (some (read anchor)) = ok (no_refusal (verify_against_anchor att anchor))
check_document att (some oversized) = err kry.Base.Results.value_error
check_document att (some parse_failure) = ok false
check_document att (some unreadable) = ok false

abbrev pub is_valid : Verdict → Bool
is_valid (valid ws) = true
is_valid (invalid r ws) = false

abbrev pub verdict_of : Verdict → Result Bool → CliVerdict
verdict_of v (err e) = parse_error
verdict_of v (ok anchored) = if is_valid v && anchored then valid_verdict else invalid_verdict

-- `main`: the exit code is 0 for a valid verdict alone.
unfoldable pub action_cli : Host → Document → Option Document → Result CliVerdict
unfolding verify_action_attestation check_document
action_cli h parse_failure anchor = ok parse_error
action_cli h oversized anchor = ok parse_error
action_cli h unreadable anchor = ok invalid_verdict
action_cli h (read (obj d)) anchor = do
  v ← verify_action_attestation h (obj d)
  ok (verdict_of v (check_document (obj d) anchor))
action_cli h (read v) anchor = ok invalid_verdict
