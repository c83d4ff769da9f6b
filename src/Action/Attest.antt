-- ===== src/Action/Attest.antt =====
-- `build_action_attestation` and its veracity surface, `_veracity`.
use kry.Base.{
  ℕ, ◌+◌, Bool, true, false, ◌&&◌, not, if◌then◌else◌, Option, List, [], ◌∷◌, map, length, ltb,
}
use kry.Base.Int.{pos}
use kry.Base.Texts.{Text, codes, mem_text}
use kry.Base.Results.{Result, ok, err, value_error, attribute_error, type_error, ◌>>=◌}
use kry.Double.{Double, literal, zero_double}
use kry.Double.Products.{round_decimals}
use kry.Json.Values.{
  Json, null, int, float, str, arr, obj, of_list, Fields, end, field, get, get_or, truthy,
}
use kry.Action.Receipt.{genesis, self_reported, anchored_tiers}
use kry.Action.Log.{LogLine, blank, unreadable, entry, LogFile, lines_of, next_tip}

-- One link of the attestation.
unfoldable pub link_fields : Fields → Fields
unfolding get get_or
link_fields d =
    let value = λ (k : Text). get_or k null d in
    field (codes "receipt_id") (value (codes "receipt_id")) (
      field (codes "tool") (value (codes "tool")) (
        field (codes "args_commit") (value (codes "args_commit")) (
          field (codes "result_commit") (value (codes "result_commit")) (
            field (codes "status") (value (codes "status")) (
              field (codes "ts") (value (codes "ts")) (
                field (codes "agent_id") (value (codes "agent_id")) (
                  field (codes "evidence_tier") (value (codes "evidence_tier")) (
                    field (codes "server_evidence_commit") (value (codes "server_evidence_commit"))
                      (field (codes "receipt_hash") (value (codes "receipt_hash")) (
                        field (codes "chain_hash") (value (codes "chain_hash")) (
                          field (codes "action_hash_version")
                            (get_or (codes "action_hash_version") (int (pos 1)) d) end)))))))))))

-- The loop over the log: the links and the tip.
unfoldable pub links_from : Json → List LogLine → Result (List Fields × Json)
unfolding link_fields next_tip
links_from tip [] = ok ([], tip)
links_from tip (blank ∷ ls) = links_from tip ls
links_from tip (unreadable ∷ ls) = err value_error
links_from tip (entry (obj d) ∷ ls) = do
  t ← next_tip tip (obj d)
  rest ← links_from t ls
  ok (link_fields d ∷ rest.0, rest.1)
links_from tip (entry v ∷ ls) = err attribute_error

-- A tier is looked up in a set: a list or an object has no hash.
abbrev pub hashable : Json → Bool
hashable (arr vs) = false
hashable (obj d) = false
hashable _ = true

abbrev pub is_anchored : Json → Bool
is_anchored (str t) = mem_text t anchored_tiers
is_anchored _ = false

-- An anchored tier with no witness is not credited.
unfoldable pub credited_tier : Fields → Result Json
unfolding get get_or mem_text
credited_tier d =
    let tier = get_or (codes "evidence_tier") (str self_reported) d in
    if hashable tier
    then ok (
        if is_anchored tier && not (truthy (get_or (codes "server_evidence_commit") null d))
        then str self_reported
        else tier)
    else err type_error

-- How many links keep an anchored tier.
unfoldable pub count_anchored : List Fields → Result ℕ
unfolding credited_tier
count_anchored [] = ok 0
count_anchored (d ∷ ds) = do
  t ← credited_tier d
  n ← count_anchored ds
  ok (if is_anchored t then n + 1 else n)

-- `round(anchored / total, 4) if total > 0 else 0.0`
unfoldable pub floor_of : ℕ → ℕ → Double
unfolding literal round_decimals
floor_of anchored total =
    if ltb 0 total then round_decimals 4 (literal anchored total) else zero_double

-- Without `by_tier`, which only the printout reads.
unfoldable pub veracity : List Fields → Result Fields
unfolding count_anchored floor_of
veracity links = do
  n ← count_anchored links
  ok (
      field (codes "anchored_actions") (int (pos n)) (
        field (codes "total_actions") (int (pos (length links)))
          (field (codes "veracity_floor") (float (floor_of n (length links))) end)))

unfoldable pub build_action_attestation : Option LogFile → Result Fields
unfolding links_from veracity
build_action_attestation f = do
  links ← links_from (str genesis) (lines_of f)
  v ← veracity links.0
  ok (
      field (codes "kind") (str (codes "kry_action_attestation")) (
        field (codes "action_hash_version") (int (pos 1)) (
          field (codes "action_count") (int (pos (length links.0))) (
            field (codes "chain_tip") links.1 (
              field (codes "links") (arr (of_list (map (λ d. obj d) links.0)))
                (field (codes "veracity") (obj v) end))))))
