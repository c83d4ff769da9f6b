-- ===== src/Action/Accepted.antt =====
-- The attestation of a log that `record` wrote is accepted by the verifier.
use kry.Base.{
  ℕ, ◌<◌, ◌≡◌, refl, sym, ap, ◌∙◌, subst, arith, Bool, true, false, ◌==◌, if◌then◌else◌, Option,
  some, List, [], map, length,
}
use kry.Base.Int.{pos}
use kry.Base.Texts.{text_eq, text_eq_refl, mem_text}
use kry.Base.Results.{ok}
use kry.Double.{Double, fin}
use kry.Json.Values.{float, arr, obj, of_list, Fields, get, get_or}
use kry.Json.Limits.{check_value_limits, check_value_limits-in_limits, is_within, integer_limit}
use kry.Action.Receipt.{Host, ActionReceipt, genesis}
use kry.Action.Log.{receipt_id_of, LogFile, lines_of, line_of, RecordCall, LogWrite}
use kry.Action.Chain.{
  IsLog, lines_of-IsLog, IsChain, tip_of, run_calls, any_torn, empty_state, run_calls-IsWritten,
}
use kry.Action.Attest.{floor_of, build_action_attestation}
use kry.Action.Stranger.{
  Walk, Warning, valid, next, start, is_credited, count_links, check_totals, check_veracity,
  check_floor, invalid, count_mismatch, tip_mismatch, verify_action_attestation, verify_json,
  verify_fields, verify_links,
}
use kry.Action.Fresh.{IsFaithful, link_of, link_json, walk_links-chain}
use kry.Action.Declared.{
  attestation_of, build_action_attestation-IsLog, items-of_list, links_json, length-map,
  attestation-in_limits,
}
use kry.Action.Surveyed.{floor_of-fin, check_floor-same, count_links-le}

same_length : (rs : List ActionReceipt) → length (map link_of rs) ≡ length (map link_json rs)
same_length rs = length-map link_of rs ∙ sym (length-map link_json rs)

eqb_refl : (n : ℕ) → (n == n) ≡ true
eqb_refl n = ground arith

passed :
    (c d : Bool) (a b : Double) (v : ℕ) (ws us : List Warning)
    → c ≡ true
    → d ≡ true
    → a ≡ fin (pos v)
    → b ≡ fin (pos v)
    → (if c
        then (if d then check_floor a ws (some (float b)) else invalid count_mismatch us)
        else invalid tip_mismatch us)
      ≡ valid ws
passed c d a b v ws us ec ed ea eb = rw (ec, ed, ea, eb) (check_floor-same v ws)

-- The attestation's own count and floor pass.
totals-valid :
    (rs : List ActionReceipt) (w : Walk)
    → w.prev ≡ tip_of genesis rs
    → (ws : List Warning) × (check_totals (attestation_of rs) (map link_json rs) (next w)
        ≡ valid ws)
unfolding check_totals check_veracity get get_or text_eq
totals-valid rs w e =
    let (v, floor) =
      floor_of-fin (count_links is_credited (map link_json rs)) (length (map link_json rs))
        (count_links-le is_credited (map link_json rs)) in
    (
      _,
      passed _ _ _ _ v _ _ (rw e (text_eq_refl (tip_of genesis rs)))
          (rw (same_length rs) (eqb_refl _)) floor
          (ap (floor_of (count_links is_credited (map link_json rs))) (same_length rs) ∙ floor),
    )

unseen_nothing : (h : Host) (m : ℕ) → mem_text (receipt_id_of h m) [] ≡ false
unfolding mem_text
unseen_nothing h m = refl

verify_links-chain :
    (h : Host) (rs : List ActionReceipt)
    → IsFaithful h
    → IsChain h genesis 1 rs
    → (ws : List Warning) × (verify_links h
          (attestation_of rs)
          (arr (of_list (map (λ d. obj d) (map link_of rs))))
        ≡ ok (valid ws))
unfolding verify_links
verify_links-chain h rs g c =
    let (x, walked, tip) = walk_links-chain h 0 1 start rs g (λ m le. unseen_nothing h m) c in
    let (ws, whole) = totals-valid rs x tip in
    (ws, rw (items-of_list (map (λ d. obj d) (map link_of rs)), links_json rs, walked, whole) refl)

verify-chain :
    (h : Host) (rs : List ActionReceipt)
    → IsFaithful h
    → length rs < integer_limit
    → IsChain h genesis 1 rs
    → (ws : List Warning) × (verify_action_attestation h (obj (attestation_of rs)) ≡ ok (valid ws))
unfolding verify_action_attestation verify_json verify_fields get get_or text_eq
verify-chain h rs g few c =
    let (ws, e) = verify_links-chain h rs g c in
    let limits : is_within (check_value_limits (obj (attestation_of rs))) ≡ true =
      (check_value_limits-in_limits (obj (attestation_of rs))).0 ∙ attestation-in_limits rs few in
    (ws, rw limits e)

accepted :
    (h : Host) (f : Option LogFile) (rs : List ActionReceipt)
    → IsFaithful h
    → length (lines_of f) < integer_limit
    → IsLog f rs
    → IsChain h genesis 1 rs
    → (att : Fields) × (ws : List Warning) × (build_action_attestation f ≡ ok att)
      × (verify_action_attestation h (obj att) ≡ ok (valid ws))
accepted h f rs g few l c =
    let counted : length (lines_of f) ≡ length rs =
      ap length (lines_of-IsLog f rs l) ∙ length-map line_of rs in
    let (ws, e) = verify-chain h rs g (subst (λ n. n < integer_limit) counted few) c in
    (attestation_of rs, ws, build_action_attestation-IsLog f rs l, e)

-- The attestation built from the log that any sequence of calls of `record` leaves, from an empty one and
-- with no torn append, is accepted by the verifier, if the log has fewer than 10 ^ 640 lines, digits tell
-- numbers apart and no finite double is packed as the sentinel.
pub recorded_attestation_accepted :
    (h : Host) (calls : List (LogWrite × RecordCall))
    → IsFaithful h
    → any_torn calls ≡ false
    → length (lines_of (run_calls h calls empty_state).file) < integer_limit
    → (att : Fields) × (ws : List Warning) × (build_action_attestation
          (run_calls h calls empty_state).file
        ≡ ok att)
      × (verify_action_attestation h (obj att) ≡ ok (valid ws))
recorded_attestation_accepted h calls g t few =
    let (rs, l, c) = run_calls-IsWritten h calls empty_state t ([], refl, tt) in
    accepted h (run_calls h calls empty_state).file rs g few l c
