-- ===== src/Action/Tests.antt =====
-- Two actions on a log, with a digest that is injective and made of hexadecimal digits.
use kry.Base.{
  ◌<◌, arith, ◌*◌, ℕ, zero, suc, ◌≤◌, ◌≡◌, refl, sym, arith, true, false, none, some, List, [], ◌∷◌,
  ◌++◌, length, take, if◌then◌else◌,
}
use kry.Base.Int.{pos}
use kry.Base.Texts.{Text, codes, text_eq, text_eq_iff, has_code}
use kry.Base.Results.{Result, ok, err}
use kry.Double.{fin, one_units, literal, le, lt, sub, abs, of_int, zero_double}
use kry.Double.Products.{round_decimals}
use kry.Json.Values.{
  Json, null, int, str, arr, obj, cons, nil, Fields, end, get, get_or, is_dumpable,
}
use kry.Json.Limits.{
  integer_limit, check_value_limits, check_value_limits-in_limits, is_within, is_out_of_fuel,
  in_limits,
}
use kry.Action.Receipt.{bad_f64, Host, self_reported, genesis, create_checks, canon, link_hash}
use kry.Action.Log.{
  lines_of, RecordCall, LogWrite, flushed, lost, record_action, verify_action_chain, export_anchor,
}
use kry.Action.Chain.{run_calls, any_torn, empty_state, recorded_log_verifies}
use kry.Action.Attest.{build_action_attestation}
use kry.Action.Stranger.{Warning, valid, verify_action_attestation}
use kry.Action.Anchor.{verify_against_anchor}
use kry.Action.Walked.{payload_texts}
use kry.Action.Fresh.{IsFaithful}
use kry.Action.Accepted.{recorded_attestation_accepted}
use kry.Action.Remint.{IsDigest, links_of, count_of, anchored_prefix_fixed}

-- c as, and then a text.
ones : ℕ → Text → Text
ones zero s = s
ones (suc c) s = b'a' ∷ ones c s

encode : Text → Text
unfolding ones
encode [] = []
encode (c ∷ s) = ones c (b'b' ∷ encode s)

ones-injective : (c d : ℕ) (s t : Text) → ones c (b'b' ∷ s) ≡ ones d (b'b' ∷ t) → (c ≡ d) × (s ≡ t)
unfolding ones
ones-injective zero zero s t e = (refl, cc)
ones-injective zero (suc d) s t e = ground arith
ones-injective (suc c) zero s t e = ground arith
ones-injective (suc c) (suc d) s t e = ground (arith, ones-injective c d s t)

ones-ne-nil : (c : ℕ) (s : Text) → ones c (b'b' ∷ s) ≡ [] → ⊥
unfolding ones
ones-ne-nil zero s e = ground arith
ones-ne-nil (suc c) s e = ground arith

encode-injective : (s t : Text) → encode s ≡ encode t → s ≡ t
unfolding encode
encode-injective [] [] e = refl
encode-injective [] (d ∷ t) e = absurd (ones-ne-nil d (encode t) (sym e))
encode-injective (c ∷ s) [] e = absurd (ones-ne-nil c (encode s) e)
encode-injective (c ∷ s) (d ∷ t) e =
    let (head, tail) = ones-injective c d (encode s) (encode t) e in
    cc (head, encode-injective s t tail)

has_code-ones : (c : ℕ) (s : Text) → has_code b':' (ones c s) ≡ has_code b':' s
unfolding ones has_code
has_code-ones zero s = refl
has_code-ones (suc c) s = ground (arith, has_code-ones c s)

has_code-encode : (s : Text) → has_code b':' (encode s) ≡ false
unfolding encode has_code
has_code-encode [] = refl
has_code-encode (c ∷ s) = ground (arith, has_code-ones c (b'b' ∷ encode s), has_code-encode s)

-- The hash of the first link has the length of a real one.
first_input : Text
unfolding encode genesis
first_input = genesis ++ (b':' ∷ (b'd' ∷ encode (codes "t")))

abbrev first_hash : Text
first_hash = codes "cccccccccccccccccccccccccccccccccccccccccccccccccccccccccccccccc"

digest : Text → Text
unfolding encode first_input text_eq
digest s = if text_eq s first_input then first_hash else b'd' ∷ encode s

digest-injective : (s t : Text) → digest s ≡ digest t → s ≡ t
unfolding digest
digest-injective s t e =
    ground (arith, text_eq_iff s first_input, text_eq_iff t first_input, encode-injective s t)

digest-colon : (s : Text) → has_code b':' (digest s) ≡ false
unfolding digest has_code
digest-colon s = ground (arith, has_code-encode s)

abbrev text_or_nil : Json → Text
text_or_nil (str s) = s
text_or_nil _ = []

tool_of : Json → Text
unfolding get get_or text_eq
tool_of (obj d) = text_or_nil (get_or (codes "tool") null d)
tool_of _ = []

abbrev toy : Host
toy = record {
  sha256 = digest;
  json_text = tool_of;
  pack_f64 = λ d. codes "p";
  int_text = λ n. ones n [];
  other_text = λ v. [];
}

toy-IsDigest : IsDigest toy
toy-IsDigest = record { injective = digest-injective; colon = digest-colon }

abbrev some_commit : Text
some_commit = codes "0123456789abcdef0123456789abcdef0123456789abcdef0123456789abcdef"

abbrev use_tool : Text → RecordCall
use_tool name = record {
  tool = name;
  args = str some_commit;
  result = str some_commit;
  has_result = true;
  status = codes "ok";
  agent_id = codes "default";
  evidence_tier = self_reported;
  server_evidence = null;
  ts = some (fin (pos (7 * one_units)));
  now = zero_double;
  precommitted = true;
}

abbrev three_calls : List (LogWrite × RecordCall)
three_calls =
    (flushed, use_tool (codes "t"))
    ∷ (lost, use_tool (codes "u"))
    ∷ (flushed, use_tool (codes "v"))
    ∷ []

not_torn : any_torn three_calls ≡ false
unfolding any_torn
not_torn = refl

recorded_log_verifies_example :
    verify_action_chain toy (run_calls toy three_calls empty_state).file ≡ ok none
recorded_log_verifies_example = recorded_log_verifies toy three_calls not_torn

check_value_limits-in_limits_example :
    (is_within (check_value_limits (arr (cons (int (pos 7)) nil)))
      ≡ in_limits 0 (arr (cons (int (pos 7)) nil)))
    × (is_out_of_fuel (check_value_limits (arr (cons (int (pos 7)) nil))) ≡ false)
check_value_limits-in_limits_example = check_value_limits-in_limits (arr (cons (int (pos 7)) nil))

evaluated : ℕ
unfolding run_calls digest ones tool_of build_action_attestation verify_action_attestation
    verify_against_anchor export_anchor create_checks canon link_hash is_dumpable get get_or text_eq
    literal le lt sub abs of_int round_decimals genesis check_value_limits record_action
    kry.Action.Receipt.payload kry.Action.Receipt.receipt_fields kry.Json.Limits.integer_limit
evaluated = 0

abbrev or_end : Result Fields → Fields
or_end (ok d) = d
or_end (err e) = end

-- The attestations after one call and after three, and the anchor after one.
attestation_of : List (LogWrite × RecordCall) → Json
unfolding evaluated
attestation_of calls =
    obj (or_end (build_action_attestation (run_calls toy calls empty_state).file))

abbrev one_call : List (LogWrite × RecordCall)
one_call = (flushed, use_tool (codes "t")) ∷ []

anchor_of : List (LogWrite × RecordCall) → Json
unfolding evaluated
anchor_of calls = obj (or_end (export_anchor (run_calls toy calls empty_state).file))

one_valid : verify_action_attestation toy (attestation_of one_call) ≡ ok (valid [])
unfolding evaluated attestation_of
one_valid = refl

three_valid : verify_action_attestation toy (attestation_of three_calls) ≡ ok (valid [])
unfolding evaluated attestation_of
three_valid = refl

one_anchored : verify_against_anchor (attestation_of one_call) (anchor_of one_call) ≡ none
unfolding evaluated attestation_of anchor_of
one_anchored = refl

three_anchored : verify_against_anchor (attestation_of three_calls) (anchor_of one_call) ≡ none
unfolding evaluated attestation_of anchor_of
three_anchored = refl

anchored_prefix_fixed_example :
    (k : ℕ) × (count_of (anchor_of one_call) ≡ int (pos k))
    × (k ≤ length (links_of (attestation_of one_call)))
    × (take k (payload_texts toy (links_of (attestation_of one_call)))
        ≡ take k (payload_texts toy (links_of (attestation_of three_calls))))
anchored_prefix_fixed_example =
    anchored_prefix_fixed toy toy-IsDigest (attestation_of one_call) (attestation_of three_calls)
      (anchor_of one_call) [] [] one_valid three_valid one_anchored three_anchored

toy_digits : (m n : ℕ) → ones m [] ≡ ones n [] → m ≡ n
unfolding ones
toy_digits zero zero e = refl
toy_digits zero (suc n) e = ground arith
toy_digits (suc m) zero e = ground arith
toy_digits (suc m) (suc n) e = ground (arith, toy_digits m n)

not_sentinel : text_eq (codes "p") bad_f64 ≡ false
unfolding text_eq
not_sentinel = refl

toy-IsFaithful : IsFaithful toy
toy-IsFaithful = record { digits = toy_digits; packed = λ d e. not_sentinel }

two_below : 2 < integer_limit
unfolding integer_limit
two_below = omega arith

short_log : length (lines_of (run_calls toy three_calls empty_state).file) < integer_limit
unfolding evaluated
short_log = two_below

recorded_attestation_accepted_example :
    (att : Fields) × (ws : List Warning) × (build_action_attestation
        (run_calls toy three_calls empty_state).file
      ≡ ok att)
    × (verify_action_attestation toy (obj att) ≡ ok (valid ws))
recorded_attestation_accepted_example =
    recorded_attestation_accepted toy three_calls toy-IsFaithful not_torn short_log
