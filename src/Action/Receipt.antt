-- ===== src/Action/Receipt.antt =====
-- `ActionReceipt`, `commit` and the canonical encodings.
use kry.Base.{
  ℕ, ◌==◌, Bool, true, false, ◌&&◌, ◌||◌, not, leb, if◌then◌else◌, Option, none, some, List, [],
  ◌∷◌, ◌++◌, length, all,
}
use kry.Base.Int.{pos}
use kry.Base.Texts.{Text, codes, text_eq, mem_text}
use kry.Base.Results.{Result, ok, err, value_error, ◌>>=◌, ◌>>◌, raise_if}
use kry.Double.{Double, is_finite, of_int, le, zero_double}
use kry.Json.Values.{Json, null, int, float, str, Fields, end, field, obj, is_dumpable}

-- What the modules take from Python: SHA-256 of a text, the text of `json.dumps` with sorted keys and tight
-- separators, the sixteen hex digits of a double in big-endian order, the digits of a number, and the text
-- in an f-string of a value that is no string.
pub record Host : Type 0 where
  pub sha256 : Text → Text
  pub json_text : Json → Text
  pub pack_f64 : Double → Text
  pub int_text : ℕ → Text
  pub other_text : Json → Text

abbrev pub server_witnessed : Text
server_witnessed = codes "server_witnessed"

abbrev pub attested : Text
attested = codes "attested"

abbrev pub self_reported : Text
self_reported = codes "self_reported"

-- `_ANCHORED_TIERS`, `_VALID_TIERS` and `_VALID_STATUS`.
abbrev pub anchored_tiers : List Text
anchored_tiers = server_witnessed ∷ attested ∷ []

abbrev pub valid_tiers : List Text
valid_tiers = self_reported ∷ server_witnessed ∷ attested ∷ []

abbrev pub valid_status : List Text
valid_status = codes "ok" ∷ codes "error" ∷ codes "pending" ∷ []

unfoldable pub genesis : Text
genesis = codes "0000000000000000000000000000000000000000000000000000000000000000"

-- The sentinel of a timestamp that is no finite number.
abbrev pub bad_f64 : Text
bad_f64 = codes "ffffffffffffffff"

abbrev pub has_text : Option Text → Bool
has_text none = false
has_text (some []) = false
has_text (some (c ∷ s)) = true

abbrev pub json_of : Option Text → Json
json_of none = null
json_of (some s) = str s

module _ (h : Host) where
  -- `_canon`
  unfoldable pub canon : Json → Result Text
  unfolding is_dumpable
  canon v = if is_dumpable v then ok (h.json_text v) else err value_error

  unfoldable pub commit : Json → Result Text
  unfolding canon
  commit v = do t ← canon v; ok (h.sha256 t)

  abbrev pub pack_finite : Double → Text
  pack_finite d = if is_finite d then h.pack_f64 d else bad_f64

  -- `_canon_f64`
  unfoldable pub canon_f64 : Json → Text
  unfolding of_int
  canon_f64 (int n) = pack_finite (of_int n)
  canon_f64 (float d) = pack_finite d
  canon_f64 _ = bad_f64

-- The fields that a receipt hash binds.
pub record PayloadParts : Type 0 where
  pub tool : Json
  pub args_commit : Json
  pub result_commit : Json
  pub status : Json
  pub ts : Text
  pub agent_id : Json
  pub evidence_tier : Json
  pub server_evidence_commit : Json

-- `ActionReceipt._payload`
unfoldable pub payload : PayloadParts → Json
payload p = obj (
    field (codes "action_hash_version") (int (pos 1)) (
      field (codes "tool") p.tool (
        field (codes "args_commit") p.args_commit (
          field (codes "result_commit") p.result_commit (
            field (codes "status") p.status (
              field (codes "ts") (str p.ts) (
                field (codes "agent_id") p.agent_id (
                  field (codes "evidence_tier") p.evidence_tier
                    (field (codes "server_evidence_commit") p.server_evidence_commit end)))))))))

pub record ActionReceipt : Type 0 where
  pub receipt_id : Text
  pub tool : Text
  pub args_commit : Text
  pub result_commit : Option Text
  pub status : Text
  pub ts : Double
  pub agent_id : Text
  pub evidence_tier : Text
  pub server_evidence_commit : Option Text
  pub receipt_hash : Text
  pub chain_hash : Text

-- `to_dict`, as sorted keys write it and a reader reads it back.
unfoldable pub receipt_fields : ActionReceipt → Fields
receipt_fields r = field (codes "action_hash_version") (int (pos 1)) (
    field (codes "agent_id") (str r.agent_id) (
      field (codes "args_commit") (str r.args_commit) (
        field (codes "chain_hash") (str r.chain_hash) (
          field (codes "evidence_tier") (str r.evidence_tier) (
            field (codes "receipt_hash") (str r.receipt_hash) (
              field (codes "receipt_id") (str r.receipt_id) (
                field (codes "result_commit") (json_of r.result_commit) (
                  field (codes "server_evidence_commit") (json_of r.server_evidence_commit) (
                    field (codes "status") (str r.status) (
                      field (codes "tool") (str r.tool)
                        (field (codes "ts") (float r.ts) end)))))))))))

-- The arguments of `create`; `now` is the clock.
pub record ActionInput : Type 0 where
  pub tool : Text
  pub args_commit : Text
  pub result_commit : Option Text
  pub status : Text
  pub ts : Option Double
  pub now : Double
  pub agent_id : Text
  pub evidence_tier : Text
  pub server_evidence_commit : Option Text

abbrev pub or_now : Double → Option Double → Double
or_now now none = now
or_now now (some t) = t

abbrev pub is_empty : Text → Bool
is_empty [] = true
is_empty (c ∷ s) = false

-- What `create` refuses; its answer is the timestamp.
unfoldable pub create_checks : ActionInput → Result Double
unfolding mem_text le
create_checks a = do
  raise_if (is_empty a.tool) value_error
  raise_if (not (length a.args_commit == 64)) value_error
  raise_if (not (mem_text a.status valid_status)) value_error
  raise_if (not (mem_text a.evidence_tier valid_tiers)) value_error
  raise_if (mem_text a.evidence_tier anchored_tiers && not (has_text a.server_evidence_commit))
      value_error
  let t = or_now a.now a.ts
  raise_if (not (is_finite t) || le t zero_double) value_error
  ok t

-- T0 carries no witness.
abbrev pub bound_witness : ActionInput → Option Text
bound_witness a = if text_eq a.evidence_tier self_reported then none else a.server_evidence_commit

module _ (h : Host) where
  abbrev pub parts_of_input : ActionInput → Double → PayloadParts
  parts_of_input a t = record {
    tool = str a.tool;
    args_commit = str a.args_commit;
    result_commit = json_of a.result_commit;
    status = str a.status;
    ts = canon_f64 h (float t);
    agent_id = str a.agent_id;
    evidence_tier = str a.evidence_tier;
    server_evidence_commit = json_of (bound_witness a);
  }

  -- `f"{prev}:{receipt_hash}"`, hashed.
  unfoldable pub link_hash : Text → Text → Text
  link_hash prev receipt_hash = h.sha256 (prev ++ (b':' ∷ receipt_hash))

  -- The receipt over a payload's text.
  abbrev pub sealed : Text → Text → ActionInput → Double → Text → ActionReceipt
  sealed receipt_id prev a t p = record {
    receipt_id = receipt_id;
    tool = a.tool;
    args_commit = a.args_commit;
    result_commit = a.result_commit;
    status = a.status;
    ts = t;
    agent_id = a.agent_id;
    evidence_tier = a.evidence_tier;
    server_evidence_commit = bound_witness a;
    receipt_hash = h.sha256 p;
    chain_hash = link_hash prev (h.sha256 p);
  }

  unfoldable pub create : Text → Text → ActionInput → Result ActionReceipt
  unfolding create_checks canon link_hash
  create receipt_id prev a = do
    t ← create_checks a
    p ← canon h (payload (parts_of_input a t))
    ok (sealed receipt_id prev a t p)

-- `_is_commit`
abbrev pub is_hex : ℕ → Bool
is_hex c = (leb b'0' c && leb c b'9') || (leb b'a' c && leb c b'f')

unfoldable pub is_commit : Json → Bool
is_commit (str s) = length s == 64 && all is_hex s
is_commit _ = false
