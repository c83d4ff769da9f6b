-- ===== src/Action/Log.antt =====
-- The append-only log of receipts: `_load_tip_from_log`, `record`, `chain_tip`, `export_anchor` and
-- `verify_action_chain`.  `record` holds both of its locks throughout, so a call is one step.
use kry.Base.{
  ℕ, ◌+◌, Bool, true, false, ◌&&◌, not, if◌then◌else◌, Option, none, some, List, [], ◌∷◌, ◌++◌,
}
use kry.Base.Int.{pos}
use kry.Base.Texts.{Text, codes, text_eq}
use kry.Base.Results.{
  Result, ok, err, value_error, attribute_error, os_error, ◌>>=◌, ◌>>◌, raise_if,
}
use kry.Double.{Double}
use kry.Json.Values.{Json, null, str, int, Fields, end, field, obj, get, get_or, or_json, is_text}
use kry.Action.Receipt.{
  Host, canon, commit, canon_f64, PayloadParts, payload, ActionReceipt, receipt_fields, ActionInput,
  link_hash, create, is_commit, genesis,
}

-- A line of the log: only white space, no JSON, or a value.
pub data LogLine : Type 0 where
  blank unreadable : LogLine
  entry : Json → LogLine

-- A file whose last byte is no newline is not terminated.
pub record LogFile : Type 0 where
  pub lines : List LogLine
  pub terminated : Bool

abbrev pub lines_of : Option LogFile → List LogLine
lines_of none = []
lines_of (some f) = f.lines

-- `_COUNTER` and `_CHAIN_TIP` are written after each append, and read by nothing here.
pub record ActionState : Type 0 where
  pub file : Option LogFile
  pub counter : ℕ
  pub chain_tip : Text

-- `rec.get("chain_hash", tip)`
unfoldable pub next_tip : Json → Json → Result Json
unfolding get
next_tip tip (obj d) = ok (or_json tip (get (codes "chain_hash") d))
next_tip tip _ = err attribute_error

unfoldable pub tip_from : ℕ → Json → List LogLine → Result (ℕ × Json)
unfolding next_tip
tip_from n tip [] = ok (n, tip)
tip_from n tip (blank ∷ ls) = tip_from n tip ls
tip_from n tip (unreadable ∷ ls) = err value_error
tip_from n tip (entry v ∷ ls) = do t ← next_tip tip v; tip_from (n + 1) t ls

-- `chain_tip` and `_load_tip_from_log`
unfoldable pub load_tip : Option LogFile → Result (ℕ × Json)
unfolding tip_from
load_tip f = tip_from 0 (str genesis) (lines_of f)

-- What `export_anchor` publishes.
unfoldable pub export_anchor : Option LogFile → Result Fields
unfolding load_tip
export_anchor f = do
  tip ← load_tip f
  ok (
      field (codes "kind") (str (codes "kry_action_anchor")) (
        field (codes "count") (int (pos tip.0)) (
          field (codes "chain_tip") tip.1 (field (codes "action_hash_version") (int (pos 1)) end))))

-- The arguments of `record`; a null result or witness is None.
pub record RecordCall : Type 0 where
  pub tool : Text
  pub args : Json
  pub result : Json
  pub has_result : Bool
  pub status : Text
  pub agent_id : Text
  pub evidence_tier : Text
  pub server_evidence : Json
  pub ts : Option Double
  pub now : Double
  pub precommitted : Bool

-- An append that raises may have written nothing, a part of the line, or all of it.
pub data LogWrite : Type 0 where
  flushed lost unsynced : LogWrite
  torn : LogLine → LogWrite

abbrev pub is_null : Json → Bool
is_null null = true
is_null _ = false

-- The loop over the supplied values.
unfoldable pub check_supplied : RecordCall → Result (Unit {0})
unfolding is_commit
check_supplied c = do
  raise_if (not (is_commit c.args)) value_error
  raise_if (c.has_result && not (is_commit c.result)) value_error
  raise_if (not (is_null c.server_evidence) && not (is_commit c.server_evidence)) value_error

abbrev pub is_unterminated : Option LogFile → Bool
is_unterminated none = false
is_unterminated (some f) = not f.terminated

module _ (h : Host) where
  -- A commitment that was checked is a text.
  unfoldable pub committed : Bool → Json → Result Text
  unfolding commit
  committed true (str s) = ok s
  committed true v = err value_error
  committed false v = commit h v

  unfoldable pub committed_if : Bool → Bool → Json → Result (Option Text)
  unfolding committed
  committed_if false pre v = ok none
  committed_if true pre v = do s ← committed pre v; ok (some s)

  unfoldable pub input_of : RecordCall → Result ActionInput
  unfolding check_supplied committed_if
  input_of c = do
    _ ← (if c.precommitted then check_supplied c else ok tt)
    a ← committed c.precommitted c.args
    r ← committed_if c.has_result c.precommitted c.result
    w ← committed_if (not (is_null c.server_evidence)) c.precommitted c.server_evidence
    ok (record {
      tool = c.tool;
      args_commit = a;
      result_commit = r;
      status = c.status;
      ts = c.ts;
      now = c.now;
      agent_id = c.agent_id;
      evidence_tier = c.evidence_tier;
      server_evidence_commit = w;
    })

  abbrev pub tip_text : Json → Text
  tip_text (str s) = s
  tip_text v = h.other_text v

  unfoldable pub receipt_id_of : ℕ → Text
  receipt_id_of n = codes "act-" ++ h.int_text n

  -- Under the locks, before the write: the receipt and the count of the log.
  unfoldable pub next_receipt : Option LogFile → ActionInput → Result (ActionReceipt × ℕ)
  unfolding load_tip create receipt_id_of
  next_receipt f a = do
    raise_if (is_unterminated f) value_error
    tip ← load_tip f
    r ← create h (receipt_id_of (tip.0 + 1)) (tip_text tip.1) a
    ok (r, tip.0)

abbrev pub line_of : ActionReceipt → LogLine
line_of r = entry (obj (receipt_fields r))

abbrev pub with_lines : List LogLine → Bool → ActionState → ActionState
with_lines ls t s = record s { file = some (record { lines = ls; terminated = t }) }

unfoldable pub append_receipt :
    LogWrite → ActionReceipt → ℕ → ActionState → Result ActionReceipt × ActionState
append_receipt w r n s = elim w [
  | flushed ↦ (
    ok r,
    record {
      file = some (record { lines = lines_of s.file ++ line_of r ∷ []; terminated = true });
      counter = n + 1;
      chain_tip = r.chain_hash;
    },
  )
  | lost ↦ (err os_error, with_lines (lines_of s.file) true s)
  | unsynced ↦ (err os_error, with_lines (lines_of s.file ++ line_of r ∷ []) true s)
  | torn l ↦ (err os_error, with_lines (lines_of s.file ++ l ∷ []) false s)
]

unfoldable pub append_next :
    LogWrite → ActionState → Result (ActionReceipt × ℕ) → Result ActionReceipt × ActionState
unfolding append_receipt
append_next w s (err e) = (err e, s)
append_next w s (ok (r, n)) = append_receipt w r n s

module _ (h : Host) where
  unfoldable pub record_action :
      LogWrite → RecordCall → ActionState → Result ActionReceipt × ActionState
  unfolding append_next input_of next_receipt
  record_action w c s = append_next w s (do a ← input_of h c; next_receipt h s.file a)

  -- The payload of a record that was read, with `rec.get(...)` and its defaults.
  unfoldable pub parts_of : Fields → PayloadParts
  unfolding get get_or canon_f64
  parts_of d = record {
    tool = get_or (codes "tool") (str []) d;
    args_commit = get_or (codes "args_commit") (str []) d;
    result_commit = get_or (codes "result_commit") null d;
    status = get_or (codes "status") (str []) d;
    ts = canon_f64 h (get_or (codes "ts") null d);
    agent_id = get_or (codes "agent_id") (str []) d;
    evidence_tier = get_or (codes "evidence_tier") (str []) d;
    server_evidence_commit = get_or (codes "server_evidence_commit") null d;
  }

pub data ChainProblem : Type 0 where
  not_json receipt_mismatch chain_mismatch : ChainProblem

-- The first problem, with the number of its line.
abbrev pub ChainVerdict : Type 0
ChainVerdict = Option (ℕ × ChainProblem)

-- The hash to go on with, or what is wrong with a link.
pub data Checked : Type 0 where
  linked : Text → Checked
  broken : ChainProblem → Checked

abbrev pub go_on : ℕ → Checked → (Text → Result ChainVerdict) → Result ChainVerdict
go_on n (linked next) rest = rest next
go_on n (broken p) rest = ok (some (n, p))

module _ (h : Host) where
  -- `rec.get(key) == expected`
  abbrev pub has_hash : Text → Text → Fields → Bool
  has_hash key expected d = is_text expected (get_or key null d)

  unfoldable pub check_hashes : Text → Text → Fields → Checked
  unfolding link_hash get get_or text_eq
  check_hashes prev receipt d =
      if has_hash (codes "receipt_hash") receipt d
      then (if has_hash (codes "chain_hash") (link_hash h prev receipt) d
          then linked (link_hash h prev receipt)
          else broken chain_mismatch)
      else broken receipt_mismatch

  unfoldable pub check_entry : Text → Json → Result Checked
  unfolding parts_of canon check_hashes
  check_entry prev (obj d) = do
    p ← canon h (payload (parts_of h d))
    ok (check_hashes prev (h.sha256 p) d)
  check_entry prev v = err attribute_error

  unfoldable pub verify_lines : Text → ℕ → List LogLine → Result ChainVerdict
  unfolding check_entry
  verify_lines prev n [] = ok none
  verify_lines prev n (blank ∷ ls) = verify_lines prev (n + 1) ls
  verify_lines prev n (unreadable ∷ ls) = ok (some (n, not_json))
  verify_lines prev n (entry v ∷ ls) = do
    c ← check_entry prev v
    go_on n c (λ next. verify_lines next (n + 1) ls)

  unfoldable pub verify_action_chain : Option LogFile → Result ChainVerdict
  unfolding verify_lines
  verify_action_chain f = verify_lines genesis 1 (lines_of f)
