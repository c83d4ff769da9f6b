-- ===== src/Action/Chain.antt =====
-- The log that `record` writes verifies, and the next receipt is chained to its tip.
use kry.Base.{
  ℕ, suc, ◌+◌, ◌≡◌, refl, sym, ap, ◌∙◌, subst, arith, Bool, true, false, Option, none, some, List,
  [], ◌∷◌, ◌++◌, map, map-append, length, if◌then◌else◌,
}
use kry.Base.Texts.{Text, text_eq, text_eq_refl, mem_text}
use kry.Base.Results.{Result, ok, err, >>=-eq-ok, ok-injective, raise_if, value_error}
use kry.Double.{Double, is_finite}
use kry.Json.Values.{str, float, obj, get, get_or, is_dumpable}
use kry.Action.Receipt.{
  Host, json_of, canon, canon_f64, PayloadParts, payload, ActionReceipt, receipt_fields,
  ActionInput, create_checks, parts_of_input, sealed, valid_tiers, link_hash, create, genesis,
}
use kry.Action.Log.{
  LogFile, lines_of, ActionState, tip_from, load_tip, RecordCall, LogWrite, flushed, lost, unsynced,
  torn, receipt_id_of, next_receipt, line_of, is_unterminated, append_receipt, append_next,
  input_of, record_action, parts_of, verify_lines, check_hashes, check_entry, linked,
  verify_action_chain,
}

-- The payload of a receipt.
abbrev pub receipt_parts : Host → ActionReceipt → PayloadParts
receipt_parts h r = record {
  tool = str r.tool;
  args_commit = str r.args_commit;
  result_commit = json_of r.result_commit;
  status = str r.status;
  ts = canon_f64 h (float r.ts);
  agent_id = str r.agent_id;
  evidence_tier = str r.evidence_tier;
  server_evidence_commit = json_of r.server_evidence_commit;
}

-- What is read back from a written receipt is its payload.
pub parts_of-receipt :
    (h : Host) (r : ActionReceipt) → parts_of h (receipt_fields r) ≡ receipt_parts h r
unfolding parts_of receipt_fields get get_or text_eq
parts_of-receipt h r = refl

json_of-dumpable : (o : Option Text) → is_dumpable (json_of o) ≡ true
unfolding is_dumpable
json_of-dumpable none = refl
json_of-dumpable (some s) = refl

pub canon-receipt :
    (h : Host) (r : ActionReceipt)
    → canon h (payload (receipt_parts h r)) ≡ ok (h.json_text (payload (receipt_parts h r)))
unfolding canon payload is_dumpable
canon-receipt h r =
    rw (json_of-dumpable r.result_commit, json_of-dumpable r.server_evidence_commit) refl

-- A receipt as `create` makes it, with its number and the hash before it.
pub record IsLinked (h : Host) (prev : Text) (n : ℕ) (r : ActionReceipt) : Type 0 where
  pub id : r.receipt_id ≡ receipt_id_of h n
  pub hashed : r.receipt_hash ≡ h.sha256 (h.json_text (payload (receipt_parts h r)))
  pub chained : r.chain_hash ≡ link_hash h prev r.receipt_hash
  pub timed : is_finite r.ts ≡ true

abbrev pub IsChain : Host → Text → ℕ → List ActionReceipt → Type 0
IsChain h prev n [] = Unit {0}
IsChain h prev n (r ∷ rs) = IsLinked h prev n r × IsChain h r.chain_hash (suc n) rs

-- The hash after a chain.
abbrev pub tip_of : Text → List ActionReceipt → Text
tip_of prev [] = prev
tip_of prev (r ∷ rs) = tip_of r.chain_hash rs

pub IsChain-append :
    (h : Host) (prev : Text) (n : ℕ) (rs : List ActionReceipt) (r : ActionReceipt)
    → IsChain h prev n rs
    → IsLinked h (tip_of prev rs) (n + length rs) r
    → IsChain h prev n (rs ++ r ∷ [])
IsChain-append h prev n [] r c l = (subst (λ k. IsLinked h prev k r) (omega arith) l, tt)
IsChain-append h prev n (x ∷ rs) r c l = (
  c.0,
  IsChain-append h x.chain_hash (suc n) rs r c.1
      (subst (λ k. IsLinked h (tip_of x.chain_hash rs) k r) (omega arith) l),
)

-- A log that holds these receipts.
abbrev pub IsLog : Option LogFile → List ActionReceipt → Type 0
IsLog none rs = rs ≡ []
IsLog (some f) rs = (f.lines ≡ map line_of rs) × (f.terminated ≡ true)

tip_from-lines :
    (n : ℕ) (prev : Text) (rs : List ActionReceipt)
    → tip_from n (str prev) (map line_of rs) ≡ ok (n + length rs, str (tip_of prev rs))
unfolding tip_from receipt_fields get text_eq
tip_from-lines n prev [] = ap (λ k. ok (k, str prev)) (omega arith)
tip_from-lines n prev (r ∷ rs) =
    tip_from-lines (n + 1) r.chain_hash rs
    ∙ ap (λ k. ok (k, str (tip_of r.chain_hash rs))) (omega arith)

pub lines_of-IsLog :
    (f : Option LogFile) (rs : List ActionReceipt) → IsLog f rs → lines_of f ≡ map line_of rs
lines_of-IsLog none rs l = rw l refl
lines_of-IsLog (some f) rs l = l.0

pub load_tip-IsLog :
    (f : Option LogFile) (rs : List ActionReceipt)
    → IsLog f rs
    → load_tip f ≡ ok (length rs, str (tip_of genesis rs))
unfolding load_tip
load_tip-IsLog f rs l =
    rw (lines_of-IsLog f rs l)
      (tip_from-lines 0 genesis rs ∙ ap (λ k. ok (k, str (tip_of genesis rs))) (omega arith))

check_hashes-receipt :
    (h : Host) (prev : Text) (n : ℕ) (r : ActionReceipt)
    → IsLinked h prev n r
    → check_hashes h prev (h.sha256 (h.json_text (payload (receipt_parts h r)))) (receipt_fields r)
      ≡ linked r.chain_hash
unfolding check_hashes receipt_fields get get_or text_eq
check_hashes-receipt h prev n r l =
    rw (← l.hashed)
      (rw (text_eq_refl r.receipt_hash) (rw (← l.chained) (rw (text_eq_refl r.chain_hash) refl)))

pub check_entry-receipt :
    (h : Host) (prev : Text) (n : ℕ) (r : ActionReceipt)
    → IsLinked h prev n r
    → check_entry h prev (obj (receipt_fields r)) ≡ ok (linked r.chain_hash)
unfolding check_entry
check_entry-receipt h prev n r l =
    rw (parts_of-receipt h r, canon-receipt h r)
      (ap (λ z. ok z) (check_hashes-receipt h prev n r l))

verify_lines-chain :
    (h : Host) (prev : Text) (n k : ℕ) (rs : List ActionReceipt)
    → IsChain h prev n rs
    → verify_lines h prev k (map line_of rs) ≡ ok none
unfolding verify_lines
verify_lines-chain h prev n k [] c = refl
verify_lines-chain h prev n k (r ∷ rs) c =
    rw (check_entry-receipt h prev n r c.0)
      (verify_lines-chain h r.chain_hash (suc n) (k + 1) rs c.1)

create_checks-finite :
    (a : ActionInput) (t : Double)
    → create_checks a ≡ ok t
    → (is_finite t ≡ true) × (mem_text a.evidence_tier valid_tiers ≡ true)
unfolding create_checks
create_checks-finite a t e = ground arith

sealed-IsLinked :
    (h : Host) (n : ℕ) (prev : Text) (a : ActionInput) (t : Double) (p : Text)
    → create_checks a ≡ ok t
    → canon h (payload (parts_of_input h a t)) ≡ ok p
    → IsLinked h prev n (sealed h (receipt_id_of h n) prev a t p)
sealed-IsLinked h n prev a t p timed e = record {
  id = refl;
  hashed =
      ap (λ z. h.sha256 z)
        (ok-injective (sym e ∙ canon-receipt h (sealed h (receipt_id_of h n) prev a t p)));
  chained = refl;
  timed = (create_checks-finite a t timed).0;
}

-- What `create` gives is linked.
create-IsLinked :
    (h : Host) (n : ℕ) (prev : Text) (a : ActionInput) (r : ActionReceipt)
    → create h (receipt_id_of h n) prev a ≡ ok r
    → IsLinked h prev n r
unfolding create
create-IsLinked h n prev a r e =
    let (t, timed, e') = >>=-eq-ok (create_checks a) _ e in
    let (p, hashed, e'') = >>=-eq-ok (canon h (payload (parts_of_input h a t))) _ e' in
    subst (λ z. IsLinked h prev n z) (ok-injective e'')
      (sealed-IsLinked h n prev a t p timed hashed)

-- What `next_receipt` gives continues the log.
next_receipt-IsLinked :
    (h : Host) (f : Option LogFile) (rs : List ActionReceipt) (a : ActionInput) (r : ActionReceipt)
    (n : ℕ)
    → IsLog f rs
    → next_receipt h f a ≡ ok (r, n)
    → IsLinked h (tip_of genesis rs) (suc (length rs)) r
unfolding next_receipt
next_receipt-IsLinked h f rs a r n l e =
    let (u, terminated, e') = >>=-eq-ok (raise_if (is_unterminated f) value_error) _ e in
    let e2 = rw (load_tip-IsLog f rs l) at e' in
    let (x, made, e3) =
      >>=-eq-ok (create h (receipt_id_of h (length rs + 1)) (tip_of genesis rs) a) _ e2 in
    let same : x ≡ r = ap (λ (z : ActionReceipt × ℕ). z.0) (ok-injective e3) in
    subst (λ z. IsLinked h (tip_of genesis rs) (suc (length rs)) z) same
      (subst (λ k. IsLinked h (tip_of genesis rs) k x) (omega arith)
        (create-IsLinked h (length rs + 1) (tip_of genesis rs) a x made))

-- A log that is a chain from genesis.
abbrev pub IsWritten : Host → Option LogFile → Type 0
IsWritten h f = (rs : List ActionReceipt) × IsLog f rs × IsChain h genesis 1 rs

abbrev pub is_torn : LogWrite → Bool
is_torn (torn l) = true
is_torn _ = false

appended :
    (h : Host) (f : Option LogFile) (r : ActionReceipt) (rs : List ActionReceipt)
    → IsLog f rs
    → IsChain h genesis 1 rs
    → IsLinked h (tip_of genesis rs) (suc (length rs)) r
    → IsWritten h (some (record { lines = lines_of f ++ line_of r ∷ []; terminated = true }))
appended h f r rs l c k = (
  rs ++ r ∷ [],
  (rw (lines_of-IsLog f rs l) (sym (map-append line_of rs (r ∷ []))), refl),
  IsChain-append h genesis 1 rs r c
      (subst (λ n. IsLinked h (tip_of genesis rs) n r) (omega arith) k),
)

append_receipt-IsWritten :
    (h : Host) (w : LogWrite) (r : ActionReceipt) (n : ℕ) (s : ActionState)
    (rs : List ActionReceipt)
    → is_torn w ≡ false
    → IsLog s.file rs
    → IsChain h genesis 1 rs
    → IsLinked h (tip_of genesis rs) (suc (length rs)) r
    → IsWritten h (append_receipt w r n s).1.file
unfolding append_receipt
append_receipt-IsWritten h flushed r n s rs t l c k = appended h s.file r rs l c k
append_receipt-IsWritten h lost r n s rs t l c k = (rs, (lines_of-IsLog s.file rs l, refl), c)
append_receipt-IsWritten h unsynced r n s rs t l c k = appended h s.file r rs l c k
append_receipt-IsWritten h (torn x) r n s rs t l c k = cc

append_next-IsWritten :
    (h : Host) (w : LogWrite) (s : ActionState) (x : Result (ActionReceipt × ℕ))
    (rs : List ActionReceipt)
    → is_torn w ≡ false
    → IsLog s.file rs
    → IsChain h genesis 1 rs
    → ((r : ActionReceipt) (n : ℕ)
        → x ≡ ok (r, n)
        → IsLinked h (tip_of genesis rs) (suc (length rs)) r)
    → IsWritten h (append_next w s x).1.file
unfolding append_next
append_next-IsWritten h w s (err e) rs t l c k = (rs, l, c)
append_next-IsWritten h w s (ok (r, n)) rs t l c k =
    append_receipt-IsWritten h w r n s rs t l c (k r n refl)

pub record_action-IsWritten :
    (h : Host) (w : LogWrite) (c : RecordCall) (s : ActionState)
    → is_torn w ≡ false
    → IsWritten h s.file
    → IsWritten h (record_action h w c s).1.file
unfolding record_action
record_action-IsWritten h w c s t (rs, l, k) = append_next-IsWritten h w s _ rs t l k (λ r n e.
    let (a, read, e') = >>=-eq-ok (input_of h c) (λ a. next_receipt h s.file a) e in
    next_receipt-IsLinked h s.file rs a r n l e')

pub verify_action_chain-IsWritten :
    (h : Host) (f : Option LogFile) → IsWritten h f → verify_action_chain h f ≡ ok none
unfolding verify_action_chain
verify_action_chain-IsWritten h f (rs, l, c) =
    rw (lines_of-IsLog f rs l) (verify_lines-chain h genesis 1 1 rs c)

-- A sequence of calls, each with what the disk does to its append.
unfoldable pub run_calls : Host → List (LogWrite × RecordCall) → ActionState → ActionState
unfolding record_action
run_calls h [] s = s
run_calls h ((w, c) ∷ calls) s = run_calls h calls (record_action h w c s).1

unfoldable pub any_torn : List (LogWrite × RecordCall) → Bool
any_torn [] = false
any_torn ((w, c) ∷ calls) = let rest = any_torn calls in if is_torn w then true else rest

abbrev pub empty_state : ActionState
empty_state = record { file = none; counter = 0; chain_tip = genesis }

pub run_calls-IsWritten :
    (h : Host) (calls : List (LogWrite × RecordCall)) (s : ActionState)
    → any_torn calls ≡ false
    → IsWritten h s.file
    → IsWritten h (run_calls h calls s).file
unfolding run_calls any_torn
run_calls-IsWritten h [] s t i = i
run_calls-IsWritten h ((w, c) ∷ calls) s t i =
    let parts : (is_torn w ≡ false) × (any_torn calls ≡ false) = ground arith in
    run_calls-IsWritten h calls (record_action h w c s).1 parts.1
      (record_action-IsWritten h w c s parts.0 i)

-- The log that any sequence of calls of `record` leaves, from an empty one, passes `verify_action_chain`:
-- calls that are refused, and appends that are lost or not synced included, as long as no append is torn.
pub recorded_log_verifies :
    (h : Host) (calls : List (LogWrite × RecordCall))
    → any_torn calls ≡ false
    → verify_action_chain h (run_calls h calls empty_state).file ≡ ok none
recorded_log_verifies h calls t =
    verify_action_chain-IsWritten h _ (run_calls-IsWritten h calls empty_state t ([], refl, tt))
