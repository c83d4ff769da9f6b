-- ===== src/Referee/Rules.antt =====
-- The sanctioned rules and the escalation log: `escalate_quarantine`, `ratify_ascension`, `is_sanctioned`
-- and `revoke_ascension`.  A call is one step: each holds its locks throughout, except that `ratify_ascension`
-- checks the token and the escalation before it takes the lock on the rules.  Whether a write reaches
-- the disk is an argument.  A file of rules is absent, invalid, or read as `_normalise_sanctioned` gives it.
use kry.Base.{
  ℕ, ◌+◌, Bool, true, false, ◌&&◌, leb, if◌then◌else◌, Option, none, some, List, [], ◌∷◌, ◌++◌,
  length,
}
use kry.Base.Texts.{Text, codes, text_eq}
use kry.Base.Dicts.{lookup, insert}
use kry.Base.Results.{Result, ok, err, value_error}
use kry.Double.{Double, sub, lt}

pub record Rule : Type 0 where
  pub uses : ℕ
  pub cap : ℕ
  pub ratified_ts : Double

abbrev pub Rules : Type 0
Rules = List (Text × Rule)

pub data RulesFile : Type 0 where
  no_rules invalid_rules : RulesFile
  rules : Rules → RulesFile

unfoldable pub load_sanctioned : RulesFile → Result Rules
load_sanctioned no_rules = ok []
load_sanctioned invalid_rules = err value_error
load_sanctioned (rules d) = ok d

-- `f"{gate_class}:{rule}"`
unfoldable pub rule_key : Text → Text → Text
rule_key gate_class rule = gate_class ++ (b':' ∷ rule)

pub data EscalationStatus : Type 0 where
  pending_operator_review revoked : EscalationStatus

-- A line of the escalation log; a line that is no JSON object stops the search.
pub record Escalation : Type 0 where
  pub gate_class : Text
  pub rule : Text
  pub status : EscalationStatus

pub data LogLine : Type 0 where
  escalation : Escalation → LogLine
  unreadable_line : LogLine

pub record Referee : Type 0 where
  pub sanctioned : RulesFile
  pub escalations : List LogLine
  pub esc_times : List (Text × List Double)

abbrev is_pending_of : Text → Text → Escalation → Bool
is_pending_of c r e =
    text_eq e.gate_class c
    && text_eq e.rule r
    && elim e.status [ pending_operator_review ↦ true | revoked ↦ false ]

unfoldable pub pending_escalation_exists : Text → Text → List LogLine → Bool
unfolding text_eq
pending_escalation_exists c r [] = false
pending_escalation_exists c r (unreadable_line ∷ ls) = false
pending_escalation_exists c r (escalation e ∷ ls) =
    let rest = pending_escalation_exists c r ls in if is_pending_of c r e then true else rest

pub data Escalated : Type 0 where
  escalation_id : Text → Escalated
  rejected_budget rejected_write : Escalated

unfoldable pub within_window : Double → Double → List Double → List Double
unfolding lt sub
within_window window now [] = []
within_window window now (t ∷ ts) =
    let rest = within_window window now ts in if lt (sub now t) window then t ∷ rest else rest

abbrev pub or_no_times : Option (List Double) → List Double
or_no_times none = []
or_no_times (some ts) = ts

abbrev pub append_line : Bool → LogLine → List LogLine → List LogLine
append_line true l ls = ls ++ l ∷ []
append_line false l ls = ls

-- The budget counts an escalation whose line could not be written.
unfoldable pub escalate_quarantine :
    ℕ → Double → Text → Text → Double → Bool → Referee → Escalated × Referee
unfolding within_window lookup insert rule_key
escalate_quarantine budget window c r now written s =
    let times = within_window window now (or_no_times (lookup c s.esc_times)) in
    if leb budget (length times) then (rejected_budget, s) else (
      if written then escalation_id (codes "ESC-" ++ rule_key c r) else rejected_write,
      record s {
        esc_times = insert c (times ++ now ∷ []) s.esc_times;
        escalations =
            append_line written
              (escalation (record { gate_class = c; rule = r; status = pending_operator_review }))
              s.escalations;
      },
    )

-- The first text is the operator's own token; an empty token never matches.
abbrev pub is_operator : Text → Text → Bool
is_operator secret [] = false
is_operator secret (c ∷ token) = text_eq (c ∷ token) secret

abbrev pub save : Bool → Rules → RulesFile → RulesFile
save true d f = rules d
save false d f = f

unfoldable pub ratify_loaded :
    ℕ → Text → Double → Bool → RulesFile → Result Rules → Bool × RulesFile
unfolding insert
ratify_loaded cap key now saved f (err e) = (false, f)
ratify_loaded cap key now saved f (ok d) =
    (saved, save saved (insert key (record { uses = 0; cap = cap; ratified_ts = now }) d) f)

unfoldable pub ratify_ascension :
    ℕ → Text → Text → Text → Text → Double → Bool → Referee → Bool × Referee
unfolding ratify_loaded load_sanctioned rule_key pending_escalation_exists text_eq
ratify_ascension cap secret c r token now saved s =
    if is_operator secret token && pending_escalation_exists c r s.escalations
    then (let (done, f) =
          ratify_loaded cap (rule_key c r) now saved s.sanctioned (load_sanctioned s.sanctioned) in
        (done, record s { sanctioned = f }))
    else (false, s)

unfoldable pub use_rule : Text → Bool → RulesFile → Rules → Option Rule → Bool × RulesFile
unfolding insert
use_rule key saved f d none = (false, f)
use_rule key saved f d (some r) =
    if leb r.cap r.uses
    then (false, f)
    else (saved, save saved (insert key (record r { uses = r.uses + 1 }) d) f)

unfoldable pub use_loaded : Text → Bool → RulesFile → Result Rules → Bool × RulesFile
unfolding use_rule lookup
use_loaded key saved f (err e) = (false, f)
use_loaded key saved f (ok d) = use_rule key saved f d (lookup key d)

unfoldable pub is_sanctioned : Text → Text → Bool → RulesFile → Bool × RulesFile
unfolding use_loaded load_sanctioned rule_key
is_sanctioned c r saved f = use_loaded (rule_key c r) saved f (load_sanctioned f)

-- `sanctioned.pop(key, None)`
unfoldable pub removed : Text → Rules → Rules
unfolding text_eq
removed key [] = []
removed key ((k, r) ∷ d) = let rest = removed key d in if text_eq k key then rest else (k, r) ∷ rest

-- The log line of a revocation may be lost; the rule is revoked all the same.
unfoldable pub revoke_found :
    Text → Text → Bool → Bool → Referee → Rules → Option Rule → Bool × Referee
unfolding removed rule_key
revoke_found c r saved logged s d none = (false, s)
revoke_found c r saved logged s d (some x) =
    if saved
    then (
      true,
      record s {
        sanctioned = rules (removed (rule_key c r) d);
        escalations =
            append_line logged (escalation (record { gate_class = c; rule = r; status = revoked }))
              s.escalations;
      },
    )
    else (false, s)

unfoldable pub revoke_loaded : Text → Text → Bool → Bool → Referee → Result Rules → Bool × Referee
unfolding revoke_found lookup
revoke_loaded c r saved logged s (err e) = (false, s)
revoke_loaded c r saved logged s (ok d) =
    revoke_found c r saved logged s d (lookup (rule_key c r) d)

unfoldable pub revoke_ascension : Text → Text → Text → Text → Bool → Bool → Referee → Bool × Referee
unfolding revoke_loaded load_sanctioned text_eq
revoke_ascension secret c r token saved logged s =
    if is_operator secret token
    then revoke_loaded c r saved logged s (load_sanctioned s.sanctioned)
    else (false, s)
