-- ===== src/Referee/Passes.antt =====
-- A ratified rule passes at most as often as its probation cap allows.
use kry.Base.{
  ℕ, ◌+◌, ◌-◌, ◌≤◌, ◌≡◌, refl, arith, Bool, true, false, ◌&&◌, if◌then◌else◌, Option, none, some,
  List, [], ◌∷◌, Bool-cases, inl, inr,
}
use kry.Base.Texts.{Text, text_eq, text_eq_iff, text_eq_refl}
use kry.Base.Dicts.{lookup, insert, lookup-insert}
use kry.Base.Results.{Result, ok, err}
use kry.Double.{Double}
use kry.Referee.Rules.{
  Rule, Rules, RulesFile, no_rules, invalid_rules, rules, load_sanctioned, rule_key, Referee,
  pending_escalation_exists, is_operator, ratify_loaded, ratify_ascension, use_rule, use_loaded,
  is_sanctioned, removed, revoke_found, revoke_loaded, revoke_ascension, escalate_quarantine,
}
use kry.Referee.Calls.{
  Call, escalate_call, ratify_call, use_call, revoke_call, Settings, as_pass, run_call, passes,
  ratifies, any_ratifies,
}

-- The uses that a rule has left.
abbrev pub left_of : Option Rule → ℕ
left_of none = 0
left_of (some r) = r.cap - r.uses

abbrev pub left_in : Text → RulesFile → ℕ
left_in key (rules d) = left_of (lookup key d)
left_in key _ = 0

module _ (key : Text) where
  lookup-removed :
      (k : Text) (d : Rules)
      → lookup key (removed k d) ≡ (if text_eq k key then none else lookup key d)
  unfolding removed lookup
  lookup-removed k [] = ground arith
  lookup-removed k ((j, r) ∷ d) =
      ground (arith, lookup-removed k d, text_eq_iff j k, text_eq_iff j key, text_eq_iff k key)

  use_rule-left :
      (k : Text) (saved : Bool) (d : Rules) (o : Option Rule)
      → lookup k d ≡ o
      → (if text_eq k key then as_pass (use_rule k saved (rules d) d o).0 else 0)
          + left_in key (use_rule k saved (rules d) d o).1
        ≤ left_of (lookup key d)
  unfolding use_rule
  use_rule-left k saved d none e = ground arith
  use_rule-left k true d (some r) e =
      ground (arith, e, lookup-insert k key (record r { uses = r.uses + 1 }) d, text_eq_iff k key)
  use_rule-left k false d (some r) e = ground arith

  use_rule-empty :
      (c r : Text) (saved : Bool)
      → (if text_eq (rule_key c r) key then as_pass (is_sanctioned c r saved no_rules).0 else 0)
          + left_in key (is_sanctioned c r saved no_rules).1
        ≤ 0
  unfolding is_sanctioned use_loaded load_sanctioned use_rule lookup
  use_rule-empty c r saved = ground arith

  is_sanctioned-left :
      (c r : Text) (saved : Bool) (f : RulesFile)
      → (if text_eq (rule_key c r) key then as_pass (is_sanctioned c r saved f).0 else 0)
          + left_in key (is_sanctioned c r saved f).1
        ≤ left_in key f
  unfolding is_sanctioned use_loaded load_sanctioned
  is_sanctioned-left c r saved no_rules = use_rule-empty c r saved
  is_sanctioned-left c r saved invalid_rules = ground arith
  is_sanctioned-left c r saved (rules d) = use_rule-left (rule_key c r) saved d _ refl

  ratify_loaded-left :
      (cap : ℕ) (k : Text) (now : Double) (saved : Bool) (f : RulesFile)
      → text_eq k key ≡ false
      → left_in key (ratify_loaded cap k now saved f (load_sanctioned f)).1 ≤ left_in key f
  unfolding ratify_loaded load_sanctioned lookup insert
  ratify_loaded-left cap k now true no_rules e = ground (arith, e)
  ratify_loaded-left cap k now false no_rules e = omega arith
  ratify_loaded-left cap k now saved invalid_rules e = omega arith
  ratify_loaded-left cap k now true (rules d) e =
      ground (arith, e, lookup-insert k key (record { uses = 0; cap = cap; ratified_ts = now }) d)
  ratify_loaded-left cap k now false (rules d) e = omega arith

  ratify_ascension-left :
      (g : Settings) (c r token : Text) (now : Double) (saved : Bool) (s : Referee)
      → text_eq (rule_key c r) key ≡ false
      → left_in key (ratify_ascension g.cap g.secret c r token now saved s).1.sanctioned
        ≤ left_in key s.sanctioned
  unfolding ratify_ascension
  ratify_ascension-left g c r token now saved s e =
      elim (Bool-cases
        (is_operator g.secret token && pending_escalation_exists c r s.escalations)) [
          | inl q ↦ rw q (ratify_loaded-left g.cap (rule_key c r) now saved s.sanctioned e)
          | inr q ↦ rw q (omega arith)
        ]

  revoke_found-left :
      (c r : Text) (saved logged : Bool) (s : Referee) (d : Rules) (o : Option Rule)
      → s.sanctioned ≡ rules d
      → left_in key (revoke_found c r saved logged s d o).1.sanctioned ≤ left_of (lookup key d)
  unfolding revoke_found
  revoke_found-left c r saved logged s d none e = rw e (omega arith)
  revoke_found-left c r true logged s d (some x) e = ground (arith, lookup-removed (rule_key c r) d)
  revoke_found-left c r false logged s d (some x) e = rw e (omega arith)

  revoke_loaded-left :
      (c r : Text) (saved logged : Bool) (s : Referee) (f : RulesFile)
      → s.sanctioned ≡ f
      → left_in key (revoke_loaded c r saved logged s (load_sanctioned f)).1.sanctioned
        ≤ left_in key f
  unfolding revoke_loaded load_sanctioned revoke_found lookup
  revoke_loaded-left c r saved logged s no_rules e = rw e (omega arith)
  revoke_loaded-left c r saved logged s invalid_rules e = rw e (omega arith)
  revoke_loaded-left c r saved logged s (rules d) e =
      revoke_found-left c r saved logged s d (lookup (rule_key c r) d) e

  revoke_ascension-left :
      (g : Settings) (c r token : Text) (saved logged : Bool) (s : Referee)
      → left_in key (revoke_ascension g.secret c r token saved logged s).1.sanctioned
        ≤ left_in key s.sanctioned
  unfolding revoke_ascension
  revoke_ascension-left g c r token saved logged s =
      elim (Bool-cases (is_operator g.secret token)) [
        | inl q ↦ rw q (revoke_loaded-left c r saved logged s s.sanctioned refl)
        | inr q ↦ rw q (omega arith)
      ]

  escalate_quarantine-left :
      (g : Settings) (c r : Text) (now : Double) (written : Bool) (s : Referee)
      → left_in key (escalate_quarantine g.budget g.window c r now written s).1.sanctioned
        ≤ left_in key s.sanctioned
  unfolding escalate_quarantine
  escalate_quarantine-left g c r now written s = ground arith

  run_call-left :
      (g : Settings) (c : Call) (s : Referee)
      → ratifies g key c ≡ false
      → (run_call g key c s).0 + left_in key (run_call g key c s).1.sanctioned
        ≤ left_in key s.sanctioned
  unfolding run_call ratifies
  run_call-left g (escalate_call c r now written) s e =
      omega (arith, escalate_quarantine-left g c r now written s)
  run_call-left g (ratify_call c r token now saved) s e =
      omega (arith, ratify_ascension-left g c r token now saved s e)
  run_call-left g (use_call c r saved) s e = is_sanctioned-left c r saved s.sanctioned
  run_call-left g (revoke_call c r token saved logged) s e =
      omega (arith, revoke_ascension-left g c r token saved logged s)

  -- In any sequence of calls without a ratification of the rule, it passes at most as often as it has uses
  -- left at the start.
  pub passes_within_left :
      (g : Settings) (cs : List Call) (s : Referee)
      → any_ratifies g key cs ≡ false
      → passes g key cs s ≤ left_in key s.sanctioned
  unfolding passes any_ratifies
  passes_within_left g [] s e = omega arith
  passes_within_left g (c ∷ cs) s e =
      let parts : (ratifies g key c ≡ false) × (any_ratifies g key cs ≡ false) = ground arith in
      omega
        (arith, run_call-left g c s parts.0, passes_within_left g cs (run_call g key c s).1 parts.1)

ratify_loaded-left_cap :
    (key : Text) (cap : ℕ) (now : Double) (saved : Bool) (f : RulesFile) (x : Result Rules)
    → (ratify_loaded cap key now saved f x).0 ≡ true
    → left_in key (ratify_loaded cap key now saved f x).1 ≤ cap
unfolding ratify_loaded
ratify_loaded-left_cap key cap now saved f (err q) e = cc
ratify_loaded-left_cap key cap now true f (ok d) e = ground (
  arith,
  lookup-insert key key (record { uses = 0; cap = cap; ratified_ts = now }) d,
  text_eq_refl key,
)
ratify_loaded-left_cap key cap now false f (ok d) e = cc

and_true : (x y : Bool) → (x && y) ≡ true → (x ≡ true) × (y ≡ true)
and_true true y e = (refl, e)
and_true false y e = cc

ratify_ascension-left_cap :
    (g : Settings) (c r token : Text) (now : Double) (saved : Bool) (s : Referee)
    → (ratify_ascension g.cap g.secret c r token now saved s).0 ≡ true
    → (is_operator g.secret token ≡ true)
      × (pending_escalation_exists c r s.escalations ≡ true)
      × (left_in (rule_key c r) (ratify_ascension g.cap g.secret c r token now saved s).1.sanctioned
          ≤ g.cap)
unfolding ratify_ascension
ratify_ascension-left_cap g c r token now saved s e =
    elim (Bool-cases (is_operator g.secret token && pending_escalation_exists c r s.escalations)) [
      | inl q ↦
          let (operator, pending) = and_true (is_operator g.secret token) _ q in
          (
            operator,
            pending,
            rw q (
                ratify_loaded-left_cap (rule_key c r) g.cap now saved s.sanctioned
                  (load_sanctioned s.sanctioned) (rw q at e)),
          )
      | inr q ↦ cc (rw q at e)
    ]

-- A ratification that succeeds was made with the operator's token and a pending escalation of the rule, and
-- in any later sequence of calls that does not ratify the rule again, whatever else is used, ratified,
-- revoked or escalated, the rule passes at most as often as the probation cap.
pub ratified_passes_within_cap :
    (g : Settings) (c r token : Text) (now : Double) (saved : Bool) (s : Referee) (cs : List Call)
    → (ratify_ascension g.cap g.secret c r token now saved s).0 ≡ true
    → any_ratifies g (rule_key c r) cs ≡ false
    → (is_operator g.secret token ≡ true)
      × (pending_escalation_exists c r s.escalations ≡ true)
      × (passes g (rule_key c r) cs (ratify_ascension g.cap g.secret c r token now saved s).1
          ≤ g.cap)
ratified_passes_within_cap g c r token now saved s cs e fresh =
    let (operator, pending, left) = ratify_ascension-left_cap g c r token now saved s e in
    (
      operator,
      pending,
      omega (
        arith,
        left,
        passes_within_left (rule_key c r) g cs
            (ratify_ascension g.cap g.secret c r token now saved s).1 fresh,
      ),
    )
