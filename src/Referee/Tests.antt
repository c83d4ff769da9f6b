-- ===== src/Referee/Tests.antt =====
-- A rule that is escalated, ratified with a cap of two, and used three times.
use kry.Base.{◌+◌, arith, ◌≡◌, ◌≤◌, refl, true, false, List, [], ◌∷◌}
use kry.Base.Int.{pos}
use kry.Base.Texts.{Text, codes, text_eq}
use kry.Double.{zero_double}
use kry.Python.{int}
use kry.Referee.Rules.{
  RulesFile, no_rules, Referee, escalation, pending_operator_review, is_operator, rule_key,
  ratify_ascension, ratify_loaded, load_sanctioned, pending_escalation_exists, is_sanctioned,
}
use kry.Referee.Calls.{Call, use_call, Settings, passes, run_call, any_ratifies}
use kry.Referee.Keys.{is_sanctioned-across}
use kry.Referee.Passes.{left_in, ratified_passes_within_cap}
use kry.Referee.Review.{GateDecision, review_gate_decision}
use kry.Referee.Verdicts.{Stands, review_gate_decision-Stands}

abbrev settings : Settings
settings = record { cap = 2; secret = codes "op"; budget = 5; window = zero_double }

abbrev budget_class : Text
budget_class = codes "daily_budget"

abbrev limit_rule : Text
limit_rule = codes "limit"

abbrev escalated : Referee
escalated = record {
  sanctioned = no_rules;
  escalations =
      escalation
        (record { gate_class = budget_class; rule = limit_rule; status = pending_operator_review })
      ∷ [];
  esc_times = [];
}

abbrev three_uses : List Call
three_uses =
    use_call budget_class limit_rule true
    ∷ use_call budget_class limit_rule true
    ∷ use_call budget_class limit_rule true
    ∷ []

ratified :
    (ratify_ascension 2
      (codes "op")
      budget_class
      limit_rule
      (codes "op")
      zero_double
      true
      escalated).0
    ≡ true
unfolding ratify_ascension ratify_loaded load_sanctioned pending_escalation_exists text_eq
ratified = refl

not_ratified_again : any_ratifies settings (rule_key budget_class limit_rule) three_uses ≡ false
unfolding any_ratifies kry.Referee.Calls.ratifies
not_ratified_again = refl

ratified_passes_within_cap_example :
    (is_operator (codes "op") (codes "op") ≡ true)
    × (pending_escalation_exists budget_class limit_rule escalated.escalations ≡ true)
    × (passes settings
          (rule_key budget_class limit_rule)
          three_uses
          (ratify_ascension 2
            (codes "op")
            budget_class
            limit_rule
            (codes "op")
            zero_double
            true
            escalated).1
        ≤ 2)
ratified_passes_within_cap_example =
    ratified_passes_within_cap settings budget_class limit_rule (codes "op") zero_double true
      escalated three_uses ratified not_ratified_again

abbrev redirect : Text → GateDecision
redirect outcome = record {
  ts = zero_double;
  gate_class = budget_class;
  rule = limit_rule;
  outcome = outcome;
  confidence = codes "clear";
  model = codes "m";
  kry_cost = zero_double;
  caller_challenged = false;
}

review_gate_decision-Stands_example :
    Stands
      (redirect (codes "allow"))
      (is_sanctioned budget_class limit_rule true no_rules).0
      (redirect (codes "redirect") ∷ [])
      (review_gate_decision
        (redirect (codes "allow"))
        (int (pos 1))
        (int (pos 7))
        true
        (redirect (codes "redirect") ∷ [])
        no_rules).0
review_gate_decision-Stands_example =
    review_gate_decision-Stands (redirect (codes "allow")) (int (pos 1)) (int (pos 7)) true
      (redirect (codes "redirect") ∷ []) no_rules

-- The rule x:y of a class, escalated; the rule y of the class with :x passes once it is ratified.
abbrev soft_class : Text
soft_class = codes "crr_soft_gate"

abbrev soft_escalated : Referee
soft_escalated = record escalated {
  escalations =
      escalation
        (record { gate_class = soft_class; rule = codes "x:y"; status = pending_operator_review })
      ∷ [];
}

abbrev soft_rules : RulesFile
soft_rules =
    (ratify_ascension 2 (codes "op") soft_class (codes "x:y") (codes "op") zero_double true
      soft_escalated).1.sanctioned

is_sanctioned-across_example :
    ((is_sanctioned (codes "crr_soft_gate:x") (codes "y") true soft_rules).0 ≡ true)
    × (left_in
            (rule_key soft_class (codes "x:y"))
            (is_sanctioned (codes "crr_soft_gate:x") (codes "y") true soft_rules).1
          + 1
        ≡ 2)
    × (ratify_ascension 2
          (codes "op")
          (codes "crr_soft_gate:x")
          (codes "y")
          (codes "op")
          zero_double
          true
          soft_escalated
        ≡ (false, soft_escalated))
unfolding ratify_ascension ratify_loaded load_sanctioned pending_escalation_exists text_eq
is_sanctioned-across_example =
    is_sanctioned-across 2 (codes "op") (codes "op") (codes "op") soft_class (codes "x") (codes "y")
      zero_double soft_escalated (omega arith) refl refl
