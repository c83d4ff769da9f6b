-- ===== src/Referee/Review.antt =====
-- `review_gate_decision`: a gate's decision is logged, compared with the recent ones, and stands.
use kry.Base.{
  Bool, true, false, ◌&&◌, not, ltb, if◌then◌else◌, Option, none, some, List, [], ◌∷◌, ◌++◌, length,
  drop,
}
use kry.Base.Texts.{Text, codes, text_eq}
use kry.Base.Results.{Result, ok, err, ◌>>=◌}
use kry.Double.{Double}
use kry.Python.{Value, finite_number, nonnegative}
use kry.Referee.Rules.{RulesFile, is_sanctioned}

pub record GateDecision : Type 0 where
  pub ts : Double
  pub gate_class : Text
  pub rule : Text
  pub outcome : Text
  pub confidence : Text
  pub model : Text
  pub kry_cost : Double
  pub caller_challenged : Bool

-- The attack types that a verdict can carry.
pub data AttackType : Type 0 where
  direct_gate_attempt redirect_seeking invalidation_seeking : AttackType
  budget_exhaustion cooperative sanctioned_ascension : AttackType

-- Without the reason, a text for people.
pub record StabilityVerdict : Type 0 where
  pub decision : Text
  pub consistent : Bool
  pub quarantined : Bool
  pub attack_type : AttackType

-- The window of recent decisions, the oldest first; the log file is written at best effort.
unfoldable pub log_decision : GateDecision → List GateDecision → List GateDecision
log_decision d recent =
    let all = recent ++ d ∷ [] in if ltb 200 (length all) then drop 1 all else all

unfoldable pub conflicts : GateDecision → GateDecision → Bool
unfolding text_eq
conflicts d prior =
    text_eq prior.gate_class d.gate_class
    && text_eq prior.rule d.rule
    && text_eq prior.confidence d.confidence
    && not (text_eq prior.outcome d.outcome)

abbrev pub or_if : Option GateDecision → Bool → GateDecision → Option GateDecision
or_if (some p) c q = some p
or_if none true q = some q
or_if none false q = none

-- The latest prior decision that conflicts.
unfoldable pub materially_inconsistent : GateDecision → List GateDecision → Option GateDecision
unfolding conflicts
materially_inconsistent d [] = none
materially_inconsistent d (p ∷ ps) = or_if (materially_inconsistent d ps) (conflicts d p) p

unfoldable pub classify_attack : GateDecision → Bool → Bool → AttackType
unfolding text_eq
classify_attack d challenged induced =
    if induced
    then invalidation_seeking
    else if challenged && text_eq d.outcome (codes "redirect")
    then redirect_seeking
    else if text_eq d.gate_class (codes "daily_budget") && text_eq d.outcome (codes "redirect")
    then budget_exhaustion
    else if text_eq d.gate_class (codes "free_tier_passthru")
    then cooperative
    else direct_gate_attempt

unfoldable pub verdict_of : GateDecision → Bool → Option GateDecision → StabilityVerdict
unfolding classify_attack
verdict_of d true conflict = record {
  decision = d.outcome;
  consistent = true;
  quarantined = false;
  attack_type = sanctioned_ascension;
}
verdict_of d false none = record {
  decision = d.outcome;
  consistent = true;
  quarantined = false;
  attack_type = classify_attack d d.caller_challenged false;
}
verdict_of d false (some prior) = record {
  decision = d.outcome;
  consistent = false;
  quarantined = true;
  attack_type = classify_attack d d.caller_challenged true;
}

unfoldable pub review_checked :
    Bool
    → List GateDecision
    → RulesFile
    → Result GateDecision
    → Result StabilityVerdict × List GateDecision × RulesFile
unfolding verdict_of log_decision materially_inconsistent is_sanctioned
review_checked saved recent f (err e) = (err e, recent, f)
review_checked saved recent f (ok d) =
    let (pass, f') = is_sanctioned d.gate_class d.rule saved f in
    (ok (verdict_of d pass (materially_inconsistent d recent)), log_decision d recent, f')

-- The decision of the call, once its cost and the clock are finite and not negative.
abbrev pub checked_decision : GateDecision → Value → Value → Result GateDecision
checked_decision d cost now = do
  c ← finite_number cost nonnegative
  t ← finite_number now nonnegative
  ok (record d { kry_cost = c; ts = t })

unfoldable pub review_gate_decision :
    GateDecision
    → Value
    → Value
    → Bool
    → List GateDecision
    → RulesFile
    → Result StabilityVerdict × List GateDecision × RulesFile
unfolding review_checked
review_gate_decision d cost now saved recent f =
    review_checked saved recent f (checked_decision d cost now)
