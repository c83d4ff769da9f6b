-- ===== src/Referee/Verdicts.antt =====
-- What a verdict says.
use kry.Base.{
  ◌≡◌, refl, arith, Bool, true, false, not, ◌&&◌, List, [], ◌∷◌, any, ◌∙◌, ap, Option, none, some,
}
use kry.Base.Results.{Result, ok, err, >>=-eq-ok, ok-injective}
use kry.Python.{Value, finite_number, nonnegative}
use kry.Referee.Rules.{RulesFile, is_sanctioned}
use kry.Referee.Review.{
  GateDecision, StabilityVerdict, conflicts, materially_inconsistent, verdict_of, review_checked,
  checked_decision, review_gate_decision,
}

abbrev is_found : Option GateDecision → Bool
is_found none = false
is_found (some p) = true

materially_inconsistent-any :
    (d : GateDecision) (ps : List GateDecision)
    → is_found (materially_inconsistent d ps) ≡ any (conflicts d) ps
unfolding materially_inconsistent
materially_inconsistent-any d [] = refl
materially_inconsistent-any d (p ∷ ps) = ground (arith, materially_inconsistent-any d ps)

verdict_of-quarantined :
    (d : GateDecision) (pass : Bool) (o : Option GateDecision)
    → ((verdict_of d pass o).decision ≡ d.outcome)
      × ((verdict_of d pass o).quarantined ≡ not pass && is_found o)
unfolding verdict_of
verdict_of-quarantined d true o = (refl, refl)
verdict_of-quarantined d false none = (refl, refl)
verdict_of-quarantined d false (some p) = (refl, refl)

checked_decision-same :
    (d : GateDecision) (cost now : Value) (e : GateDecision)
    → checked_decision d cost now ≡ ok e
    → e ≡ record d { kry_cost = e.kry_cost; ts = e.ts }
checked_decision-same d cost now e q =
    let (c, hc, q') = >>=-eq-ok (finite_number cost nonnegative) _ q in
    let (t, ht, q'') = >>=-eq-ok (finite_number now nonnegative) _ q' in cc (ok-injective q'')

any-conflicts :
    (d e : GateDecision) (ps : List GateDecision)
    → e ≡ record d { kry_cost = e.kry_cost; ts = e.ts }
    → any (conflicts e) ps ≡ any (conflicts d) ps
unfolding conflicts
any-conflicts d e [] same = refl
any-conflicts d e (p ∷ ps) same = rw (any-conflicts d e ps same) (rw same refl)

-- What a verdict says of its decision.
abbrev pub Stands : GateDecision → Bool → List GateDecision → Result StabilityVerdict → Type 0
Stands d pass recent (err x) = Unit {0}
Stands d pass recent (ok v) =
    (v.decision ≡ d.outcome) × (v.quarantined ≡ not pass && any (conflicts d) recent)

review_checked-Stands :
    (d : GateDecision) (saved : Bool) (recent : List GateDecision) (f : RulesFile)
    (x : Result GateDecision)
    → ((e : GateDecision) → x ≡ ok e → e ≡ record d { kry_cost = e.kry_cost; ts = e.ts })
    → Stands d
        (is_sanctioned d.gate_class d.rule saved f).0
        recent
        (review_checked saved recent f x).0
unfolding review_checked
review_checked-Stands d saved recent f (err x) same = tt
review_checked-Stands d saved recent f (ok e) same =
    let is : e ≡ record d { kry_cost = e.kry_cost; ts = e.ts } = same e refl in
    let (stands, flagged) =
      verdict_of-quarantined e (is_sanctioned e.gate_class e.rule saved f).0
        (materially_inconsistent e recent) in
    let outcome : e.outcome ≡ d.outcome = ap (λ (z : GateDecision). z.outcome) is in
    let gate_class : e.gate_class ≡ d.gate_class = ap (λ (z : GateDecision). z.gate_class) is in
    let rule : e.rule ≡ d.rule = ap (λ (z : GateDecision). z.rule) is in
    (
      stands ∙ outcome,
      flagged
          ∙ rw (materially_inconsistent-any e recent, any-conflicts d e recent is, gate_class, rule)
              refl,
    )

-- The decision of the gate stands in every verdict, and it is quarantined exactly when the rule is not
-- sanctioned and a recent decision conflicts with it: the same class, rule and confidence, and another
-- outcome.
pub review_gate_decision-Stands :
    (d : GateDecision) (cost now : Value) (saved : Bool) (recent : List GateDecision)
    (f : RulesFile)
    → Stands d
        (is_sanctioned d.gate_class d.rule saved f).0
        recent
        (review_gate_decision d cost now saved recent f).0
unfolding review_gate_decision
review_gate_decision-Stands d cost now saved recent f =
    review_checked-Stands d saved recent f (checked_decision d cost now)
      (checked_decision-same d cost now)
