-- ===== src/Referee/Calls.antt =====
-- A sequence of calls on the referee, and how often a rule lets a decision pass in it.
use kry.Base.{ℕ, ◌+◌, Bool, true, false, ◌||◌, if◌then◌else◌, List, [], ◌∷◌}
use kry.Base.Texts.{Text, text_eq}
use kry.Double.{Double}
use kry.Referee.Rules.{
  rule_key, Referee, escalate_quarantine, ratify_ascension, is_sanctioned, revoke_ascension,
}

pub data Call : Type 0 where
  escalate_call : Text → Text → Double → Bool → Call
  ratify_call : Text → Text → Text → Double → Bool → Call
  use_call : Text → Text → Bool → Call
  revoke_call : Text → Text → Text → Bool → Bool → Call

-- The settings of the process: the probation cap, the operator's token, the escalation budget and window.
pub record Settings : Type 0 where
  pub cap : ℕ
  pub secret : Text
  pub budget : ℕ
  pub window : Double

abbrev pub as_pass : Bool → ℕ
as_pass true = 1
as_pass false = 0

module _ (g : Settings) (key : Text) where
  -- The passes of the rule in one call, and the state after it.
  unfoldable pub run_call : Call → Referee → ℕ × Referee
  unfolding escalate_quarantine ratify_ascension is_sanctioned revoke_ascension rule_key text_eq
  run_call (escalate_call c r now written) s =
      (0, (escalate_quarantine g.budget g.window c r now written s).1)
  run_call (ratify_call c r token now saved) s =
      (0, (ratify_ascension g.cap g.secret c r token now saved s).1)
  run_call (use_call c r saved) s =
      let (pass, f) = is_sanctioned c r saved s.sanctioned in
      (if text_eq (rule_key c r) key then as_pass pass else 0, record s { sanctioned = f })
  run_call (revoke_call c r token saved logged) s =
      (0, (revoke_ascension g.secret c r token saved logged s).1)

  unfoldable pub passes : List Call → Referee → ℕ
  unfolding run_call
  passes [] s = 0
  passes (c ∷ cs) s = let (n, s') = run_call c s in n + passes cs s'

  unfoldable pub ratifies : Call → Bool
  unfolding rule_key text_eq
  ratifies (ratify_call c r token now saved) = text_eq (rule_key c r) key
  ratifies (escalate_call c r now written) = false
  ratifies (use_call c r saved) = false
  ratifies (revoke_call c r token saved logged) = false

  unfoldable pub any_ratifies : List Call → Bool
  unfolding ratifies
  any_ratifies [] = false
  any_ratifies (c ∷ cs) = ratifies c || any_ratifies cs
