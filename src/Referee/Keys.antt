-- ===== src/Referee/Keys.antt =====
-- The key of a sanctioned rule joins its class and its rule with a colon.
use kry.Base.{
  ℕ, ◌+◌, ◌≤◌, ◌≡◌, refl, arith, Bool, true, false, ◌&&◌, some, ◌∷◌, ◌++◌, append_assoc, Bool-cases,
  inl, inr,
}
use kry.Base.Texts.{Text, text_eq_refl}
use kry.Base.Dicts.{lookup, insert, lookup-insert}
use kry.Base.Results.{Result, ok, err}
use kry.Double.{Double}
use kry.Referee.Rules.{
  Rule, Rules, RulesFile, rules, load_sanctioned, rule_key, Referee, pending_escalation_exists,
  is_operator, ratify_loaded, ratify_ascension, use_rule, use_loaded, is_sanctioned,
}
use kry.Referee.Passes.{left_in}

rule_key-across : (a b c : Text) → rule_key (a ++ (b':' ∷ b)) c ≡ rule_key a (b ++ (b':' ∷ c))
unfolding rule_key
rule_key-across a b c = append_assoc a (b':' ∷ b) (b':' ∷ c)

abbrev fresh_rule : ℕ → Double → Rule
fresh_rule cap now = record { uses = 0; cap = cap; ratified_ts = now }

-- The file holds under a key a rule that has never been used.
abbrev HoldsFresh : ℕ → Double → Text → RulesFile → Type 0
HoldsFresh cap now key f = (d : Rules) × (f ≡ rules d) × (lookup key d ≡ some (fresh_rule cap now))

ratify_loaded-HoldsFresh :
    (cap : ℕ) (key : Text) (now : Double) (f : RulesFile) (x : Result Rules)
    → (ratify_loaded cap key now true f x).0 ≡ true
    → HoldsFresh cap now key (ratify_loaded cap key now true f x).1
unfolding ratify_loaded
ratify_loaded-HoldsFresh cap key now f (err q) e = cc
ratify_loaded-HoldsFresh cap key now f (ok d) e =
    (insert key (fresh_rule cap now) d, refl, rw lookup-insert (rw (text_eq_refl key) refl))

ratify_ascension-HoldsFresh :
    (cap : ℕ) (secret c r token : Text) (now : Double) (s : Referee)
    → (ratify_ascension cap secret c r token now true s).0 ≡ true
    → HoldsFresh cap now
        (rule_key c r)
        (ratify_ascension cap secret c r token now true s).1.sanctioned
unfolding ratify_ascension
ratify_ascension-HoldsFresh cap secret c r token now s e =
    elim (Bool-cases (is_operator secret token && pending_escalation_exists c r s.escalations)) [
      | inl q ↦ rw q (
          ratify_loaded-HoldsFresh cap (rule_key c r) now s.sanctioned
            (load_sanctioned s.sanctioned) (rw q at e))
      | inr q ↦ cc (rw q at e)
    ]

use_loaded-fresh :
    (cap : ℕ) (now : Double) (key : Text) (f : RulesFile)
    → 1 ≤ cap
    → HoldsFresh cap now key f
    → ((use_loaded key true f (load_sanctioned f)).0 ≡ true)
      × (left_in key (use_loaded key true f (load_sanctioned f)).1 + 1 ≡ cap)
unfolding use_loaded load_sanctioned use_rule
use_loaded-fresh cap now key f some_uses (d, same, held) = rw same (
    rw held (
      ground (
        arith,
        lookup-insert key key (record (fresh_rule cap now) { uses = 1 }) d,
        text_eq_refl key,
      )))

refused_ratification :
    (cap : ℕ) (secret c r token : Text) (now : Double) (saved : Bool) (s : Referee)
    → pending_escalation_exists c r s.escalations ≡ false
    → ratify_ascension cap secret c r token now saved s ≡ (false, s)
unfolding ratify_ascension
refused_ratification cap secret c r token now saved s e = ground (arith, e)

-- Once the rule b:c of the class a is ratified with a positive cap, the rule c of the class a:b passes,
-- and its pass is taken from the uses of the ratified rule, when the writes of both calls succeed; yet a
-- ratification of c under a:b, from the state before and without an escalation of it there, is refused,
-- with any token.
pub is_sanctioned-across :
    (cap : ℕ) (secret token token' a b c : Text) (now : Double) (s : Referee)
    → 1 ≤ cap
    → (ratify_ascension cap secret a (b ++ (b':' ∷ c)) token now true s).0 ≡ true
    → pending_escalation_exists (a ++ (b':' ∷ b)) c s.escalations ≡ false
    → let f = (ratify_ascension cap secret a (b ++ (b':' ∷ c)) token now true s).1.sanctioned in
      ((is_sanctioned (a ++ (b':' ∷ b)) c true f).0 ≡ true)
      × (left_in (rule_key a (b ++ (b':' ∷ c))) (is_sanctioned (a ++ (b':' ∷ b)) c true f).1 + 1
          ≡ cap)
      × (ratify_ascension cap secret (a ++ (b':' ∷ b)) c token' now true s ≡ (false, s))
unfolding is_sanctioned
is_sanctioned-across cap secret token token' a b c now s some_uses ratified unescalated =
    let f = (ratify_ascension cap secret a (b ++ (b':' ∷ c)) token now true s).1.sanctioned in
    let passed =
      use_loaded-fresh cap now (rule_key a (b ++ (b':' ∷ c))) f some_uses
        (ratify_ascension-HoldsFresh cap secret a (b ++ (b':' ∷ c)) token now s ratified) in
    (
      rw (rule_key-across a b c) passed.0,
      rw (rule_key-across a b c) passed.1,
      refused_ratification cap secret (a ++ (b':' ∷ b)) c token' now true s unescalated,
    )
