-- ===== src/Ledger/Account.antt =====
-- What the ledger promises: an account of three amounts, that an earning credits and a debit lowers.
use kry.Base.{ℕ, ◌+◌, ◌-◌, ◌≤◌, ◌≡◌, refl, ap, ◌∙◌, arith, true, false}
use kry.Base.Int.{pos, neg, ◌+ℤ◌}
use kry.Base.Texts.{Text}
use kry.Base.Results.{ok}
use kry.Double.{fin, add, sub, eq, lt, IsDouble, round_to}
use kry.Double.Order.{add-pos, sub-pos, minus_pos}
use kry.Ledger.Prices.{finite_number, as_float}
use kry.Ledger.Book.{Totals, Document, accounting_of, finite, nonnegative}
use kry.Ledger.World.{World}
use kry.Ledger.Merge.{merged_total, merged_totals, clamped}
use kry.Ledger.Saving.{differ}
use kry.Ledger.Read.{IsReadable}

-- Amounts in units of 2 ^ -1074.
pub record Account : Type 0 where
  pub balance : ℕ
  pub earned : ℕ
  pub spent : ℕ

abbrev pub credited : ℕ → Account → Account
credited v c = record { balance = c.balance + v; earned = c.earned + v; spent = c.spent }

abbrev pub debited : ℕ → Account → Account
debited v c = record { balance = c.balance - v; earned = c.earned; spent = c.spent + v }

abbrev pub totals_for : Account → Totals
totals_for c = record {
  balance = fin (pos c.balance);
  earned = fin (pos c.earned);
  spent = fin (pos c.spent);
}

-- The amounts are values of doubles.
abbrev pub IsExact : Account → Type 0
IsExact c = IsDouble (pos c.balance) × IsDouble (pos c.earned) × IsDouble (pos c.spent)

-- The journal on the disk holds the account, and the process has no change of its own that is not saved.
abbrev pub Holds : (Text → Text) → Account → World → Type 0
Holds strip c s =
    (d : Document) × IsReadable strip d s
    × ((accounting_of d).totals ≡ totals_for c)
    × (differ s.ledger.totals s.ledger.baseline ≡ false)

zero_exact : IsDouble (pos 0)
unfolding round_to
zero_exact = refl

back : (x v : ℕ) → x + v - x ≡ v
back x v = omega arith

same_less : (x : ℕ) → x - x ≡ 0
same_less x = omega arith

plus_zero : (x : ℕ) → x + 0 ≡ x
plus_zero x = omega arith

below : (x v : ℕ) → v ≤ x → pos (x - v) +ℤ neg (pos x) ≡ neg (pos v)
unfolding ◌+ℤ◌
below x v h = ground arith

nothing : (x : ℕ) → sub (fin (pos x)) (fin (pos x)) ≡ fin (pos 0)
nothing x = sub-pos x x (omega arith) ∙ (ap (λ n. round_to (pos n) 1) (same_less x) ∙ zero_exact)

unchanged : (x : ℕ) → IsDouble (pos x) → add (fin (pos x)) (fin (pos 0)) ≡ fin (pos x)
unchanged x h = add-pos x 0 ∙ (ap (λ n. round_to (pos n) 1) (plus_zero x) ∙ h)

module _ (x v : ℕ) where
  total_grows :
      IsDouble (pos v)
      → IsDouble (pos (x + v))
      → merged_total (fin (pos x)) (fin (pos (x + v))) (fin (pos x)) ≡ ok (fin (pos (x + v)))
  unfolding merged_total finite_number as_float
  total_grows hv hs = rw (sub-pos (x + v) x (omega arith), back x v, hv, add-pos x v, hs) refl

  total_stays :
      IsDouble (pos x) → merged_total (fin (pos x)) (fin (pos x)) (fin (pos x)) ≡ ok (fin (pos x))
  unfolding merged_total finite_number as_float
  total_stays hx = rw (nothing x, unchanged x hx) refl

  total_falls :
      v ≤ x
      → IsDouble (neg (pos v))
      → IsDouble (pos (x - v))
      → merged_total (fin (pos x)) (fin (pos (x - v))) (fin (pos x)) ≡ ok (fin (pos (x - v)))
  unfolding merged_total finite_number as_float sub add
  total_falls small hv hs = rw (below x v small, hv, minus_pos x v small, hs) refl

pub merged_totals-credited :
    (c : Account) (v : ℕ)
    → IsExact c
    → IsDouble (pos v)
    → IsExact (credited v c)
    → merged_totals (totals_for c) (totals_for (credited v c)) (totals_for c)
      ≡ ok (totals_for (credited v c))
unfolding merged_totals
merged_totals-credited c v (b, e, x) hv (b', e', x') =
    rw (total_grows c.balance v hv b', total_grows c.earned v hv e', total_stays c.spent v x) refl

pub merged_totals-debited :
    (c : Account) (v : ℕ)
    → IsExact c
    → v ≤ c.balance
    → IsDouble (pos v)
    → IsDouble (neg (pos v))
    → IsExact (debited v c)
    → merged_totals (totals_for c) (totals_for (debited v c)) (totals_for c)
      ≡ ok (totals_for (debited v c))
unfolding merged_totals
merged_totals-debited c v (b, e, x) small hv hn (b', e', x') =
    rw (total_falls c.balance v small hn b', total_stays c.earned v e, total_grows c.spent v hv x')
      refl

pub clamped-totals_for : (c : Account) → clamped (totals_for c) ≡ totals_for c
unfolding clamped lt
clamped-totals_for c = ground arith

eq_refl : (n : ℕ) → eq (fin (pos n)) (fin (pos n)) ≡ true
unfolding eq
eq_refl n = ground arith

pub differ-totals_for : (c : Account) → differ (totals_for c) (totals_for c) ≡ false
differ-totals_for c = rw (eq_refl c.balance, eq_refl c.earned, eq_refl c.spent) refl

pub finite-pos : (n : ℕ) → finite (fin (pos n)) ≡ ok (fin (pos n))
unfolding finite_number as_float
finite-pos n = refl

pub nonnegative-pos : (n : ℕ) → nonnegative (fin (pos n)) ≡ ok (fin (pos n))
unfolding finite_number as_float lt
nonnegative-pos n = ground arith
