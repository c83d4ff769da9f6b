-- ===== src/PromptCache/Understated.antt =====
-- A usage that does not state how its cache writes split by time to live is never valued at more.
use kry.Base.{
  ℕ, zero, suc, ◌+◌, ◌*◌, ◌≤◌, ◌≡◌, refl, arith, Bool, true, false, leb, ◌==◌, ==_iff,
  if◌then◌else◌, Option, none, some, List, [], ◌∷◌, sym, ◌∙◌,
}
use kry.Base.Texts.{Text, codes, text_eq}
use kry.Base.Dicts.{lookup, insert, lookup-insert}
use kry.Python.{Value, str}
use kry.PromptCache.Prices.{Prices, anthropic_prices, aliases, OpenaiPrices}
use kry.PromptCache.Valuation.{
  Item, nested, plain, Usage, Priced, Valuation, priced, modifier_excluded, malformed,
  price_anthropic, split_sum, has_either, assumed_1h, split_of, or_count, or_count_item, or_same,
  value_counts, value_anthropic, value_openai, model_key, openai_key, key_if, value_keyed,
  value_record,
}

abbrev pub cache_creation : Text
cache_creation = codes "cache_creation"

-- The usage with the split written into it.
abbrev pub with_split : List (Text × Value) → Usage → Usage
with_split d u = insert cache_creation (nested d) u

lookup-with_split :
    (j : Text) (d : List (Text × Value)) (u : Usage)
    → text_eq cache_creation j ≡ false
    → lookup j (with_split d u) ≡ lookup j u
lookup-with_split j d u e = ground (arith, lookup-insert cache_creation j (nested d) u)

-- The second is valued as the first, and paid at most as much.
abbrev pub IsAtMost : Priced → Priced → Type 0
IsAtMost r s = (s.without_caching ≡ r.without_caching) × (s.actual ≤ r.actual)

priced-injective :
    {k k' : Text} {s s' : Priced}
    → priced k s ≡ priced k' s'
    → (s'.without_caching ≡ s.without_caching) × (s'.actual ≡ s.actual)
priced-injective e = (cc, cc)

mul_mono : (a x y : ℕ) → x ≤ y → a * x ≤ a * y
mul_mono zero x y h = omega arith
mul_mono (suc a) x y h = omega (arith, mul_mono a x y h)

split_cost : (a b w x y : ℕ) → a + b ≡ w → x ≤ y → a * x + b * y ≤ w * y
split_cost a b w x y e h = rw (sym e) (omega (arith, mul_mono a x y h))

-- The parts of a split add up to the writes.
abbrev IsSplit : ℕ → Option (ℕ × ℕ × Bool) → Type 0
IsSplit w none = Unit {0}
IsSplit w (some (a, b, t)) = a + b ≡ w

if-IsSplit :
    (w : ℕ) (c : Bool) (x y : Option (ℕ × ℕ × Bool))
    → (c ≡ true → IsSplit w x)
    → IsSplit w y
    → IsSplit w (if c then x else y)
if-IsSplit w true x y h k = h refl
if-IsSplit w false x y h k = k

split_sum-IsSplit : (w : ℕ) (x y : Option ℕ) → IsSplit w (split_sum w x y)
split_sum-IsSplit w none y = tt
split_sum-IsSplit w (some a) none = tt
split_sum-IsSplit w (some a) (some b) =
    if-IsSplit w (a + b == w) _ _ (λ e. (==_iff (a + b) w).0 e) tt

split_of-IsSplit : (w : ℕ) (i : Option Item) → IsSplit w (split_of w i)
unfolding split_of
split_of-IsSplit w none = omega arith
split_of-IsSplit w (some (plain v)) = omega arith
split_of-IsSplit w (some (nested d)) =
    let a = lookup (codes "ephemeral_5m_input_tokens") d in
    let b = lookup (codes "ephemeral_1h_input_tokens") d in
    if-IsSplit w (has_either a b) (split_sum w (or_count 0 a) (or_count 0 b)) (assumed_1h w)
      (λ _. split_sum-IsSplit w (or_count 0 a) (or_count 0 b)) (omega arith)

price_anthropic-assumed :
    (key : Text) (p : Prices) (n r w : ℕ) (o : Option (ℕ × ℕ × Bool)) (k k' : Text) (s s' : Priced)
    → p.write_5m ≤ p.write_1h
    → IsSplit w o
    → price_anthropic key p n r w (assumed_1h w) ≡ priced k s
    → price_anthropic key p n r w o ≡ priced k' s'
    → IsAtMost s s'
unfolding price_anthropic
price_anthropic-assumed key p n r w none k k' s s' h z e e' = cc
price_anthropic-assumed key p n r w (some (a, b, t)) k k' s s' h z e e' =
    let cost = split_cost a b w p.write_5m p.write_1h z h in
    let was = priced-injective e in
    let now = priced-injective e' in (now.0 ∙ sym was.0, rw (was.1, now.1) (omega (arith, cost)))

past_excluded :
    (c : Bool) (key k : Text) (y : Valuation) (s : Priced)
    → (if c then modifier_excluded key else y) ≡ priced k s
    → y ≡ priced k s
past_excluded true key k y s e = cc
past_excluded false key k y s e = e

past_malformed :
    (c : Bool) (key k : Text) (y : Valuation) (s : Priced)
    → (if c then y else malformed key) ≡ priced k s
    → y ≡ priced k s
past_malformed true key k y s e = e
past_malformed false key k y s e = cc

value_counts-assumed :
    (key : Text) (p : Prices) (u : Usage) (d : List (Text × Value)) (x y z : Option ℕ) (k k' : Text)
    (s s' : Priced)
    → p.write_5m ≤ p.write_1h
    → lookup cache_creation u ≡ none
    → value_counts key p u x y z ≡ priced k s
    → value_counts key p (with_split d u) x y z ≡ priced k' s'
    → IsAtMost s s'
unfolding value_counts split_of text_eq
value_counts-assumed key p u d (some n) (some r) (some w) k k' s s' h unsplit e e' =
    let was : price_anthropic key p n r w (split_of w (lookup cache_creation u)) ≡ priced k s =
      past_excluded _ key k _ s e in
    let now : price_anthropic key p n r w (split_of w (lookup cache_creation (with_split d u)))
        ≡ priced k' s' =
      past_excluded _ key k' _ s' e' in
    price_anthropic-assumed key p n r w (split_of w (lookup cache_creation (with_split d u))) k k' s
      s' h (split_of-IsSplit w (lookup cache_creation (with_split d u))) (rw unsplit at was) now
value_counts-assumed key p u d none y z k k' s s' h unsplit e e' = cc
value_counts-assumed key p u d (some n) none z k k' s s' h unsplit e e' = cc
value_counts-assumed key p u d (some n) (some r) none k k' s s' h unsplit e e' = cc

value_anthropic-assumed :
    (key : Text) (p : Prices) (u : Usage) (d : List (Text × Value)) (k k' : Text) (s s' : Priced)
    → p.write_5m ≤ p.write_1h
    → lookup cache_creation u ≡ none
    → value_anthropic key p (some u) ≡ priced k s
    → value_anthropic key p (some (with_split d u)) ≡ priced k' s'
    → IsAtMost s s'
unfolding value_anthropic text_eq
value_anthropic-assumed key p u d k k' s s' h unsplit e e' =
    let was = past_excluded _ key k _ s (past_malformed _ key k _ s e) in
    let now : value_counts key p (with_split d u)
          (or_count_item (lookup (codes "input_tokens") (with_split d u)))
          (or_count_item (lookup (codes "cache_read_input_tokens") (with_split d u)))
          (or_count_item (lookup (codes "cache_creation_input_tokens") (with_split d u)))
        ≡ priced k' s' =
      past_excluded _ key k' _ s' (past_malformed _ key k' _ s' e') in
    value_counts-assumed key p u d _ _ _ k k' s s' h unsplit was (
      rw
        (
          lookup-with_split (codes "input_tokens") d u refl,
          lookup-with_split (codes "cache_read_input_tokens") d u refl,
          lookup-with_split (codes "cache_creation_input_tokens") d u refl,
        )
        at now)

openai_same :
    (key : Text) (p : OpenaiPrices) (u : Usage) (d : List (Text × Value))
    → value_openai key p (some (with_split d u)) ≡ value_openai key p (some u)
unfolding value_openai text_eq
openai_same key p u d =
    rw
      (
        lookup-with_split (codes "service_tier") d u refl,
        lookup-with_split (codes "input_tokens") d u refl,
        lookup-with_split (codes "prompt_tokens") d u refl,
        lookup-with_split (codes "input_tokens_details") d u refl,
        lookup-with_split (codes "prompt_tokens_details") d u refl,
      )
      refl

-- Every 1-hour write costs at least a 5-minute write.
abbrev is_ordered : Prices → Bool
is_ordered p = leb p.write_5m p.write_1h

abbrev all_ordered : List (Text × Prices) → Bool
all_ordered [] = true
all_ordered ((k, p) ∷ t) = let rest = all_ordered t in if is_ordered p then rest else false

lookup-ordered :
    (k : Text) (t : List (Text × Prices)) (p : Prices)
    → all_ordered t ≡ true
    → lookup k t ≡ some p
    → p.write_5m ≤ p.write_1h
unfolding lookup
lookup-ordered k [] p o e = cc
lookup-ordered k ((j, q) ∷ t) p o e = ground (arith, lookup-ordered k t p)

key_if-some :
    {A : Type 0} (k key : Text) (o : Option A) (p : A) → key_if k o ≡ some (key, p) → o ≡ some p
key_if-some k key none p e = cc
key_if-some k key (some q) p e = cc

model_key-ordered :
    (model : Value) (key : Text) (p : Prices)
    → model_key model ≡ some (key, p)
    → p.write_5m ≤ p.write_1h
unfolding model_key anthropic_prices
model_key-ordered (str m) key p e =
    let k = or_same m (lookup m aliases) in
    lookup-ordered k anthropic_prices p refl (key_if-some k key (lookup k anthropic_prices) p e)
model_key-ordered _ key p e = cc

keyed-assumed :
    (model : Value) (u : Usage) (d : List (Text × Value)) (o : Option (Text × Prices))
    (q : Option (Text × OpenaiPrices)) (k k' : Text) (s s' : Priced)
    → model_key model ≡ o
    → lookup cache_creation u ≡ none
    → value_keyed model (some u) o q ≡ priced k s
    → value_keyed model (some (with_split d u)) o q ≡ priced k' s'
    → IsAtMost s s'
unfolding value_keyed
keyed-assumed model u d (some (key, p)) q k k' s s' known unsplit e e' =
    value_anthropic-assumed key p u d k k' s s' (model_key-ordered model key p known) unsplit e e'
keyed-assumed model u d none (some (key, p)) k k' s s' known unsplit e e' =
    let now = priced-injective (sym e ∙ (sym (openai_same key p u d) ∙ e')) in
    (now.0, omega (arith, now.1))
keyed-assumed model u d none none k k' s s' known unsplit e e' = cc

-- Take a usage without a split of its cache writes by time to live, and the same usage with any split
-- written into it. Where both are priced, the input costs the same uncached, and the cost with caching of
-- the second is at most that of the first: leaving the split out can only understate the saving.
pub value_record-understated :
    (model : Value) (u : Usage) (d : List (Text × Value)) (k k' : Text) (s s' : Priced)
    → lookup cache_creation u ≡ none
    → value_record model (some u) ≡ priced k s
    → value_record model (some (with_split d u)) ≡ priced k' s'
    → IsAtMost s s'
unfolding value_record
value_record-understated model u d k k' s s' unsplit e e' =
    keyed-assumed model u d (model_key model) (openai_key model) k k' s s' refl unsplit e e'
