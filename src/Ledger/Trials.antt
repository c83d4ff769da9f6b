-- ===== src/Ledger/Trials.antt =====
-- A journal of a thousand KRY: an earning of fifty, a debit of ten, and its retry.
use kry.Base.{Option, ℕ, ◌*◌, ◌≡◌, refl, true, false, none, some, [], ◌∷◌}
use kry.Base.Int.{pos}
use kry.Base.Texts.{Text, codes, text_eq, has_code}
use kry.Base.Dicts.{lookup}
use kry.Base.Results.{err, persistence_error, Result, ok}
use kry.Double.{zero_double, Double, fin, one_units, literal, add, sub, lt, le, IsDouble, round_to}
use kry.Double.Products.{mul, quotient}
use kry.Json.Values.{Fields, int, are_dumpable_fields}
use kry.Json.Values
use kry.Ledger.Prices.{finite_number, earned_kry, net_value_multiplier}
use kry.Ledger.Cost.{spend_cost}
use kry.Ledger.Book.{
  validate_op_id, Operation, Document, versioned, check_document, ledger_parts, check_totals,
  check_events,
}
use kry.Ledger.World.{
  World, at_journal, document, pure, lift, get, set_ledger, set_disk, fail_if, ◌>>=◌, catching,
}
use kry.Ledger.Reading.{not_moved, same_incidents, read_locked}
use kry.Ledger.Saving.{Moment, replaced, not_replaced, refresh_locked}
use kry.Ledger.Calls.{Interpreter, debiting, refreshed, earn_amount, earn}
use kry.Ledger.Account.{Account, credited, debited, totals_for, IsExact, Holds, differ-totals_for}
use kry.Ledger.Refines.{Takes}
use kry.Ledger.Earns.{earn-Takes}
use kry.Ledger.Spends.{IsPayable, spend-Takes}
use kry.Ledger.Debits.{spend, spend_unkeyed, keyed_debit, ledger_operation}
use kry.Ledger.Blocked.{required_moves_nothing}
use kry.Ledger.Recovery.{acknowledge_ledger_recovery}
use kry.Ledger.Unblocked.{acknowledged_reads}
use kry.Ledger.Once.{no_more, debit_first, keyed_debit_once}

abbrev zeros : ℕ → Text
zeros ℕ.zero = []
zeros (ℕ.suc n) = b'0' ∷ zeros n

abbrev plain : Interpreter
plain = record {
  strip = λ s. s;
  lower = λ s. s;
  two_places = λ x. [];
  spelled = λ v. [];
  params_sha256 = λ q. zeros 64;
}

abbrev thousand_kry : Account
thousand_kry = record { balance = 1000 * one_units; earned = 1000 * one_units; spent = 0 }

abbrev journal : Document
journal =
    versioned
      (record {
        totals = totals_for thousand_kry;
        events = [];
        cycle_count = pos 0;
        recovery = Fields.end;
      })
      []

abbrev start : World
start = record {
  ledger = record {
    totals = totals_for thousand_kry;
    events = [];
    cycle_count = pos 0;
    baseline = totals_for thousand_kry;
    recovery_required = false;
    last_write_committed = false;
    recovery = Fields.end;
    is_format_two = true;
    ops = [];
  };
  disk = record {
    storage = at_journal;
    file = document journal;
    incidents = [];
    has_mint_log = true;
  };
}

abbrev noon : Moment
noon = record {
  now = literal 1000 1;
  tx_id = codes "t1";
  attempt = codes "a1";
  marker = (codes "m", codes "h");
  rename = not_moved;
  refresh_write = replaced;
  write = replaced;
}

journal_sound : check_document plain.strip journal ≡ ok tt
unfolding check_document ledger_parts check_totals check_events finite_number lt
journal_sound = refl

start-Holds : Holds plain.strip thousand_kry start
unfolding same_incidents kry.Json.Values.get
start-Holds =
    (journal, (refl, refl, refl, refl, journal_sound, refl), refl, differ-totals_for thousand_kry)

fifty :
    earned_kry plain.lower (int (pos 1000)) (codes "cache_hit") (some (codes "haiku")) none
    ≡ fin (pos (50 * one_units))
unfolding earned_kry net_value_multiplier text_eq lookup literal quotient sub add lt le mul
    finite_number
fifty = refl

thousand-IsExact : IsExact thousand_kry
unfolding round_to
thousand-IsExact = (refl, refl, refl)

more-IsExact : IsExact (credited (50 * one_units) thousand_kry)
unfolding round_to
more-IsExact = (refl, refl, refl)

fifty_exact : IsDouble (pos (50 * one_units))
unfolding round_to
fifty_exact = refl

abbrev earned_outcome : Result Double × World
earned_outcome =
    earn plain noon (int (pos 1000)) (codes "cache_hit") [] (some (codes "haiku")) none start

earned_ok : earned_outcome ≡ (ok (fin (pos (50 * one_units))), earned_outcome.1)
unfolding earn earn_amount refreshed refresh_locked read_locked ◌>>=◌ catching get fail_if lift
    kry.Json.Values.get pure set_ledger set_disk
earned_ok = refl

earned_clear : earned_outcome.1.ledger.recovery_required ≡ false
unfolding earn earn_amount refreshed refresh_locked read_locked ◌>>=◌ catching get fail_if lift
    kry.Json.Values.get pure set_ledger set_disk
earned_clear = refl

earn-Takes_example :
    Takes plain.strip thousand_kry
      (credited (50 * one_units) thousand_kry)
      (fin (pos (50 * one_units)))
      (fin (pos (50 * one_units)))
      earned_outcome.1
earn-Takes_example =
    earn-Takes plain noon (int (pos 1000)) (codes "cache_hit") [] (some (codes "haiku")) none
      (50 * one_units) thousand_kry start (fin (pos (50 * one_units))) earned_outcome.1 fifty
      thousand-IsExact fifty_exact more-IsExact start-Holds earned_ok earned_clear

abbrev fast : Text
fast = codes "or/anthropic/claude-opus-4.8-fast"

abbrev spent_outcome : Result Double × World
spent_outcome = spend plain noon fast (int (pos 100)) [] none start

two_hundred : spend_cost fast (int (pos 100)) ≡ ok (fin (pos (200 * one_units)))
unfolding spend_cost text_eq literal quotient mul lt finite_number
two_hundred = refl

two_hundred-IsPayable : IsPayable plain noon (200 * one_units) thousand_kry
unfolding round_to
two_hundred-IsPayable = ((refl, refl, refl), refl, refl, (refl, refl, refl))

spent_ok : spent_outcome ≡ (ok (fin (pos (200 * one_units))), spent_outcome.1)
unfolding spend spend_unkeyed ◌>>=◌ lift catching get fail_if kry.Json.Values.get pure set_ledger
    set_disk
spent_ok = refl

spent_clear : spent_outcome.1.ledger.recovery_required ≡ false
unfolding spend spend_unkeyed ◌>>=◌ lift catching get fail_if kry.Json.Values.get pure set_ledger
    set_disk
spent_clear = refl

spend-Takes_example :
    Takes plain.strip thousand_kry
      (debited (200 * one_units) thousand_kry)
      (fin (pos (200 * one_units)))
      (fin (pos (200 * one_units)))
      spent_outcome.1
spend-Takes_example =
    spend-Takes plain noon (200 * one_units) thousand_kry fast (int (pos 100)) [] start
      (fin (pos (200 * one_units))) spent_outcome.1 two_hundred two_hundred-IsPayable start-Holds
      spent_ok spent_clear

abbrev ten : Double
ten = fin (pos (10 * one_units))

abbrev debited_outcome : Result Double × World
debited_outcome = keyed_debit plain noon (codes "op-1") (debiting ten) start

debited_ok : debited_outcome ≡ (ok ten, debited_outcome.1)
unfolding keyed_debit ◌>>=◌ lift catching get fail_if kry.Json.Values.get pure set_ledger set_disk
debited_ok = refl

debited_clear : debited_outcome.1.ledger.recovery_required ≡ false
unfolding keyed_debit ◌>>=◌ lift catching get fail_if kry.Json.Values.get pure set_ledger set_disk
debited_clear = refl

-- The retry comes later, when no write succeeds.
abbrev later : Moment
later = record noon { now = literal 2000 1; tx_id = codes "t2"; write = not_replaced false }

-- Another debit before the retry.
abbrev second_outcome : Result Double × World
second_outcome = keyed_debit plain noon (codes "op-2") (debiting ten) debited_outcome.1

second_ok : second_outcome ≡ (ok ten, second_outcome.1)
unfolding keyed_debit ◌>>=◌ lift catching get fail_if kry.Json.Values.get pure set_ledger set_disk
second_ok = refl

second_clear : second_outcome.1.ledger.recovery_required ≡ false
unfolding keyed_debit ◌>>=◌ lift catching get fail_if kry.Json.Values.get pure set_ledger set_disk
second_clear = refl

keyed_debit_once_example :
    (keyed_debit plain later (codes "op-1") (debiting ten) second_outcome.1
      ≡ (ok ten, second_outcome.1))
    × ((op : Operation) × (ledger_operation plain later (codes "op-1") second_outcome.1
          ≡ (ok (some op), second_outcome.1))
        × (op.amount ≡ ten))
keyed_debit_once_example =
    keyed_debit_once plain noon later (codes "op-1") (debiting ten) start ten debited_outcome.1
      second_outcome.1 refl debited_ok debited_clear
      (debit_first debited_outcome.1 second_outcome.1 second_outcome.1 noon (codes "op-2")
        (debiting ten) ten second_ok second_clear (no_more second_outcome.1))

abbrev halted : World
halted = record start { ledger = record (start.ledger) { recovery_required = true } }

valid_id : validate_op_id plain.strip (codes "op-1") ≡ ok (codes "op-1")
unfolding has_code validate_op_id
valid_id = refl

required_moves_nothing_example :
    (earn plain noon (int (pos 100)) (codes "cache_hit") [] none none halted
      ≡ (ok zero_double, halted))
    × (spend plain noon fast (int (pos 100)) [] none halted ≡ (ok zero_double, halted))
    × (keyed_debit plain noon (codes "op-1") (debiting ten) halted
        ≡ (err persistence_error, halted))
required_moves_nothing_example =
    required_moves_nothing plain noon halted (int (pos 100)) (codes "cache_hit") [] none none fast
      (fin (pos (200 * one_units))) (codes "op-1") (codes "op-1") (debiting ten) refl two_hundred
      valid_id

-- A pending marker that an operator has reviewed.
abbrev marked : World
marked = record halted { disk = record (start.disk) { incidents = (codes "m", codes "h") ∷ [] } }

abbrev reviewed_outcome : Result (Unit {0}) × World
reviewed_outcome = acknowledge_ledger_recovery plain.strip noon (codes "reviewed") marked

reviewed_ok : reviewed_outcome ≡ (ok tt, reviewed_outcome.1)
unfolding acknowledge_ledger_recovery ◌>>=◌ lift catching get fail_if kry.Json.Values.get pure
    set_ledger set_disk finite_number literal
reviewed_ok = refl

acknowledged_reads_example :
    (reviewed_outcome.1.ledger.recovery_required ≡ false)
    × ((o : Option Document) × (read_locked plain.strip not_moved reviewed_outcome.1
          ≡ (ok o, reviewed_outcome.1)))
acknowledged_reads_example =
    acknowledged_reads plain.strip noon (codes "reviewed") not_moved marked reviewed_outcome.1
      reviewed_ok
