-- ===== src/Settlement/Tests.antt =====
-- A small settlement between two parties, with a host whose digest only shifts its input.
use kry.Base.{if◌then◌else◌, ℕ, ◌+◌, ◌*◌, ◌≡◌, refl, Bool, true, false, none, some, [], ◌∷◌, arith}
use kry.Base.Int.{pos, negsuc}
use kry.Base.Texts.{Text, codes, has_code, text_eq}
use kry.Base.Results.{Result, ok, err, persistence_error, value_error}
use kry.Double.{
  Double, fin, inf, minus_inf, nan, one_units, add, sub, abs, lt, le, eq, nano, micro, zero_double,
  of_int,
}
use kry.Python.{
  Value, int, float, finite_number, nonnegative, as_float, below_bound, finite_or_overflow,
}
use kry.Settlement.Recorded.{settled, settled_registry}
use kry.Settlement.Tamper.{contents, registry_tamper_evident}
use kry.Settlement.Unsynced.{unsynced_settlement_counted}
use kry.Settlement.Committed.{
  record_settled-extends, record_settled_atomic, unnamed_party_blocks_registry,
}
use kry.Settlement.Conservation.{settle_conserves}
use kry.Settlement.Once.{IsRefused, settle_once}
use kry.Settlement.DoubleSpend.{accepted_grant_bounded, second_accept_covered}
use kry.Settlement.Shortfall.{IsShort, settle_zero_debit, settle_partial_debit}
use kry.Settlement.Leases.{IsWithin, acquire_lease-IsWithin}
use kry.Settlement.Host.{
  self_asserted, SettlementOffer, RoutingGrant, SettlementReceipt, Host, IsCollisionFree,
}
use kry.Settlement.Entries.{Entry, Registry, missing, registry_entries, read_tip}
use kry.Settlement.Chain.{Totals, load_registry, verify_registry, total_of, last_hash, genesis}
use kry.Settlement.Record.{Disk, written, unsynced, done, record_settled, settle_checks}
use kry.Settlement.Settle.{Node, ReceiverLedger, settle, verify_conservation}
use kry.Settlement.Accept.{Attestation, unset, Outcome, granted, verify_and_accept, accept_checks}
use kry.Settlement.Chain.{entry_text, add_entry}
use kry.Base.Texts.{join, sorted, insert_sorted, text_le}
use kry.Settlement.Entries.{blank, lines_of}
use kry.Settlement.Settle.{shortfall, without}
use kry.Settlement.Lease.{
  LeaseDisk, live_lease, live_leases, held_from, stored, decide, store, grant_from,
  acquire_unlocked, acquire_lease, LeaseFile, absent,
}
use kry.Base.Texts.{mem_text}
use kry.Base.Dicts.{lookup, insert}
use kry.Double.{literal, IsCountable}
use kry.Settlement.Grants.{parse_grants, is_grant_id, grants_payload}
use kry.Settlement.Entries.{text_of, nonempty_text_of, parse_entry, entries_of, whole}
use kry.Settlement.Chain.{
  totals_from, expected_hash, entry_digest, check_chain, check_tip, tip_problems, judge, poisoned,
  is_tampered,
}
use kry.Settlement.Record.{
  already_settled, append_settled, rollback_registry, record_partial_debit, replace_last,
  last_entry,
}
use kry.Settlement.Settle.{
  forward_conserved, offer_identity, ceiling_check, commit_checks, release, after_debit,
  after_record, after_checks, commit, observe, receipt_dumpable, receipt_of, sign, finish, credit,
  settle_inputs, settle_with,
}
use kry.Settlement.Accept.{
  floor_check, live_reservations, reserved_from, reserve, reserve_from, drop_reservation, leased,
  lease_step, after_reserve, grant_of, conclude, accept_with,
}

shift : Text → Text
shift [] = []
shift (c ∷ s) = (59 + c) ∷ shift s

float_name : Double → Text
float_name (fin (pos n)) = (59 + n) ∷ []
float_name (fin (negsuc n)) = (59 + n) ∷ 59 ∷ []
float_name inf = 59 ∷ 59 ∷ 59 ∷ []
float_name minus_inf = 59 ∷ 59 ∷ 59 ∷ 59 ∷ []
float_name nan = 59 ∷ 59 ∷ 59 ∷ 59 ∷ 59 ∷ []

value_name : Value → Text
unfolding float_name
value_name (float d) = float_name d
value_name _ = []

abbrev shifting : Host
shifting = record { sha256 = shift; value_text = value_name; receipt_text = λ r. r.receipt_id }

shift-injective : (s t : Text) → shift s ≡ shift t → s ≡ t
unfolding shift
shift-injective [] [] e = refl
shift-injective [] (y ∷ t) e = cc
shift-injective (x ∷ s) [] e = cc
shift-injective (x ∷ s) (y ∷ t) e = ground (arith, shift-injective s t)

shift-colon : (s : Text) → has_code b':' (shift s) ≡ false
unfolding shift has_code
shift-colon [] = refl
shift-colon (x ∷ s) = ground (arith, shift-colon s)

float_name-injective : (a b : Double) → float_name a ≡ float_name b → a ≡ b
unfolding float_name
float_name-injective a b e = ground arith

float_name-colon : (a : Double) → has_code b':' (float_name a) ≡ false
unfolding float_name has_code
float_name-colon a = ground arith

shifting-IsCollisionFree : IsCollisionFree shifting
unfolding value_name
shifting-IsCollisionFree = record {
  sha256_injective = shift-injective;
  sha256_colon = shift-colon;
  float_text_injective = float_name-injective;
  float_text_colon = float_name-colon;
}

abbrev units : ℕ → Double
units n = fin (pos (n * one_units))

abbrev good_disk : Disk
good_disk = record { append = written; tip = true; undo = true; rollback = done; partial = done }

abbrev empty_registry : Registry
empty_registry = record { file = none; tip = missing }

abbrev alice : Text
alice = codes "alice"

abbrev offer : SettlementOffer
offer = record {
  offer_id = codes "o1";
  from_party = alice;
  to_party = codes "bob";
  kry_amount = float (units 2);
  routing_tokens = int (pos 5);
  ts = float (units 1);
}

abbrev attestation : Attestation
attestation = record {
  is_valid = true;
  parses = true;
  total_kry = some (float (units 3));
  veracity_floor = none;
}

abbrev node : Node
node = record { registry = empty_registry; pending = [] }

abbrev receiver : ReceiverLedger
receiver = record { received_kry = float zero_double; routing_sold = pos 0; settlements = [] }

abbrev honest : Double → Result Value
honest a = ok (float a)

-- To unfold this is to unfold what the tests evaluate.
evaluated : ℕ
unfolding live_lease live_leases held_from stored decide store grant_from acquire_unlocked
    acquire_lease shortfall without entry_text join sorted insert_sorted text_le add_entry shift
    value_name finite_number as_float finite_or_overflow below_bound of_int add sub abs lt le eq
    nano micro literal parse_grants is_grant_id mem_text text_eq has_code text_of nonempty_text_of
    parse_entry entries_of registry_entries whole read_tip lookup insert total_of totals_from
    genesis expected_hash grants_payload entry_digest check_chain check_tip tip_problems judge
    verify_registry poisoned is_tampered load_registry last_hash already_settled append_settled
    settle_checks record_settled rollback_registry record_partial_debit replace_last last_entry
    forward_conserved offer_identity ceiling_check commit_checks release after_debit after_record
    after_checks commit observe receipt_dumpable receipt_of sign finish credit settle_inputs
    settle_with settle floor_check accept_checks live_reservations reserved_from reserve
    reserve_from drop_reservation leased lease_step after_reserve grant_of conclude accept_with
    verify_and_accept
evaluated = 0

abbrev grant : RoutingGrant
grant = grant_of shifting (units 3600) (units 1) offer (units 2) (units 3)

accepted : Outcome RoutingGrant × Node × LeaseFile
accepted =
    verify_and_accept shifting (units 3600) (units 1) none offer attestation unset zero_double node
      absent

accepted_ok : accepted ≡ (granted grant, accepted.1, accepted.2)
unfolding evaluated accepted
accepted_ok = refl

-- The receipt of a run that has one.
abbrev blank_receipt : SettlementReceipt
blank_receipt = record {
  receipt_id = [];
  offer = offer;
  grant = grant;
  a_balance_before = zero_double;
  a_balance_after = zero_double;
  b_received_before = zero_double;
  b_received_after = zero_double;
  conserved = false;
  conservation_basis = self_asserted;
  receipt_hash = [];
}

abbrev receipt_in : Result SettlementReceipt → SettlementReceipt
receipt_in (ok r) = r
receipt_in (err e) = blank_receipt

run : Result SettlementReceipt × ReceiverLedger × Node
run = settle shifting good_disk honest none offer grant (float (units 3)) receiver node

run_ok : run ≡ (ok (receipt_in run.0), run.1, run.2)
unfolding evaluated run
run_ok = refl

-- The balances of the run, to the unit.
run_balances :
    (run.1.received_kry ≡ float (units 2)) × ((receipt_in run.0).a_balance_after ≡ units 1)
unfolding evaluated run
run_balances = (refl, refl)

-- The same grant again is refused.
run_twice :
    (settle shifting good_disk honest none offer grant (float (units 3)) receiver run.2).0
    ≡ err persistence_error
unfolding evaluated run
run_twice = refl

IsCountable-one : IsCountable 1
unfolding evaluated
IsCountable-one = refl

accepted_grant_bounded_example :
    (verify_registry shifting run.2.registry ≡ ok (true, []))
    × ((t : Totals) × (load_registry shifting run.2.registry ≡ ok t)
        × (lt (add (units 3) nano) (total_of alice t) ≡ false))
unfolding evaluated accepted run
accepted_grant_bounded_example =
    accepted_grant_bounded shifting (units 3600) (units 1) none offer attestation unset zero_double
      node accepted.1 absent accepted.2 grant (units 3) good_disk honest none (float (units 3))
      receiver run.1 node run.2 [] (receipt_in run.0) refl refl refl refl refl refl

settle_once_example :
    IsRefused shifting good_disk honest none receiver run.2.registry
      (settle shifting good_disk honest none offer grant (float (units 3)) receiver run.2)
unfolding evaluated run
settle_once_example =
    settle_once shifting good_disk good_disk honest honest none none offer offer grant grant
      (float (units 3)) (float (units 3)) receiver receiver node run.2 (receipt_in run.0) run.1
      run.2 refl refl refl refl

settle_conserves_example : verify_conservation (receipt_in run.0) ≡ true
unfolding evaluated run
settle_conserves_example =
    settle_conserves shifting good_disk honest none offer grant (float (units 3)) receiver node
      (units 2) (receipt_in run.0) run.1 run.2 refl refl refl refl

-- A registry with one settlement.
first_record : Result (Unit {0}) × Registry
first_record = record_settled shifting good_disk alice (float (units 2)) (codes "g1") empty_registry

abbrev first_entry : Entry
first_entry = settled shifting alice (codes "g1") (units 2) []

-- The same registry with a blank line.
abbrev spaced : Registry
spaced = record first_record.1 { file = some (blank ∷ lines_of first_record.1.file) }

registry_tamper_evident_example : contents (first_entry ∷ []) ≡ contents (first_entry ∷ [])
unfolding evaluated first_record
registry_tamper_evident_example =
    registry_tamper_evident shifting shifting-IsCollisionFree first_record.1 spaced
      (first_entry ∷ []) (first_entry ∷ []) [] [] refl refl refl refl refl refl

record_settled-extends_example :
    (verify_registry shifting first_record.1 ≡ ok (true, []))
    × ((e : Entry) × (registry_entries first_record.1.file ≡ ok (e ∷ []))
        × (load_registry shifting first_record.1 ≡ ok (totals_from [] (e ∷ [])))
        × ((p : Text)
            → total_of p (totals_from [] (e ∷ []))
              ≡ (if text_eq alice p then add (total_of alice []) (units 2) else total_of p [])))
unfolding evaluated first_record
record_settled-extends_example =
    record_settled-extends shifting good_disk alice (float (units 2)) (codes "g1") empty_registry
      first_record.1 (units 2) [] [] refl refl refl refl refl refl

-- A disk that writes the line and cannot write the checkpoint.
abbrev no_tip : Disk
no_tip = record good_disk { tip = false }

untipped : Result (Unit {0}) × Registry
untipped = record_settled shifting no_tip alice (float (units 2)) (codes "g1") empty_registry

record_settled_atomic_example : untipped.1 ≡ empty_registry
unfolding evaluated untipped
record_settled_atomic_example =
    record_settled_atomic shifting no_tip alice (float (units 2)) (codes "g1") empty_registry
      untipped.1 persistence_error (λ e. cc) (λ e. cc) refl refl

abbrev no_sync : Disk
no_sync = record good_disk { append = unsynced }

unsynced_record : Result (Unit {0}) × Registry
unsynced_record =
    record_settled shifting no_sync alice (float (units 2)) (codes "g1") empty_registry

unsynced_settlement_counted_example :
    (unsynced_record.0 ≡ err persistence_error)
    × (verify_registry shifting unsynced_record.1 ≡ ok (true, []))
    × ((e : Entry) × (load_registry shifting unsynced_record.1 ≡ ok (totals_from [] (e ∷ [])))
        × ((p : Text)
            → total_of p (totals_from [] (e ∷ []))
              ≡ (if text_eq alice p then add (total_of alice []) (units 2) else total_of p [])))
    × (record_settled shifting good_disk alice (float (units 3)) (codes "g1") unsynced_record.1
        ≡ (err persistence_error, unsynced_record.1))
unfolding evaluated unsynced_record
unsynced_settlement_counted_example =
    unsynced_settlement_counted shifting no_sync good_disk alice alice (float (units 2))
      (float (units 3)) (codes "g1") empty_registry (units 2) [] [] refl refl refl refl

nameless : Result (Unit {0}) × Registry
nameless = record_settled shifting good_disk [] (float (units 2)) (codes "g1") empty_registry

unnamed_party_blocks_registry_example : registry_entries nameless.1.file ≡ err value_error
unfolding evaluated nameless
unnamed_party_blocks_registry_example =
    unnamed_party_blocks_registry shifting good_disk (float (units 2)) (codes "g1") empty_registry
      nameless.1 refl

-- A second offer of the same party, for the one unit that is left.
abbrev offer2 : SettlementOffer
offer2 = record offer { offer_id = codes "o2"; kry_amount = float (units 1) }

abbrev grant2 : RoutingGrant
grant2 = grant_of shifting (units 3600) (units 2) offer2 (units 1) (units 3)

accepted2 : Outcome RoutingGrant × Node × LeaseFile
accepted2 =
    verify_and_accept shifting (units 3600) (units 2) none offer2 attestation unset zero_double
      accepted.1 absent

second_accept_covered_example :
    (totals : Totals) × (load_registry shifting empty_registry ≡ ok totals)
    × (lt
          (sub
            (sub (units 3) (total_of alice totals))
            (add (reserved_from zero_double []) (units 2)))
          (units 1)
        ≡ false)
unfolding evaluated accepted accepted2
second_accept_covered_example =
    second_accept_covered shifting (units 3600) (units 1) (units 2) none none offer offer2
      attestation attestation unset unset zero_double zero_double node accepted.1 accepted2.1 absent
      accepted.2 absent accepted2.2 grant grant2 (units 2) (units 3) (units 1) (units 3) refl refl
      refl refl refl refl refl

-- Debits that move nothing, and half of the amount.
abbrev refusing : Double → Result Value
refusing a = ok (float zero_double)

abbrev halving : Double → Result Value
halving a = ok (float (units 1))

offer_record : Result (Unit {0}) × Registry
offer_record =
    record_settled shifting good_disk alice (float (units 2)) grant.grant_id empty_registry

is_short :
    (debit : Double → Result Value) (moved : Double)
    → debit (units 2) ≡ ok (float moved)
    → finite_number (float moved) nonnegative ≡ ok moved
    → lt nano (abs (sub moved (units 2))) ≡ true
    → IsShort shifting good_disk debit none offer grant
        (float (units 3))
        receiver
        node
        (units 2)
        moved
        none
        offer_record.1
unfolding evaluated offer_record
is_short debit moved answered number short = record {
  a_before = units 3;
  b_before = zero_double;
  inputs = refl;
  checked = refl;
  recorded = refl;
  answer = float moved;
  answered = answered;
  number = number;
  short = short;
}

settle_zero_debit_example :
    let (result, b', n') =
      settle shifting good_disk refusing none offer grant (float (units 3)) receiver node in
    (result ≡ err persistence_error)
    × (b' ≡ receiver)
    × (registry_entries n'.registry.file ≡ registry_entries empty_registry.file)
    × (read_tip n'.registry.tip ≡ read_tip empty_registry.tip)
unfolding evaluated offer_record
settle_zero_debit_example =
    settle_zero_debit shifting good_disk refusing none offer grant (float (units 3)) receiver node
      (units 2) zero_double none offer_record.1 (is_short refusing zero_double refl refl refl) refl
      refl tt

settle_partial_debit_example :
    let (result, b', n') =
      settle shifting good_disk halving none offer grant (float (units 3)) receiver node in
    (result ≡ err persistence_error)
    × (b' ≡ receiver)
    × (n'.registry ≡ settled_registry shifting alice grant.grant_id (units 1) [] empty_registry)
unfolding evaluated offer_record
settle_partial_debit_example =
    settle_partial_debit shifting good_disk halving none offer grant (float (units 3)) receiver node
      (units 2) (units 1) [] none offer_record.1 (is_short halving (units 1) refl refl refl) refl
      refl refl refl

abbrev shared : LeaseDisk
shared = record { locked = true; writes = true }

leased_once : Result Bool × LeaseFile
leased_once =
    acquire_lease shared alice (units 2) (units 3) (codes "n1") (units 1) (units 3600) absent

acquire_lease-IsWithin_example :
    IsWithin shared alice (units 2) (units 3) (codes "n1") (units 1) (units 3600) leased_once.1
unfolding evaluated leased_once
acquire_lease-IsWithin_example =
    acquire_lease-IsWithin shared alice (units 2) (units 3) (codes "n1") (units 1) (units 3600)
      absent leased_once.1 refl
