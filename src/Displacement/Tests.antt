-- ===== src/Displacement/Tests.antt =====
-- One displacement that is recorded, confirmed and confirmed again, with a mint that counts.
use kry.Base.{
  ℕ, suc, ◌*◌, ◌≡◌, ◌≢◌, refl, Bool, true, false, none, some, Option, List, [], ◌∷◌, arith,
}
use kry.Base.Int.{pos}
use kry.Base.Texts.{Text, codes, text_eq}
use kry.Base.Dicts.{insert}
use kry.Base.Results.{Result, ok, err, persistence_error, corrupt_error}
use kry.Double.{Double, fin, one_units, lt, add, of_int}
use kry.Python.{int, str}
use kry.Displacement.Store.{
  Kwargs, StoreFile, no_file, unparseable, parsed, Store, Libraries, new_id, record_pending,
  record_checks, new_record, sweep_expired, swept_store, swept_count, swept_record, stats, load,
  is_late, ttl_number,
}
use kry.Displacement.Confirm.{ConfirmCall, confirm}
use kry.Displacement.Calls.{Call, sweep_call, reject_call, run, any_draws}
use kry.Displacement.Once.{confirm_once}
use kry.Displacement.Minted.{minted_record, record_then_confirm}
use kry.Displacement.Sweep.{IsSwept, sweep_expired-IsSwept, total_count, total_count-stats}
use kry.Displacement.Quarantine.{corrupt_store_forgotten}

abbrev toy : Libraries
toy = record { sha256 = λ s. s; parse_float = λ s. none }

abbrev seconds : ℕ → Double
seconds n = fin (pos (n * one_units))

abbrev kwargs_of_hit : Kwargs
kwargs_of_hit =
    (codes "event_type", str (codes "cache_hit")) ∷ (codes "tokens_saved", int (pos 120)) ∷ []

abbrev counting : Kwargs → ℕ → Result (Option Text) × ℕ
counting k n = (ok (some (codes "R1")), suc n)

abbrev call_at : ℕ → Result (Unit {0}) → ConfirmCall ℕ Text
call_at n second = record {
  now = seconds n;
  renamed = true;
  first_write = ok tt;
  second_write = second;
  mint = counting;
  receipt_name = λ r. r;
}

abbrev hit_id : Text
hit_id = codes "PEND-a"

abbrev two_hits : Store
two_hits =
    (hit_id, new_record (seconds 10) (seconds 900) kwargs_of_hit)
    ∷ (codes "PEND-b", new_record (seconds 20) (seconds 5) kwargs_of_hit)
    ∷ []

-- The process dies after the mint, so the second write never happens.
died_after_mint : (confirm (call_at 30 (err persistence_error)) hit_id (parsed two_hits) 0).2 ≡ 1
unfolding confirm is_late kry.Base.Dicts.lookup text_eq lt add load kry.Displacement.Store.write
died_after_mint = refl

changed_mint : (confirm (call_at 30 (err persistence_error)) hit_id (parsed two_hits) 0).2 ≢ 0
changed_mint h = cc (died_after_mint, h)

abbrev later_calls : List (Call ℕ Text)
later_calls = sweep_call (seconds 40) true (ok tt) ∷ reject_call hit_id true (ok tt) ∷ []

confirm_once_example :
    let (f, m) =
      run toy later_calls
        (confirm (call_at 30 (err persistence_error)) hit_id (parsed two_hits) 0).1
        (confirm (call_at 30 (err persistence_error)) hit_id (parsed two_hits) 0).2 in
    confirm (call_at 50 (ok tt)) hit_id f m ≡ (ok none, f, m)
unfolding any_draws
confirm_once_example =
    confirm_once toy hit_id (call_at 30 (err persistence_error)) (call_at 50 (ok tt)) later_calls
      (parsed two_hits) 0 changed_mint refl

sweep_expired-IsSwept_example :
    (d' : Store) × (n : ℕ) × IsSwept (seconds 40) two_hits d' n
    × (sweep_expired (seconds 40) true (ok tt) (parsed two_hits) ≡ (ok n, parsed d'))
    × (sweep_expired (seconds 40) true (err persistence_error) (parsed d') ≡ (ok 0, parsed d'))
sweep_expired-IsSwept_example =
    sweep_expired-IsSwept (seconds 40) true true (err persistence_error) two_hits

one_late : swept_count (seconds 40) two_hits ≡ 1
unfolding swept_count is_late lt add
one_late = refl

total_count-stats_example :
    (out : List (Text × ℕ)) × (stats true (parsed two_hits) ≡ (ok out, parsed two_hits))
    × (total_count out ≡ 2)
total_count-stats_example = total_count-stats true two_hits

checked_hit : record_checks toy (str (codes "900")) (int (pos 900)) kwargs_of_hit ≡ ok (seconds 900)
unfolding record_checks ttl_number kry.Base.Dicts.lookup text_eq of_int lt
checked_hit = refl

early : is_late (seconds 30) (new_record (seconds 10) (seconds 900) kwargs_of_hit) ≡ false
unfolding is_late lt add
early = refl

record_then_confirm_example :
    (d : Store) × (confirm
        (call_at 30 (ok tt))
        (new_id toy (codes "seed"))
        (record_pending toy
          (str (codes "900"))
          (codes "seed")
          (seconds 10)
          true
          (ok tt)
          kwargs_of_hit
          (int (pos 900))
          (parsed two_hits)).1
        0
      ≡ (ok (some (codes "R1")), parsed d, 1))
    × (kry.Base.Dicts.lookup (new_id toy (codes "seed")) d
        ≡ some (
            minted_record
              (call_at 30 (ok tt))
              (seconds 10)
              (seconds 900)
              kwargs_of_hit
              (codes "R1")))
record_then_confirm_example =
    record_then_confirm toy (call_at 30 (ok tt)) (str (codes "900")) (int (pos 900)) (codes "seed")
      (seconds 10) (seconds 900) true kwargs_of_hit two_hits 0 1 (codes "R1") checked_hit early refl
      refl refl

corrupt_store_forgotten_example :
    (confirm (call_at 30 (ok tt)) hit_id unparseable 0 ≡ (err corrupt_error, no_file, 0))
    × (record_pending toy
          (str (codes "900"))
          (codes "seed")
          (seconds 10)
          true
          (ok tt)
          kwargs_of_hit
          (int (pos 900))
          (confirm (call_at 30 (ok tt)) hit_id unparseable 0).1
        ≡ (
          ok (new_id toy (codes "seed")),
          parsed (
              (new_id toy (codes "seed"), new_record (seconds 10) (seconds 900) kwargs_of_hit)
              ∷ []),
        ))
corrupt_store_forgotten_example =
    corrupt_store_forgotten toy (call_at 30 (ok tt)) hit_id 0 (str (codes "900")) (int (pos 900))
      (codes "seed") (seconds 10) (seconds 900) true kwargs_of_hit refl checked_hit
