-- ===== src/Lib.antt =====
-- A model of kry, verifiable receipts for reported LLM efficiency events (src/kry/*.py).
--
-- Base: library names, tests, lists, integers, texts (`str` as code points), dicts in insertion order,
--   and exceptions as values.
-- Double: the Python `float`, IEEE-754 binary64 with rounding to nearest even, by exact integers in units
--   of 2 ^ -1074. Signed zeros are not told apart. `sum` adds from the left without compensation.
--   Products: products, quotients and `round(x, k)`. Rounding and Order: rounding keeps order.
-- Python: the values that JSON or a caller may hand over, and `_finite_number`.
-- Settlement (src/kry/kry_settlement.py): the settlement protocol.
--   Host: the offer, grant and receipt; SHA-256, the text of a value in an f-string and the JSON text of
--     a receipt are parameters. Grants, Entries, Chain, Record: `_entry_grant_payload`,
--     `_registry_entries` and `_read_tip`, `verify_registry` and `_load_registry`, `_record_settled` with
--     `_rollback_registry` and `_record_partial_debit`. Settle: `settle`. Lease and Accept:
--     `_acquire_lease` and `verify_and_accept`.
--   State: the registry file as a list of lines with its tip file (`Registry`), the reservations of the
--     process (`Pending`), the receiver's ledger, the lease file. An operation takes the state and gives
--     its result and the new state. A critical section holds its locks throughout, so a call is one
--     step; `verify_and_accept` reserves under one lock and leases under another, which is one step here.
--     What the disk does with each write (done, lost, torn, not synced, undone) is an argument.
--   Callbacks (the debit, the balance reading, the policy guard) and the verdict on an attestation are
--   arguments. A file is lines that end in a newline; an error of a `mkdir` or `stat` is not modelled.
-- Displacement (src/kry/kry_pending.py): displacements that mint once they are confirmed.
--   Store: the side store, `record_pending`, `reject`, `sweep_expired`, `stats`. Confirm: `confirm`. The
--   store file is absent, unparseable or parsed. A record reads back as it was written, and a write that JSON
--   refuses is a write that raises. Every call takes the file with its own clock, disk and mint, and
--   Calls runs a sequence of calls. A process that dies around the mint is a mint or a write that raises.
-- PromptCache (src/kry/kry_prompt_cache.py): the value of provider prompt caching.
--   Prices: the tables, in nanodollars per token. Valuation: `value_record`. Summary: the loop of
--   `summarize`. `Decimal` is exact here: its 28 digits are enough for counts of tokens below 10 ^ 22.
-- Referee (src/kry/kry_referee.py): the review of gate decisions and the sanctioned rules.
--   Review: `review_gate_decision` on the window of recent decisions. Rules: escalation, ratification, use
--   and revocation; whether a write reaches the disk is an argument. Calls runs a sequence of calls.
--   `ratify_ascension` reads the escalation log before it takes the lock on the rules; the model does both in
--   one step, so a revocation between the two is not modelled. Keys: what the joined key lets pass.
-- Json: a decoded document, and the limits of scripts/kry_action_verify.py on its depth and integers.
-- Action (src/kry/kry_action.py, scripts/kry_action_verify.py): hash-chained receipts of an agent's actions.
--   Receipt: `_canon`, `commit`, `ActionReceipt.create`; SHA-256, the text of `json.dumps`, the hex digits
--     of a double and digits are parameters. Log: `record` on the log file, `_load_tip_from_log`,
--     `export_anchor`, `verify_action_chain`. Attest: `build_action_attestation` without `by_tier`.
--   Stranger: the verifier's `verify_action_attestation`. Anchor: `verify_against_anchor`, and the verdict
--     of `main` on documents that are read, unparseable, too large or unreadable.
--   Chain, Walked, Remint, Fresh, Surveyed, Declared and Accepted carry the proofs. The log is lines that
--     end in a newline or not; a torn append may leave anything as its last line. Opening the log or
--     making its directory does not fail.
-- Sanctions (src/kry/kry_sanctions.py): reputations and audit rates.
--   Store: the settings, `_finite_number`, the reputation file as a JSON value, `_load` and `_save`.
--   Reputation: `record_reconciliation`, `reputation`, `audit_rate_for`. Economics: `min_audit_rate`,
--     `min_penalty`, `honesty_is_stable`, `two_signal_trust`. Whether a write replaces the file is an
--     argument. Within, Bounds, Direction, Audit and Closed carry the proofs.
-- Ledger (src/kry/kry_token.py): Prices has the tables, `_priced_multiplier`, `net_value_multiplier` and the
--   amount that `earn` credits; `str.lower` is a parameter. Cost has `spend_cost`. Shares, Earned and
--   Longest carry their proofs.
--   Book: the ledger file's document and `KRYLedger`, `_ledger_parts`, `_adopt`. World: the state, a
--     `KRYLedger` with the files, and calls that may raise and leave what they have changed. Reading,
--     Merge, Saving: `_read_locked`, `_quarantine`, `_save_locked`, `_refresh_locked` and the guard and
--     rollback of an operation. Calls and Debits: `earn`, `spend`, `_keyed_debit`, `debit_kry`,
--     `ledger_operation`, `can_afford`. Recovery: `load_or_create`, `acknowledge_ledger_recovery`. A
--     ledger file is a document with the keys of a ledger, or malformed; what
--     `_ledger_storage_path` makes of the other files is a field of the state. How a write ends
--     (done, raised after the new file was durable, raised before, not known) is an argument, also for the journal that `_Activation.activate` (src/kry/_journal_activation.py) publishes.
--   Account: the abstract account. Keeps, Read, Written, Committed, Intact, Merged, Refreshed, Commit,
--     Recorded, Retained, Once, Refines, Earns, Spends, Blocked and Unblocked carry the proofs.
-- Not modelled: the ledger's reports, the files of a journal activation one by one, the
--   mint chain and attestations (kry_mint.py, kry_attest.py), the reading of JSON text, baseline and carbon,
--   `compact_registry` and the registry anchor, the other verifier scripts, and what only reads and prints.
--   The mint that `confirm` calls is an argument.
--
-- Fuel: `Json.Limits.check_stack` runs with the number of values in the document, one for each round, and a
-- theorem shows that it is enough. The width search of `Double.bits_from` makes twelve halvings, which serve
-- numbers below 2 ^ 4096; a sum, product, quotient or literal stays below 2 ^ 3300 units, and a larger
-- integer is infinite whatever width is found. No other definition uses fuel.
pub mod Base
pub mod Double
pub mod Python
pub mod Ledger
pub mod Sanctions
pub mod Settlement
pub mod Displacement
pub mod PromptCache
pub mod Referee
pub mod Json
pub mod Action
