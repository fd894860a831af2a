-- ===== src/Txn/Examples.antt =====
-- The theorems of this folder at concrete oracles, locks, transactions and sagas.
use hermes.Base.{
  str_eq, ap, false, ℕ, ◌+◌, ◌≡◌, refl, false, some, none, [], ◌∷◌, arith, bytes, GoString,
  string_eq,
}
use hermes.Base.Dict.{put, get}
use hermes.Clock.Hybrid.{now, pack}
use hermes.Txn.Oracle.{Oracle, get_timestamp, recover}
use hermes.Txn.Oracle.Unique.{to_get, to_recover, issued, IsSound, Distinct, issued-Distinct}
use hermes.Txn.LockManager.{Lock, LockManager, new_lock_manager, try_lock, unlock, unlock_key}
use hermes.Txn.LockManager.Ownership.{Agrees, operations-Agrees}
use hermes.Txn.Ssi
use hermes.Txn.Ssi.{
  SsiDetector, new_ssi_detector, register_txn, record_read, record_write, check_conflict,
  committed_conflict, active_conflict, ww_conflict, is_written, sets_of,
}
use hermes.Txn.Ssi.Conflicts.{no_key_written_twice}
use hermes.Txn.Saga.{SagaStep, SagaExecution, begin, execute, new_orchestrator}
use hermes.Txn.Saga.Compensation.{Outcome, execute_lem}

abbrev first_byte : GoString → ℕ
first_byte [] = 0
first_byte (b ∷ bs) = b

-- An oracle with the timestamps 100 to 102 left of its batch.
abbrev oracle : Oracle
oracle = record {
  hlc = record { l = 0; c = 0; max_skew_ms = 500 };
  last_saved = 199;
  batch_base = 100;
  batch_remaining = 3;
}

oracle-IsSound : IsSound oracle
oracle-IsSound = record { reserved = omega arith; in_range = omega arith }

issued-Distinct_example :
    Distinct (issued (to_get 7 ∷ to_get 7 ∷ to_recover 250 ∷ to_get 8 ∷ []) oracle)
unfolding get_timestamp recover now pack
issued-Distinct_example =
    issued-Distinct (to_get 7 ∷ to_get 7 ∷ to_recover 250 ∷ to_get 8 ∷ []) oracle (omega arith)
      oracle-IsSound

abbrev lock_of : GoString → Lock
lock_of txn = record {
  key = bytes "k";
  txn_id = txn;
  timestamp = 1;
  primary = bytes "k";
  expires_at = 10;
}

abbrev locked : LockManager
locked = (try_lock 0 (bytes "k") (lock_of (bytes "t")) new_lock_manager).1

locked-Agrees : Agrees locked
unfolding new_lock_manager get
locked-Agrees =
    (operations-Agrees 0 (bytes "k") (bytes "t") (lock_of (bytes "t")) new_lock_manager
      (λ t k. refl)).1

-- The lock of the first transaction has expired when the second one asks for it.
operations-Agrees_example :
    Agrees new_lock_manager
    × Agrees (try_lock 20 (bytes "k") (lock_of (bytes "u")) locked).1
    × Agrees (unlock_key (bytes "k") (bytes "t") locked).1
    × Agrees (unlock (bytes "t") locked)
operations-Agrees_example =
    operations-Agrees 20 (bytes "k") (bytes "t") (lock_of (bytes "u")) locked locked-Agrees

-- Two transactions of which the earlier one read the key that the later one wrote.
abbrev early : Ssi.Transaction
early = record { id = bytes "e"; read_timestamp = 1; start_time = 1 }

abbrev late : Ssi.Transaction
late = record { id = bytes "l"; read_timestamp = 2; start_time = 2 }

abbrev tracked : SsiDetector
tracked = record_write (bytes "l") (bytes "k") 4 (
    record_read (bytes "e") (bytes "k") 3 (register_txn late (register_txn early new_ssi_detector)))

no_key_written_twice_example : is_written (get (bytes "k") (sets_of (bytes "e") tracked)) ≡ false
unfolding new_ssi_detector register_txn record_read record_write check_conflict committed_conflict
    active_conflict ww_conflict get put str_eq
no_key_written_twice_example =
    no_key_written_twice late early (bytes "k") tracked (λ e. omega (arith, ap first_byte e)) refl
      (omega arith) refl refl

-- The first step adds 5 and can be undone, the second one always fails.
abbrev adds : SagaStep ℕ GoString
adds = record {
  name = bytes "add";
  execute = λ n. (none, n + 5);
  compensate = some (λ n. (none, 0));
  retry_count = 1;
}

abbrev breaks : SagaStep ℕ GoString
breaks = record {
  name = bytes "break";
  execute = λ n. (some (bytes "no"), n);
  compensate = none;
  retry_count = 1;
}

abbrev saga : SagaExecution ℕ GoString
saga = begin (adds ∷ breaks ∷ []) 1

execute_example :
    Outcome new_orchestrator (λ i k. none) saga (execute new_orchestrator (λ i k. none) saga)
execute_example = execute_lem new_orchestrator (λ i k. none) saga
