-- ===== src/Tests/BalanceRuns.antt =====
-- The reconciliation of a few accounts.
use jmdn_fast_sync.Common.{
  ℕ, ◌≡◌, refl, Option, none, some, List, [], ◌∷◌, ◌++◌, length, map, arith,
}
use jmdn_fast_sync.Common.Int.{ℤ, pos, negsuc}
unfoldable use jmdn_fast_sync.Common.Int.{◌+ℤ◌, ◌-ℤ◌}
use jmdn_fast_sync.Reconcile.Balance.{
  Transaction, Roles, AccountUpdate, AccountDelta, calculate_account_state, apply_transactions,
  apply_transaction, is_account, pay_gas, transfer, calculate_gas_cost, price_of, new_balance,
}
use jmdn_fast_sync.Reconcile.Balance.Changes.{computed, new_balance-append}
use jmdn_fast_sync.Reconcile.Commit.{AccountManager, compute_account_update, reconcile}
use jmdn_fast_sync.Reconcile.Commit.Laws.{AllOrNone, reconcile-AllOrNone}
use jmdn_fast_sync.Tests.Memory.{Memory, empty_memory, memory_disk}
use jmdn_fast_sync.Wal.Operations.{
  Wal, save_lsn, write_entries, flush_buffer, find_entry, get_event,
}
use jmdn_fast_sync.Wal.Operations.Invariant.{IsValid}
use jmdn_fast_sync.Wal.Operations.Reads.{get_event-flush_buffer}
use jmdn_fast_sync.Wal.Types.{Entry, Event, reconciliation}

-- Account 1 pays 30 to account 2, with a gas fee of 21; 3 and 4 take the fee.
abbrev payment : Transaction
payment = record {
  sender = some 1;
  receiver = some 2;
  value = some (pos 30);
  tx_type = 2;
  gas_limit = 7;
  gas_price = none;
  max_fee = some 3;
  max_priority_fee = none;
  nonce = 5;
  block_number = 1;
}

abbrev header_of : ℕ → Option Roles
header_of block = some (record { coinbase = some 3; zkvm = some 4 })

payer_run : (calculate_account_state header_of 1 (payment ∷ [])).balance ≡ negsuc 50
unfolding calculate_account_state apply_transactions apply_transaction is_account pay_gas transfer
    calculate_gas_cost price_of ◌+ℤ◌ ◌-ℤ◌
payer_run = refl

new_balance-append_example :
    new_balance
      (new_balance (pos 100) (computed header_of 1 (payment ∷ [])))
      (computed header_of 1 (payment ∷ []))
    ≡ new_balance (pos 100) (computed header_of 1 (payment ∷ payment ∷ []))
unfolding calculate_account_state apply_transactions apply_transaction is_account pay_gas transfer
    calculate_gas_cost price_of ◌+ℤ◌ ◌-ℤ◌
new_balance-append_example =
    new_balance-append header_of 1 (pos 100) (payment ∷ []) (payment ∷ []) (omega arith)

abbrev accounts : AccountManager
accounts = record {
  Db = List (ℕ × ℤ);
  get_transactions = λ db account from to. some (payment ∷ []);
  get_balance = λ db account. some (some (pos 100), account);
  create_account = λ db account nonce. some ((account, pos 0) ∷ db);
  batch_update =
      λ db updates. some (map (λ (u : AccountUpdate). (u.address, u.new_balance)) updates ++ db);
}

abbrev batch_event : List AccountUpdate → Event
batch_event updates = record {
  event_type = reconciliation;
  serialized = some (length updates ∷ []);
}

abbrev pub log : Wal Memory
log = record {
  log = empty_memory 9;
  buffer = [];
  batch_size = 3;
  current_lsn = 0;
  last_flushed_lsn = 0;
  metadata = none;
  checkpoints = [];
}

pub log-IsValid : IsValid memory_disk log
log-IsValid = record { at_end = refl; consecutive = tt; counted = refl }

reconcile-AllOrNone_example :
    AllOrNone accounts memory_disk header_of batch_event 100 []
      (λ a. compute_account_update accounts memory_disk header_of batch_event 100 [] 1 9 a)
      (1 ∷ 2 ∷ [])
      (reconcile accounts memory_disk header_of batch_event 100 none [] (some log) 1 9 (1 ∷ 2 ∷ []))
reconcile-AllOrNone_example =
    reconcile-AllOrNone accounts memory_disk header_of batch_event 100 [] (some log) 1 9 1 (2 ∷ [])

abbrev delta : AccountDelta
delta = record { balance_delta = negsuc 6; tx_nonce = 3; tx_count_sent = 1 }

abbrev entry : Entry
entry = record { wal_type = reconciliation; payload = 8 ∷ []; lsn = 1; timestamp = 100 }

abbrev one_buffered : Wal Memory
one_buffered = record log { buffer = entry ∷ []; current_lsn = 1 }

one_buffered-IsValid : IsValid memory_disk one_buffered
one_buffered-IsValid = record { at_end = refl; consecutive = (refl, tt); counted = refl }

get_event-flush_buffer_example :
    get_event memory_disk (flush_buffer memory_disk one_buffered).0 1 ≡ some entry
unfolding flush_buffer write_entries save_lsn get_event find_entry
get_event-flush_buffer_example =
    get_event-flush_buffer memory_disk one_buffered 1 entry one_buffered-IsValid refl (omega arith)
      refl
