-- ===== src/Reconcile/Commit.antt =====
-- `Reconcile` and `ReconcileWithDeltas`: the balances are computed, written to the log, and committed at
-- once. The database, its account manager and the remote are parameters. The accounts are visited in the
-- order in which their results arrive.
pub mod Laws
use jmdn_fast_sync.Common.{
  ℕ, Bool, true, false, Option, none, some, List, [], ◌∷◌, ◌++◌, ◌==◌, if◌then◌else◌, length, map,
  any,
}
use jmdn_fast_sync.Common.Int.{ℤ}
use jmdn_fast_sync.Reconcile.Balance.{
  Transaction, Roles, AccountUpdate, AccountDelta, calculate_account_state, new_balance,
  current_balance, is_absent,
}
use jmdn_fast_sync.Wal.Durable.{log_event}
use jmdn_fast_sync.Wal.Log.{Disk}
use jmdn_fast_sync.Wal.Operations.{Wal, write_event, flush_buffer, create_checkpoint}
use jmdn_fast_sync.Wal.Types.{Event}

-- `types.AccountManager`, as far as it is called, over the contents `Db` of a database; `none` is an
-- error, which leaves the contents as they are.
pub record AccountManager : Type 1 where
  pub Db : Type 0
  pub get_transactions : Db → ℕ → ℕ → ℕ → Option (List Transaction)
  pub get_balance : Db → ℕ → Option (Option ℤ × ℕ)
  pub create_account : Db → ℕ → ℕ → Option Db
  pub batch_update : Db → List AccountUpdate → Option Db

pub data ReconcileError : Type 0 where
  computation_failed log_failed commit_failed : ReconcileError

-- The contents of the database and the log, and what the method returns.
pub record Reconciled (Db Log : Type 0) : Type 0 where
  pub db : Db
  pub log : Option (Wal Log)
  pub count : ℕ
  pub failed : List ℕ
  pub error : Option ReconcileError

-- `batch_event` is a `ReconciliationBatchEvent` of the updates, `now` the time of day.
module _ (manager : AccountManager) (disk : Disk) (header_of : ℕ → Option Roles)
    (batch_event : List AccountUpdate → Event) (now : ℕ) where
  open manager use {Db, get_transactions, get_balance, create_account, batch_update}
  open disk use {Log}

  -- `computeAccountUpdate`
  unfoldable pub compute_account_update : Db → ℕ → ℕ → ℕ → Option AccountUpdate
  compute_account_update db from to account = elim (get_transactions db account from to) [
    | none ↦ none
    | some txs ↦ elim (get_balance db account) [
      | none ↦ none
      | some (held, identity) ↦ some (record {
        address = account;
        new_balance =
            new_balance (current_balance held)
              (calculate_account_state header_of account txs).balance;
        nonce = identity;
        tx_nonce = 0;
        tx_count_sent = 0;
        is_new_account = is_absent held;
      })
    ]
  ]

  -- `computeUpdateFromDelta`
  unfoldable pub compute_update_from_delta : Db → ℕ × AccountDelta → Option AccountUpdate
  compute_update_from_delta db (account, delta) = elim (get_balance db account) [
    | none ↦ none
    | some (held, identity) ↦ some (record {
      address = account;
      new_balance = new_balance (current_balance held) delta.balance_delta;
      nonce = identity;
      tx_nonce = delta.tx_nonce;
      tx_count_sent = delta.tx_count_sent;
      is_new_account = is_absent held;
    })
  ]

  -- Phase 1: the updates, and the accounts for which there is none.
  unfoldable pub compute_all :
      {A : Type 0} → (A → ℕ) → (A → Option AccountUpdate) → List A → List AccountUpdate × List ℕ
  compute_all address_of compute [] = ([], [])
  compute_all address_of compute (a ∷ accounts) =
      let (updates, failed) = compute_all address_of compute accounts in
      elim (compute a) [
        | none ↦ (updates, address_of a ∷ failed)
        | some update ↦ (update ∷ updates, failed)
      ]

  -- `missingAddrs`
  unfoldable pub missing : List AccountUpdate → List ℕ
  missing [] = []
  missing (u ∷ updates) =
      let rest = missing updates in if u.is_new_account then u.address ∷ rest else rest

  -- `updates[idx].IsNewAccount = false`
  unfoldable pub mark_created : ℕ → List AccountUpdate → List AccountUpdate
  mark_created account [] = []
  mark_created account (u ∷ updates) =
      (if u.address == account then record u { is_new_account = false } else u)
      ∷ mark_created account updates

  -- The loop over the accounts that the remote returned; `none` is an empty address.
  unfoldable pub create_accounts :
      List ℕ → Db → List AccountUpdate → List (Option ℕ × ℕ) → Db × List AccountUpdate
  unfolding mark_created
  create_accounts wanted db updates [] = (db, updates)
  create_accounts wanted db updates ((none, nonce) ∷ found) =
      create_accounts wanted db updates found
  create_accounts wanted db updates ((some account, nonce) ∷ found) =
      if any (λ a. a == account) wanted
      then elim (create_account db account nonce) [
        | none ↦ create_accounts wanted db updates found
        | some db' ↦ create_accounts wanted db' (mark_created account updates) found
      ]
      else create_accounts wanted db updates found

  -- Phase 1.5. `remote` is `FetchAccounts`, if there is a remote; it returns `none` for an error and for
  -- no response.
  unfoldable pub pre_create :
      Option (List ℕ → Option (List (Option ℕ × ℕ)))
      → Db
      → List AccountUpdate
      → Db × List AccountUpdate
  unfolding missing create_accounts
  pre_create none db updates = (db, updates)
  pre_create (some fetch) db updates =
      if length (missing updates) == 0 then (db, updates) else elim (fetch (missing updates)) [
        | none ↦ (db, updates)
        | some found ↦ create_accounts (missing updates) db updates found
      ]

  -- Phase 2.
  unfoldable pub log_updates : Wal Log → List AccountUpdate → Wal Log × Bool
  unfolding log_event
  log_updates w updates = log_event disk w (batch_event updates) now

  -- Phase 3, and the checkpoint behind it, whose error is only reported.
  unfoldable pub store : Db → Option (Wal Log) → List AccountUpdate → Reconciled Db Log
  store db log updates = elim (batch_update db updates) [
    | none ↦ record { db = db; log = log; count = 0; failed = []; error = some commit_failed }
    | some db' ↦ record {
      db = db';
      log = elim log [ none ↦ none | some w ↦ some (create_checkpoint disk w).0 ];
      count = length updates;
      failed = [];
      error = none;
    }
  ]

  unfoldable pub commit : Db → Option (Wal Log) → List AccountUpdate → Reconciled Db Log
  unfolding log_updates store
  commit db none updates = store db none updates
  commit db (some w) updates =
      let (w', logged) = log_updates w updates in
      if logged
      then store db (some w') updates
      else record { db = db; log = some w'; count = 0; failed = []; error = some log_failed }

  -- What follows phase 1 in both methods.
  unfoldable pub finish :
      Option (List ℕ → Option (List (Option ℕ × ℕ)))
      → Db
      → Option (Wal Log)
      → List AccountUpdate × List ℕ
      → Reconciled Db Log
  unfolding pre_create commit
  finish remote db log (updates, failed) =
      if length failed == 0
      then (let (db', updates') = pre_create remote db updates in commit db' log updates')
      else record {
        db = db;
        log = log;
        count = 0;
        failed = failed;
        error = some computation_failed;
      }

  abbrev pub nothing_to_do : Db → Option (Wal Log) → Reconciled Db Log
  nothing_to_do db log = record { db = db; log = log; count = 0; failed = []; error = none }

  -- `Reconcile`
  unfoldable pub reconcile :
      Option (List ℕ → Option (List (Option ℕ × ℕ)))
      → Db
      → Option (Wal Log)
      → ℕ
      → ℕ
      → List ℕ
      → Reconciled Db Log
  unfolding compute_account_update compute_all finish
  reconcile remote db log from to [] = nothing_to_do db log
  reconcile remote db log from to (a ∷ accounts) = finish remote db log (
      compute_all (λ account. account) (λ account. compute_account_update db from to account)
        (a ∷ accounts))

  -- `ReconcileWithDeltas`
  unfoldable pub reconcile_with_deltas :
      Option (List ℕ → Option (List (Option ℕ × ℕ)))
      → Db
      → Option (Wal Log)
      → List (ℕ × AccountDelta)
      → Reconciled Db Log
  unfolding compute_update_from_delta compute_all finish
  reconcile_with_deltas remote db log [] = nothing_to_do db log
  reconcile_with_deltas remote db log (d ∷ deltas) =
      finish remote db log
        (compute_all (λ e. e.0) (λ e. compute_update_from_delta db e) (d ∷ deltas))
