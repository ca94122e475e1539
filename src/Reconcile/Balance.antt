-- ===== src/Reconcile/Balance.antt =====
-- `calculateGasCostFromTx`, `calculateAccountState`, `computeAccountUpdate` and `computeUpdateFromDelta`.
-- An account is its address, a number: the hexadecimal form and its letter case are not modelled. The
-- header of a block, as the cache or the database returns it, is a parameter.
pub mod Changes
use jmdn_fast_sync.Common.{
  ℕ, ◌+◌, ◌*◌, ◌/◌, ◌%◌, Bool, true, false, Option, none, some, List, [], ◌∷◌, ltb, ◌==◌,
  if◌then◌else◌,
}
use jmdn_fast_sync.Common.Int.{ℤ, pos, ltb_ℤ}
unfoldable use jmdn_fast_sync.Common.Int.{◌+ℤ◌, ◌-ℤ◌}

-- `types.DBTransaction`. Prices are not negative.
pub record Transaction : Type 0 where
  pub sender : Option ℕ
  pub receiver : Option ℕ
  pub value : Option ℤ
  pub tx_type : ℕ
  pub gas_limit : ℕ
  pub gas_price : Option ℕ
  pub max_fee : Option ℕ
  pub max_priority_fee : Option ℕ
  pub nonce : ℕ
  pub block_number : ℕ

-- The part of a block header that is read; `none` for an empty address.
pub record Roles : Type 0 where
  pub coinbase : Option ℕ
  pub zkvm : Option ℕ

-- `accountState`
pub record AccountState : Type 0 where
  pub address : ℕ
  pub balance : ℤ
  pub nonce : ℕ
  pub gas_spent : ℕ

-- `types.AccountUpdate`
pub record AccountUpdate : Type 0 where
  pub address : ℕ
  pub new_balance : ℤ
  pub nonce : ℕ
  pub tx_nonce : ℕ
  pub tx_count_sent : ℕ
  pub is_new_account : Bool

-- `types.AccountDelta`, as far as it is read.
pub record AccountDelta : Type 0 where
  pub balance_delta : ℤ
  pub tx_nonce : ℕ
  pub tx_count_sent : ℕ

-- The `switch` on the type of a transaction.
unfoldable pub price_of : Transaction → Option ℕ
price_of tx =
    if tx.tx_type == 0
    then tx.gas_price
    else if tx.tx_type == 1
    then elim tx.max_fee [ none ↦ tx.max_priority_fee | some fee ↦ some fee ]
    else if tx.tx_type == 2
    then elim tx.max_fee [ none ↦ tx.max_priority_fee | some fee ↦ some fee ]
    else none

unfoldable pub calculate_gas_cost : Transaction → ℕ
unfolding price_of
calculate_gas_cost tx =
    if tx.gas_limit == 0
    then 0
    else elim (price_of tx) [ none ↦ 0 | some price ↦ tx.gas_limit * price ]

-- An absent address is the empty string, which is no account.
unfoldable pub is_account : Option ℕ → ℕ → Bool
is_account none account = false
is_account (some address) account = address == account

abbrev pub coinbase_of : Option Roles → Option ℕ
coinbase_of none = none
coinbase_of (some roles) = roles.coinbase

abbrev pub zkvm_of : Option Roles → Option ℕ
zkvm_of none = none
zkvm_of (some roles) = roles.zkvm

-- The sender's nonce and gas.
unfoldable pub pay_gas : Bool → ℕ → ℕ → AccountState → AccountState
pay_gas outgoing gas nonce s =
    if outgoing
    then record s {
      nonce = if ltb s.nonce nonce then nonce else s.nonce;
      gas_spent = s.gas_spent + gas;
      balance = s.balance -ℤ pos gas;
    }
    else s

abbrev pub debit : Bool → ℤ → AccountState → AccountState
debit applies n s = if applies then record s { balance = s.balance -ℤ n } else s

abbrev pub credit : Bool → ℤ → AccountState → AccountState
credit applies n s = if applies then record s { balance = s.balance +ℤ n } else s

-- "Value transfer: only when value is non-nil and positive".
unfoldable pub transfer : Bool → Bool → Option ℤ → AccountState → AccountState
transfer outgoing incoming none s = s
transfer outgoing incoming (some value) s =
    if ltb_ℤ (pos 0) value then credit incoming value (debit outgoing value s) else s

module _ (header_of : ℕ → Option Roles) (account : ℕ) where
  -- One round of the loop of `calculateAccountState`.
  unfoldable pub apply_transaction : AccountState → Transaction → AccountState
  unfolding calculate_gas_cost is_account pay_gas transfer
  apply_transaction s tx =
      let outgoing = is_account tx.sender account in
      let incoming = is_account tx.receiver account in
      let gas = calculate_gas_cost tx in
      let half = gas / 2 in
      let coinbase_fee = half + gas % 2 in
      let header = header_of tx.block_number in
      let paid = pay_gas outgoing gas tx.nonce s in
      let moved = transfer outgoing incoming tx.value paid in
      credit (is_account (zkvm_of header) account) (pos half)
        (credit (is_account (coinbase_of header) account) (pos coinbase_fee) moved)

  unfoldable pub apply_transactions : AccountState → List Transaction → AccountState
  apply_transactions s [] = s
  apply_transactions s (tx ∷ txs) = apply_transactions (apply_transaction s tx) txs

  abbrev pub initial_state : AccountState
  initial_state = record { address = account; balance = pos 0; nonce = 0; gas_spent = 0 }

  unfoldable pub calculate_account_state : List Transaction → AccountState
  unfolding apply_transactions apply_transaction
  calculate_account_state txs = apply_transactions initial_state txs

-- `new(big.Int).Add(currentBalance, delta)`, and zero for a negative sum.
unfoldable pub new_balance : ℤ → ℤ → ℤ
new_balance current delta = let sum = current +ℤ delta in if ltb_ℤ sum (pos 0) then pos 0 else sum

-- The balance and the identity nonce of an account, as `GetAccountBalance` returns them: no balance for
-- an account that is not held.
abbrev pub current_balance : Option ℤ → ℤ
current_balance none = pos 0
current_balance (some balance) = balance

abbrev pub is_absent : Option ℤ → Bool
is_absent none = true
is_absent (some balance) = false
