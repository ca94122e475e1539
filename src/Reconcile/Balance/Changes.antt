-- ===== src/Reconcile/Balance/Changes.antt =====
-- What a transaction changes in the balance of one account, and how the changes of several transactions
-- add up.
use jmdn_fast_sync.Common.{
  ℕ, ◌+◌, ◌/◌, ◌%◌, ◌≡◌, ap, sym, ◌∙◌, Bool, true, false, Option, none, some, List, [], ◌∷◌, ◌++◌,
  if◌then◌else◌, arith,
}
use jmdn_fast_sync.Common.Int.{
  ℤ, pos, pos_part, neg_part, ltb_ℤ, ◌≤ℤ◌, eq_of_parts, +ℤ_parts, int_laws, -ℤ_parts,
}
unfoldable use jmdn_fast_sync.Common.Int.{◌+ℤ◌, ◌-ℤ◌}
use jmdn_fast_sync.Reconcile.Balance.{
  Transaction, Roles, AccountState, calculate_gas_cost, is_account, coinbase_of, zkvm_of, pay_gas,
  debit, credit, transfer, apply_transaction, apply_transactions, initial_state,
  calculate_account_state, new_balance,
}

-- The value that is transferred.
abbrev pub value_of : Option ℤ → ℕ
value_of none = 0
value_of (some value) = pos_part value

abbrev pub when : Bool → ℕ → ℕ
when c n = if c then n else 0

module _ (header_of : ℕ → Option Roles) (account : ℕ) where
  abbrev pub paid_by : Transaction → ℕ
  paid_by tx = when (is_account tx.sender account) (calculate_gas_cost tx + value_of tx.value)

  abbrev pub received_by : Transaction → ℕ
  received_by tx =
      let gas = calculate_gas_cost tx in
      let header = header_of tx.block_number in
      when (is_account tx.receiver account) (value_of tx.value)
      + when (is_account (coinbase_of header) account) (gas / 2 + gas % 2)
      + when (is_account (zkvm_of header) account) (gas / 2)

  -- A balance that grew by `up` and shrank by `down`.
  abbrev pub Moves : ℤ → ℤ → ℕ → ℕ → Type 0
  Moves before after down up =
      pos_part after + neg_part before + down ≡ neg_part after + pos_part before + up

  pay_gas-Moves :
      (c : Bool) (gas nonce : ℕ) (s : AccountState)
      → Moves s.balance (pay_gas c gas nonce s).balance (when c gas) 0
  unfolding pay_gas
  pay_gas-Moves true gas nonce s = omega (arith, -ℤ_parts s.balance (pos gas))
  pay_gas-Moves false gas nonce s = omega arith

  credit-Moves :
      (c : Bool) (n : ℕ) (s : AccountState)
      → Moves s.balance (credit c (pos n) s).balance 0 (when c n)
  credit-Moves true n s = omega (arith, +ℤ_parts s.balance (pos n))
  credit-Moves false n s = omega arith

  transfer-Moves :
      (out into : Bool) (value : Option ℤ) (s : AccountState)
      → Moves s.balance
          (transfer out into value s).balance
          (when out (value_of value))
          (when into (value_of value))
  unfolding transfer
  transfer-Moves out into none s = ground arith
  transfer-Moves out into (some value) s = ground (arith, moved out into)
    where
      moved :
          (out into : Bool)
          → pos_part (credit into value (debit out value s)).balance
              + neg_part s.balance
              + when out (pos_part value)
              + when into (neg_part value)
            ≡ neg_part (credit into value (debit out value s)).balance
              + pos_part s.balance
              + when out (neg_part value)
              + when into (pos_part value)
      moved true true = omega (arith, +ℤ_parts (s.balance -ℤ value) value, -ℤ_parts s.balance value)
      moved true false = omega (arith, -ℤ_parts s.balance value)
      moved false true = omega (arith, +ℤ_parts s.balance value)
      moved false false = omega arith

  pub apply_transaction-Moves :
      (s : AccountState) (tx : Transaction)
      → Moves s.balance
          (apply_transaction header_of account s tx).balance
          (paid_by tx)
          (received_by tx)
  unfolding apply_transaction
  apply_transaction-Moves s tx =
      let out = is_account tx.sender account in
      let into = is_account tx.receiver account in
      let gas = calculate_gas_cost tx in
      let header = header_of tx.block_number in
      let paid = pay_gas out gas tx.nonce s in
      let moved = transfer out into tx.value paid in
      let with_fee =
        credit (is_account (coinbase_of header) account) (pos (gas / 2 + gas % 2)) moved in
      ground (
        arith,
        pay_gas-Moves out gas tx.nonce s,
        transfer-Moves out into tx.value paid,
        credit-Moves (is_account (coinbase_of header) account) (gas / 2 + gas % 2) moved,
        credit-Moves (is_account (zkvm_of header) account) (gas / 2) with_fee,
      )

  abbrev pub paid_in : List Transaction → ℕ
  paid_in [] = 0
  paid_in (tx ∷ txs) = paid_by tx + paid_in txs

  abbrev pub received_in : List Transaction → ℕ
  received_in [] = 0
  received_in (tx ∷ txs) = received_by tx + received_in txs

  apply_transactions-Moves :
      (txs : List Transaction) (s : AccountState)
      → Moves s.balance
          (apply_transactions header_of account s txs).balance
          (paid_in txs)
          (received_in txs)
  unfolding apply_transactions
  apply_transactions-Moves [] s = omega arith
  apply_transactions-Moves (tx ∷ txs) s = omega (
    arith,
    apply_transaction-Moves s tx,
    apply_transactions-Moves txs (apply_transaction header_of account s tx),
  )

  paid_in-append : (xs ys : List Transaction) → paid_in (xs ++ ys) ≡ paid_in xs + paid_in ys
  paid_in-append [] ys = omega arith
  paid_in-append (x ∷ xs) ys = omega (arith, paid_in-append xs ys)

  received_in-append :
      (xs ys : List Transaction) → received_in (xs ++ ys) ≡ received_in xs + received_in ys
  received_in-append [] ys = omega arith
  received_in-append (x ∷ xs) ys = omega (arith, received_in-append xs ys)

  abbrev pub computed : List Transaction → ℤ
  computed txs = (calculate_account_state header_of account txs).balance

  computed-Moves :
      (txs : List Transaction) → Moves (pos 0) (computed txs) (paid_in txs) (received_in txs)
  unfolding calculate_account_state
  computed-Moves txs = apply_transactions-Moves txs (initial_state header_of account)

  computed-append : (xs ys : List Transaction) → computed (xs ++ ys) ≡ computed xs +ℤ computed ys
  computed-append xs ys = eq_of_parts _ _ (
      omega (
        arith,
        computed-Moves xs,
        computed-Moves ys,
        computed-Moves (xs ++ ys),
        paid_in-append xs ys,
        received_in-append xs ys,
        +ℤ_parts (computed xs) (computed ys),
      ))

  new_balance-nonneg : (a b : ℤ) → pos 0 ≤ℤ (a +ℤ b) → new_balance a b ≡ a +ℤ b
  unfolding new_balance
  new_balance-nonneg a b h = ground arith

  -- Reconciling the transactions of two spans of blocks one after the other gives the balance that
  -- reconciling them at once gives, if the balance after the first span is not negative.
  pub new_balance-append :
      (current : ℤ) (xs ys : List Transaction)
      → pos 0 ≤ℤ (current +ℤ computed xs)
      → new_balance (new_balance current (computed xs)) (computed ys)
        ≡ new_balance current (computed (xs ++ ys))
  unfolding new_balance
  new_balance-append current xs ys h =
      let e : (current +ℤ computed xs) +ℤ computed ys ≡ current +ℤ computed (xs ++ ys) =
        eq_of_parts _ _ (
          omega (
            int_laws,
            +ℤ_parts (current +ℤ computed xs) (computed ys),
            +ℤ_parts current (computed xs),
            +ℤ_parts (computed xs) (computed ys),
            +ℤ_parts current (computed xs +ℤ computed ys),
          ))
        ∙ ap (λ u. current +ℤ u) (sym (computed-append xs ys)) in
      ap (λ u. new_balance u (computed ys)) (new_balance-nonneg current (computed xs) h)
      ∙ ap (λ u. if ltb_ℤ u (pos 0) then pos 0 else u) e
