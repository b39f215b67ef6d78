-- ===== src/Ledger/Tests.antt =====
-- Runs of the ledger over the plaintext backend, and the theorems at concrete commands.
use ppsc.Base.{
  ◌+◌, ◌≡◌, refl, true, false, List, [], ◌∷◌, arith, nat_eq, pair_eq, bytes_eq, string_eq,
}
use ppsc.Ledger.State.{RuntimeState, DepositCommand, WithdrawalCommand, TransferCommand}
use ppsc.Ledger.Value.{balance_of, IsValid, total}
use ppsc.Base.Bytes.{to_be_bytes, from_be_bytes}
use ppsc.Backend.Plaintext.{
  plaintext_backend, encode_ciphertext, checked_add, checked_sub, greater_than_or_equal, fhe_to_mpc,
  mpc_to_fhe,
}
use ppsc.Backend.Plaintext.Laws.{plaintext_contract, plaintext_value}
use ppsc.Ledger.Operations.{credit_deposit, debit_withdrawal}
use ppsc.Ledger.Exchange.{transfer}
use ppsc.Ledger.Deposit.{Deposits, deposit_result, credit_deposit-refines}
use ppsc.Ledger.Withdrawal.{Withdraws, withdrawal_result, debit_withdrawal-refines}
use ppsc.Ledger.Transfer.{Transfers, transfer_result, transfer-refines, sender_key, receiver_key}
use ppsc.Ledger.Supply.{
  Command, deposit, withdraw, move, run_command, run, inflows, outflows, run-total,
}
use ppsc.Ledger.History.{succeeds, replay_fails}
use ppsc.Ledger.Atomic.{failed_command_keeps_state}

-- Alice, account 1, holds 100 in asset 9; Bob, account 2, has no record yet.
abbrev alice_state : RuntimeState
alice_state = record {
  state_root = 7;
  balances = ((1, 9), record { ciphertext = encode_ciphertext 100; data_id = 5; version = 1 }) ∷ [];
  processed_deposits = 11 ∷ [];
  spent_nullifiers = [];
  processed_transfers = [];
  poisoned = false;
}

alice_state-IsValid : IsValid plaintext_contract alice_state
alice_state-IsValid = ((100, plaintext_value 100 (omega arith)), tt)

abbrev pay_bob : TransferCommand
pay_bob = record {
  transfer_id = 21;
  sender = 1;
  receiver = 2;
  asset = 9;
  amount = 30;
  expected_old_state_root = 7;
}

abbrev top_up : DepositCommand
top_up = record {
  deposit_id = 12;
  account = 1;
  asset = 9;
  amount = 40;
  expected_old_state_root = 7;
}

abbrev cash_out : WithdrawalCommand
cash_out = record {
  nullifier = 31;
  account = 1;
  asset = 9;
  gross_amount = 60;
  expected_old_state_root = 7;
}

transfer-refines_example :
    Transfers plaintext_contract pay_bob alice_state
      (2, 9)
      (transfer_result pay_bob alice_state
        (balance_of plaintext_contract (sender_key pay_bob) alice_state)
        (balance_of plaintext_contract (receiver_key pay_bob) alice_state))
      (transfer plaintext_backend pay_bob alice_state)
transfer-refines_example =
    transfer-refines plaintext_contract pay_bob (omega arith) alice_state (2, 9) alice_state-IsValid

credit_deposit-refines_example :
    Deposits plaintext_contract top_up alice_state
      (1, 9)
      (deposit_result top_up alice_state (balance_of plaintext_contract (1, 9) alice_state))
      (credit_deposit plaintext_backend top_up alice_state)
credit_deposit-refines_example =
    credit_deposit-refines plaintext_contract top_up (omega arith) alice_state (1, 9)
      alice_state-IsValid

debit_withdrawal-refines_example :
    Withdraws plaintext_contract cash_out alice_state
      (1, 9)
      (withdrawal_result cash_out alice_state (balance_of plaintext_contract (1, 9) alice_state))
      (debit_withdrawal plaintext_backend cash_out alice_state)
debit_withdrawal-refines_example =
    debit_withdrawal-refines plaintext_contract cash_out (omega arith) alice_state (1, 9)
      alice_state-IsValid

abbrev session : List Command
session = deposit top_up ∷ move pay_bob ∷ withdraw cash_out ∷ []

run-total_example :
    IsValid plaintext_contract (run plaintext_backend session alice_state)
    × (total plaintext_contract 9 (run plaintext_backend session alice_state)
          + outflows plaintext_backend 9 session alice_state
        ≡ total plaintext_contract 9 alice_state + inflows plaintext_backend 9 session alice_state)
run-total_example =
    run-total plaintext_contract 9 session alice_state (omega arith) alice_state-IsValid

pay_bob-succeeds : succeeds plaintext_backend (move pay_bob) alice_state ≡ true
unfolding transfer checked_add checked_sub greater_than_or_equal fhe_to_mpc mpc_to_fhe to_be_bytes
    from_be_bytes
pay_bob-succeeds = refl

replay_fails_example :
    succeeds plaintext_backend
      (move pay_bob)
      (run plaintext_backend session (run_command plaintext_backend (move pay_bob) alice_state))
    ≡ false
replay_fails_example =
    replay_fails plaintext_backend (move pay_bob) (move pay_bob) session alice_state refl
      pay_bob-succeeds

-- Bob has no record to pay from.
abbrev bob_pays : Command
bob_pays = move (record {
  transfer_id = 22;
  sender = 2;
  receiver = 1;
  asset = 9;
  amount = 30;
  expected_old_state_root = 7;
})

bob_pays_fails : succeeds plaintext_backend bob_pays alice_state ≡ false
unfolding transfer
bob_pays_fails = refl

failed_command_keeps_state_example :
    run_command plaintext_backend bob_pays alice_state ≡ alice_state
failed_command_keeps_state_example =
    failed_command_keeps_state plaintext_backend bob_pays alice_state bob_pays_fails
