-- ===== src/Ledger/Operations.antt =====
-- Deposits and withdrawals: `credit_deposit` and `debit_withdrawal`.
use ppsc.Base.{
  if◌then◌else◌, ℕ, not, Option, none, some, ◌∷◌, Result, ok, err, and_then, map_ok, ok_or, lift,
  gets, fail_if, ◌>>=◌, ◌>>◌, ◌==◌, nat_eq, pair_eq,
}
use ppsc.Base.Dict.{lookup, insert, contains}
use ppsc.Backend.{ConfidentialBackend, BackendError, FheAmount}
use ppsc.Ledger.State.{
  RuntimeError, DepositCommand, WithdrawalCommand, StateTransition, BalanceRecord, Step, lock,
  next_version, or_backend_error, next_record, invalid_amount, stale_state_root,
  deposit_already_processed, nullifier_already_spent, balance_not_found, insufficient_balance,
}

module _ (B : ConfidentialBackend) where
  -- The ciphertext and the version that a deposit leaves.
  unfoldable pub credited :
      DepositCommand → Option BalanceRecord → Result BackendError (FheAmount × ℕ)
  credited c (some current) = and_then (B.fhe_to_mpc current.ciphertext) λ current_value.
      and_then (B.share_amount c.amount) λ deposit_value.
        and_then (B.checked_add current_value deposit_value) λ next_value.
          map_ok (λ ciphertext. (ciphertext, next_version current.version))
            (B.mpc_to_fhe next_value c.account c.asset)
  credited c none =
      map_ok (λ ciphertext. (ciphertext, 1)) (B.encrypt_amount c.amount c.account c.asset)

  unfoldable pub store_deposit : DepositCommand → FheAmount × ℕ → Step StateTransition
  unfolding next_record
  store_deposit c (ciphertext, version) s =
      let (updated, new_root, transcript) =
        next_record B s.state_root c.account c.asset ciphertext version in
      (
        ok (record {
          new_state_root = new_root;
          encrypted_balance_data_id = updated.data_id;
          transcript_root = transcript;
          version = version;
        }),
        record s {
          balances = insert (c.account, c.asset) updated s.balances;
          processed_deposits = c.deposit_id ∷ s.processed_deposits;
          state_root = new_root;
        },
      )

  unfoldable pub credit_deposit : DepositCommand → Step StateTransition
  unfolding credited store_deposit
  credit_deposit c = do
    fail_if (c.amount == 0) invalid_amount
    lock
    fail_if (not ((← gets (λ s. s.state_root)) == c.expected_old_state_root)) stale_state_root
    fail_if (← gets (λ s. contains s.processed_deposits c.deposit_id)) deposit_already_processed
    current ← gets (λ s. lookup (c.account, c.asset) s.balances)
    update ← lift (or_backend_error (credited c current))
    store_deposit c update

  -- The ciphertext that a withdrawal leaves.
  unfoldable pub debited : WithdrawalCommand → BalanceRecord → Result RuntimeError FheAmount
  debited c current = and_then (or_backend_error (B.fhe_to_mpc current.ciphertext)) λ current_value.
      and_then (or_backend_error (B.share_amount c.gross_amount)) λ debit_value.
        and_then (or_backend_error (B.greater_than_or_equal current_value debit_value)) λ enough.
          and_then (if enough then ok tt else err insufficient_balance) λ (_ : Unit {0}).
            and_then (or_backend_error (B.checked_sub current_value debit_value))
              λ next_value. or_backend_error (B.mpc_to_fhe next_value c.account c.asset)

  unfoldable pub store_withdrawal : WithdrawalCommand → FheAmount → ℕ → Step StateTransition
  unfolding next_record
  store_withdrawal c ciphertext version s =
      let (updated, new_root, transcript) =
        next_record B s.state_root c.account c.asset ciphertext version in
      (
        ok (record {
          new_state_root = new_root;
          encrypted_balance_data_id = updated.data_id;
          transcript_root = transcript;
          version = version;
        }),
        record s {
          balances = insert (c.account, c.asset) updated s.balances;
          spent_nullifiers = c.nullifier ∷ s.spent_nullifiers;
          state_root = new_root;
        },
      )

  unfoldable pub debit_withdrawal : WithdrawalCommand → Step StateTransition
  unfolding debited store_withdrawal
  debit_withdrawal c = do
    fail_if (c.gross_amount == 0) invalid_amount
    lock
    fail_if (not ((← gets (λ s. s.state_root)) == c.expected_old_state_root)) stale_state_root
    fail_if (← gets (λ s. contains s.spent_nullifiers c.nullifier)) nullifier_already_spent
    current ← lift (ok_or (← gets (λ s. lookup (c.account, c.asset) s.balances)) balance_not_found)
    ciphertext ← lift (debited c current)
    store_withdrawal c ciphertext (next_version current.version)
