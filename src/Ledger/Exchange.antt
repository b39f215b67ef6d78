-- ===== src/Ledger/Exchange.antt =====
-- `transfer` and the queries of `BalanceRuntime`.
use ppsc.Base.{
  if◌then◌else◌, ◌||◌, ℕ, not, Option, none, some, ◌∷◌, Result, ok, err, and_then, map_ok, ok_or,
  pure, lift, gets, fail_if, ◌>>=◌, ◌>>◌, ◌==◌, nat_eq, pair_eq,
}
use ppsc.Base.Dict.{lookup, insert, contains}
use ppsc.Base.Bytes.{Bytes}
use ppsc.Core.{Commitment}
use ppsc.Backend.{
  ConfidentialBackend, BackendError, PrivateAccountId, AssetId, FheAmount, MpcAmount,
}
use ppsc.Ledger.State.{
  RuntimeError, TransferCommand, TransferTransition, EncryptedBalanceView, BalanceRecord, Step,
  lock, next_version, or_backend_error, next_record, invalid_amount, stale_state_root,
  nullifier_already_spent, balance_not_found, insufficient_balance,
}

-- The version of a record that the receiver may not have yet.
abbrev pub next_version_or_first : Option BalanceRecord → ℕ
next_version_or_first none = 1
next_version_or_first (some current) = next_version current.version

module _ (B : ConfidentialBackend) where
  -- The receiver's shares: of the balance, or of zero.
  unfoldable pub receiver_shares : Option BalanceRecord → Result BackendError MpcAmount
  receiver_shares (some value) = B.fhe_to_mpc value.ciphertext
  receiver_shares none = B.share_amount 0

  -- The ciphertexts that a transfer leaves, the sender's first.
  unfoldable pub moved :
      TransferCommand
      → BalanceRecord
      → Option BalanceRecord
      → Result RuntimeError (FheAmount × FheAmount)
  unfolding receiver_shares
  moved c sender receiver_current =
      and_then (or_backend_error (B.fhe_to_mpc sender.ciphertext)) λ sender_secret.
        and_then (or_backend_error (receiver_shares receiver_current)) λ receiver_secret.
          and_then (or_backend_error (B.share_amount c.amount)) λ amount.
            and_then (or_backend_error (B.greater_than_or_equal sender_secret amount)) λ enough.
              and_then (if enough then ok tt else err insufficient_balance) λ (_ : Unit {0}).
                and_then (or_backend_error (B.checked_sub sender_secret amount)) λ sender_next.
                  and_then (or_backend_error (B.checked_add receiver_secret amount))
                    λ receiver_next.
                      and_then (or_backend_error (B.mpc_to_fhe sender_next c.sender c.asset))
                        λ sender_ciphertext.
                          map_ok (λ receiver_ciphertext. (sender_ciphertext, receiver_ciphertext))
                            (or_backend_error (B.mpc_to_fhe receiver_next c.receiver c.asset))

  unfoldable pub store_transfer :
      TransferCommand → FheAmount × FheAmount → ℕ → ℕ → Step TransferTransition
  unfolding next_record
  store_transfer c (sender_ciphertext, receiver_ciphertext) sender_version receiver_version s =
      let (sender_record, intermediate_root, _) =
        next_record B s.state_root c.sender c.asset sender_ciphertext sender_version in
      let (receiver_record, new_root, transcript_root) =
        next_record B intermediate_root c.receiver c.asset receiver_ciphertext receiver_version in
      (
        ok (record {
          new_state_root = new_root;
          sender_data_id = sender_record.data_id;
          receiver_data_id = receiver_record.data_id;
          transcript_root = transcript_root;
          sender_version = sender_version;
          receiver_version = receiver_version;
        }),
        record s {
          balances =
              insert (c.receiver, c.asset) receiver_record
                (insert (c.sender, c.asset) sender_record s.balances);
          processed_transfers = c.transfer_id ∷ s.processed_transfers;
          state_root = new_root;
        },
      )

  unfoldable pub transfer : TransferCommand → Step TransferTransition
  unfolding moved store_transfer
  transfer c = do
    fail_if (c.amount == 0 || c.sender == c.receiver) invalid_amount
    lock
    fail_if (not ((← gets (λ s. s.state_root)) == c.expected_old_state_root)) stale_state_root
    fail_if (← gets (λ s. contains s.processed_transfers c.transfer_id)) nullifier_already_spent
    sender ← lift (ok_or (← gets (λ s. lookup (c.sender, c.asset) s.balances)) balance_not_found)
    receiver_current ← gets (λ s. lookup (c.receiver, c.asset) s.balances)
    ciphertexts ← lift (moved c sender receiver_current)
    store_transfer c ciphertexts (next_version sender.version)
        (next_version_or_first receiver_current)

  unfoldable pub encrypted_balance : PrivateAccountId → AssetId → Step EncryptedBalanceView
  encrypted_balance account asset = do
    lock
    found ← lift (ok_or (← gets (λ s. lookup (account, asset) s.balances)) balance_not_found)
    root ← gets (λ s. s.state_root)
    pure (record {
      data_id = found.data_id;
      ciphertext = found.ciphertext;
      state_root = root;
      version = found.version;
    })

  unfoldable pub open_balance_for_owner : PrivateAccountId → AssetId → Bytes → Step ℕ
  open_balance_for_owner account asset authorization = do
    lock
    found ← lift (ok_or (← gets (λ s. lookup (account, asset) s.balances)) balance_not_found)
    lift (or_backend_error (B.decrypt_for_owner found.ciphertext account authorization))

unfoldable pub current_state_root : Step Commitment
current_state_root = do lock; gets (λ s. s.state_root)
