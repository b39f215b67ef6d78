-- ===== src/Ledger/State.antt =====
-- The state of `BalanceRuntime`, its commands and its errors.
use ppsc.Base.{ℕ, ◌+◌, ◌%◌, Bool, List, [], ◌∷◌, Result, map_err, Action, fail_if, nat_eq, pair_eq}
use ppsc.Base.Dict.{Dict}
use ppsc.Base.Bytes.{Bytes, to_be_bytes, text_bytes, u64_mod}
use ppsc.Core.{Identifier, Commitment, DataId, id_as_bytes}
use ppsc.Backend.{ConfidentialBackend, BackendError, PrivateAccountId, AssetId, FheAmount}

pub data RuntimeError : Type 0 where
  invalid_amount stale_state_root deposit_already_processed nullifier_already_spent : RuntimeError
  balance_not_found insufficient_balance unauthorized state_unavailable : RuntimeError
  persistence_failure corrupt_persistence : RuntimeError
  backend : BackendError → RuntimeError

-- `From<BackendError>`
abbrev pub from_backend_error : BackendError → RuntimeError
from_backend_error BackendError.insufficient_balance = insufficient_balance
from_backend_error BackendError.unauthorized = unauthorized
from_backend_error BackendError.invalid_encoding = backend BackendError.invalid_encoding
from_backend_error BackendError.invalid_ciphertext = backend BackendError.invalid_ciphertext
from_backend_error BackendError.overflow = backend BackendError.overflow

pub record DepositCommand : Type 0 where
  pub deposit_id : Identifier
  pub account : PrivateAccountId
  pub asset : AssetId
  pub amount : ℕ
  pub expected_old_state_root : Commitment

pub record WithdrawalCommand : Type 0 where
  pub nullifier : Identifier
  pub account : PrivateAccountId
  pub asset : AssetId
  pub gross_amount : ℕ
  pub expected_old_state_root : Commitment

pub record TransferCommand : Type 0 where
  pub transfer_id : Identifier
  pub sender : PrivateAccountId
  pub receiver : PrivateAccountId
  pub asset : AssetId
  pub amount : ℕ
  pub expected_old_state_root : Commitment

pub record TransferTransition : Type 0 where
  pub new_state_root : Commitment
  pub sender_data_id : DataId
  pub receiver_data_id : DataId
  pub transcript_root : Commitment
  pub sender_version : ℕ
  pub receiver_version : ℕ

pub record StateTransition : Type 0 where
  pub new_state_root : Commitment
  pub encrypted_balance_data_id : DataId
  pub transcript_root : Commitment
  pub version : ℕ

pub record EncryptedBalanceView : Type 0 where
  pub data_id : DataId
  pub ciphertext : Bytes
  pub state_root : Commitment
  pub version : ℕ

pub record BalanceRecord : Type 0 where
  pub ciphertext : FheAmount
  pub data_id : DataId
  pub version : ℕ

abbrev pub BalanceKey : Type 0
BalanceKey = PrivateAccountId × AssetId

-- `poisoned` is the mutex's flag: a thread panicked while it held the lock.
pub record RuntimeState : Type 0 where
  pub state_root : Commitment
  pub balances : Dict BalanceKey BalanceRecord
  pub processed_deposits : List Identifier
  pub spent_nullifiers : List Identifier
  pub processed_transfers : List Identifier
  pub poisoned : Bool

abbrev pub Step : Type 0 → Type 0
Step A = Action RuntimeError RuntimeState A

-- `RuntimeState::default`
abbrev pub new_state : RuntimeState
new_state = record {
  state_root = 0;
  balances = [];
  processed_deposits = [];
  spent_nullifiers = [];
  processed_transfers = [];
  poisoned = Bool.false;
}

-- `self.state.lock().map_err(..)?`
abbrev pub lock : Step (Unit {0})
lock s = fail_if s.poisoned state_unavailable s

-- `u64` addition of one, which wraps in a release build.
abbrev pub next_version : ℕ → ℕ
next_version version = (version + 1) % u64_mod

-- `?` on a backend's result
abbrev pub or_backend_error : {A : Type 0} → Result BackendError A → Result RuntimeError A
or_backend_error r = map_err from_backend_error r

module _ (B : ConfidentialBackend) where
  unfoldable pub next_record :
      Commitment
      → PrivateAccountId
      → AssetId
      → FheAmount
      → ℕ
      → BalanceRecord × Commitment × Commitment
  next_record old_root account asset ciphertext version =
      let version_bytes = to_be_bytes 8 version in
      let new_root = B.commit (text_bytes "PPSC_RUNTIME_STATE_V1") (
        id_as_bytes old_root
        ∷ id_as_bytes account
        ∷ to_be_bytes 20 asset
        ∷ ciphertext
        ∷ version_bytes
        ∷ []) in
      let data_id =
        B.commit (text_bytes "PPSC_BALANCE_DATA_V1")
          (id_as_bytes account ∷ to_be_bytes 20 asset ∷ ciphertext ∷ version_bytes ∷ []) in
      let transcript =
        B.commit (text_bytes "PPSC_RUNTIME_TRANSCRIPT_V1")
          (id_as_bytes old_root ∷ id_as_bytes new_root ∷ id_as_bytes data_id ∷ []) in
      (
        record { ciphertext = ciphertext; data_id = data_id; version = version },
        new_root,
        transcript,
      )
