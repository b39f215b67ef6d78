-- ===== src/PrivateTransfer.antt =====
-- crates/runtime/src/private_transfer.rs: the program that moves a hidden amount between two
-- hidden balances, and the executor that runs it for the next request of an event source.
pub mod Settlement
pub mod Fixture
pub mod Completion
pub mod Tests
use ppsc.Base.{
  Bool, true, false, Option, none, some, List, [], ◌∷◌, Result, ok, and_then, map_err, Action, pure,
  lift, ◌>>=◌, ◌>>◌,
}
use ppsc.Base.Bytes.{Bytes, to_be_bytes, text_bytes}
use ppsc.Core.{Identifier, Commitment, DataId, ExecutionId, id_as_bytes, id_from_bytes}
use ppsc.Backend.{ConfidentialBackend, PrivateAccountId, AssetId, MpcAmount, FheAmount}
use ppsc.Ledger.State.{RuntimeError, from_backend_error}

pub record PrivateTransferRequest : Type 0 where
  pub execution_id : ExecutionId
  pub old_state_root : Commitment
  pub sender_variable_address : Identifier
  pub receiver_variable_address : Identifier
  pub sender_account : PrivateAccountId
  pub receiver_account : PrivateAccountId
  pub asset : AssetId
  pub sender_balance_data_id : DataId
  pub receiver_balance_data_id : DataId
  pub minimum_balance_data_id : DataId
  pub amount_data_id : DataId

pub record ConfidentialTransferOutput : Type 0 where
  pub execution_id : ExecutionId
  pub output_data_id : DataId
  pub sender_ciphertext : Bytes
  pub receiver_ciphertext : Bytes
  pub output_commitment : Commitment
  pub new_state_root : Commitment
  pub transcript_root : Commitment
  pub sender_variable_address : Identifier
  pub receiver_variable_address : Identifier

-- `PrivateTransferEventSource`, `ConfidentialValueStore` and `PrivateTransferResultSink` over one
-- state.
pub record TransferServices (S : Type 0) : Type 0 where
  pub next_private_transfer : Action RuntimeError S (Option PrivateTransferRequest)
  pub load_ciphertext : DataId → Action RuntimeError S Bytes
  pub store_transfer_output : ConfidentialTransferOutput → Action RuntimeError S (Unit {0})
  pub submit_transfer_result : ConfidentialTransferOutput → Action RuntimeError S (Unit {0})

-- The output for the two new ciphertexts, with its three commitments.
unfoldable pub transfer_output :
    ConfidentialBackend
    → PrivateTransferRequest
    → FheAmount
    → FheAmount
    → ConfidentialTransferOutput
transfer_output backend request next_sender next_receiver =
    let output_commitment = backend.commit (text_bytes "PPSC_PRIVATE_TRANSFER_OUTPUT_V1") (
      id_as_bytes request.execution_id
      ∷ id_as_bytes request.sender_variable_address
      ∷ id_as_bytes request.receiver_variable_address
      ∷ id_as_bytes request.sender_balance_data_id
      ∷ id_as_bytes request.receiver_balance_data_id
      ∷ id_as_bytes request.minimum_balance_data_id
      ∷ id_as_bytes request.amount_data_id
      ∷ next_sender
      ∷ next_receiver
      ∷ []) in
    let new_state_root = backend.commit (text_bytes "PPSC_PRIVATE_TRANSFER_STATE_V1") (
      id_as_bytes request.old_state_root
      ∷ id_as_bytes output_commitment
      ∷ id_as_bytes request.sender_account
      ∷ id_as_bytes request.receiver_account
      ∷ to_be_bytes 20 request.asset
      ∷ []) in
    let transcript_root = backend.commit (text_bytes "PPSC_PRIVATE_TRANSFER_TRANSCRIPT_V1") (
      id_as_bytes request.execution_id
      ∷ id_as_bytes request.old_state_root
      ∷ id_as_bytes new_state_root
      ∷ text_bytes "C2S->MPC(gt,conditional_sub_add)->S2C"
      ∷ []) in
    record {
      execution_id = request.execution_id;
      output_data_id = id_from_bytes (id_as_bytes output_commitment);
      sender_ciphertext = next_sender;
      receiver_ciphertext = next_receiver;
      output_commitment = output_commitment;
      new_state_root = new_state_root;
      transcript_root = transcript_root;
      sender_variable_address = request.sender_variable_address;
      receiver_variable_address = request.receiver_variable_address;
    }

-- The two new balances, back as ciphertexts of their accounts.
unfoldable pub encrypted_output :
    ConfidentialBackend
    → PrivateTransferRequest
    → MpcAmount × MpcAmount
    → Result RuntimeError ConfidentialTransferOutput
unfolding transfer_output
encrypted_output backend request (next_sender, next_receiver) =
    and_then
      (map_err from_backend_error
        (backend.mpc_to_fhe next_sender request.sender_account request.asset))
      λ sender_ciphertext.
        and_then
          (map_err from_backend_error
            (backend.mpc_to_fhe next_receiver request.receiver_account request.asset))
          λ receiver_ciphertext.
            ok (transfer_output backend request sender_ciphertext receiver_ciphertext)

-- `PrivateTransferProgram::evaluate`
unfoldable pub evaluate_transfer :
    ConfidentialBackend
    → PrivateTransferRequest
    → Bytes
    → Bytes
    → Bytes
    → Bytes
    → Result RuntimeError ConfidentialTransferOutput
unfolding encrypted_output
evaluate_transfer backend request sender_ciphertext receiver_ciphertext minimum_ciphertext
      amount_ciphertext =
    and_then (map_err from_backend_error (backend.fhe_to_mpc sender_ciphertext)) λ sender.
      and_then (map_err from_backend_error (backend.fhe_to_mpc receiver_ciphertext)) λ receiver.
        and_then (map_err from_backend_error (backend.fhe_to_mpc minimum_ciphertext)) λ minimum.
          and_then (map_err from_backend_error (backend.fhe_to_mpc amount_ciphertext)) λ amount.
            and_then
              (map_err from_backend_error
                (backend.conditional_transfer_strictly_greater sender receiver minimum amount))
              (encrypted_output backend request)

module _ {S : Type 0} (services : TransferServices S) (backend : ConfidentialBackend) where
  -- The executor's work on one request.
  unfoldable pub settle_request : PrivateTransferRequest → Action RuntimeError S Bool
  settle_request request = do
    sender ← services.load_ciphertext request.sender_balance_data_id
    receiver ← services.load_ciphertext request.receiver_balance_data_id
    minimum ← services.load_ciphertext request.minimum_balance_data_id
    amount ← services.load_ciphertext request.amount_data_id
    output ← lift (evaluate_transfer backend request sender receiver minimum amount)
    services.store_transfer_output output
    services.submit_transfer_result output
    pure true

  -- `PrivateTransferExecutor::poll_once`
  unfoldable pub poll_transfer : Action RuntimeError S Bool
  unfolding settle_request
  poll_transfer = do
    event ← services.next_private_transfer
    elim event [ none ↦ pure false | some request ↦ settle_request request ]
