-- ===== src/PrivateTransfer/Fixture.antt =====
-- `Fixture` of crates/runtime/src/private_transfer.rs: one request, a map of ciphertexts and the
-- last output, each behind a mutex of its own.
use ppsc.Base.{
  ◌≡◌, refl, Bool, not, Option, none, some, ◌==◌, if◌then◌else◌, Result, err, ok_or, Action, pure,
  gets, modify, fail_if, ◌>>=◌, ◌>>◌, nat_eq,
}
use ppsc.Base.BTree.{BTree}
use ppsc.Base.BTree
use ppsc.Base.Bytes.{Bytes}
use ppsc.Core.{DataId, Commitment}
use ppsc.Ledger.State.{RuntimeError, state_unavailable, balance_not_found, corrupt_persistence}
use ppsc.PrivateTransfer.{PrivateTransferRequest, ConfidentialTransferOutput, TransferServices}

pub record StoredOutput : Type 0 where
  pub stored_data_id : DataId
  pub stored_sender : Bytes
  pub stored_receiver : Bytes
  pub stored_root : Commitment

pub record Fixture : Type 0 where
  pub request : Option PrivateTransferRequest
  pub values : BTree Bytes
  pub output : Option StoredOutput
  pub request_poisoned : Bool
  pub values_poisoned : Bool
  pub output_poisoned : Bool

unfoldable pub take_request : Action RuntimeError Fixture (Option PrivateTransferRequest)
take_request = do
  fail_if (← gets (λ f. f.request_poisoned)) state_unavailable
  taken ← gets (λ f. f.request)
  modify (λ f. record f { request = none })
  pure taken

unfoldable pub stored_ciphertext : DataId → Fixture → Result RuntimeError Bytes
stored_ciphertext data_id f =
    if f.values_poisoned
    then err state_unavailable
    else ok_or (BTree.lookup data_id f.values) balance_not_found

unfoldable pub keep_output : ConfidentialTransferOutput → Action RuntimeError Fixture (Unit {0})
keep_output output = do
  fail_if (← gets (λ f. f.output_poisoned)) state_unavailable
  modify (λ f. record f {
    output = some (record {
      stored_data_id = output.output_data_id;
      stored_sender = output.sender_ciphertext;
      stored_receiver = output.receiver_ciphertext;
      stored_root = output.new_state_root;
    });
  })

unfoldable pub accept_output : ConfidentialTransferOutput → Action RuntimeError Fixture (Unit {0})
accept_output output =
    fail_if (not (output.output_commitment == output.output_data_id)) corrupt_persistence

unfoldable pub fixture_services : TransferServices Fixture
unfolding take_request stored_ciphertext keep_output accept_output
fixture_services = record {
  next_private_transfer = take_request;
  load_ciphertext = λ data_id f. (stored_ciphertext data_id f, f);
  store_transfer_output = keep_output;
  submit_transfer_result = accept_output;
}

pub fixture_loads :
    (data_id : DataId) (f : Fixture)
    → fixture_services.load_ciphertext data_id f ≡ (stored_ciphertext data_id f, f)
unfolding fixture_services
fixture_loads data_id f = refl
