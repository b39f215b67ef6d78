-- ===== src/PrivateTransfer/Tests.antt =====
-- The fixture of the tests of crates/runtime/src/private_transfer.rs: a balance of 100 above the
-- minimum of 50 pays 30 to a balance of 20.
use ppsc.Base.{
  ℕ, ◌≡◌, refl, ◌⊎◌, true, false, Option, none, some, [], ◌∷◌, arith, ok, err, map_ok, pure, ◌>>◌,
}
use ppsc.Base.Bytes.{Bytes}
use ppsc.Backend.Plaintext.{encode_ciphertext, plaintext_backend}
use ppsc.Ledger.State.{RuntimeError, insufficient_balance}
use ppsc.PrivateTransfer.{
  PrivateTransferRequest, ConfidentialTransferOutput, evaluate_transfer, settle_request,
  poll_transfer,
}
use ppsc.PrivateTransfer.Settlement.{
  transferred_balances, balances_output, evaluate_transfer_moves, settles_or_leaves,
  poll_transfer_settles,
}
use ppsc.PrivateTransfer.Fixture.{
  Fixture, fixture_services, fixture_loads, stored_ciphertext, take_request,
}
use ppsc.PrivateTransfer.Completion.{balances_record, queued_transfer_completes}

abbrev test_request : PrivateTransferRequest
test_request = record {
  execution_id = 6;
  old_state_root = 5;
  sender_variable_address = 7;
  receiver_variable_address = 8;
  sender_account = 10;
  receiver_account = 11;
  asset = 12;
  sender_balance_data_id = 1;
  receiver_balance_data_id = 2;
  minimum_balance_data_id = 3;
  amount_data_id = 4;
}

abbrev test_fixture : Option PrivateTransferRequest → ℕ → Fixture
test_fixture request amount = record {
  request = request;
  values =
      (1, encode_ciphertext 100)
      ∷ (2, encode_ciphertext 20)
      ∷ (3, encode_ciphertext 50)
      ∷ (4, encode_ciphertext amount)
      ∷ [];
  output = none;
  request_poisoned = false;
  values_poisoned = false;
  output_poisoned = false;
}

transfer_moves_test : transferred_balances 100 20 50 30 ≡ ok (70, 50)
unfolding transferred_balances
transfer_moves_test = refl

below_minimum_test : transferred_balances 50 20 50 30 ≡ ok (50, 20)
unfolding transferred_balances
below_minimum_test = refl

evaluate_transfer_moves_example :
    evaluate_transfer plaintext_backend test_request
      (encode_ciphertext 100)
      (encode_ciphertext 20)
      (encode_ciphertext 50)
      (encode_ciphertext 30)
    ≡ map_ok (balances_output test_request) (transferred_balances 100 20 50 30)
evaluate_transfer_moves_example =
    evaluate_transfer_moves test_request 100 20 50 30 (omega arith) (omega arith) (omega arith)
      (omega arith)

-- An amount that the sender does not have fails the poll, which leaves the fixture without its
-- request.
poll_transfer_settles_example :
    poll_transfer fixture_services plaintext_backend (test_fixture (some test_request) 130)
    ≡ (err insufficient_balance, test_fixture none 130)
unfolding fixture_services stored_ciphertext take_request transferred_balances
poll_transfer_settles_example =
    poll_transfer_settles fixture_services plaintext_backend stored_ciphertext fixture_loads
      test_request (test_fixture (some test_request) 130) (test_fixture none 130) 100 20 50 130
      (omega arith) (omega arith) (omega arith) (omega arith) refl refl refl refl refl

settles_or_leaves_example :
    ((e : RuntimeError) × (settle_request fixture_services plaintext_backend test_request
          (test_fixture none 30)
        ≡ (err e, test_fixture none 30)))
    ⊎ ((sender receiver minimum amount : Bytes) × (output : ConfidentialTransferOutput)
        × (stored_ciphertext 1 (test_fixture none 30) ≡ ok sender)
        × (stored_ciphertext 2 (test_fixture none 30) ≡ ok receiver)
        × (stored_ciphertext 3 (test_fixture none 30) ≡ ok minimum)
        × (stored_ciphertext 4 (test_fixture none 30) ≡ ok amount)
        × (evaluate_transfer plaintext_backend test_request sender receiver minimum amount
            ≡ ok output)
        × (settle_request fixture_services plaintext_backend test_request (test_fixture none 30)
            ≡ (fixture_services.store_transfer_output output
                  >> (fixture_services.submit_transfer_result output >> pure true))
                (test_fixture none 30)))
settles_or_leaves_example =
    settles_or_leaves fixture_services plaintext_backend stored_ciphertext fixture_loads
      test_request (test_fixture none 30)

queued_transfer_completes_example :
    (poll_transfer fixture_services plaintext_backend (test_fixture (some test_request) 30) ≡ (
      ok true,
      record (test_fixture none 30) { output = some (balances_record test_request (70, 50)) },
    ))
    × (poll_transfer fixture_services plaintext_backend
          (record (test_fixture none 30) { output = some (balances_record test_request (70, 50)) })
        ≡ (
          ok false,
          record (test_fixture none 30) { output = some (balances_record test_request (70, 50)) },
        ))
unfolding transferred_balances
queued_transfer_completes_example =
    queued_transfer_completes test_request (test_fixture none 30).values none 100 20 50 30
      (omega arith) (omega arith) (omega arith) (omega arith) refl refl refl refl
