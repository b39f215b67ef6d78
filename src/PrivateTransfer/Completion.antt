-- ===== src/PrivateTransfer/Completion.antt =====
-- A queued request of the fixture of crates/runtime/src/private_transfer.rs from its first poll to
-- the next.
use ppsc.Base.{
  ℕ, ◌<◌, ◌≡◌, refl, ap, ◌∙◌, true, false, Option, none, some, ==_refl, Result, ok, err, map_ok,
  after, pure, ◌>>◌,
}
use ppsc.Base.BTree.{BTree}
use ppsc.Base.BTree
use ppsc.Base.Bytes.{Bytes, u128_mod}
use ppsc.Core.{DataId, id_from_bytes-id_as_bytes}
use ppsc.Backend.Plaintext.{encode_ciphertext, plaintext_backend}
use ppsc.Backend.Plaintext.Digest.{commit_bound}
use ppsc.Ledger.State.{RuntimeError}
use ppsc.PrivateTransfer.{PrivateTransferRequest, transfer_output, poll_transfer}
use ppsc.PrivateTransfer.Settlement.{transferred_balances, balances_output, poll_transfer_settles}
use ppsc.PrivateTransfer.Fixture.{
  Fixture, StoredOutput, fixture_services, fixture_loads, take_request, keep_output, accept_output,
  stored_ciphertext,
}

-- A fixture of which no mutex is poisoned.
abbrev pub healthy : Option PrivateTransferRequest → BTree Bytes → Option StoredOutput → Fixture
healthy request values output = record {
  request = request;
  values = values;
  output = output;
  request_poisoned = false;
  values_poisoned = false;
  output_poisoned = false;
}

-- The record of two new balances: their ciphertexts, under the commitment to the output as the data
-- id, with the new state root.
abbrev pub balances_record : PrivateTransferRequest → ℕ × ℕ → StoredOutput
balances_record request (sender, receiver) = record {
  stored_data_id = (balances_output request (sender, receiver)).output_commitment;
  stored_sender = encode_ciphertext sender;
  stored_receiver = encode_ciphertext receiver;
  stored_root = (balances_output request (sender, receiver)).new_state_root;
}

-- The output of the fixture after a request with a specified result: the record of the new
-- balances, or the one before where the transfer fails.
abbrev pub output_after :
    PrivateTransferRequest → Option StoredOutput → Result RuntimeError (ℕ × ℕ) → Option StoredOutput
output_after request output (ok balances) = some (balances_record request balances)
output_after request output (err e) = output

output_id :
    (request : PrivateTransferRequest) (balances : ℕ × ℕ)
    → (balances_output request balances).output_data_id
      ≡ (balances_output request balances).output_commitment
unfolding balances_output transfer_output
output_id request (sender, receiver) = id_from_bytes-id_as_bytes _ (commit_bound _ _)

module _ (request : PrivateTransferRequest) (values : BTree Bytes)
    (output : Option StoredOutput) where
  taken :
      fixture_services.next_private_transfer (healthy (some request) values output)
      ≡ (ok (some request), healthy none values output)
  unfolding fixture_services take_request
  taken = refl

  found :
      (data_id : DataId) {ciphertext : Bytes}
      → BTree.lookup data_id values ≡ some ciphertext
      → stored_ciphertext data_id (healthy none values output) ≡ ok ciphertext
  unfolding stored_ciphertext
  found data_id h = rw h refl

  idle_poll :
      (last : Option StoredOutput)
      → poll_transfer fixture_services plaintext_backend (healthy none values last)
        ≡ (ok false, healthy none values last)
  unfolding poll_transfer fixture_services take_request
  idle_poll last = refl

  -- The fixture with the output of two balances stored.
  abbrev stored_output : ℕ × ℕ → Fixture
  stored_output balances = healthy none values (some (balances_record request balances))

  submit_accepts :
      (balances : ℕ × ℕ) (f : Fixture)
      → fixture_services.submit_transfer_result (balances_output request balances) f ≡ (ok tt, f)
  unfolding fixture_services accept_output
  submit_accepts balances f =
      rw (output_id request balances, ==_refl (balances_output request balances).output_commitment)
        refl

  store_keeps :
      (balances : ℕ × ℕ)
      → fixture_services.store_transfer_output
          (balances_output request balances)
          (healthy none values output)
        ≡ (ok tt, stored_output balances)
  unfolding fixture_services keep_output balances_output transfer_output
  store_keeps (sender, receiver) =
      ap
        (λ id. (
          ok tt,
          healthy none values (
              some (record {
                stored_data_id = id;
                stored_sender = encode_ciphertext sender;
                stored_receiver = encode_ciphertext receiver;
                stored_root = (balances_output request (sender, receiver)).new_state_root;
              })),
        ))
        (output_id request (sender, receiver))

  after_transfer :
      (result : Result RuntimeError (ℕ × ℕ))
      → after
          (map_ok (balances_output request) result, healthy none values output)
          (λ o.
            fixture_services.store_transfer_output o
            >> (fixture_services.submit_transfer_result o >> pure true))
        ≡ (map_ok (λ _. true) result, healthy none values (output_after request output result))
  after_transfer (err e) = refl
  after_transfer (ok balances) =
      rw (store_keeps balances, submit_accepts balances (stored_output balances)) refl

  module _ (sender receiver minimum amount : ℕ) (sender_fits : sender < u128_mod)
      (receiver_fits : receiver < u128_mod) (minimum_fits : minimum < u128_mod)
      (amount_fits : amount < u128_mod) where
    -- On a fixture of which no mutex is poisoned, with a queued request whose four data ids hold
    -- ciphertexts of amounts below 2 ^ 128 of the plaintext backend: the first poll returns what
    -- the specified transfer does, true or its error. It leaves no request, the values as they
    -- were, and as output the ciphertexts of the two new balances, stored under the commitment to
    -- them with the new state root, or the output from before where the transfer fails. The next
    -- poll returns false and changes nothing.
    pub queued_transfer_completes :
        BTree.lookup request.sender_balance_data_id values ≡ some (encode_ciphertext sender)
        → BTree.lookup request.receiver_balance_data_id values ≡ some (encode_ciphertext receiver)
        → BTree.lookup request.minimum_balance_data_id values ≡ some (encode_ciphertext minimum)
        → BTree.lookup request.amount_data_id values ≡ some (encode_ciphertext amount)
        → let result = transferred_balances sender receiver minimum amount in
          let left = healthy none values (output_after request output result) in
          (poll_transfer fixture_services plaintext_backend (healthy (some request) values output)
            ≡ (map_ok (λ _. true) result, left))
          × (poll_transfer fixture_services plaintext_backend left ≡ (ok false, left))
    queued_transfer_completes from to least moved =
        let result = transferred_balances sender receiver minimum amount in
        (
          poll_transfer_settles fixture_services plaintext_backend stored_ciphertext fixture_loads
                request (healthy (some request) values output) (healthy none values output) sender
                receiver minimum amount sender_fits receiver_fits minimum_fits amount_fits taken
                (found _ from) (found _ to) (found _ least) (found _ moved)
              ∙ after_transfer result,
          idle_poll (output_after request output result),
        )
