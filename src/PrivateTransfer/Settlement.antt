-- ===== src/PrivateTransfer/Settlement.antt =====
-- What `evaluate` of crates/runtime/src/private_transfer.rs does to balances, and what the executor
-- stores and submits.
use ppsc.Base.{
  ℕ, ◌+◌, ◌-◌, ◌<◌, ◌≡◌, refl, ◌⊎◌, inl, inr, true, some, arith, ltb, leb, if◌then◌else◌, ltb→lt,
  Bool-cases, Result, ok, err, map_ok, Result-cases, pure, after, ◌>>◌,
}
use ppsc.Base.Bytes.{Bytes, u128_mod}
use ppsc.Core.{DataId}
use ppsc.Backend.{ConfidentialBackend, overflow}
use ppsc.Backend.Plaintext.{
  encode_secret, encode_ciphertext, fhe_to_mpc, mpc_to_fhe, plaintext_backend,
}
use ppsc.Backend.Plaintext.Laws.{
  decode_secret-encode_secret, decode_ciphertext-encode_ciphertext, conditional_transfer_moves,
}
use ppsc.Ledger.State.{RuntimeError, insufficient_balance}
use ppsc.PrivateTransfer.{
  PrivateTransferRequest, ConfidentialTransferOutput, TransferServices, transfer_output,
  encrypted_output, evaluate_transfer, settle_request, poll_transfer,
}

-- The two balances after a private transfer, the sender's first.
unfoldable pub transferred_balances : ℕ → ℕ → ℕ → ℕ → Result RuntimeError (ℕ × ℕ)
transferred_balances sender receiver minimum amount =
    if leb sender minimum
    then ok (sender, receiver)
    else if ltb sender amount
    then err insufficient_balance
    else if ltb (receiver + amount) u128_mod
    then ok (sender - amount, receiver + amount)
    else err (RuntimeError.backend overflow)

-- The output that carries two balances as ciphertexts of the plaintext backend.
unfoldable pub balances_output : PrivateTransferRequest → ℕ × ℕ → ConfidentialTransferOutput
balances_output request (sender, receiver) =
    transfer_output plaintext_backend request (encode_ciphertext sender)
      (encode_ciphertext receiver)

fhe_to_mpc-encode_ciphertext :
    (a : ℕ) → a < u128_mod → fhe_to_mpc (encode_ciphertext a) ≡ ok (encode_secret a)
unfolding fhe_to_mpc
fhe_to_mpc-encode_ciphertext a h = rw (decode_ciphertext-encode_ciphertext a h) refl

encrypted_output-encode_secret :
    (request : PrivateTransferRequest) (a b : ℕ)
    → a < u128_mod
    → b < u128_mod
    → encrypted_output plaintext_backend request (encode_secret a, encode_secret b)
      ≡ ok (balances_output request (a, b))
unfolding encrypted_output balances_output mpc_to_fhe
encrypted_output-encode_secret request a b ha hb =
    rw (decode_secret-encode_secret a ha, decode_secret-encode_secret b hb) refl

module _ (request : PrivateTransferRequest) (sender receiver minimum amount : ℕ)
    (sender_fits : sender < u128_mod) (receiver_fits : receiver < u128_mod)
    (minimum_fits : minimum < u128_mod) (amount_fits : amount < u128_mod) where
  -- On ciphertexts of four amounts below 2 ^ 128 of the plaintext backend, the program's output
  -- carries ciphertexts of the unchanged balances when the sender's is at most the minimum, and
  -- otherwise of the balances with the amount moved from sender to receiver; it fails with an
  -- insufficient balance when the sender has less than the amount and with an overflow when the
  -- receiver's new balance does not fit.
  pub evaluate_transfer_moves :
      evaluate_transfer plaintext_backend request
        (encode_ciphertext sender)
        (encode_ciphertext receiver)
        (encode_ciphertext minimum)
        (encode_ciphertext amount)
      ≡ map_ok (balances_output request) (transferred_balances sender receiver minimum amount)
  unfolding evaluate_transfer transferred_balances
  evaluate_transfer_moves =
      rw
        (
          fhe_to_mpc-encode_ciphertext sender sender_fits,
          fhe_to_mpc-encode_ciphertext receiver receiver_fits,
          fhe_to_mpc-encode_ciphertext minimum minimum_fits,
          fhe_to_mpc-encode_ciphertext amount amount_fits,
          conditional_transfer_moves sender receiver minimum amount sender_fits receiver_fits
              minimum_fits amount_fits,
        )
        (elim (Bool-cases (leb sender minimum)) [
          | inl kept ↦
              rw kept
                (encrypted_output-encode_secret request sender receiver sender_fits receiver_fits)
          | inr moved ↦ rw moved (elim (Bool-cases (ltb sender amount)) [
            | inl short ↦ rw short refl
            | inr funds ↦ rw funds (elim (Bool-cases (ltb (receiver + amount) u128_mod)) [
              | inl fits ↦ rw fits (
                  encrypted_output-encode_secret request (sender - amount) (receiver + amount)
                    (omega arith) (ltb→lt _ _ fits))
              | inr over ↦ rw over refl
            ])
          ])
        ])

module _ {S : Type 0} (services : TransferServices S) (backend : ConfidentialBackend)
    (loaded : DataId → S → Result RuntimeError Bytes)
    (loads : (data_id : DataId) (s : S)
      → services.load_ciphertext data_id s ≡ (loaded data_id s, s)) where
  -- Where loading a ciphertext does not change the state of the services: the work on a request
  -- either fails and leaves that state as it was, or stores and then submits one output, which
  -- the program computed from the four loaded ciphertexts.
  pub settles_or_leaves :
      (request : PrivateTransferRequest) (s : S)
      → ((e : RuntimeError) × (settle_request services backend request s ≡ (err e, s)))
        ⊎ ((sender receiver minimum amount : Bytes) × (output : ConfidentialTransferOutput)
            × (loaded request.sender_balance_data_id s ≡ ok sender)
            × (loaded request.receiver_balance_data_id s ≡ ok receiver)
            × (loaded request.minimum_balance_data_id s ≡ ok minimum)
            × (loaded request.amount_data_id s ≡ ok amount)
            × (evaluate_transfer backend request sender receiver minimum amount ≡ ok output)
            × (settle_request services backend request s
                ≡ (services.store_transfer_output output
                      >> (services.submit_transfer_result output >> pure true))
                    s))
  unfolding settle_request
  settles_or_leaves request s = elim (Result-cases (loaded request.sender_balance_data_id s)) [
    | inr (e, h) ↦ inl (e, rw (loads, h) refl)
    | inl (sender, h1) ↦ elim (Result-cases (loaded request.receiver_balance_data_id s)) [
      | inr (e, h) ↦ inl (e, rw (loads, h1, loads, h) refl)
      | inl (receiver, h2) ↦ elim (Result-cases (loaded request.minimum_balance_data_id s)) [
        | inr (e, h) ↦ inl (e, rw (loads, h1, loads, h2, loads, h) refl)
        | inl (minimum, h3) ↦ elim (Result-cases (loaded request.amount_data_id s)) [
          | inr (e, h) ↦ inl (e, rw (loads, h1, loads, h2, loads, h3, loads, h) refl)
          | inl (amount, h4) ↦
              elim (Result-cases
                (evaluate_transfer backend request sender receiver minimum amount)) [
                  | inr (e, h) ↦ inl (e, rw (loads, h1, loads, h2, loads, h3, loads, h4, h) refl)
                  | inl (output, h5) ↦ inr (
                    sender,
                    receiver,
                    minimum,
                    amount,
                    output,
                    h1,
                    h2,
                    h3,
                    h4,
                    h5,
                    rw (loads, h1, loads, h2, loads, h3, loads, h4, h5) refl,
                  )
                ]
        ]
      ]
    ]
  ]

  module _ (request : PrivateTransferRequest) (before s : S) (sender receiver minimum amount : ℕ)
      (sender_fits : sender < u128_mod) (receiver_fits : receiver < u128_mod)
      (minimum_fits : minimum < u128_mod) (amount_fits : amount < u128_mod) where
    -- Where loading a ciphertext does not change the state of the services: a poll of the
    -- plaintext backend that takes a request, whose four data ids hold ciphertexts of amounts
    -- below 2 ^ 128, stores and then submits the output for the balances of the specified
    -- transfer, or returns its error and does neither.
    pub poll_transfer_settles :
        services.next_private_transfer before ≡ (ok (some request), s)
        → loaded request.sender_balance_data_id s ≡ ok (encode_ciphertext sender)
        → loaded request.receiver_balance_data_id s ≡ ok (encode_ciphertext receiver)
        → loaded request.minimum_balance_data_id s ≡ ok (encode_ciphertext minimum)
        → loaded request.amount_data_id s ≡ ok (encode_ciphertext amount)
        → poll_transfer services plaintext_backend before
          ≡ after
              (
                map_ok
                    (balances_output request)
                    (transferred_balances sender receiver minimum amount),
                s,
              )
              (λ output.
                services.store_transfer_output output
                >> (services.submit_transfer_result output >> pure true))
    unfolding poll_transfer settle_request
    poll_transfer_settles next h1 h2 h3 h4 =
        rw
          (
            next,
            loads,
            h1,
            loads,
            h2,
            loads,
            h3,
            loads,
            h4,
            evaluate_transfer_moves request sender receiver minimum amount sender_fits receiver_fits
                minimum_fits amount_fits,
          )
          refl
