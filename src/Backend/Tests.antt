-- ===== src/Backend/Tests.antt =====
-- The plaintext backend at concrete amounts.
use ppsc.Base.{◌≡◌, false, arith, ok, err, nat_eq, pair_eq, bytes_eq, string_eq}
use ppsc.Backend.{insufficient_balance, PrivateAccountId, AssetId}
use ppsc.Backend.Plaintext.{
  encode_secret, encode_ciphertext, checked_add, checked_sub, greater_than_or_equal, fhe_to_mpc,
  mpc_to_fhe, conditional_transfer_strictly_greater,
}
use ppsc.Backend.Plaintext.Laws.{plaintext_backend_computes, conditional_transfer_moves}

plaintext_backend_computes_example :
    (fhe_to_mpc (encode_ciphertext 5) ≡ ok (encode_secret 5))
    × ((account : PrivateAccountId) (asset : AssetId)
        → mpc_to_fhe (encode_secret 5) account asset ≡ ok (encode_ciphertext 5))
    × (checked_add (encode_secret 5) (encode_secret 8) ≡ ok (encode_secret 13))
    × (checked_sub (encode_secret 5) (encode_secret 8) ≡ err insufficient_balance)
    × (greater_than_or_equal (encode_secret 5) (encode_secret 8) ≡ ok false)
plaintext_backend_computes_example = plaintext_backend_computes 5 8 (omega arith) (omega arith)

conditional_transfer_moves_example :
    conditional_transfer_strictly_greater
      (encode_secret 50)
      (encode_secret 7)
      (encode_secret 10)
      (encode_secret 20)
    ≡ ok (encode_secret 30, encode_secret 27)
conditional_transfer_moves_example =
    conditional_transfer_moves 50 7 10 20 (omega arith) (omega arith) (omega arith) (omega arith)
