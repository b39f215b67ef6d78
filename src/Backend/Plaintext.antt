-- ===== src/Backend/Plaintext.antt =====
-- `PlaintextBackend` of crates/runtime/src/lib.rs: amounts as tagged bytes.
pub mod Laws
pub mod Digest
use Prim.Native.Nat.{bit_xor}
use mathlib.Core.List.{foldl, flatten}
use ppsc.Base.{
  ℕ, ◌+◌, ◌-◌, ◌*◌, ◌%◌, Bool, ◌||◌, not, List, [], ◌∷◌, ◌++◌, map, String, Result, ok, err,
  and_then, map_ok, ltb, leb, ◌==◌, if◌then◌else◌, length, drop, Option, none, some, ok_or,
}
use ppsc.Base.Bytes.{
  Bytes, u128_mod, u64_mod, to_be_bytes, from_be_bytes, bytes_beq, starts_with, text_bytes,
}
use ppsc.Core.{Commitment, id_from_bytes}
use ppsc.Backend.{
  MpcAmount, FheAmount, PrivateAccountId, AssetId, BackendError, ConfidentialBackend,
  invalid_encoding, invalid_ciphertext, unauthorized, overflow, insufficient_balance,
}

abbrev pub dev_fhe_prefix : Bytes
dev_fhe_prefix = text_bytes "PPSC_DEV_PLAINTEXT_FHE_V1"

abbrev pub dev_authorization : Bytes
dev_authorization = text_bytes "dev-authorized"

-- `decode_u128`
decode_u128 : Bytes → Result BackendError ℕ
decode_u128 bytes = if length bytes == 16 then ok (from_be_bytes bytes) else err invalid_encoding

unfoldable pub encode_secret : ℕ → MpcAmount
encode_secret amount = to_be_bytes 16 amount

unfoldable pub decode_secret : MpcAmount → Result BackendError ℕ
unfolding decode_u128
decode_secret value = decode_u128 value

unfoldable pub encode_ciphertext : ℕ → FheAmount
encode_ciphertext amount = dev_fhe_prefix ++ to_be_bytes 16 amount

unfoldable pub decode_ciphertext : FheAmount → Result BackendError ℕ
unfolding decode_u128
decode_ciphertext bytes =
    if not (length bytes == length dev_fhe_prefix + 16) || not (starts_with bytes dev_fhe_prefix)
    then err invalid_ciphertext
    else decode_u128 (drop (length dev_fhe_prefix) bytes)

-- `u128::checked_add` and `u128::checked_sub`
abbrev pub checked_add_u128 : ℕ → ℕ → Option ℕ
checked_add_u128 a b = if ltb (a + b) u128_mod then some (a + b) else none

abbrev pub checked_sub_u128 : ℕ → ℕ → Option ℕ
checked_sub_u128 a b = if ltb a b then none else some (a - b)

unfoldable pub checked_add : MpcAmount → MpcAmount → Result BackendError MpcAmount
unfolding decode_secret encode_secret
checked_add left right = and_then (decode_secret left) λ a.
    and_then (decode_secret right) λ b. map_ok encode_secret (ok_or (checked_add_u128 a b) overflow)

unfoldable pub checked_sub : MpcAmount → MpcAmount → Result BackendError MpcAmount
unfolding decode_secret encode_secret
checked_sub left right = and_then (decode_secret left) λ a.
    and_then (decode_secret right)
      λ b. map_ok encode_secret (ok_or (checked_sub_u128 a b) insufficient_balance)

unfoldable pub greater_than_or_equal : MpcAmount → MpcAmount → Result BackendError Bool
unfolding decode_secret
greater_than_or_equal left right =
    and_then (decode_secret left) λ a. and_then (decode_secret right) λ b. ok (leb b a)

-- The transfer on decoded amounts: nothing moves unless the sender holds more than the minimum.
unfoldable pub transfer_values : ℕ → ℕ → ℕ → ℕ → Result BackendError (MpcAmount × MpcAmount)
transfer_values sender receiver minimum amount =
    if leb sender minimum
    then ok (encode_secret sender, encode_secret receiver)
    else and_then (ok_or (checked_sub_u128 sender amount) insufficient_balance) λ next_sender.
      and_then (ok_or (checked_add_u128 receiver amount) overflow)
        λ next_receiver. ok (encode_secret next_sender, encode_secret next_receiver)

unfoldable pub conditional_transfer_strictly_greater :
    MpcAmount → MpcAmount → MpcAmount → MpcAmount → Result BackendError (MpcAmount × MpcAmount)
unfolding transfer_values decode_secret
conditional_transfer_strictly_greater sender receiver minimum amount =
    and_then (decode_secret sender) λ s. and_then (decode_secret receiver) λ r.
      and_then (decode_secret minimum)
        λ m. and_then (decode_secret amount) λ a. transfer_values s r m a

unfoldable pub decrypt_for_owner : FheAmount → PrivateAccountId → Bytes → Result BackendError ℕ
unfolding decode_ciphertext
decrypt_for_owner ciphertext _ authorization =
    if not (bytes_beq authorization dev_authorization)
    then err unauthorized
    else decode_ciphertext ciphertext

unfoldable pub fhe_to_mpc : FheAmount → Result BackendError MpcAmount
unfolding encode_secret decode_ciphertext
fhe_to_mpc ciphertext = map_ok encode_secret (decode_ciphertext ciphertext)

unfoldable pub mpc_to_fhe : MpcAmount → PrivateAccountId → AssetId → Result BackendError FheAmount
unfolding encode_ciphertext decode_secret
mpc_to_fhe value _ _ = map_ok encode_ciphertext (decode_secret value)

-- One round of the development digest, on a 64-bit state.
abbrev digest_byte : ℕ → ℕ → ℕ
digest_byte state byte = (bit_xor state byte * 0x100000001b3) % u64_mod

unfoldable pub digest_lane : Bytes → ℕ → Bytes
digest_lane input lane = to_be_bytes 8 (foldl digest_byte (bit_xor 0xcbf29ce484222325 lane) input)

unfoldable pub digest : Bytes → List Bytes → Bytes
unfolding digest_lane
digest domain parts =
    let input = domain ++ flatten parts in
    digest_lane input 0 ++ (digest_lane input 1 ++ (digest_lane input 2 ++ digest_lane input 3))

unfoldable pub commit : Bytes → List Bytes → Commitment
unfolding digest id_from_bytes
commit domain parts = id_from_bytes (digest domain parts)

abbrev pub plaintext_backend : ConfidentialBackend
plaintext_backend = record {
  share_amount = λ amount. ok (encode_secret amount);
  checked_add = checked_add;
  checked_sub = checked_sub;
  greater_than_or_equal = greater_than_or_equal;
  conditional_transfer_strictly_greater = conditional_transfer_strictly_greater;
  encrypt_amount = λ amount _ _. ok (encode_ciphertext amount);
  decrypt_for_owner = decrypt_for_owner;
  fhe_to_mpc = fhe_to_mpc;
  mpc_to_fhe = mpc_to_fhe;
  commit = commit;
}
