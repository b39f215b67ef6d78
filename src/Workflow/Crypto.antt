-- ===== src/Workflow/Crypto.antt =====
-- `PlaintextWorkflowCrypto`: values as tagged bytes, and `dev_digest`.
use ppsc.Base.{
  ℕ, zero, suc, ◌+◌, ◌||◌, not, List, [], ◌∷◌, ◌++◌, ltb, ◌==◌, if◌then◌else◌, length, is_empty,
  take, drop, Result, ok, err, and_then, map_ok, nat_eq, pair_eq, bytes_eq, string_eq,
}
use ppsc.Core.{NodeId, DataRepresentation, secret_sharing, homomorphic}
use ppsc.Base.Bytes.{Bytes, to_be_bytes, from_be_bytes, text_bytes, starts_with}
use ppsc.Workflow.Types.{
  WorkflowError, invalid_input, invalid_encoding, data_not_found, inconsistent_fragments,
  SecretFragment, WorkflowCryptoBackend,
}
use ppsc.Backend.Plaintext

abbrev pub dev_ss_prefix : Bytes
dev_ss_prefix = text_bytes "PPSC_DEV_SS_V1"

abbrev pub dev_fhe_prefix : Bytes
dev_fhe_prefix = text_bytes "PPSC_DEV_FHE_V1"

unfoldable pub decode_prefixed_u128 : Bytes → Bytes → Result WorkflowError ℕ
decode_prefixed_u128 payload prefix =
    if ltb (length payload) (length prefix + 16) || not (starts_with payload prefix)
    then err invalid_encoding
    else let word = take 16 (drop (length prefix) payload) in
      if length word == 16 then ok (from_be_bytes word) else err invalid_encoding

-- A share's payload: the prefix, the value and the share's index.
unfoldable pub share_payload : ℕ → ℕ → Bytes
share_payload value index = dev_ss_prefix ++ (to_be_bytes 16 value ++ to_be_bytes 8 index)

-- `nodes.iter().enumerate()`, from an index on.
unfoldable pub share_fragments : ℕ → ℕ → List NodeId → List SecretFragment
unfolding share_payload
share_fragments value index [] = []
share_fragments value index (node ∷ nodes) =
    record { node = node; payload = share_payload value index }
    ∷ share_fragments value (index + 1) nodes

unfoldable pub encode_secret_shares : ℕ → List NodeId → Result WorkflowError (List SecretFragment)
unfolding share_fragments
encode_secret_shares value nodes =
    if is_empty nodes then err invalid_input else ok (share_fragments value 0 nodes)

unfoldable pub fhe_payload : ℕ → Bytes
fhe_payload value = dev_fhe_prefix ++ to_be_bytes 16 value

unfoldable pub encode_fhe : ℕ → Result WorkflowError Bytes
unfolding fhe_payload
encode_fhe value = ok (fhe_payload value)

unfoldable pub decode_one : DataRepresentation → Bytes → Result WorkflowError ℕ
unfolding decode_prefixed_u128
decode_one secret_sharing payload = decode_prefixed_u128 payload dev_ss_prefix
decode_one homomorphic payload = decode_prefixed_u128 payload dev_fhe_prefix

-- The loop over the later payloads: all decode to the value of the first.
unfoldable pub check_rest : DataRepresentation → ℕ → List Bytes → Result WorkflowError ℕ
unfolding decode_one
check_rest representation value [] = ok value
check_rest representation value (payload ∷ payloads) =
    let rest = check_rest representation value payloads in
    and_then (decode_one representation payload)
      λ other. if not (other == value) then err inconsistent_fragments else rest

unfoldable pub decode : DataRepresentation → List Bytes → Result WorkflowError ℕ
unfolding decode_one check_rest
decode representation [] = err data_not_found
decode representation (payload ∷ payloads) =
    and_then (decode_one representation payload) λ value. check_rest representation value payloads

-- `(0..target_count).map(..)`, from an index on.
unfoldable pub share_payloads : ℕ → ℕ → ℕ → List Bytes
unfolding share_payload
share_payloads value index zero = []
share_payloads value index (suc count) =
    share_payload value index ∷ share_payloads value (index + 1) count

unfoldable pub repeat_payload : Bytes → ℕ → List Bytes
repeat_payload payload zero = []
repeat_payload payload (suc count) = payload ∷ repeat_payload payload count

unfoldable pub target_payloads : DataRepresentation → ℕ → ℕ → List Bytes
unfolding share_payloads repeat_payload fhe_payload
target_payloads secret_sharing value count = share_payloads value 0 count
target_payloads homomorphic value count = repeat_payload (fhe_payload value) count

unfoldable pub handoff : DataRepresentation → List Bytes → ℕ → Result WorkflowError (List Bytes)
unfolding target_payloads
handoff representation sources count =
    map_ok (λ value. target_payloads representation value count) (decode representation sources)

abbrev pub plaintext_crypto : WorkflowCryptoBackend
plaintext_crypto = record {
  encode_secret_shares = encode_secret_shares;
  encode_fhe = encode_fhe;
  decode = decode;
  handoff = handoff;
}

-- `dev_digest`, whose text is that of `PlaintextBackend::commit`.
unfoldable pub dev_digest : Bytes → List Bytes → Bytes
unfolding ppsc.Backend.Plaintext.digest
dev_digest domain parts = ppsc.Backend.Plaintext.digest domain parts
