-- ===== src/Manifest/Outbox.antt =====
-- The outbox payload of crates/runtime/src/manifest_daemon.rs: `encode_outbox_payload` and
-- `decode_outbox_payload`. The output vector is the state of the encoder, and the payload from the
-- cursor on is the state of the decoder.
pub mod Utf8
pub mod Encoded
pub mod RoundTrip
pub mod Tests
use ppsc.Base.{
  ℕ, zero, suc, ◌^◌, Bool, Option, none, some, List, [], ◌∷◌, ◌++◌, String, ltb, ◌==◌, not, length,
  is_empty, take, drop, first, if◌then◌else◌, Result, ok, err, map_ok, map_err, ok_or, Action, pure,
  lift, gets, modify, fail_if, ◌>>=◌, ◌>>◌, after,
}
use ppsc.Base.Bytes.{Bytes, to_be_bytes, from_be_bytes, text_bytes, starts_with}
use ppsc.Core.{Identifier, ExecutionId, id_as_bytes, id_from_bytes}
use ppsc.Manifest.Types.{
  ValueType, address, uint, fhe_uint, fhe_bool, sint, secret_bool, opened, void, ManifestValue,
  ManifestRuntimeError, protected_value, StateWrite, HostCall, ExecutionOutcome,
}
use ppsc.Manifest.Outbox.Utf8.{utf8_bytes, is_utf8}

pub data DaemonError : Type 0 where
  chain_unavailable invalid_chain_response daemon_function_not_found : DaemonError
  invalid_public_inputs invalid_private_inputs unsupported_parameter : DaemonError
  invalid_output output_too_large : DaemonError
  runtime : ManifestRuntimeError → DaemonError

-- The state's name stands as the UTF-8 bytes of its text.
pub record DecodedStateWrite : Type 0 where
  pub state : Bytes
  pub key : Bytes
  pub value : ManifestValue

pub record DecodedOutbox : Type 0 where
  pub execution_id : ExecutionId
  pub state_writes : List DecodedStateWrite
  pub opening : Option ManifestValue

abbrev pub outbox_prefix : Bytes
outbox_prefix = text_bytes "PPSC_MANIFEST_OUTBOX_V1"

unfoldable pub value_type_tag : ValueType → Result DaemonError ℕ
value_type_tag address = ok 0
value_type_tag uint = ok 1
value_type_tag fhe_uint = ok 2
value_type_tag fhe_bool = ok 3
value_type_tag sint = ok 4
value_type_tag secret_bool = ok 5
value_type_tag opened = ok 6
value_type_tag void = err invalid_output

unfoldable pub value_type_from_tag : ℕ → Result DaemonError ValueType
value_type_from_tag zero = ok address
value_type_from_tag (suc zero) = ok uint
value_type_from_tag (suc (suc zero)) = ok fhe_uint
value_type_from_tag (suc (suc (suc zero))) = ok fhe_bool
value_type_from_tag (suc (suc (suc (suc zero)))) = ok sint
value_type_from_tag (suc (suc (suc (suc (suc zero))))) = ok secret_bool
value_type_from_tag (suc (suc (suc (suc (suc (suc zero)))))) = ok opened
value_type_from_tag (suc (suc (suc (suc (suc (suc (suc n))))))) = err invalid_output

abbrev pub Payload : Type 0 → Type 0
Payload A = Action DaemonError Bytes A

-- `extend_from_slice` and `push`
abbrev pub extend : Bytes → Payload (Unit {0})
extend bytes = modify (λ output. output ++ bytes)

unfoldable pub append_len : ℕ → Payload (Unit {0})
append_len value = do
  fail_if (not (ltb value (2 ^ 32))) output_too_large
  extend (to_be_bytes 4 value)

unfoldable pub append_bytes : Bytes → Payload (Unit {0})
unfolding append_len
append_bytes value = do append_len (length value); extend value

unfoldable pub append_value : ManifestValue → Payload (Unit {0})
unfolding value_type_tag append_bytes
append_value value = do
  tag ← lift (value_type_tag value.value_type)
  extend (tag ∷ [])
  append_bytes value.bytes

-- The two loops of the encoder.
unfoldable pub append_writes : List StateWrite → Payload (Unit {0})
unfolding append_bytes append_value
append_writes [] = pure tt
append_writes (write ∷ writes) =
    let later = append_writes writes in
    do
      append_bytes (utf8_bytes write.state)
      append_bytes write.key
      append_value write.value
      later

unfoldable pub append_calls : List HostCall → Payload (Unit {0})
unfolding append_bytes
append_calls [] = pure tt
append_calls (call ∷ calls) =
    let later = append_calls calls in do append_bytes (utf8_bytes call.opcode); later

unfoldable pub append_opening : Option ManifestValue → Payload (Unit {0})
unfolding append_value
append_opening none = extend (0 ∷ [])
append_opening (some value) = do extend (1 ∷ []); append_value value

-- The encoder's work on the vector, from its prefix on.
unfoldable pub append_outcome : ExecutionId → ExecutionOutcome → Payload (Unit {0})
unfolding append_len append_writes append_calls append_opening
append_outcome execution_id outcome = do
  extend (id_as_bytes execution_id)
  append_len (length outcome.state_writes)
  append_writes outcome.state_writes
  append_len (length outcome.host_calls)
  append_calls outcome.host_calls
  append_opening outcome.opening

unfoldable pub encode_outbox_payload : ExecutionId → ExecutionOutcome → Result DaemonError Bytes
unfolding append_outcome
encode_outbox_payload execution_id outcome =
    ((append_outcome execution_id outcome >> gets (λ output. output)) outbox_prefix).0

unfoldable pub take_bytes : ℕ → Payload Bytes
take_bytes count = do
  fail_if (← gets (λ rest. ltb (length rest) count)) invalid_output
  value ← gets (take count)
  modify (drop count)
  pure value

unfoldable pub take_u32 : Payload ℕ
unfolding take_bytes
take_u32 = do bytes ← take_bytes 4; pure (from_be_bytes bytes)

unfoldable pub take_sized : Payload Bytes
unfolding take_bytes take_u32
take_sized = do count ← take_u32; take_bytes count

-- `*take(payload, &mut cursor, 1)?.first().ok_or(..)?`
unfoldable pub take_byte : Payload ℕ
unfolding take_bytes
take_byte = do bytes ← take_bytes 1; lift (ok_or (first bytes) invalid_output)

unfoldable pub take_value : Payload ManifestValue
unfolding take_byte take_sized value_type_from_tag
take_value = do
  tag ← take_byte
  value_type ← lift (value_type_from_tag tag)
  bytes ← take_sized
  lift (map_err runtime (protected_value value_type bytes))

-- The two loops of the decoder, over the count of their entries.
unfoldable pub take_writes : ℕ → Payload (List DecodedStateWrite)
unfolding take_sized take_value
take_writes zero = pure []
take_writes (suc count) =
    let later = take_writes count in
    do
      state ← take_sized
      fail_if (not (is_utf8 state)) invalid_output
      key ← take_sized
      value ← take_value
      writes ← later
      pure (record { state = state; key = key; value = value } ∷ writes)

unfoldable pub skip_calls : ℕ → Payload (Unit {0})
unfolding take_sized
skip_calls zero = pure tt
skip_calls (suc count) = let later = skip_calls count in do take_sized; later

unfoldable pub opening_of : ℕ → Payload (Option ManifestValue)
unfolding take_value
opening_of zero = pure none
opening_of (suc zero) = do value ← take_value; pure (some value)
opening_of (suc (suc n)) = lift (err invalid_output)

-- The decoder's work on the payload behind the prefix.
unfoldable pub take_outbox : Payload DecodedOutbox
unfolding take_bytes take_u32 take_byte take_writes skip_calls opening_of
take_outbox = do
  id_bytes ← take_bytes 32
  write_count ← take_u32
  writes ← take_writes write_count
  host_count ← take_u32
  skip_calls host_count
  has_opening ← take_byte
  value ← opening_of has_opening
  fail_if (← gets (λ rest. not (is_empty rest))) invalid_output
  pure (record { execution_id = id_from_bytes id_bytes; state_writes = writes; opening = value })

unfoldable pub decode_outbox_payload : Bytes → Result DaemonError DecodedOutbox
unfolding take_outbox
decode_outbox_payload payload =
    if not (starts_with payload outbox_prefix)
    then err invalid_output
    else (take_outbox (drop (length outbox_prefix) payload)).0
