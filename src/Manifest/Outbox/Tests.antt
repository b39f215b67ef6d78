-- ===== src/Manifest/Outbox/Tests.antt =====
-- The payload of the tests of crates/runtime/src/manifest_daemon.rs: one write and an opening.
use ppsc.Base.{◌≡◌, refl, some, [], ◌∷◌, arith, ok, err, and_then}
use ppsc.Manifest.Types.{ManifestValue, ExecutionOutcome, fhe_uint, opened, uint}
use ppsc.Manifest.Outbox.{encode_outbox_payload, decode_outbox_payload, runtime}
use ppsc.Core.{id_as_bytes}
use ppsc.Base.Bytes.{to_be_bytes, from_be_bytes}
use ppsc.Manifest.Types.{invalid_value, protected_value}
use ppsc.Manifest.Outbox.Utf8.{utf8_bytes, is_utf8}
use ppsc.Manifest.Outbox.RoundTrip.{decode-encode_outbox_payload}

abbrev written_value : ManifestValue
written_value = record { value_type = fhe_uint; bytes = 42 ∷ 7 ∷ [] }

abbrev opened_value : ManifestValue
opened_value = record { value_type = opened; bytes = 42 ∷ [] }

abbrev test_outcome : ManifestValue → ExecutionOutcome
test_outcome value = record {
  state_writes = record { state = "balance"; key = 7 ∷ 8 ∷ []; value = value } ∷ [];
  host_calls = record { opcode = "transfer"; arguments = [] } ∷ [];
  opening = some opened_value;
}

-- A public value can be encoded but is refused when it is read back.
public_write_test :
    and_then
      (encode_outbox_payload 9 (test_outcome (record { value_type = uint; bytes = 0 ∷ [] })))
      decode_outbox_payload
    ≡ err (runtime invalid_value)
unfolding encode_outbox_payload decode_outbox_payload utf8_bytes id_as_bytes to_be_bytes
    from_be_bytes is_utf8 protected_value
public_write_test = refl

decode-encode_outbox_payload_example :
    and_then (encode_outbox_payload 9 (test_outcome written_value)) decode_outbox_payload
    ≡ ok (record {
      execution_id = 9;
      state_writes =
          record {
            state = 98 ∷ 97 ∷ 108 ∷ 97 ∷ 110 ∷ 99 ∷ 101 ∷ [];
            key = 7 ∷ 8 ∷ [];
            value = written_value;
          }
          ∷ [];
      opening = some opened_value;
    })
unfolding utf8_bytes
decode-encode_outbox_payload_example =
    decode-encode_outbox_payload 9 (test_outcome written_value) (omega arith) (ground arith)
