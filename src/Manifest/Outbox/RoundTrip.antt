-- ===== src/Manifest/Outbox/RoundTrip.antt =====
-- What `decode_outbox_payload` of crates/runtime/src/manifest_daemon.rs reads back.
use ppsc.Base.{
  ℕ, ◌<◌, ◌^◌, ◌≡◌, refl, ap, ◌∙◌, true, Option, none, some, List, [], ◌∷◌, ◌++◌, arith, length,
  length-append, take-append_self, drop-append_self, ok, and_then,
}
use ppsc.Base.Bytes.{Bytes, to_be_bytes, length-to_be_bytes, from_be_bytes-to_be_bytes}
use ppsc.Core.{ExecutionId, id_as_bytes, id_from_bytes-id_as_bytes}
use ppsc.Manifest.Types.{
  ValueType, address, uint, fhe_uint, fhe_bool, sint, secret_bool, opened, void, ManifestValue,
  StateWrite, HostCall, ExecutionOutcome, is_protected, protected_value,
}
use ppsc.Manifest.Outbox.{
  DecodedStateWrite, DecodedOutbox, value_type_from_tag, take_bytes, take_u32, take_sized,
  take_byte, take_value, take_writes, skip_calls, opening_of, take_outbox, encode_outbox_payload,
  decode_outbox_payload, outbox_prefix,
}
use ppsc.Manifest.Outbox.Utf8.{utf8_bytes, is_utf8-utf8_bytes}
use ppsc.Manifest.Outbox.Encoded.{
  IsShort, IsWritable, AreWritable, AreShort, IsOpening, FitsOutbox, sized, tag_of, value_then,
  writes_then, calls_then, opening_then, outcome_then, encode_outbox_payload-outcome_then,
}

-- A write as the decoder returns it.
abbrev pub decoded_writes : List StateWrite → List DecodedStateWrite
decoded_writes [] = []
decoded_writes (w ∷ ws) =
    record { state = utf8_bytes w.state; key = w.key; value = w.value } ∷ decoded_writes ws

take_bytes-append :
    (bytes rest : Bytes) → take_bytes (length bytes) (bytes ++ rest) ≡ (ok bytes, rest)
unfolding take_bytes
take_bytes-append bytes rest =
    ground
      (arith, length-append bytes rest, take-append_self bytes rest, drop-append_self bytes rest)

take_bytes-to_be_bytes :
    (n x : ℕ) (rest : Bytes) → take_bytes n (to_be_bytes n x ++ rest) ≡ (ok (to_be_bytes n x), rest)
take_bytes-to_be_bytes n x rest =
    rw (length-to_be_bytes n x) at (take_bytes-append (to_be_bytes n x) rest)

take_u32-to_be_bytes :
    (n : ℕ) (rest : Bytes) → n < 2 ^ 32 → take_u32 (to_be_bytes 4 n ++ rest) ≡ (ok n, rest)
unfolding take_u32
take_u32-to_be_bytes n rest h =
    rw (take_bytes-to_be_bytes 4 n rest, from_be_bytes-to_be_bytes 4 n h) refl

take_sized-sized :
    (bytes rest : Bytes) → IsShort bytes → take_sized (sized bytes rest) ≡ (ok bytes, rest)
unfolding take_sized
take_sized-sized bytes rest h =
    rw (take_u32-to_be_bytes (length bytes) (bytes ++ rest) h) (take_bytes-append bytes rest)

value_type_from_tag-tag_of :
    (t : ValueType) → is_protected t ≡ true → value_type_from_tag (tag_of t) ≡ ok t
unfolding value_type_from_tag
value_type_from_tag-tag_of address h = refl
value_type_from_tag-tag_of uint h = refl
value_type_from_tag-tag_of fhe_uint h = refl
value_type_from_tag-tag_of fhe_bool h = refl
value_type_from_tag-tag_of sint h = refl
value_type_from_tag-tag_of secret_bool h = refl
value_type_from_tag-tag_of opened h = refl
value_type_from_tag-tag_of void h = cc

take_byte-cons : (b : ℕ) (rest : Bytes) → take_byte (b ∷ rest) ≡ (ok b, rest)
unfolding take_byte
take_byte-cons b rest = rw (take_bytes-append (b ∷ []) rest) refl

take_value-value_then :
    (v : ManifestValue) (rest : Bytes)
    → IsWritable v
    → take_value (value_then v rest) ≡ (ok v, rest)
unfolding take_value protected_value
take_value-value_then v rest (protected, full, short) =
    rw
      (
        take_byte-cons (tag_of v.value_type) (sized v.bytes rest),
        value_type_from_tag-tag_of v.value_type protected,
        take_sized-sized v.bytes rest short,
        protected,
        full,
      )
      refl

take_writes-writes_then :
    (ws : List StateWrite) (rest : Bytes)
    → AreWritable ws
    → take_writes (length ws) (writes_then ws rest) ≡ (ok (decoded_writes ws), rest)
unfolding take_writes
take_writes-writes_then [] rest h = refl
take_writes-writes_then (w ∷ ws) rest ((ascii, name_short, key_short, writable), h) =
    let after_value = writes_then ws rest in
    let after_key = value_then w.value after_value in
    rw
      (
        take_sized-sized (utf8_bytes w.state) (sized w.key after_key) name_short,
        is_utf8-utf8_bytes w.state ascii,
        take_sized-sized w.key after_key key_short,
        take_value-value_then w.value after_value writable,
        take_writes-writes_then ws rest h,
      )
      refl

skip_calls-calls_then :
    (cs : List HostCall) (rest : Bytes)
    → AreShort cs
    → skip_calls (length cs) (calls_then cs rest) ≡ (ok tt, rest)
unfolding skip_calls
skip_calls-calls_then [] rest h = refl
skip_calls-calls_then (c ∷ cs) rest (short, h) =
    rw (take_sized-sized (utf8_bytes c.opcode) (calls_then cs rest) short)
      (skip_calls-calls_then cs rest h)

-- The byte that says whether there is an opening, and what stands behind it.
abbrev opening_flag : Option ManifestValue → ℕ
opening_flag none = 0
opening_flag (some v) = 1

abbrev opening_rest : Option ManifestValue → Bytes
opening_rest none = []
opening_rest (some v) = value_then v []

opening_then-flag : (o : Option ManifestValue) → opening_then o [] ≡ opening_flag o ∷ opening_rest o
opening_then-flag none = refl
opening_then-flag (some v) = refl

opening_of-opening_rest :
    (o : Option ManifestValue)
    → IsOpening o
    → opening_of (opening_flag o) (opening_rest o) ≡ (ok o, [])
unfolding opening_of
opening_of-opening_rest none h = refl
opening_of-opening_rest (some v) h = rw (take_value-value_then v [] h) refl

decode_outbox_payload-prefix :
    (behind : Bytes) → decode_outbox_payload (outbox_prefix ++ behind) ≡ (take_outbox behind).0
unfolding decode_outbox_payload
decode_outbox_payload-prefix behind = refl

module _ (execution_id : ExecutionId) (o : ExecutionOutcome) (id_fits : execution_id < 256 ^ 32)
    (fits : FitsOutbox o) where
  abbrev decoded : DecodedOutbox
  decoded = record {
    execution_id = execution_id;
    state_writes = decoded_writes o.state_writes;
    opening = o.opening;
  }

  take_outbox-outcome_then : take_outbox (outcome_then execution_id o []) ≡ (ok decoded, [])
  unfolding take_outbox id_as_bytes
  take_outbox-outcome_then =
      let (few_writes, writes, few_calls, calls, opening) = fits in
      let flagged = opening_flag o.opening ∷ opening_rest o.opening in
      let behind_calls = calls_then o.host_calls flagged in
      let behind_writes = to_be_bytes 4 (length o.host_calls) ++ behind_calls in
      rw
        (
          opening_then-flag o.opening,
          take_bytes-to_be_bytes 32 execution_id
              (to_be_bytes 4 (length o.state_writes) ++ writes_then o.state_writes behind_writes),
          take_u32-to_be_bytes (length o.state_writes) (writes_then o.state_writes behind_writes)
              few_writes,
          take_writes-writes_then o.state_writes behind_writes writes,
          take_u32-to_be_bytes (length o.host_calls) behind_calls few_calls,
          skip_calls-calls_then o.host_calls flagged calls,
          take_byte-cons (opening_flag o.opening) (opening_rest o.opening),
          opening_of-opening_rest o.opening opening,
          id_from_bytes-id_as_bytes execution_id id_fits,
        )
        refl

  -- For an execution id of 32 bytes and an outcome whose writes and opening are protected values
  -- with a nonempty representation, whose state names are ASCII and whose counts and lengths are
  -- below 2 ^ 32: encoding succeeds, and decoding the payload gives the execution id, the writes
  -- in their order, each name as its bytes, and the opening.
  pub decode-encode_outbox_payload :
      and_then (encode_outbox_payload execution_id o) decode_outbox_payload ≡ ok decoded
  decode-encode_outbox_payload =
      ap (λ r. and_then r decode_outbox_payload)
        (encode_outbox_payload-outcome_then execution_id o fits)
      ∙ (decode_outbox_payload-prefix (outcome_then execution_id o [])
          ∙ ap (λ r. r.0) take_outbox-outcome_then)
