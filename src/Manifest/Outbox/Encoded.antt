-- ===== src/Manifest/Outbox/Encoded.antt =====
-- The bytes that `encode_outbox_payload` of crates/runtime/src/manifest_daemon.rs appends, written
-- out, for an outcome that fits the format.
use mathlib.Core.List.{append_assoc, append-nil}
use ppsc.Base.{
  ℕ, ◌<◌, ◌^◌, ◌≡◌, refl, true, Option, none, some, List, [], ◌∷◌, ◌++◌, length, is_empty, lt→ltb,
  ap, sym, after, gets, ok, ◌>>◌, ◌∙◌, false,
}
use ppsc.Base.Bytes.{Bytes, to_be_bytes}
use ppsc.Core.{ExecutionId, id_as_bytes}
use ppsc.Manifest.Types.{
  ValueType, address, uint, fhe_uint, fhe_bool, sint, secret_bool, opened, void, ManifestValue,
  StateWrite, HostCall, ExecutionOutcome, is_protected,
}
use ppsc.Manifest.Outbox.{
  extend, Payload, value_type_tag, append_len, append_bytes, append_value, append_writes,
  append_calls, append_opening, append_outcome, encode_outbox_payload, outbox_prefix,
}
use ppsc.Manifest.Outbox.Utf8.{utf8_bytes, IsAscii}

-- A byte string whose length fits 32 bits.
abbrev pub IsShort : Bytes → Type 0
IsShort bytes = length bytes < 2 ^ 32

-- A protected value of a short representation, which is not empty.
abbrev pub IsWritable : ManifestValue → Type 0
IsWritable v = (is_protected v.value_type ≡ true) × (is_empty v.bytes ≡ false) × IsShort v.bytes

abbrev pub AreWritable : List StateWrite → Type 0
AreWritable [] = Unit
AreWritable (w ∷ ws) =
    (IsAscii w.state × IsShort (utf8_bytes w.state) × IsShort w.key × IsWritable w.value)
    × AreWritable ws

abbrev pub AreShort : List HostCall → Type 0
AreShort [] = Unit
AreShort (c ∷ cs) = IsShort (utf8_bytes c.opcode) × AreShort cs

abbrev pub IsOpening : Option ManifestValue → Type 0
IsOpening none = Unit
IsOpening (some v) = IsWritable v

-- An outcome that the format can carry: protected values, ASCII names, and short lengths.
abbrev pub FitsOutbox : ExecutionOutcome → Type 0
FitsOutbox o =
    (length o.state_writes < 2 ^ 32)
    × AreWritable o.state_writes
    × (length o.host_calls < 2 ^ 32)
    × AreShort o.host_calls
    × IsOpening o.opening

abbrev pub sized : Bytes → Bytes → Bytes
sized bytes rest = to_be_bytes 4 (length bytes) ++ (bytes ++ rest)

-- The tag of a protected type.
abbrev pub tag_of : ValueType → ℕ
tag_of address = 0
tag_of uint = 1
tag_of fhe_uint = 2
tag_of fhe_bool = 3
tag_of sint = 4
tag_of secret_bool = 5
tag_of opened = 6
tag_of void = 7

abbrev pub value_then : ManifestValue → Bytes → Bytes
value_then v rest = tag_of v.value_type ∷ sized v.bytes rest

abbrev pub writes_then : List StateWrite → Bytes → Bytes
writes_then [] rest = rest
writes_then (w ∷ ws) rest =
    sized (utf8_bytes w.state) (sized w.key (value_then w.value (writes_then ws rest)))

abbrev pub calls_then : List HostCall → Bytes → Bytes
calls_then [] rest = rest
calls_then (c ∷ cs) rest = sized (utf8_bytes c.opcode) (calls_then cs rest)

abbrev pub opening_then : Option ManifestValue → Bytes → Bytes
opening_then none rest = 0 ∷ rest
opening_then (some v) rest = 1 ∷ value_then v rest

-- The payload behind its prefix.
abbrev pub outcome_then : ExecutionId → ExecutionOutcome → Bytes → Bytes
outcome_then execution_id o rest =
    id_as_bytes execution_id
    ++ (to_be_bytes 4 (length o.state_writes)
        ++ writes_then o.state_writes (
            to_be_bytes 4 (length o.host_calls)
            ++ calls_then o.host_calls (opening_then o.opening rest)))

value_type_tag-tag_of : (t : ValueType) → is_protected t ≡ true → value_type_tag t ≡ ok (tag_of t)
unfolding value_type_tag
value_type_tag-tag_of address h = refl
value_type_tag-tag_of uint h = refl
value_type_tag-tag_of fhe_uint h = refl
value_type_tag-tag_of fhe_bool h = refl
value_type_tag-tag_of sint h = refl
value_type_tag-tag_of secret_bool h = refl
value_type_tag-tag_of opened h = refl
value_type_tag-tag_of void h = cc

-- A step of the encoder appends bytes, whatever stands before and comes after them.
abbrev Appends : Payload (Unit {0}) → (Bytes → Bytes) → Type 0
Appends step bytes =
    (output rest : Bytes)
    → (output' : Bytes) × (step output ≡ (ok tt, output'))
      × (output' ++ rest ≡ output ++ bytes rest)

append_len-Appends : (n : ℕ) → n < 2 ^ 32 → Appends (append_len n) (λ rest. to_be_bytes 4 n ++ rest)
unfolding append_len
append_len-Appends n h output rest = (
  output ++ to_be_bytes 4 n,
  rw (lt→ltb n (2 ^ 32) h) refl,
  append_assoc output (to_be_bytes 4 n) rest,
)

-- Steps one after the other.
then-Appends :
    (a b : Payload (Unit {0})) (f g : Bytes → Bytes)
    → Appends a f
    → Appends b g
    → Appends (a >> b) (λ rest. f (g rest))
then-Appends a b f g ha hb output rest =
    let (o1, e1, h1) = ha output (g rest) in
    let (o2, e2, h2) = hb o1 rest in (o2, rw (e1, e2) refl, h2 ∙ h1)

extend-Appends : (bytes : Bytes) → Appends (extend bytes) (λ rest. bytes ++ rest)
extend-Appends bytes output rest = (output ++ bytes, refl, append_assoc output bytes rest)

append_bytes-Appends : (bytes : Bytes) → IsShort bytes → Appends (append_bytes bytes) (sized bytes)
unfolding append_bytes
append_bytes-Appends bytes h =
    then-Appends (append_len (length bytes)) (extend bytes) _ _
      (append_len-Appends (length bytes) h) (extend-Appends bytes)

append_value-Appends : (v : ManifestValue) → IsWritable v → Appends (append_value v) (value_then v)
unfolding append_value
append_value-Appends v (protected, full, short) output rest =
    rw (value_type_tag-tag_of v.value_type protected) (
      then-Appends (extend (tag_of v.value_type ∷ [])) (append_bytes v.bytes) _ _
        (extend-Appends (tag_of v.value_type ∷ [])) (append_bytes-Appends v.bytes short) output
        rest)

append_writes-Appends :
    (ws : List StateWrite) → AreWritable ws → Appends (append_writes ws) (writes_then ws)
unfolding append_writes
append_writes-Appends [] h output rest = (output, refl, refl)
append_writes-Appends (w ∷ ws) ((ascii, name_short, key_short, writable), h) output rest =
    then-Appends (append_bytes (utf8_bytes w.state)) _ _ _
      (append_bytes-Appends (utf8_bytes w.state) name_short)
      (then-Appends (append_bytes w.key) _ _ _ (append_bytes-Appends w.key key_short) (
        then-Appends (append_value w.value) (append_writes ws) _ _
          (append_value-Appends w.value writable) (append_writes-Appends ws h)))
      output rest

append_calls-Appends :
    (cs : List HostCall) → AreShort cs → Appends (append_calls cs) (calls_then cs)
unfolding append_calls
append_calls-Appends [] h output rest = (output, refl, refl)
append_calls-Appends (c ∷ cs) (short, h) output rest =
    then-Appends (append_bytes (utf8_bytes c.opcode)) (append_calls cs) _ _
      (append_bytes-Appends (utf8_bytes c.opcode) short) (append_calls-Appends cs h) output rest

append_opening-Appends :
    (o : Option ManifestValue) → IsOpening o → Appends (append_opening o) (opening_then o)
unfolding append_opening
append_opening-Appends none h = extend-Appends (0 ∷ [])
append_opening-Appends (some v) h =
    then-Appends (extend (1 ∷ [])) (append_value v) _ _ (extend-Appends (1 ∷ []))
      (append_value-Appends v h)

append_outcome-Appends :
    (execution_id : ExecutionId) (o : ExecutionOutcome)
    → FitsOutbox o
    → Appends (append_outcome execution_id o) (outcome_then execution_id o)
unfolding append_outcome
append_outcome-Appends execution_id o (few_writes, writes, few_calls, calls, opening) =
    then-Appends (extend (id_as_bytes execution_id)) _ _ _
      (extend-Appends (id_as_bytes execution_id))
      (then-Appends (append_len (length o.state_writes)) _ _ _
        (append_len-Appends (length o.state_writes) few_writes)
        (then-Appends (append_writes o.state_writes) _ _ _
          (append_writes-Appends o.state_writes writes)
          (then-Appends (append_len (length o.host_calls)) _ _ _
            (append_len-Appends (length o.host_calls) few_calls)
            (then-Appends (append_calls o.host_calls) (append_opening o.opening) _ _
              (append_calls-Appends o.host_calls calls)
              (append_opening-Appends o.opening opening)))))

-- The payload of an outcome that fits.
pub encode_outbox_payload-outcome_then :
    (execution_id : ExecutionId) (o : ExecutionOutcome)
    → FitsOutbox o
    → encode_outbox_payload execution_id o ≡ ok (outbox_prefix ++ outcome_then execution_id o [])
unfolding encode_outbox_payload
encode_outbox_payload-outcome_then execution_id o fits =
    let (output, run, written) = append_outcome-Appends execution_id o fits outbox_prefix [] in
    ap (λ r. (after r (λ _. gets (λ bytes. bytes))).0) run
    ∙ ap ok (sym (append-nil output) ∙ written)
