-- ===== src/Manifest/Plaintext.antt =====
-- `PlaintextManifestBackend` of crates/runtime/src/manifest.rs: tagged values in the clear.
pub mod Laws
use ppsc.Base.{
  ℕ, ◌+◌, ◌-◌, ◌<◌, ◌≡◌, refl, Bool, true, false, ◌||◌, not, List, [], ◌∷◌, ◌++◌, arith, String,
  ltb, leb, ◌==◌, if◌then◌else◌, length, drop, length-append, Result, ok, err, and_then, map_ok,
  ok_or, nat_eq, pair_eq, bytes_eq, string_eq,
}
use ppsc.Base.Bytes.{Bytes, u128_mod, to_be_bytes, from_be_bytes, text_bytes, starts_with}
use Prim.Native.String.{String}
use ppsc.Manifest.Types.{
  ValueType, uint, fhe_uint, fhe_bool, sint, secret_bool, opened, type_beq, ManifestRuntimeError,
  type_mismatch, invalid_manifest, invalid_value, unsupported_operator, overflow, underflow,
  ManifestValue, public_u128, ManifestCryptoBackend,
}
use ppsc.Backend.Plaintext.{checked_add_u128, checked_sub_u128}
use ppsc.Base.Bytes.{starts_with-append}
use ppsc.Base.Bytes.{length-to_be_bytes}
use ppsc.Base.{drop-append_self}
use ppsc.Base.Bytes.{from_be_bytes-to_be_bytes}

abbrev pub fhe_uint_prefix : Bytes
fhe_uint_prefix = text_bytes "PPSC_MANIFEST_DEV_FHE_UINT_V1"

abbrev pub fhe_bool_prefix : Bytes
fhe_bool_prefix = text_bytes "PPSC_MANIFEST_DEV_FHE_BOOL_V1"

abbrev pub ss_uint_prefix : Bytes
ss_uint_prefix = text_bytes "PPSC_MANIFEST_DEV_SS_UINT_V1"

abbrev pub ss_bool_prefix : Bytes
ss_bool_prefix = text_bytes "PPSC_MANIFEST_DEV_SS_BOOL_V1"

abbrev pub opened_prefix : Bytes
opened_prefix = text_bytes "PPSC_MANIFEST_DEV_OPENED_V1"

abbrev pub Fallible : Type 0 → Type 0
Fallible A = Result ManifestRuntimeError A

abbrev pub encoded : ValueType → Bytes → Bytes → ManifestValue
encoded value_type prefix payload = record { value_type = value_type; bytes = prefix ++ payload }

unfoldable pub fhe_uint_of : ℕ → ManifestValue
fhe_uint_of value = encoded fhe_uint fhe_uint_prefix (to_be_bytes 16 value)

unfoldable pub secret_uint_of : ℕ → ManifestValue
secret_uint_of value = encoded sint ss_uint_prefix (to_be_bytes 16 value)

-- `u8::from`
abbrev pub bool_byte : Bool → Bytes
bool_byte true = 1 ∷ []
bool_byte false = 0 ∷ []

abbrev pub one : List ManifestValue → Fallible ManifestValue
one [] = err invalid_manifest
one (x ∷ []) = ok x
one (x ∷ y ∷ rest) = err invalid_manifest

unfoldable pub decode_u128 : ManifestValue → Bytes → Fallible ℕ
decode_u128 v prefix =
    if not (length v.bytes == length prefix + 16) || not (starts_with v.bytes prefix)
    then err invalid_value
    else ok (from_be_bytes (drop (length prefix) v.bytes))

abbrev pub bool_of : Bytes → Fallible Bool
bool_of [] = err invalid_value
bool_of (b ∷ bs) = if b == 0 then ok false else if b == 1 then ok true else err invalid_value

unfoldable pub decode_bool : ManifestValue → Bytes → Fallible Bool
decode_bool v prefix =
    if not (length v.bytes == length prefix + 1) || not (starts_with v.bytes prefix)
    then err invalid_value
    else bool_of (drop (length prefix) v.bytes)

unfoldable pub two_u128 : List ManifestValue → Bytes → Fallible (ℕ × ℕ)
unfolding decode_u128
two_u128 [] prefix = err invalid_manifest
two_u128 (a ∷ []) prefix = err invalid_manifest
two_u128 (a ∷ b ∷ []) prefix =
    and_then (decode_u128 a prefix) λ left. map_ok (λ right. (left, right)) (decode_u128 b prefix)
two_u128 (a ∷ b ∷ c ∷ rest) prefix = err invalid_manifest

-- The arms of `evaluate` that take two numbers of one domain.
abbrev pub add_in : (ℕ → ManifestValue) → Bytes → List ManifestValue → Fallible ManifestValue
add_in make prefix arguments =
    and_then (two_u128 arguments prefix)
      λ p. map_ok make (ok_or (checked_add_u128 p.0 p.1) overflow)

abbrev pub sub_in : (ℕ → ManifestValue) → Bytes → List ManifestValue → Fallible ManifestValue
sub_in make prefix arguments =
    and_then (two_u128 arguments prefix)
      λ p. map_ok make (ok_or (checked_sub_u128 p.0 p.1) underflow)

abbrev pub ge_in : ValueType → Bytes → Bytes → List ManifestValue → Fallible ManifestValue
ge_in value_type bool_prefix prefix arguments =
    map_ok (λ p. encoded value_type bool_prefix (bool_byte (leb p.1 p.0)))
      (two_u128 arguments prefix)

-- `convert.h2s`, on the type of its argument.
unfoldable pub convert_h2s : ManifestValue → Fallible ManifestValue
unfolding decode_u128 decode_bool secret_uint_of
convert_h2s v =
    if type_beq v.value_type fhe_uint
    then map_ok secret_uint_of (decode_u128 v fhe_uint_prefix)
    else if type_beq v.value_type fhe_bool
    then map_ok (λ b. encoded secret_bool ss_bool_prefix (bool_byte b))
        (decode_bool v fhe_bool_prefix)
    else err type_mismatch

unfoldable pub evaluate : String → List ManifestValue → Fallible ManifestValue
unfolding fhe_uint_of secret_uint_of two_u128 decode_u128 convert_h2s
evaluate opcode arguments =
    if string_eq.beq opcode "fhe.encrypt"
    then map_ok fhe_uint_of (and_then (one arguments) public_u128)
    else if string_eq.beq opcode "fhe.add"
    then add_in fhe_uint_of fhe_uint_prefix arguments
    else if string_eq.beq opcode "fhe.sub"
    then sub_in fhe_uint_of fhe_uint_prefix arguments
    else if string_eq.beq opcode "fhe.ge"
    then ge_in fhe_bool fhe_bool_prefix fhe_uint_prefix arguments
    else if string_eq.beq opcode "mpc.add"
    then add_in secret_uint_of ss_uint_prefix arguments
    else if string_eq.beq opcode "mpc.sub"
    then sub_in secret_uint_of ss_uint_prefix arguments
    else if string_eq.beq opcode "mpc.ge"
    then ge_in secret_bool ss_bool_prefix ss_uint_prefix arguments
    else if string_eq.beq opcode "convert.h2s"
    then and_then (one arguments) convert_h2s
    else if string_eq.beq opcode "convert.s2h"
    then map_ok fhe_uint_of (and_then (one arguments) (λ v. decode_u128 v ss_uint_prefix))
    else err unsupported_operator

unfoldable pub secret_bool_of : ManifestValue → Fallible Bool
unfolding decode_bool
secret_bool_of v = decode_bool v ss_bool_prefix

unfoldable pub pick : ManifestValue → Fallible ManifestValue
unfolding decode_u128
pick v =
    map_ok (λ opened_value. encoded opened opened_prefix (to_be_bytes 16 opened_value))
      (decode_u128 v ss_uint_prefix)

unfoldable pub open_for_tests : ManifestValue → Fallible ℕ
unfolding decode_u128
open_for_tests v =
    if type_beq v.value_type fhe_uint
    then decode_u128 v fhe_uint_prefix
    else if type_beq v.value_type sint
    then decode_u128 v ss_uint_prefix
    else if type_beq v.value_type opened
    then decode_u128 v opened_prefix
    else if type_beq v.value_type uint
    then public_u128 v
    else err type_mismatch

abbrev pub plaintext_manifest_backend : ManifestCryptoBackend
plaintext_manifest_backend = record {
  evaluate = evaluate;
  secret_bool = secret_bool_of;
  pick = pick;
}
