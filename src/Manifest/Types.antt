-- ===== src/Manifest/Types.antt =====
-- The data of crates/runtime/src/manifest.rs: typed values, manifests (declared in
-- crates/compiler/src/lib.rs), invocations and their outcomes, and the two interfaces.
use ppsc.Base.{
  ℕ, zero, suc, ◌≡◌, refl, sym, ap, ◌∙◌, Bool, true, false, ◌&&◌, ◌||◌, not, Option, List, [],
  String, ◌==◌, if◌then◌else◌, ==_iff, length, is_empty, Result, ok, err, Action, nat_eq, pair_eq,
  bytes_eq, string_eq,
}
use ppsc.Base.Bytes.{Bytes, to_be_bytes, from_be_bytes}
use ppsc.Base.Dict.{Dict}
use Prim.Native.String.{String}

pub data ValueType : Type 0 where
  address uint fhe_uint fhe_bool sint secret_bool opened void : ValueType

pub data Representation : Type 0 where
  public fhe secret_sharing : Representation

abbrev type_code : ValueType → ℕ
type_code address = 0
type_code uint = 1
type_code fhe_uint = 2
type_code fhe_bool = 3
type_code sint = 4
type_code secret_bool = 5
type_code opened = 6
type_code void = 7

-- `==` on value types
unfoldable pub type_beq : ValueType → ValueType → Bool
type_beq a b = type_code a == type_code b

type_of : ℕ → ValueType
type_of zero = address
type_of (suc zero) = uint
type_of (suc (suc zero)) = fhe_uint
type_of (suc (suc (suc zero))) = fhe_bool
type_of (suc (suc (suc (suc zero)))) = sint
type_of (suc (suc (suc (suc (suc zero))))) = secret_bool
type_of (suc (suc (suc (suc (suc (suc zero)))))) = opened
type_of (suc (suc (suc (suc (suc (suc (suc n))))))) = void

type_of-type_code : (a : ValueType) → type_of (type_code a) ≡ a
unfolding type_of
type_of-type_code address = refl
type_of-type_code uint = refl
type_of-type_code fhe_uint = refl
type_of-type_code fhe_bool = refl
type_of-type_code sint = refl
type_of-type_code secret_bool = refl
type_of-type_code opened = refl
type_of-type_code void = refl

pub type_beq-true : (a b : ValueType) → type_beq a b ≡ true → a ≡ b
unfolding type_beq
type_beq-true a b h =
    sym (type_of-type_code a)
    ∙ (ap type_of ((==_iff (type_code a) (type_code b)).0 h) ∙ type_of-type_code b)

pub data ManifestRuntimeError : Type 0 where
  function_not_found missing_input type_mismatch unknown_reference : ManifestRuntimeError
  invalid_manifest invalid_state_key invalid_value state_not_found : ManifestRuntimeError
  state_unavailable unsupported_operator policy_rejected overflow : ManifestRuntimeError
  underflow persistence_failure corrupt_persistence cursor_mismatch : ManifestRuntimeError

pub record ManifestValue : Type 0 where
  pub value_type : ValueType
  pub bytes : Bytes

-- An address is 20 bytes.
unfoldable pub address_value : Bytes → ManifestValue
address_value value = record { value_type = address; bytes = value }

unfoldable pub public_uint : ℕ → ManifestValue
public_uint value = record { value_type = uint; bytes = to_be_bytes 16 value }

-- The types that `protected` accepts.
abbrev pub is_protected : ValueType → Bool
is_protected address = false
is_protected uint = false
is_protected fhe_uint = true
is_protected fhe_bool = true
is_protected sint = true
is_protected secret_bool = true
is_protected opened = true
is_protected void = false

unfoldable pub protected_value : ValueType → Bytes → Result ManifestRuntimeError ManifestValue
protected_value value_type bytes =
    if not (is_protected value_type) || is_empty bytes
    then err invalid_value
    else ok (record { value_type = value_type; bytes = bytes })

unfoldable pub from_backend_parts : ValueType → Bytes → Result ManifestRuntimeError ManifestValue
unfolding type_beq
from_backend_parts value_type bytes =
    if (type_beq value_type address && length bytes == 20)
      || ((type_beq value_type uint && length bytes == 16)
          || (is_protected value_type && not (is_empty bytes)))
    then ok (record { value_type = value_type; bytes = bytes })
    else err invalid_value

unfoldable pub state_key : ManifestValue → Result ManifestRuntimeError Bytes
unfolding type_beq
state_key v =
    if not (type_beq v.value_type address) || not (length v.bytes == 20)
    then err invalid_state_key
    else ok v.bytes

unfoldable pub public_u128 : ManifestValue → Result ManifestRuntimeError ℕ
unfolding type_beq
public_u128 v =
    if not (type_beq v.value_type uint) || not (length v.bytes == 16)
    then err invalid_value
    else ok (from_be_bytes v.bytes)

abbrev pub void_value : ManifestValue
void_value = record { value_type = void; bytes = [] }

pub record StateManifest : Type 0 where
  pub name : String
  pub value_type : ValueType
  pub key_type : Option ValueType
  pub representation : Representation

pub record AbiInput : Type 0 where
  pub name : String
  pub source_type : ValueType
  pub abi_type : String
  pub representation : Representation

pub record OperatorNode : Type 0 where
  pub id : String
  pub opcode : String
  pub domain : Representation
  pub inputs : List String
  pub output_type : ValueType
  pub representation : Representation
  pub state : Option String

-- The compiler's `StateWrite`: names of values.
pub record PlannedWrite : Type 0 where
  pub state : String
  pub key : Option String
  pub value : String

pub record FunctionManifest : Type 0 where
  pub name : String
  pub signature : String
  pub selector : String
  pub inputs : List AbiInput
  pub operators : List OperatorNode
  pub state_writes : List PlannedWrite
  pub opening_output : Option String

pub record ContractManifest : Type 0 where
  pub language_version : ℕ
  pub contract : String
  pub state : List StateManifest
  pub functions : List FunctionManifest

-- `InvocationInputs`: the supplied values by parameter name.
abbrev pub InvocationInputs : Type 0
InvocationInputs = Dict String ManifestValue

-- The runtime's `StateWrite`: the value itself.
pub record StateWrite : Type 0 where
  pub state : String
  pub key : Bytes
  pub value : ManifestValue

pub record HostCall : Type 0 where
  pub opcode : String
  pub arguments : List ManifestValue

pub record ExecutionOutcome : Type 0 where
  pub state_writes : List StateWrite
  pub host_calls : List HostCall
  pub opening : Option ManifestValue

-- `ManifestStateStore`, over the state of the store.
pub record ManifestStateStore (S : Type 0) : Type 0 where
  pub load : String → Bytes → S → Result ManifestRuntimeError ManifestValue
  pub commit : List StateWrite → Action ManifestRuntimeError S (Unit {0})

pub record ManifestCryptoBackend : Type 0 where
  pub evaluate : String → List ManifestValue → Result ManifestRuntimeError ManifestValue
  pub secret_bool : ManifestValue → Result ManifestRuntimeError Bool
  pub pick : ManifestValue → Result ManifestRuntimeError ManifestValue
