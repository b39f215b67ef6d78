-- ===== src/Compiler/Typing.antt =====
-- What crates/compiler/src/lib.rs emits is well scoped and well typed: the judgement.
mod Invariant
mod Expressions
mod Statements
pub mod Functions
pub mod Programs
pub mod Resolved
mod Operators
mod Writes
pub mod Execution
pub mod Development
use ppsc.Base.{
  ℕ, ◌≡◌, Bool, true, false, ◌&&◌, ◌||◌, Option, none, some, List, [], ◌∷◌, ◌++◌, String, All,
  EqKey, pair_eq, string_eq, ◌↔◌, ap, ==_refl,
}
use ppsc.Base.Bytes.{text_bytes, starts_with}
use ppsc.Base.Dict.{contains, AllValues}
use Prim.Native.String.{String}
use ppsc.Manifest.Types.{
  ValueType, address, uint, fhe_uint, fhe_bool, sint, secret_bool, opened, void, type_beq,
  type_beq-true, OperatorNode, PlannedWrite,
}
use ppsc.Compiler.Syntax.{StateDecl}
use ppsc.Compiler.Lowering.{find_decl, Lowerer}

pub type_beq_iff : (a b : ValueType) → (type_beq a b ≡ true) ↔ (a ≡ b)
unfolding type_beq
type_beq_iff a b = (type_beq-true a b, λ same. rw same (==_refl _))

instance abbrev pub type_eq : EqKey ValueType
type_eq = record { beq = type_beq; beq_iff = type_beq_iff }

-- The references that are bound, with their types.
abbrev pub Scope : Type 0
Scope = List (String × ValueType)

abbrev pub is_const : String → Bool
is_const reference = starts_with (text_bytes reference) (text_bytes "const:")

-- A number has the type of public numbers, any other reference its type in the scope.
abbrev pub has_type : Scope → String → ValueType → Bool
has_type scope r ty = is_const r && type_beq ty uint || contains scope (r, ty)

abbrev pub HasType : Scope → String → ValueType → Type 0
HasType scope r ty = has_type scope r ty ≡ true

abbrev pub HasTypes : Scope → List String → List ValueType → Type 0
HasTypes scope [] [] = Unit
HasTypes scope [] (t ∷ ts) = ⊥
HasTypes scope (r ∷ rs) [] = ⊥
HasTypes scope (r ∷ rs) (t ∷ ts) = HasType scope r t × HasTypes scope rs ts

-- The types of the operations that a committee or the host performs.
pub data Signature : String → List ValueType → ValueType → Type 0 where
  encrypt : Signature "fhe.encrypt" (uint ∷ []) fhe_uint
  fhe_add : Signature "fhe.add" (fhe_uint ∷ fhe_uint ∷ []) fhe_uint
  fhe_sub : Signature "fhe.sub" (fhe_uint ∷ fhe_uint ∷ []) fhe_uint
  fhe_ge : Signature "fhe.ge" (fhe_uint ∷ fhe_uint ∷ []) fhe_bool
  mpc_add : Signature "mpc.add" (sint ∷ sint ∷ []) sint
  mpc_sub : Signature "mpc.sub" (sint ∷ sint ∷ []) sint
  mpc_ge : Signature "mpc.ge" (sint ∷ sint ∷ []) secret_bool
  share_uint : Signature "convert.h2s" (fhe_uint ∷ []) sint
  share_bool : Signature "convert.h2s" (fhe_bool ∷ []) secret_bool
  encrypt_shares : Signature "convert.s2h" (sint ∷ []) fhe_uint
  pick : Signature "opening.pick" (sint ∷ []) opened
  receive : Signature "host.receive_encrypted_token" (fhe_uint ∷ []) void
  send : Signature "host.send_encrypted_token" (address ∷ fhe_uint ∷ []) void
  requires : Signature "require_secret" (secret_bool ∷ []) void

-- An operator in a scope: a load of a declared mapping at a key of its type, or an operation on
-- arguments of the types that it expects.
pub data WellTyped (states : List StateDecl) (scope : Scope) (op : OperatorNode) : Type 0 where
  loads :
      (name : String) (d : StateDecl) (key_type : ValueType) (key : String)
      → op.opcode ≡ "load_state"
      → op.state ≡ some name
      → find_decl name states ≡ some d
      → d.key_ty ≡ some key_type
      → op.inputs ≡ key ∷ []
      → HasType scope key key_type
      → op.output_type ≡ d.ty
      → WellTyped states scope op
  operates :
      (expected : List ValueType)
      → op.state ≡ none
      → Signature op.opcode expected op.output_type
      → HasTypes scope op.inputs expected
      → WellTyped states scope op

abbrev entry : OperatorNode → String × ValueType
entry op = (op.id, op.output_type)

-- Each operator sees what is bound before it, and the results of the operators before it.
abbrev pub TypedOperators : List StateDecl → Scope → List OperatorNode → Type 0
TypedOperators states scope [] = Unit
TypedOperators states scope (op ∷ ops) =
    WellTyped states scope op × TypedOperators states (scope ++ entry op ∷ []) ops

abbrev pub scope_after : Scope → List OperatorNode → Scope
scope_after scope [] = scope
scope_after scope (op ∷ ops) = scope_after (scope ++ entry op ∷ []) ops

abbrev pub KeyTyped : Scope → Option String → Option ValueType → Type 0
KeyTyped scope none none = Unit
KeyTyped scope none (some ty) = ⊥
KeyTyped scope (some r) none = ⊥
KeyTyped scope (some r) (some ty) = HasType scope r ty

abbrev pub WriteTyped : List StateDecl → Scope → PlannedWrite → Type 0
WriteTyped states scope w =
    (d : StateDecl) × (find_decl w.state states ≡ some d)
    × HasType scope w.value d.ty
    × KeyTyped scope w.key d.key_ty

abbrev pub OpeningTyped : Scope → Option String → Type 0
OpeningTyped scope none = Unit
OpeningTyped scope (some r) = HasType scope r opened
