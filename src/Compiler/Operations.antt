-- ===== src/Compiler/Operations.antt =====
-- The table of operations in `Lowerer::call`, crates/compiler/src/lib.rs.
use ppsc.Base.{Option, none, some, List, [], ◌∷◌, String, if◌then◌else◌, Result, ok_or, string_eq}
use ppsc.Base.Dict.{Dict, lookup}
use Prim.Native.String.{String}
use ppsc.Manifest.Types.{
  ValueType, address, uint, fhe_uint, fhe_bool, sint, secret_bool, opened, void, type_beq,
  Representation, public, fhe, secret_sharing,
}
use ppsc.Compiler.Syntax.{Message, unknown_operation, h2s_argument}

-- What an operation takes and gives.
pub record Operation : Type 0 where
  pub expected : List ValueType
  pub output : ValueType
  pub opcode : String
  pub domain : Representation

abbrev pub op : List ValueType → ValueType → String → Representation → Operation
op expected output opcode domain = record {
  expected = expected;
  output = output;
  opcode = opcode;
  domain = domain;
}

-- `H2S` by the type of its first argument.
abbrev pub conversion : Option ValueType → Option Operation
conversion none = none
conversion (some ty) =
    if type_beq ty fhe_uint
    then some (op (fhe_uint ∷ []) sint "convert.h2s" secret_sharing)
    else if type_beq ty fhe_bool
    then some (op (fhe_bool ∷ []) secret_bool "convert.h2s" secret_sharing)
    else none

-- The arms of the `match` on the name, but for `H2S`.
abbrev pub operations : Dict String Operation
operations =
    ("FHE.encrypt", op (uint ∷ []) fhe_uint "fhe.encrypt" fhe)
    ∷ ("FHE.add", op (fhe_uint ∷ fhe_uint ∷ []) fhe_uint "fhe.add" fhe)
    ∷ ("FHE.sub", op (fhe_uint ∷ fhe_uint ∷ []) fhe_uint "fhe.sub" fhe)
    ∷ ("FHE.ge", op (fhe_uint ∷ fhe_uint ∷ []) fhe_bool "fhe.ge" fhe)
    ∷ ("MPC.add", op (sint ∷ sint ∷ []) sint "mpc.add" secret_sharing)
    ∷ ("MPC.sub", op (sint ∷ sint ∷ []) sint "mpc.sub" secret_sharing)
    ∷ ("MPC.ge", op (sint ∷ sint ∷ []) secret_bool "mpc.ge" secret_sharing)
    ∷ ("S2H", op (sint ∷ []) fhe_uint "convert.s2h" fhe)
    ∷ ("Pick", op (sint ∷ []) opened "opening.pick" public)
    ∷ ("receiveEncryptedToken", op (fhe_uint ∷ []) void "host.receive_encrypted_token" fhe)
    ∷ ("sendEncryptedToken", op (address ∷ fhe_uint ∷ []) void "host.send_encrypted_token" fhe)
    ∷ []

unfoldable pub operation : String → Option ValueType → Result Message Operation
unfolding type_beq
operation name first_type =
    if string_eq.beq name "H2S"
    then ok_or (conversion first_type) h2s_argument
    else ok_or (lookup name operations) (unknown_operation name)
