-- ===== src/Compiler/Compile.antt =====
-- `compile` of crates/compiler/src/lib.rs.
use ppsc.Base.{
  Bool, true, not, Option, none, some, List, [], ◌∷◌, String, if◌then◌else◌, Result, ok, err,
  and_then, map_ok, string_eq,
}
use ppsc.Base.Bytes.{Bytes}
use ppsc.Base.Dict.{contains}
use ppsc.Manifest.Types.{
  ValueType, address, fhe_uint, sint, type_beq, StateManifest, FunctionManifest, ContractManifest,
}
use ppsc.Compiler.Syntax.{
  representation_of, StateDecl, Function, Program, Message, state_type, state_key_type,
  duplicate_state, CompileError,
}
use ppsc.Compiler.Outcome.{Outcome, done, failed, bind}
use ppsc.Compiler.Declarations.{parse_source}
use ppsc.Compiler.Lowering.{lower}
use Prim.Native.String.{String}

abbrev global_error : {A : Type 0} → Message → Result CompileError A
global_error message = err (record { message = message; offset = 0 })

abbrev pub is_state_type : ValueType → Bool
is_state_type ty = if type_beq ty fhe_uint then true else type_beq ty sint

abbrev pub is_key_type : Option ValueType → Bool
is_key_type none = true
is_key_type (some ty) = type_beq ty address

unfoldable pub state_manifest : StateDecl → StateManifest
unfolding representation_of
state_manifest declaration = record {
  name = declaration.name;
  value_type = declaration.ty;
  key_type = declaration.key_ty;
  representation = representation_of declaration.ty;
}

-- The loop over the declared states, with the names that came before.
unfoldable pub check_states :
    List String → List StateDecl → Result CompileError (List StateManifest)
unfolding type_beq state_manifest
check_states names [] = ok []
check_states names (d ∷ rest) =
    let later = check_states (d.name ∷ names) rest in
    if not (is_state_type d.ty)
    then global_error (state_type d.name)
    else if not (is_key_type d.key_ty)
    then global_error (state_key_type d.name)
    else if contains names d.name
    then global_error (duplicate_state d.name)
    else map_ok (λ states. state_manifest d ∷ states) later

module _ (selector : String → String) where
  unfoldable pub lower_functions :
      List StateDecl → List Function → Result CompileError (List FunctionManifest)
  unfolding lower
  lower_functions states [] = ok []
  lower_functions states (function ∷ rest) =
      let later = lower_functions states rest in
      and_then (lower selector states function) λ f. map_ok (λ fs. f ∷ fs) later

  unfoldable pub compile_program : Program → Result CompileError ContractManifest
  unfolding check_states lower_functions
  compile_program program = and_then (check_states [] program.states) λ state.
      map_ok
        (λ functions. record {
          language_version = 1;
          contract = program.name;
          state = state;
          functions = functions;
        })
        (lower_functions program.states program.functions)

  abbrev of_result : {A : Type 0} → Result CompileError A → Outcome A
  of_result (ok a) = done a
  of_result (err e) = failed e

  unfoldable pub compile : Bytes → Outcome ContractManifest
  unfolding parse_source compile_program
  compile source = bind (parse_source source) λ program. of_result (compile_program program)
