-- ===== src/Compiler/Lowering.antt =====
-- `Lowerer` of crates/compiler/src/lib.rs: a function becomes operators, writes and an opening.
use ppsc.Base.{
  ℕ, ◌+◌, Option, none, some, List, [], ◌∷◌, ◌++◌, map, String, ◌==◌, if◌then◌else◌, length, first,
  Result, ok, err, ok_or, Action, pure, lift, modify, ◌>>=◌, nat_eq, string_eq,
}
use ppsc.Base.Dict.{Dict, lookup, insert}
use Prim.Native.String.{String, ◌++◌ as str_append}
use ppsc.Manifest.Types.{
  ValueType, address, uint, secret_bool, opened, void, type_beq, Representation, secret_sharing,
  AbiInput, OperatorNode, PlannedWrite, FunctionManifest,
}
use ppsc.Compiler.Text.{decimal}
use ppsc.Compiler.Syntax.{
  abi_type, representation_of, Expression, Arguments, Statement, Param, StateDecl, Function, name,
  number, index, call, no_arguments, argument, local, assign, require, return_value, evaluate,
  Message, unknown_value, unknown_private_state, only_opened_returned, scalar_indexed,
  mapping_not_indexed, not_assignable, wrong_type, wrong_count, wrong_argument, in_function,
  CompileError,
}
use ppsc.Compiler.Operations.{operation}

pub record TypedRef : Type 0 where
  pub ty : ValueType
  pub reference : String

pub record Lowerer : Type 0 where
  pub env : Dict String TypedRef
  pub operators : List OperatorNode
  pub writes : List PlannedWrite
  pub opening_output : Option String

abbrev pub Lowered : Type 0 → Type 0
Lowered A = Action CompileError Lowerer A

unfoldable pub find_decl : String → List StateDecl → Option StateDecl
find_decl n [] = none
find_decl n (declared ∷ rest) =
    let later = find_decl n rest in if string_eq.beq declared.name n then some declared else later

abbrev pub types_of : List TypedRef → List ValueType
types_of refs = map (λ r. r.ty) refs

abbrev pub references_of : List TypedRef → List String
references_of refs = map (λ r. r.reference) refs

-- The operator that `push_node` appends, under the next number.
abbrev pub node_id : List OperatorNode → String
node_id operators = str_append "op" (decimal (length operators))

abbrev pub node :
    String
    → Representation
    → List String
    → ValueType
    → Option String
    → List OperatorNode
    → OperatorNode
node opcode domain inputs output_type state operators = record {
  id = node_id operators;
  opcode = opcode;
  domain = domain;
  inputs = inputs;
  output_type = output_type;
  representation = representation_of output_type;
  state = state;
}

unfoldable pub push_node :
    String → Representation → List String → ValueType → Option String → Lowered String
unfolding decimal representation_of
push_node opcode domain inputs output_type state s = (
  ok (node_id s.operators),
  record s {
    operators = s.operators ++ node opcode domain inputs output_type state s.operators ∷ [];
  },
)

module _ (states : List StateDecl) (function : String) where
  unfoldable pub error : Message → CompileError
  error message = record { message = in_function function message; offset = 0 }

  unfoldable pub expect_type : ValueType → ValueType → String → Result CompileError (Unit {0})
  unfolding type_beq error
  expect_type expected actual context =
      if type_beq expected actual then ok tt else err (error (wrong_type context expected actual))

  unfoldable pub state_named : String → Result CompileError StateDecl
  unfolding find_decl error
  state_named n = ok_or (find_decl n states) (error (unknown_private_state n))

  -- The arguments against the expected types, counted from an index.
  unfoldable pub check_arguments :
      String → ℕ → List TypedRef → List ValueType → Result CompileError (Unit {0})
  unfolding type_beq error
  check_arguments n i [] wanted = ok tt
  check_arguments n i (r ∷ refs) [] = ok tt
  check_arguments n i (r ∷ refs) (ty ∷ wanted) =
      let later = check_arguments n (i + 1) refs wanted in
      if type_beq r.ty ty then later else err (error (wrong_argument (i + 1) n ty r.ty))

  abbrev pub failing : {A : Type 0} → Result Message A → Result CompileError A
  failing (ok a) = ok a
  failing (err message) = err (error message)

  abbrev pub count_checked :
      String → List TypedRef → List ValueType → Result CompileError (Unit {0})
  count_checked n refs expected =
      if length refs == length expected
      then ok tt
      else err (error (wrong_count n (length expected) (length refs)))

  -- What follows the lowering of the arguments in `call`.
  unfoldable pub apply_operation : String → List TypedRef → Lowered TypedRef
  unfolding operation check_arguments error push_node
  apply_operation n refs = do
    o ← lift (failing (operation n (first (types_of refs))))
    _ ← lift (count_checked n refs o.expected)
    _ ← lift (check_arguments n 0 refs o.expected)
    id ← push_node o.opcode o.domain (references_of refs) o.output none
    pure (record { ty = o.output; reference = id })

  -- What follows the lowering of the key in an indexed expression.
  unfoldable pub load_indexed : String → StateDecl → TypedRef → Lowered TypedRef
  unfolding expect_type error push_node
  load_indexed n state key = do
    expected_key ← lift (ok_or state.key_ty (error scalar_indexed))
    _ ← lift (expect_type expected_key key.ty "state key")
    id ← push_node "load_state" (representation_of state.ty) (key.reference ∷ []) state.ty (some n)
    pure (record { ty = state.ty; reference = id })

  unfoldable pub lookup_value : String → Lowered TypedRef
  unfolding error
  lookup_value n s = (ok_or (lookup n s.env) (error (unknown_value n)), s)

  unfoldable mutual
    unfolding lookup_value state_named load_indexed apply_operation

    pub lower_expression : Expression → Lowered TypedRef
    lower_expression (name n) = lookup_value n
    lower_expression (number value) =
        pure (record { ty = uint; reference = str_append "const:" value })
    lower_expression (index n key_expression) = do
      state ← lift (state_named n)
      key ← lower_expression key_expression
      load_indexed n state key
    lower_expression (call n args) = do refs ← lower_arguments args; apply_operation n refs

    pub lower_arguments : Arguments → Lowered (List TypedRef)
    lower_arguments no_arguments = pure []
    lower_arguments (argument e more) = do
      r ← lower_expression e
      rs ← lower_arguments more
      pure (r ∷ rs)

  unfoldable pub push_write : String → Option String → String → Lowered (Unit {0})
  push_write state key value =
      modify λ s. record s {
        writes = s.writes ++ record { state = state; key = key; value = value } ∷ [];
      }

  unfoldable pub write_indexed : String → StateDecl → TypedRef → TypedRef → Lowered (Unit {0})
  unfolding expect_type error push_write
  write_indexed n state key value = do
    expected_key ← lift (ok_or state.key_ty (error scalar_indexed))
    _ ← lift (expect_type expected_key key.ty "state key")
    _ ← lift (expect_type state.ty value.ty "state assignment")
    push_write n (some key.reference) value.reference

  unfoldable pub write_scalar : String → StateDecl → TypedRef → Lowered (Unit {0})
  unfolding expect_type error push_write
  write_scalar n state value = do
    _ ← lift (elim state.key_ty [ none ↦ ok tt | some key ↦ err (error mapping_not_indexed) ])
    _ ← lift (expect_type state.ty value.ty "state assignment")
    push_write n none value.reference

  unfoldable pub assignment : Expression → TypedRef → Lowered (Unit {0})
  unfolding state_named lower_expression write_indexed write_scalar error
  assignment (index n key_expression) value = do
    state ← lift (state_named n)
    key ← lower_expression key_expression
    write_indexed n state key value
  assignment (name n) value = do state ← lift (state_named n); write_scalar n state value
  assignment (number n) value = lift (err (error not_assignable))
  assignment (call n args) value = lift (err (error not_assignable))

  unfoldable pub lower_statement : Statement → Lowered (Unit {0})
  unfolding lower_expression expect_type assignment push_node error type_beq
  lower_statement (local expected n e) = do
    value ← lower_expression e
    _ ← lift (expect_type expected value.ty "local declaration")
    modify λ s. record s { env = insert n value s.env }
  lower_statement (assign target e) = do value ← lower_expression e; assignment target value
  lower_statement (require e) = do
    condition ← lower_expression e
    _ ← lift (expect_type secret_bool condition.ty "require")
    _ ← push_node "require_secret" secret_sharing (condition.reference ∷ []) void none
    pure tt
  lower_statement (return_value e) = do
    value ← lower_expression e
    _ ← lift (if type_beq value.ty opened then ok tt else err (error only_opened_returned))
    modify λ s. record s { opening_output = some value.reference }
  lower_statement (evaluate e) = do _ ← lower_expression e; pure tt

  unfoldable pub lower_body : List Statement → Lowered (Unit {0})
  unfolding lower_statement
  lower_body [] = pure tt
  lower_body (statement ∷ body) = do _ ← lower_statement statement; lower_body body

-- `Lowerer::new`: the sender and the parameters.
unfoldable pub bind_params : List Param → Dict String TypedRef → Dict String TypedRef
bind_params [] env = env
bind_params (p ∷ params) env =
    bind_params params
      (insert p.name (record { ty = p.ty; reference = str_append "input:" p.name }) env)

unfoldable pub new_lowerer : List Param → Lowerer
unfolding bind_params
new_lowerer params = record {
  env =
      bind_params params
        (insert "msg.sender" (record { ty = address; reference = "context:msg.sender" }) []);
  operators = [];
  writes = [];
  opening_output = none;
}

unfoldable pub abi_input : Param → AbiInput
unfolding abi_type representation_of
abi_input param = record {
  name = param.name;
  source_type = param.ty;
  abi_type = abi_type param.ty;
  representation = representation_of param.ty;
}

unfoldable pub join : List String → String
join [] = String.[]
join (t ∷ []) = t
join (t ∷ u ∷ rest) = str_append t (str_append "," (join (u ∷ rest)))

-- The selector is a digest, which is not part of this code.
module _ (selector : String → String) where
  unfoldable pub function_manifest : Function → Lowerer → FunctionManifest
  unfolding abi_input join
  function_manifest function s =
      let inputs = map abi_input function.params in
      let signature =
        str_append function.name
          (str_append "(" (str_append (join (map (λ i. i.abi_type) inputs)) ")")) in
      record {
        name = function.name;
        signature = signature;
        selector = selector signature;
        inputs = inputs;
        operators = s.operators;
        state_writes = s.writes;
        opening_output = s.opening_output;
      }

  abbrev pub lowered :
      Function → Result CompileError (Unit {0}) × Lowerer → Result CompileError FunctionManifest
  lowered function (ok _, s) = ok (function_manifest function s)
  lowered function (err e, s) = err e

  unfoldable pub lower : List StateDecl → Function → Result CompileError FunctionManifest
  unfolding lower_body new_lowerer function_manifest
  lower states function =
      lowered function (lower_body states function.name function.body (new_lowerer function.params))
