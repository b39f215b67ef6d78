-- ===== src/Compiler/Typing/Execution.antt =====
-- The executor of crates/runtime/src/manifest.rs on contracts that crates/compiler/src/lib.rs made.
use ppsc.Base.{
  ◌≢◌, ◌≡◌, refl, sym, Option, none, some, List, [], ◌∷◌, ◌++◌, map, String, All, Result, ok, err,
  and_then, arith, inl, inr, Bool-cases, string_eq, pair_eq,
}
use mathlib.Core.List.{append_assoc, append-nil}
use mathlib.Core.Path.{subst}
use ppsc.Base.Bytes.{Bytes}
use ppsc.Base.Dict.{lookup, insert}
use Prim.Native.String.{String, ◌++◌ as str_append}
use ppsc.Manifest.Types.{
  ValueType, address, type_beq, ManifestRuntimeError, unknown_reference, ManifestValue,
  address_value, PlannedWrite, FunctionManifest, ContractManifest, AbiInput, InvocationInputs,
  HostCall, ManifestStateStore, ManifestCryptoBackend,
}
use ppsc.Manifest.Executor.{
  Values, find_function, bind_inputs, run_operators, plan_write, plan_writes, resolve_opening,
  finish, evaluate,
}
use ppsc.Compiler.Syntax.{StateDecl, Param, Function, Program}
use ppsc.Compiler.Typing.{Scope, scope_after, OpeningTyped, type_eq}
use ppsc.Manifest.Executor.{state_of}
use ppsc.Manifest.Types.{invalid_manifest}
use ppsc.Manifest.Executor.{find_state}
use ppsc.Compiler.Typing.{opened}
use ppsc.Manifest.Executor.{write_key}
use ppsc.Manifest.Types.{StateManifest, invalid_state_key}
use ppsc.Compiler.Typing.Programs.{StatesFollow}
use ppsc.Manifest.Executor.{check_inputs, validate_inputs}
use ppsc.Compiler.Typing.Programs.{FunctionsTyped}
use ppsc.Compiler.Typing.Functions.{FunctionTyped}
use ppsc.Compiler.Lowering.{abi_input}
use ppsc.Compiler.Compile.{compile_program}
use ppsc.Compiler.Typing.Functions.{initial_scope, param_scope}
use ppsc.Manifest.Types.{missing_input}
use ppsc.Manifest.Types.{type_mismatch}
use ppsc.Manifest.Types.{function_not_found}
use ppsc.Compiler.Typing.Programs.{compile_program_typed}
use ppsc.Compiler.Typing.Resolved.{IsResolving}
use ppsc.Compiler.Typing.Resolved.{Bound, Resolved, Resolved-known}
use ppsc.Compiler.Typing.Resolved.{Any, Bound-snoc, value}
use ppsc.Compiler.Typing.Writes.{KeyBound, WriteBound}
use ppsc.Compiler.Typing.Resolved.{Resolved-map, Resolved-then, Resolved-when, other}
use ppsc.Compiler.Typing.Operators.{run_operators-Resolved}
use ppsc.Compiler.Typing.Resolved.{Resolved-found, Resolved-ok_or, resolve-Resolved}
use ppsc.Compiler.Typing.Resolved.{of_type-Resolved, state_key-Resolved}
use ppsc.Compiler.Typing.Writes.{not_const, writes_bound}

module _ {S : Type 0} (manifest : ContractManifest) (store : ManifestStateStore S)
    (backend : ManifestCryptoBackend) (resolving : IsResolving store backend) where
  write_key-Resolved :
      (scope : Scope) (values : Values) (key : Option String) (key_type : Option ValueType)
      → Bound scope values
      → KeyBound scope key
      → Resolved Any (write_key key key_type values)
  unfolding write_key
  write_key-Resolved scope values none none bound h = value tt
  write_key-Resolved scope values none (some ty) bound h = other refl
  write_key-Resolved scope values (some r) none bound h = other refl
  write_key-Resolved scope values (some r) (some ty) bound (t, h) =
      Resolved-when (type_beq ty address)
        (Resolved-then (resolve-Resolved scope values bound r t h) λ v _. state_key-Resolved v)
        (other {e = invalid_state_key} refl)

  plan_write-Resolved :
      (scope : Scope) (values : Values) (w : PlannedWrite)
      → Bound scope values
      → WriteBound scope w
      → Resolved Any (plan_write manifest store backend w values)
  unfolding plan_write state_of
  plan_write-Resolved scope values w bound ((t, h), key) =
      Resolved-then (Resolved-ok_or (find_state w.state manifest.state) invalid_manifest refl)
        λ d _. Resolved-then (write_key-Resolved scope values w.key d.key_type bound key) λ k _.
          Resolved-then (resolve-Resolved scope values bound w.value t h)
            λ v _. Resolved-map _ (of_type-Resolved d.value_type v) λ _ _. tt

  plan_writes-Resolved :
      (scope : Scope) (values : Values) (ws : List PlannedWrite)
      → Bound scope values
      → All (WriteBound scope) ws
      → Resolved Any (plan_writes manifest store backend ws values)
  unfolding plan_writes
  plan_writes-Resolved scope values [] bound h = value tt
  plan_writes-Resolved scope values (w ∷ ws) bound (hw, h) =
      Resolved-then (plan_write-Resolved scope values w bound hw)
        λ v _. Resolved-map _ (plan_writes-Resolved scope values ws bound h) λ _ _. tt

  opening-Resolved :
      (scope : Scope) (values : Values) (o : Option String)
      → Bound scope values
      → OpeningTyped scope o
      → Resolved Any (resolve_opening manifest store backend o values)
  unfolding resolve_opening
  opening-Resolved scope values none bound h = value tt
  opening-Resolved scope values (some r) bound h =
      Resolved-map _
        (resolve-Resolved scope values bound r opened
          (not_const scope r opened h (unfold type_beq in refl)))
        λ _ _. tt

  finish-Resolved :
      (scope : Scope) (function : FunctionManifest) (r : Result ManifestRuntimeError Values)
      (calls : List HostCall)
      → Resolved (Bound scope) r
      → All (WriteBound scope) function.state_writes
      → OpeningTyped scope function.opening_output
      → Resolved Any (finish manifest store backend function (r, calls))
  unfolding finish
  finish-Resolved scope function r calls h writes opening = Resolved-then h λ values bound.
      Resolved-then (plan_writes-Resolved scope values function.state_writes bound writes) λ ws _.
        Resolved-map _ (opening-Resolved scope values function.opening_output bound opening)
          λ _ _. tt

  bind_inputs-Resolved :
      (ps : List Param) (inputs : InvocationInputs) (scope : Scope) (values : Values)
      → Bound scope values
      → Resolved (Bound (scope ++ param_scope ps)) (bind_inputs (map abi_input ps) inputs values)
  unfolding bind_inputs abi_input
  bind_inputs-Resolved [] inputs scope values bound = value (rw append-nil bound)
  bind_inputs-Resolved (p ∷ ps) inputs scope values bound =
      Resolved-then (Resolved-ok_or (lookup p.name inputs) missing_input refl) λ v _.
        rw (sym (append_assoc scope ((str_append "input:" p.name, p.ty) ∷ []) (param_scope ps))) (
          bind_inputs-Resolved ps inputs (scope ++ (str_append "input:" p.name, p.ty) ∷ [])
            (insert (str_append "input:" p.name) v values)
            (Bound-snoc scope values (str_append "input:" p.name) p.ty v bound))

  sender-Bound :
      (v : ManifestValue)
      → Bound (("context:msg.sender", address) ∷ []) (insert "context:msg.sender" v [])
  sender-Bound v = Bound-snoc [] [] "context:msg.sender" address v λ r ty h. absurd (ground arith)

  check_inputs-Resolved :
      (declared : List AbiInput) (inputs : InvocationInputs)
      → Resolved Any (check_inputs declared inputs)
  unfolding check_inputs
  check_inputs-Resolved [] inputs = value tt
  check_inputs-Resolved (d ∷ rest) inputs =
      Resolved-then (Resolved-ok_or (lookup d.name inputs) missing_input refl)
        λ v _. Resolved-when _ (other {e = type_mismatch} refl) (check_inputs-Resolved rest inputs)

  validate_inputs-Resolved :
      (function : FunctionManifest) (inputs : InvocationInputs)
      → Resolved Any (validate_inputs function inputs)
  unfolding validate_inputs
  validate_inputs-Resolved function inputs =
      Resolved-when _ (other {e = missing_input} refl)
        (check_inputs-Resolved function.inputs inputs)

  found_typed :
      (name : String) (states : List StateDecl) (gs : List Function) (ms : List FunctionManifest)
      {m : FunctionManifest}
      → FunctionsTyped states gs ms
      → find_function name ms ≡ some m
      → (g : Function) × FunctionTyped states g m
  unfolding find_function
  found_typed name states [] [] typed found = absurd (ground arith)
  found_typed name states [] (x ∷ ms) typed found = absurd typed
  found_typed name states (g ∷ gs) [] typed found = absurd typed
  found_typed name states (g ∷ gs) (x ∷ ms) {m} (hx, typed) found =
      elim (Bool-cases (string_eq.beq x.name name)) [
        | inl here ↦ let is : x ≡ m = ground arith in (g, subst (FunctionTyped states g) is hx)
        | inr there ↦
            let next : find_function name ms ≡ some m = ground arith in
            found_typed name states gs ms typed next
      ]

  evaluate_typed :
      (states : List StateDecl) (g : Function) (m : FunctionManifest) (sender : Bytes)
      (inputs : InvocationInputs) (s : S) (ms : List StateManifest)
      → StatesFollow states ms
      → FunctionTyped states g m
      → Resolved Any (
          and_then
            (bind_inputs m.inputs inputs (insert "context:msg.sender" (address_value sender) []))
            λ values.
              finish manifest store backend m
                (run_operators manifest store backend m.operators s values []))
  evaluate_typed states g m sender inputs s ms follow (named, same, ops, writes, opening) =
      Resolved-then
        (rw same (
          bind_inputs-Resolved g.params inputs (("context:msg.sender", address) ∷ []) _
            (sender-Bound (address_value sender))))
        λ values bound.
          let ran = run_operators manifest store backend m.operators s values [] in
          finish-Resolved (scope_after (initial_scope g.params) m.operators) m ran.0 ran.1
            (run_operators-Resolved manifest store backend resolving states m.operators
              (initial_scope g.params) s values [] bound ops)
            (writes_bound states ms _ m.state_writes follow writes) opening

  evaluate-Resolved :
      (p : Program) (name : String) (sender : Bytes) (inputs : InvocationInputs) (s : S)
      → StatesFollow p.states manifest.state
      → FunctionsTyped p.states p.functions manifest.functions
      → Resolved Any (evaluate manifest store backend name sender inputs s)
  unfolding evaluate
  evaluate-Resolved p name sender inputs s follow typed =
      Resolved-then (Resolved-found (find_function name manifest.functions) function_not_found refl)
        λ m found. Resolved-then (validate_inputs-Resolved m inputs) λ _ _.
          let (g, function_typed) =
            found_typed name p.states p.functions manifest.functions typed found in
          evaluate_typed p.states g m sender inputs s manifest.state follow function_typed

  -- A contract that the compiler made from a program never fails at run time with an unknown
  -- reference, whatever function is called by whom with which inputs and on which state of the
  -- store, over any store and backend that do not report this error of their own.
  pub compiled_references_resolve :
      (selector : String → String) (p : Program) (name : String) (sender : Bytes)
      (inputs : InvocationInputs) (s : S)
      → compile_program selector p ≡ ok manifest
      → evaluate manifest store backend name sender inputs s ≢ err unknown_reference
  compiled_references_resolve selector p name sender inputs s compiled =
      let (follow, apart, typed) = compile_program_typed selector p compiled in
      Resolved-known (evaluate-Resolved p name sender inputs s follow typed)
