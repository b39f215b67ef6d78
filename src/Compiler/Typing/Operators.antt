-- ===== src/Compiler/Typing/Operators.antt =====
-- Compiled operators of crates/compiler/src/lib.rs find their references when executed.
use ppsc.Base.{
  refl, Bool, true, false, not, List, [], ◌∷◌, ◌++◌, Result, ok, string_eq, pair_eq, if◌then◌else◌,
}
use ppsc.Base.Dict.{insert}
use ppsc.Manifest.Types.{
  ValueType, ManifestRuntimeError, ManifestValue, OperatorNode, ContractManifest, HostCall,
  ManifestStateStore, ManifestCryptoBackend,
}
use ppsc.Manifest.Executor.{Values, resolve_all, dispatch, require_secret, run_operators}
use ppsc.Compiler.Syntax.{StateDecl}
use ppsc.Compiler.Typing.{
  Scope, HasTypes, WellTyped, loads, operates, TypedOperators, scope_after, entry, type_eq,
}
use ppsc.Manifest.Executor.{load_state}
use ppsc.Manifest.Executor.{open_picked}
use ppsc.Manifest.Executor.{evaluate_operator}
use ppsc.Manifest.Executor.{state_of}
use ppsc.Manifest.Executor.{is_host_call}
use ppsc.Manifest.Executor.{execute_operator, is_committee_domain}
use ppsc.Base.{first}
use ppsc.Manifest.Types.{invalid_manifest, void_value}
use ppsc.Manifest.Types.{policy_rejected, unsupported_operator}
use ppsc.Manifest.Executor.{find_state}
use ppsc.Compiler.Typing.{opened}
use ppsc.Compiler.Typing.Resolved.{IsResolving}
use ppsc.Compiler.Typing.Resolved.{Bound, Resolved}
use ppsc.Compiler.Typing.Resolved.{Any, value}
use ppsc.Compiler.Typing.Resolved.{Resolved-then, Resolved-when, after-Resolved}
use ppsc.Compiler.Typing.Resolved.{Resolved-ok_or, other, resolve_all-Resolved}
use ppsc.Compiler.Typing.Resolved.{Bound-snoc, load_key-Resolved, of_type-Resolved}

module _ {S : Type 0} (manifest : ContractManifest) (store : ManifestStateStore S)
    (backend : ManifestCryptoBackend) (resolving : IsResolving store backend) where
  load_state-Resolved :
      (op : OperatorNode) (arguments : List ManifestValue) (s : S)
      → Resolved Any (load_state manifest store backend op arguments s)
  unfolding load_state state_of
  load_state-Resolved op arguments s =
      Resolved-then (Resolved-ok_or op.state invalid_manifest refl) λ name _.
        Resolved-then (Resolved-ok_or (find_state name manifest.state) invalid_manifest refl) λ d _.
          Resolved-then (load_key-Resolved d.key_type arguments) λ key _.
            Resolved-then (resolving.loads_resolve name key s)
              λ v _. of_type-Resolved op.output_type v

  require_secret-Resolved :
      (arguments : List ManifestValue)
      → Resolved Any (require_secret manifest store backend arguments)
  unfolding require_secret
  require_secret-Resolved arguments =
      Resolved-then (Resolved-ok_or (first arguments) invalid_manifest refl) λ c _.
        Resolved-then (resolving.secret_bool_resolves c) λ b _.
          Resolved-when (not b) (other {e = policy_rejected} refl) (value {a = void_value} tt)

  open_picked-Resolved :
      (arguments : List ManifestValue) → Resolved Any (open_picked manifest store backend arguments)
  unfolding open_picked
  open_picked-Resolved arguments =
      Resolved-then (Resolved-ok_or (first arguments) invalid_manifest refl)
        λ v _. Resolved-then (resolving.pick_resolves v) λ w _. of_type-Resolved opened w

  evaluate_operator-Resolved :
      (op : OperatorNode) (arguments : List ManifestValue)
      → Resolved Any (evaluate_operator manifest store backend op arguments)
  unfolding evaluate_operator
  evaluate_operator-Resolved op arguments =
      Resolved-when (not (is_committee_domain op.domain)) (other {e = unsupported_operator} refl) (
        Resolved-then (resolving.evaluate_resolves op.opcode arguments)
          λ v _. of_type-Resolved op.output_type v)

  pair-when :
      (b : Bool) (x y : Result ManifestRuntimeError ManifestValue × List HostCall)
      → Resolved (Any {A = ManifestValue}) x.0
      → Resolved (Any {A = ManifestValue}) y.0
      → Resolved (Any {A = ManifestValue}) (if b then x else y).0
  pair-when true x y hx hy = hx
  pair-when false x y hx hy = hy

  dispatch-Resolved :
      (op : OperatorNode) (arguments : List ManifestValue) (s : S) (calls : List HostCall)
      → Resolved Any (dispatch manifest store backend op arguments s calls).0
  unfolding dispatch
  dispatch-Resolved op arguments s calls = pair-when _ _ _ (load_state-Resolved op arguments s) (
      pair-when _ _ _ (require_secret-Resolved arguments) (
        pair-when _ _ _ (open_picked-Resolved arguments) (
          pair-when (is_host_call op.opcode) (ok void_value, _) _ (value tt)
            (evaluate_operator-Resolved op arguments))))

  inputs_of :
      {states : List StateDecl} {scope : Scope} {op : OperatorNode}
      → WellTyped states scope op
      → (tys : List ValueType) × HasTypes scope op.inputs tys
  inputs_of (loads name d key_type key e1 e2 e3 e4 inputs typed e5) =
      (key_type ∷ [], rw inputs (typed, tt))
  inputs_of (operates expected e signature typed) = (expected, typed)

  pub run_operators-Resolved :
      (states : List StateDecl) (ops : List OperatorNode) (scope : Scope) (s : S) (values : Values)
      (calls : List HostCall)
      → Bound scope values
      → TypedOperators states scope ops
      → Resolved
          (Bound (scope_after scope ops))
          (run_operators manifest store backend ops s values calls).0
  unfolding run_operators execute_operator
  run_operators-Resolved states [] scope s values calls bound typed = value bound
  run_operators-Resolved states (op ∷ ops) scope s values calls bound (typed, later) =
      let (tys, has) = inputs_of typed in
      let arguments = resolve_all op.inputs values in
      let run = execute_operator manifest store backend op values s calls in
      after-Resolved run.0 run.1 _
        (after-Resolved arguments calls (λ args. dispatch manifest store backend op args s)
          (resolve_all-Resolved scope values bound op.inputs tys has)
          λ args calls' _. dispatch-Resolved op args s calls')
        λ v calls' _.
          run_operators-Resolved states ops (scope ++ entry op ∷ []) s (insert op.id v values)
            calls' (Bound-snoc scope values op.id op.output_type v bound) later
