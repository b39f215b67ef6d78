-- ===== src/Manifest/Gate.antt =====
-- `require_secret`: a condition that does not hold stops the function before any write.
use ppsc.Base.{
  ◌≡◌, refl, inl, inr, false, some, List, [], ◌∷◌, ◌++◌, arith, String, ok, err, after,
  Result-cases, nat_eq, pair_eq, bytes_eq, string_eq,
}
use ppsc.Base.Bytes.{Bytes}
use ppsc.Base.Dict.{insert}
use Prim.Native.String.{String}
use ppsc.Manifest.Types.{
  policy_rejected, ManifestValue, address_value, OperatorNode, FunctionManifest, ContractManifest,
  InvocationInputs, HostCall, ManifestStateStore, ManifestCryptoBackend,
}
use ppsc.Manifest.Executor.{
  Values, resolve_all, find_function, validate_inputs, bind_inputs, require_secret, dispatch,
  execute_operator, run_operators, finish, evaluate, execute,
}

module _ {S : Type 0} (manifest : ContractManifest) (store : ManifestStateStore S)
    (backend : ManifestCryptoBackend) where
  run_operators-append :
      (xs ys : List OperatorNode) (s : S) (values : Values) (calls : List HostCall)
      → run_operators manifest store backend (xs ++ ys) s values calls
        ≡ after
            (run_operators manifest store backend xs s values calls)
            (λ end. run_operators manifest store backend ys s end)
  unfolding run_operators
  run_operators-append [] ys s values calls = refl
  run_operators-append (op ∷ xs) ys s values calls =
      let out = execute_operator manifest store backend op values s calls in
      elim (Result-cases out.0) [
        | inr (e, failed) ↦ ground arith
        | inl (v, done) ↦
            ground (arith, done, run_operators-append xs ys s (insert op.id v values) out.1)
      ]

  run_gate :
      (gate : OperatorNode) (later : List OperatorNode) (s : S) (values : Values)
      (calls : List HostCall) {condition : ManifestValue} {more : List ManifestValue}
      → gate.opcode ≡ "require_secret"
      → resolve_all gate.inputs values ≡ ok (condition ∷ more)
      → backend.secret_bool condition ≡ ok false
      → run_operators manifest store backend (gate ∷ later) s values calls
        ≡ (err policy_rejected, calls)
  unfolding run_operators execute_operator dispatch require_secret
  run_gate gate later s values calls named read refused = rw (read, named, refused) refl

  -- For any store and backend: if a function is found and its inputs are valid and bound, the
  -- operators before a `require_secret` ran without an error, and its first argument is a
  -- condition that the backend reads as false, then the execution fails with the policy error and
  -- the store is unchanged, whatever operators and writes come after and whatever host calls came
  -- before.
  pub failed_require_rejects :
      (name : String) (sender : Bytes) (inputs : InvocationInputs) (s : S)
      {function : FunctionManifest} (before later : List OperatorNode) (gate : OperatorNode)
      {start values : Values} {calls : List HostCall} {condition : ManifestValue}
      {more : List ManifestValue}
      → find_function name manifest.functions ≡ some function
      → function.operators ≡ before ++ gate ∷ later
      → gate.opcode ≡ "require_secret"
      → validate_inputs function inputs ≡ ok tt
      → bind_inputs function.inputs inputs (insert "context:msg.sender" (address_value sender) [])
        ≡ ok start
      → run_operators manifest store backend before s start [] ≡ (ok values, calls)
      → resolve_all gate.inputs values ≡ ok (condition ∷ more)
      → backend.secret_bool condition ≡ ok false
      → execute manifest store backend name sender inputs s ≡ (err policy_rejected, s)
  unfolding execute evaluate finish
  failed_require_rejects name sender inputs s {function} before later gate {start} {values} {calls}
        found split named valid bound ran read refused =
      let stopped : run_operators manifest store backend function.operators s start []
          ≡ (err policy_rejected, calls) =
        rw (split, run_operators-append before (gate ∷ later) s start [], ran)
          (run_gate gate later s values calls named read refused) in
      rw (found, valid, bound, stopped) refl
