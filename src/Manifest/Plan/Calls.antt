-- ===== src/Manifest/Plan/Calls.antt =====
-- What `execute_operator` of crates/runtime/src/manifest.rs does over the operators of a function:
-- the values they bind and the host calls they plan.
use ppsc.Base.{
  ◌≡◌, refl, sym, ap, ◌∙◌, inl, inr, true, false, List, [], ◌∷◌, ◌++◌, map, arith, String,
  if◌then◌else◌, Bool-cases, ok, Result-cases, nat_eq, pair_eq, bytes_eq, string_eq,
}
use ppsc.Base.Dict.{insert}
use Prim.Native.String.{String}
use ppsc.Manifest.Types.{
  ManifestValue, OperatorNode, ContractManifest, HostCall, ManifestStateStore,
  ManifestCryptoBackend,
}
use ppsc.Manifest.Executor.{
  Values, resolve_all, is_host_call, dispatch, execute_operator, run_operators,
}

-- The opcodes of the operators that are host calls, in order.
abbrev pub host_opcodes : List OperatorNode → List String
host_opcodes [] = []
host_opcodes (operator ∷ operators) =
    if is_host_call operator.opcode
    then operator.opcode ∷ host_opcodes operators
    else host_opcodes operators

abbrev pub opcodes_of : List HostCall → List String
opcodes_of calls = map (λ c. c.opcode) calls

-- The host call of an operator on its arguments, where it is one.
abbrev pub own_calls : OperatorNode → List ManifestValue → List HostCall
own_calls operator arguments =
    if is_host_call operator.opcode
    then record { opcode = operator.opcode; arguments = arguments } ∷ []
    else []

not_host :
    (name opcode : String)
    → is_host_call name ≡ false
    → string_eq.beq opcode name ≡ true
    → is_host_call opcode ≡ false
not_host name opcode h same = ap is_host_call ((string_eq.beq_iff opcode name).0 same) ∙ h

assoc : {A : Type 0} (xs ys zs : List A) → (xs ++ ys) ++ zs ≡ xs ++ (ys ++ zs)
assoc [] ys zs = refl
assoc (x ∷ xs) ys zs = ap (λ l. x ∷ l) (assoc xs ys zs)

append_nil : {A : Type 0} (xs : List A) → xs ++ [] ≡ xs
append_nil [] = refl
append_nil (x ∷ xs) = ap (λ l. x ∷ l) (append_nil xs)

module _ {S : Type 0} (manifest : ContractManifest) (store : ManifestStateStore S)
    (backend : ManifestCryptoBackend) where
  -- From the values `start`, the operators run one after the other over the values so far: each
  -- on the arguments that its references stand for, with its output bound under its id, and each
  -- that is a host call planning the call with its arguments. `calls` are those calls in order
  -- and `end` the values after the last operator.
  abbrev pub Runs : S → List OperatorNode → Values → List HostCall → Values → Type 0
  Runs s [] start calls end = (calls ≡ []) × (end ≡ start)
  Runs s (op ∷ ops) start calls end =
      (arguments : List ManifestValue) × (output : ManifestValue) × (rest : List HostCall)
      × (resolve_all op.inputs start ≡ ok arguments)
      × ((dispatch manifest store backend op arguments s []).0 ≡ ok output)
      × (calls ≡ own_calls op arguments ++ rest)
      × Runs s ops (insert op.id output start) rest end

  pub Runs-opcodes :
      (s : S) (ops : List OperatorNode) (start : Values) (calls : List HostCall) (end : Values)
      → Runs s ops start calls end
      → opcodes_of calls ≡ host_opcodes ops
  Runs-opcodes s [] start calls end (none_planned, same) = ap opcodes_of none_planned
  Runs-opcodes s (op ∷ ops) start calls end (arguments, output, rest, read, done, planned, later) =
      let ih = Runs-opcodes s ops (insert op.id output start) rest end later in
      rw planned (elim (Bool-cases (is_host_call op.opcode)) [
        | inl host ↦ rw host (ap (λ l. op.opcode ∷ l) ih)
        | inr other_code ↦ rw other_code ih
      ])

  dispatch_calls :
      (op : OperatorNode) (arguments : List ManifestValue) (s : S) (calls : List HostCall)
      → dispatch manifest store backend op arguments s calls
        ≡ ((dispatch manifest store backend op arguments s []).0, calls ++ own_calls op arguments)
  unfolding dispatch
  dispatch_calls op arguments s calls = ground (
    arith,
    append_nil calls,
    not_host "load_state" op.opcode refl,
    not_host "require_secret" op.opcode refl,
    not_host "opening.pick" op.opcode refl,
  )

  pub run_operators-Runs :
      (ops : List OperatorNode) (s : S) (start : Values) (calls : List HostCall) {end : Values}
      → (run_operators manifest store backend ops s start calls).0 ≡ ok end
      → (more : List HostCall) × ((run_operators manifest store backend ops s start calls).1
          ≡ calls ++ more)
        × Runs s ops start more end
  unfolding run_operators execute_operator
  run_operators-Runs [] s start calls {end} h =
      let same : end ≡ start = ground arith in ([], sym (append_nil calls), (refl, same))
  run_operators-Runs (op ∷ ops) s start calls {end} h =
      elim (Result-cases (resolve_all op.inputs start)) [
        | inr (e, failed) ↦ absurd (ground arith)
        | inl (arguments, read) ↦
            elim (Result-cases (dispatch manifest store backend op arguments s []).0) [
              | inr (e, failed) ↦
                  absurd (ground (arith, read, failed, dispatch_calls op arguments s calls))
              | inl (output, done) ↦
                  let so_far = calls ++ own_calls op arguments in
                  let ran =
                    run_operators manifest store backend ops s (insert op.id output start) so_far in
                  let stepped : run_operators manifest store backend (op ∷ ops) s start calls
                      ≡ ran =
                    rw (read, dispatch_calls op arguments s calls, done) refl in
                  let (more, planned, later) =
                    run_operators-Runs ops s (insert op.id output start) so_far
                      (ap (λ r. r.0) (sym stepped) ∙ h) in
                  (
                    own_calls op arguments ++ more,
                    ap (λ r. r.1) stepped ∙ planned ∙ assoc calls (own_calls op arguments) more,
                    (arguments, output, more, read, done, refl, later),
                  )
            ]
      ]
