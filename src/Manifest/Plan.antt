-- ===== src/Manifest/Plan.antt =====
-- What an evaluated function plans: its host calls, its writes and its opening follow the manifest.
pub mod Calls
pub mod Writes
use ppsc.Base.{
  ◌≡◌, ap, ◌∙◌, inl, inr, some, arith, String, [], Option-cases, ok, Result-cases, nat_eq, pair_eq,
  bytes_eq, string_eq, sym,
}
use ppsc.Base.Bytes.{Bytes}
use ppsc.Base.Dict.{insert}
use Prim.Native.String.{String}
use ppsc.Manifest.Types.{
  address_value, FunctionManifest, ContractManifest, InvocationInputs, ExecutionOutcome,
  ManifestStateStore, ManifestCryptoBackend,
}
use ppsc.Manifest.Executor.{
  Values, find_function, validate_inputs, bind_inputs, run_operators, plan_writes, resolve_opening,
  finish, evaluate,
}
use ppsc.Manifest.Plan.Calls.{Runs, Runs-opcodes, opcodes_of, host_opcodes, run_operators-Runs}
use ppsc.Manifest.Plan.Writes.{FollowsPlan, Opens, plan_writes-FollowsPlan, resolve_opening-Opens}

module _ {S : Type 0} (manifest : ContractManifest) (store : ManifestStateStore S)
    (backend : ManifestCryptoBackend) where
  -- The values that a function starts from, the sender and the inputs, are bound.
  abbrev pub Starts : FunctionManifest → Bytes → InvocationInputs → Values → Type 0
  Starts function sender inputs start =
      (validate_inputs function inputs ≡ ok tt)
      × (bind_inputs function.inputs inputs (insert "context:msg.sender" (address_value sender) [])
          ≡ ok start)

  abbrev pub Performs : FunctionManifest → S → Values → Values → ExecutionOutcome → Type 0
  Performs function s start end outcome =
      Runs manifest store backend s function.operators start outcome.host_calls end
      × (opcodes_of outcome.host_calls ≡ host_opcodes function.operators)
      × FollowsPlan manifest end function.state_writes outcome.state_writes
      × Opens end function.opening_output outcome.opening

  finish-Performs :
      (function : FunctionManifest) (s : S) (start : Values) {outcome : ExecutionOutcome}
      → finish manifest store backend function
          (run_operators manifest store backend function.operators s start [])
        ≡ ok outcome
      → (end : Values) × Performs function s start end outcome
  unfolding finish
  finish-Performs function s start {outcome} h =
      let ran = run_operators manifest store backend function.operators s start [] in
      elim (Result-cases ran.0) [
        | inr (e, failed) ↦ absurd (ground arith)
        | inl (end, done) ↦
            elim (Result-cases (plan_writes manifest store backend function.state_writes end)) [
              | inr (e, failed) ↦ absurd (ground arith)
              | inl (ws, planned) ↦
                  elim (Result-cases
                    (resolve_opening manifest store backend function.opening_output end)) [
                      | inr (e, failed) ↦ absurd (ground arith)
                      | inl (o, opened) ↦
                          let made : outcome
                              ≡ record { state_writes = ws; host_calls = ran.1; opening = o } =
                            ground arith in
                          let (more, all, runs) =
                            run_operators-Runs manifest store backend function.operators s start []
                              done in
                          rw (made, all)
                            (
                              end,
                              (
                                runs,
                                Runs-opcodes manifest store backend s function.operators start more
                                    end runs,
                                plan_writes-FollowsPlan manifest store backend function.state_writes
                                    end planned,
                                resolve_opening-Opens manifest store backend function.opening_output
                                    end opened,
                              ),
                            )
                    ]
            ]
      ]

  -- When the evaluation of a function succeeds, for any store and backend, the function is the
  -- one the manifest has under that name and the inputs are valid and bound. Its operators run
  -- one after the other from those values, each on the arguments that its references stand for
  -- then. The planned host calls are exactly those of its host operators with their arguments, in
  -- their order. The planned writes are its declared writes in their order, each to a declared
  -- state, at the key that its key reference stands for after the last operator, and with the
  -- value that its value reference stands for then, which has the declared type. The opening is
  -- the value of its reference then, where it has one.
  pub evaluate_follows_manifest :
      (name : String) (sender : Bytes) (inputs : InvocationInputs) (s : S)
      {outcome : ExecutionOutcome}
      → evaluate manifest store backend name sender inputs s ≡ ok outcome
      → (function : FunctionManifest) × (start end : Values) × (find_function name
            manifest.functions
          ≡ some function)
        × Starts function sender inputs start
        × Performs function s start end outcome
  unfolding evaluate
  evaluate_follows_manifest name sender inputs s {outcome} h =
      elim (Option-cases (find_function name manifest.functions)) [
        | inl missing ↦ absurd (ground arith)
        | inr (function, found) ↦ elim (Result-cases (validate_inputs function inputs)) [
          | inr (e, failed) ↦ absurd (ground arith)
          | inl (u, valid) ↦
              elim (Result-cases (
                bind_inputs function.inputs inputs
                  (insert "context:msg.sender" (address_value sender) []))) [
                    | inr (e, failed) ↦ absurd (ground arith)
                    | inl (start, bound) ↦
                        let finished : finish manifest store backend function
                              (run_operators manifest store backend function.operators s start [])
                            ≡ ok outcome =
                          ground arith in
                        let (end, follows) = finish-Performs function s start finished in
                        (function, start, end, found, (valid, bound), follows)
                  ]
        ]
      ]
