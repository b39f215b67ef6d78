-- ===== src/Manifest/Daemon.antt =====
-- The committee daemon of crates/runtime/src/manifest_daemon.rs: a poll takes the task at the
-- node's cursor, and skips it, waits, or computes it and commits the result. The chain and the
-- store are interfaces. Texts are ASCII.
pub mod Hex
pub mod Types
pub mod Polls
pub mod Tests
use ppsc.Base.{
  ℕ, zero, suc, ◌+◌, ◌-◌, ◌*◌, Bool, true, false, ◌&&◌, ◌||◌, not, Option, none, some, List, [],
  ◌∷◌, String, ltb, leb, ◌==◌, if◌then◌else◌, length, take, drop, Result, ok, err, and_then,
  map_err, Action, pure, lift, gets, modify, fail_if, ◌>>=◌, ◌>>◌, after, string_eq,
}
use ppsc.Base.Bytes.{Bytes, bytes_beq, from_be_bytes, text_bytes}
use ppsc.Base.Dict.{Dict, insert}
use ppsc.Core.{Identifier, DataId, ExecutionId}
use ppsc.Manifest.Types.{
  ValueType, address, uint, fhe_uint, fhe_bool, sint, secret_bool, opened, void, type_beq,
  ManifestValue, ManifestRuntimeError, address_value, public_uint, AbiInput, FunctionManifest,
  ContractManifest, InvocationInputs, StateWrite, ExecutionOutcome, ManifestStateStore,
  ManifestCryptoBackend,
}
use ppsc.Manifest.Executor.{evaluate}
use ppsc.Manifest.Outbox.{
  DaemonError, invalid_chain_response, daemon_function_not_found, invalid_public_inputs,
  invalid_private_inputs, unsupported_parameter, runtime, encode_outbox_payload,
}
use ppsc.Manifest.Daemon.Hex.{decode_hex}
use ppsc.Manifest.Daemon.Types.{
  ChainExecutionStatus, is_terminal, is_running, ManifestChainTask, ManifestTaskSource, DaemonStore,
  PollOutcome, idle, waiting, skipped, computed, with_runtime_error,
}

-- `decode_selector(..) == Ok(selector)`
abbrev pub is_ok_with : Bytes → Result DaemonError Bytes → Bool
is_ok_with selector (ok bytes) = bytes_beq bytes selector
is_ok_with selector (err e) = false

unfoldable pub function_by_selector :
    List FunctionManifest → Bytes → Result DaemonError FunctionManifest
unfolding decode_hex
function_by_selector [] selector = err daemon_function_not_found
function_by_selector (function ∷ functions) selector =
    let later = function_by_selector functions selector in
    if is_ok_with selector (decode_hex 4 (text_bytes function.selector)) then ok function else later

abbrev pub is_public : ValueType → Bool
is_public address = true
is_public uint = true
is_public fhe_uint = false
is_public fhe_bool = false
is_public sint = false
is_public secret_bool = false
is_public opened = false
is_public void = false

unfoldable pub count_public : List AbiInput → ℕ
count_public [] = 0
count_public (i ∷ inputs) =
    let later = count_public inputs in if is_public i.source_type then suc later else later

-- `iter().any(|byte| *byte != 0)`
abbrev pub any_nonzero : Bytes → Bool
any_nonzero [] = false
any_nonzero (b ∷ bytes) = not (b == 0) || any_nonzero bytes

unfoldable pub address_word : Bytes → Result DaemonError ManifestValue
address_word word =
    if any_nonzero (take 12 word)
    then err invalid_public_inputs
    else ok (address_value (drop 12 word))

unfoldable pub uint_word : Bytes → Result DaemonError ManifestValue
uint_word word =
    if any_nonzero (take 16 word)
    then err invalid_public_inputs
    else ok (public_uint (from_be_bytes (drop 16 word)))

module _ {S : Type 0} (store : DaemonStore S) where
  unfoldable pub private_input : ValueType → DataId → S → Result DaemonError ManifestValue
  unfolding type_beq
  private_input wanted data_id s = and_then (map_err runtime (store.input data_id s)) λ value.
      if not (type_beq value.value_type wanted) then err invalid_private_inputs else ok value

  -- A value for a parameter, from the public bytes and the data ids not used yet. The counts are
  -- compared before, so there is a data id for every private parameter.
  unfoldable pub input_value :
      ValueType → Bytes → List DataId → S → Result DaemonError ManifestValue
  unfolding address_word uint_word private_input
  input_value address words ids s = address_word (take 32 words)
  input_value uint words ids s = uint_word (take 32 words)
  input_value fhe_uint words [] s = err invalid_private_inputs
  input_value fhe_uint words (data_id ∷ ids) s = private_input fhe_uint data_id s
  input_value sint words [] s = err invalid_private_inputs
  input_value sint words (data_id ∷ ids) s = private_input sint data_id s
  input_value fhe_bool words ids s = err unsupported_parameter
  input_value secret_bool words ids s = err unsupported_parameter
  input_value opened words ids s = err unsupported_parameter
  input_value void words ids s = err unsupported_parameter

  -- The loop over the parameters.
  unfoldable pub insert_inputs :
      List AbiInput
      → Bytes
      → List DataId
      → InvocationInputs
      → S
      → Result DaemonError InvocationInputs
  unfolding input_value
  insert_inputs [] words ids inputs s = ok inputs
  insert_inputs (i ∷ declared) words ids inputs s =
      and_then (input_value i.source_type words ids s) λ value.
        insert_inputs declared (if is_public i.source_type then drop 32 words else words)
          (if is_public i.source_type then ids else drop 1 ids) (insert i.name value inputs) s

  unfoldable pub invocation_inputs :
      FunctionManifest → ManifestChainTask → S → Result DaemonError InvocationInputs
  unfolding count_public insert_inputs
  invocation_inputs function task s =
      let public_count = count_public function.inputs in
      if not (length task.public_inputs == public_count * 32)
      then err invalid_public_inputs
      else if not (length task.private_input_ids == length function.inputs - public_count)
      then err invalid_private_inputs
      else insert_inputs function.inputs task.public_inputs task.private_input_ids [] s

  module _ (chain : ManifestTaskSource) (backend : ManifestCryptoBackend)
      (manifest : ContractManifest) (contract_id : Identifier) where
    -- The outcome of a task and its payload, which read the store only.
    unfoldable pub task_result :
        ManifestChainTask → S → Result DaemonError (ExecutionOutcome × Bytes)
    unfolding function_by_selector invocation_inputs
    task_result task s =
        and_then (function_by_selector manifest.functions task.selector) λ function.
          and_then (invocation_inputs function task s) λ inputs.
            and_then
              (map_err runtime
                (evaluate manifest store.states backend function.name task.requester inputs s))
              λ outcome.
                and_then (encode_outbox_payload task.execution_id outcome)
                  λ payload. ok (outcome, payload)

    unfoldable pub compute_task : ℕ → ManifestChainTask → Action DaemonError S PollOutcome
    unfolding task_result
    compute_task index task = do
      result ← (λ s. (task_result task s, s))
      with_runtime_error
          (store.commit_computation index task.execution_id result.0.state_writes result.1)
      pure (computed index task.execution_id)

    unfoldable pub skip_task : ℕ → ManifestChainTask → Action DaemonError S PollOutcome
    skip_task index task = do
      with_runtime_error (store.complete_skipped index task.execution_id)
      pure (skipped index task.execution_id)

    unfoldable pub handle_task : ℕ → ManifestChainTask → Action DaemonError S PollOutcome
    unfolding compute_task skip_task
    handle_task index task =
        if not (task.contract_id == contract_id)
        then skip_task index task
        else if is_terminal task.status
        then skip_task index task
        else if not (is_running task.status) || not task.node_is_current_member
        then pure waiting
        else compute_task index task

    unfoldable pub poll_daemon : Action DaemonError S PollOutcome
    unfolding handle_task
    poll_daemon = do
      index ← with_runtime_error store.next_execution_index
      count ← lift chain.execution_count
      (if leb count index then pure idle else lift (chain.task_at index) >>= handle_task index)
