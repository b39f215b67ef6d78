-- ===== src/Manifest/Daemon/Types.antt =====
-- The tasks of crates/runtime/src/manifest_daemon.rs, their states on the chain, and the interfaces
-- of the chain and the store.
use ppsc.Base.{ℕ, zero, suc, Bool, true, false, List, Result, ok, err, map_err, Action}
use ppsc.Base.Bytes.{Bytes}
use ppsc.Core.{Identifier, DataId, ExecutionId}
use ppsc.Manifest.Types.{ManifestRuntimeError, ManifestValue, StateWrite, ManifestStateStore}
use ppsc.Manifest.Outbox.{DaemonError, invalid_chain_response, runtime}

pub data ChainExecutionStatus : Type 0 where
  status_none requested committee_assigned running handoff_status result_pending :
      ChainExecutionStatus
  completed failed cancelled : ChainExecutionStatus

unfoldable pub status_from_u8 : ℕ → Result DaemonError ChainExecutionStatus
status_from_u8 zero = ok status_none
status_from_u8 (suc zero) = ok requested
status_from_u8 (suc (suc zero)) = ok committee_assigned
status_from_u8 (suc (suc (suc zero))) = ok running
status_from_u8 (suc (suc (suc (suc zero)))) = ok handoff_status
status_from_u8 (suc (suc (suc (suc (suc zero))))) = ok result_pending
status_from_u8 (suc (suc (suc (suc (suc (suc zero)))))) = ok completed
status_from_u8 (suc (suc (suc (suc (suc (suc (suc zero))))))) = ok failed
status_from_u8 (suc (suc (suc (suc (suc (suc (suc (suc zero)))))))) = ok cancelled
status_from_u8 (suc (suc (suc (suc (suc (suc (suc (suc (suc n))))))))) = err invalid_chain_response

abbrev pub is_terminal : ChainExecutionStatus → Bool
is_terminal completed = true
is_terminal failed = true
is_terminal cancelled = true
is_terminal status_none = false
is_terminal requested = false
is_terminal committee_assigned = false
is_terminal running = false
is_terminal handoff_status = false
is_terminal result_pending = false

-- `status == ChainExecutionStatus::Running`
abbrev pub is_running : ChainExecutionStatus → Bool
is_running running = true
is_running completed = false
is_running failed = false
is_running cancelled = false
is_running status_none = false
is_running requested = false
is_running committee_assigned = false
is_running handoff_status = false
is_running result_pending = false

pub record ManifestChainTask : Type 0 where
  pub execution_id : ExecutionId
  pub contract_id : Identifier
  pub selector : Bytes
  pub requester : Bytes
  pub private_input_ids : List DataId
  pub public_inputs : Bytes
  pub status : ChainExecutionStatus
  pub node_is_current_member : Bool

pub record ManifestTaskSource : Type 0 where
  pub execution_count : Result DaemonError ℕ
  pub task_at : ℕ → Result DaemonError ManifestChainTask

-- The methods of `PostgresManifestState` that the daemon calls, for its control address and node.
-- The outcome that `complete_execution` takes is always `Skipped` here.
pub record DaemonStore (S : Type 0) : Type 0 where
  pub next_execution_index : Action ManifestRuntimeError S ℕ
  pub complete_skipped : ℕ → ExecutionId → Action ManifestRuntimeError S (Unit {0})
  pub commit_computation :
      ℕ → ExecutionId → List StateWrite → Bytes → Action ManifestRuntimeError S (Unit {0})
  pub input : DataId → S → Result ManifestRuntimeError ManifestValue
  pub states : ManifestStateStore S

pub data PollOutcome : Type 0 where
  idle waiting : PollOutcome
  skipped computed : ℕ → ExecutionId → PollOutcome

-- `?` on a result of the store
abbrev pub with_runtime_error :
    {S A : Type 0} → Action ManifestRuntimeError S A → Action DaemonError S A
with_runtime_error step s = let r = step s in (map_err runtime r.0, r.1)
