-- ===== src/Workflow/Chain.antt =====
-- `InMemoryChain`: the queue of events and the recorded updates.
use ppsc.Base.{
  ℕ, Bool, Option, none, some, List, [], ◌∷◌, ◌++◌, map, length, ok_or, Action, pure, lift, gets,
  modify, fail_if, ◌>>=◌, ◌>>◌, nat_eq, pair_eq, bytes_eq, string_eq,
}
use ppsc.Core.{NodeId, DataId, ExecutionId, DataRepresentation}
use ppsc.Base.Bytes.{Bytes}
use ppsc.Workflow.Types.{WorkflowError, data_not_found, chain_unavailable}

pub data ComputeOperation : Type 0 where
  sum_u128 : ComputeOperation

pub record PublishedData : Type 0 where
  pub data_id : DataId
  pub representation : DataRepresentation
  pub storage_nodes : List NodeId
  pub version : ℕ

pub record ComputeRequest : Type 0 where
  pub execution_id : ExecutionId
  pub input_data_ids : List DataId
  pub eligible_nodes : List NodeId
  pub committee_size : ℕ
  pub seed : Bytes
  pub operation : ComputeOperation
  pub output_representation : DataRepresentation

pub data RuntimeChainEvent : Type 0 where
  data_published : PublishedData → RuntimeChainEvent
  compute_requested : ComputeRequest → RuntimeChainEvent

pub record DataHandoffUpdate : Type 0 where
  pub execution_id : ExecutionId
  pub data_id : DataId
  pub old_nodes : List NodeId
  pub new_nodes : List NodeId
  pub new_version : ℕ

pub record ComputationUpdate : Type 0 where
  pub execution_id : ExecutionId
  pub output_data_id : DataId
  pub output_nodes : List NodeId
  pub output_representation : DataRepresentation

-- Each of the three vectors stands behind a mutex of its own, with its poison flag.
pub record InMemoryChain : Type 0 where
  pub events : List RuntimeChainEvent
  pub handoffs : List DataHandoffUpdate
  pub computations : List ComputationUpdate
  pub events_poisoned : Bool
  pub handoffs_poisoned : Bool
  pub computations_poisoned : Bool

abbrev pub ChainAction : Type 0 → Type 0
ChainAction A = Action WorkflowError InMemoryChain A

unfoldable pub push_event : RuntimeChainEvent → ChainAction (Unit {0})
push_event event = do
  fail_if (← gets (λ c. c.events_poisoned)) chain_unavailable
  modify (λ c. record c { events = c.events ++ event ∷ [] })

-- `pop_front`
abbrev pub pop_front : {A : Type 0} → List A → Option A × List A
pop_front [] = (none, [])
pop_front (x ∷ xs) = (some x, xs)

unfoldable pub next_event : ChainAction (Option RuntimeChainEvent)
next_event = do
  fail_if (← gets (λ c. c.events_poisoned)) chain_unavailable
  popped ← gets (λ c. pop_front c.events)
  modify (λ c. record c { events = popped.1 })
  pure popped.0

unfoldable pub record_handoff : DataHandoffUpdate → ChainAction (Unit {0})
record_handoff update = do
  fail_if (← gets (λ c. c.handoffs_poisoned)) chain_unavailable
  modify (λ c. record c { handoffs = c.handoffs ++ update ∷ [] })

unfoldable pub record_computation : ComputationUpdate → ChainAction (Unit {0})
record_computation update = do
  fail_if (← gets (λ c. c.computations_poisoned)) chain_unavailable
  modify (λ c. record c { computations = c.computations ++ update ∷ [] })

unfoldable pub handoff_count : ChainAction ℕ
handoff_count = do
  fail_if (← gets (λ c. c.handoffs_poisoned)) chain_unavailable
  gets (λ c. length c.handoffs)

unfoldable pub computation_count : ChainAction ℕ
computation_count = do
  fail_if (← gets (λ c. c.computations_poisoned)) chain_unavailable
  gets (λ c. length c.computations)

-- `last`
abbrev pub last : {A : Type 0} → List A → Option A
last [] = none
last (x ∷ []) = some x
last (x ∷ y ∷ xs) = last (y ∷ xs)

unfoldable pub latest_output_id : ChainAction DataId
latest_output_id = do
  fail_if (← gets (λ c. c.computations_poisoned)) chain_unavailable
  update ← lift (ok_or (← gets (λ c. last c.computations)) data_not_found)
  pure update.output_data_id

unfoldable pub recorded_handoffs : ChainAction (List (DataId × List NodeId))
recorded_handoffs = do
  fail_if (← gets (λ c. c.handoffs_poisoned)) chain_unavailable
  gets (λ c. map (λ u. (u.data_id, u.new_nodes)) c.handoffs)
