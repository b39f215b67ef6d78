-- ===== src/Workflow/Types.antt =====
-- Types of crates/runtime/src/workflow.rs: errors, stored objects, the storage network, and the
-- interface of the cryptographic backend.
use ppsc.Base.{ℕ, Bool, List, Result, Action, nat_eq, pair_eq, bytes_eq, string_eq}
use ppsc.Core.{NodeId, DataRepresentation}
use ppsc.Base.BTree.{BTree}
use ppsc.Base.Bytes.{Bytes}

pub data WorkflowError : Type 0 where
  invalid_input invalid_encoding data_already_exists data_not_found : WorkflowError
  storage_unavailable chain_unavailable inconsistent_fragments invalid_handoff : WorkflowError
  insufficient_eligible_nodes location_mismatch overflow : WorkflowError

pub record SecretFragment : Type 0 where
  pub node : NodeId
  pub payload : Bytes

pub record StoredObject : Type 0 where
  pub representation : DataRepresentation
  pub version : ℕ
  pub payload : Bytes

abbrev pub Nodes : Type 0
Nodes = BTree (BTree StoredObject)

-- `InMemoryStorageNetwork`; `poisoned` is the mutex's flag.
pub record StorageNetwork : Type 0 where
  pub nodes : Nodes
  pub poisoned : Bool

abbrev pub StorageAction : Type 0 → Type 0
StorageAction A = Action WorkflowError StorageNetwork A

pub record WorkflowCryptoBackend : Type 0 where
  pub encode_secret_shares : ℕ → List NodeId → Result WorkflowError (List SecretFragment)
  pub encode_fhe : ℕ → Result WorkflowError Bytes
  pub decode : DataRepresentation → List Bytes → Result WorkflowError ℕ
  pub handoff : DataRepresentation → List Bytes → ℕ → Result WorkflowError (List Bytes)
