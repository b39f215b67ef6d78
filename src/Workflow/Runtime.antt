-- ===== src/Workflow/Runtime.antt =====
-- `WorkflowRuntime` over the in-memory chain and storage: one event, and the loop over all.
pub mod Loop
pub mod Handoffs
pub mod Records
pub mod Sum
use ppsc.Base.{
  ℕ, zero, suc, ◌+◌, ◌-◌, ◌*◌, ◌/◌, ◌%◌, ◌^◌, ◌≤◌, ◌<◌, ◌≡◌, ◌≢◌, refl, sym, ap, ◌∙◌, ◌↔◌, ◌⊎◌, inl,
  inr, Bool, true, false, ◌&&◌, ◌||◌, not, Option, none, some, List, [], ◌∷◌, ◌++◌, map, arith,
  String, ltb, leb, ◌==◌, if◌then◌else◌, ltb→lt, lt→ltb, leb→le, le→leb, ==_iff, ==_refl,
  Bool-cases, Option-cases, length, is_empty, first, get_elem?, take, drop, All, length-append,
  length-map, Result, ok, err, and_then, map_ok, map_err, ok_or, Action, pure, lift, gets, modify,
  fail_if, after, ◌>>=◌, ◌>>◌, Result-cases, EqKey, nat_eq, pair_eq, bytes_eq, string_eq,
}
use ppsc.Core.{
  Identifier, NodeId, DataId, ExecutionId, DataRepresentation, secret_sharing, homomorphic,
  representation_beq, id_as_bytes, id_from_bytes,
}
use ppsc.Base.BTree.{BTree, contains_key, remove}
use ppsc.Base.BTree
use ppsc.Base.Bytes.{Bytes, u64_mod, u128_mod, to_be_bytes, from_be_bytes, text_bytes, starts_with}
use ppsc.Workflow.Types.{
  WorkflowError, invalid_input, invalid_encoding, data_already_exists, data_not_found,
  storage_unavailable, chain_unavailable, inconsistent_fragments, invalid_handoff,
  insufficient_eligible_nodes, location_mismatch, overflow, SecretFragment, StoredObject, Nodes,
  StorageNetwork, StorageAction, WorkflowCryptoBackend,
}
use ppsc.Workflow.Storage
use ppsc.Workflow.Crypto.{dev_digest}
use ppsc.Workflow.Sortition.{SortitionBackend}
use ppsc.Workflow.Chain
use ppsc.Workflow.Chain.{
  InMemoryChain, PublishedData, ComputeRequest, ComputeOperation, sum_u128, RuntimeChainEvent,
  data_published, compute_requested,
}

-- What the runtime's references reach: the chain and the storage network.
pub record World : Type 0 where
  pub chain : InMemoryChain
  pub storage : StorageNetwork

abbrev pub WorldAction : Type 0 → Type 0
WorldAction A = Action WorkflowError World A

abbrev pub on_chain : {A : Type 0} → Action WorkflowError InMemoryChain A → WorldAction A
on_chain m w = let (r, c) = m w.chain in (r, record w { chain = c })

abbrev pub on_storage : {A : Type 0} → StorageAction A → WorldAction A
on_storage m w = let (r, s) = m w.storage in (r, record w { storage = s })

-- `actual_nodes != storage_nodes`
abbrev pub nodes_beq : List NodeId → List NodeId → Bool
nodes_beq [] [] = true
nodes_beq [] (y ∷ ys) = false
nodes_beq (x ∷ xs) [] = false
nodes_beq (x ∷ xs) (y ∷ ys) = x == y && nodes_beq xs ys

-- The event `DataPublished`: the claim is checked against the storage.
unfoldable pub check_published : PublishedData → WorldAction (Unit {0})
check_published e = do
  actual_nodes ← on_storage (Storage.locations e.data_id)
  fail_if (not (nodes_beq actual_nodes e.storage_nodes) || e.version == 0) location_mismatch
  found ← on_storage (Storage.payloads_at e.data_id e.storage_nodes)
  fail_if (not (representation_beq found.0 e.representation)) location_mismatch

-- `u128::checked_add` over the values, from a sum on.
unfoldable pub sum_values : ℕ → List ℕ → Result WorkflowError ℕ
sum_values sum [] = ok sum
sum_values sum (value ∷ values) =
    let rest = sum_values (sum + value) values in
    if ltb (sum + value) u128_mod then rest else err overflow

unfoldable pub compute : ComputeOperation → List ℕ → Result WorkflowError ℕ
unfolding sum_values
compute sum_u128 values = sum_values 0 values

abbrev pub representation_byte : DataRepresentation → ℕ
representation_byte secret_sharing = 0
representation_byte homomorphic = 1

unfoldable pub output_id_of : ExecutionId → ℕ → DataRepresentation → DataId
output_id_of execution_id output_value representation = id_from_bytes (
    dev_digest (text_bytes "PPSC_DEV_OUTPUT_ID") (
      id_as_bytes execution_id
      ∷ to_be_bytes 16 output_value
      ∷ (representation_byte representation ∷ [])
      ∷ []))

module _ (R : WorkflowCryptoBackend) where
  -- One input of a computation: handed off to the committee, recorded, read and decoded.
  unfoldable pub fetch_input : ExecutionId → List NodeId → DataId → WorldAction ℕ
  fetch_input execution_id committee data_id = do
    old_nodes ← on_storage (Storage.locations data_id)
    new_version ← on_storage (Storage.handoff R data_id committee)
    on_chain (
        Chain.record_handoff (record {
          execution_id = execution_id;
          data_id = data_id;
          old_nodes = old_nodes;
          new_nodes = committee;
          new_version = new_version;
        }))
    found ← on_storage (Storage.payloads_at data_id committee)
    lift (R.decode found.0 found.1)

  unfoldable pub fetch_inputs : ExecutionId → List NodeId → List DataId → WorldAction (List ℕ)
  unfolding fetch_input
  fetch_inputs execution_id committee [] = pure []
  fetch_inputs execution_id committee (data_id ∷ data_ids) =
      let later = fetch_inputs execution_id committee data_ids in
      do value ← fetch_input execution_id committee data_id; values ← later; pure (value ∷ values)

  -- The output is stored on the committee in the requested representation.
  unfoldable pub store_output :
      DataRepresentation → DataId → ℕ → List NodeId → WorldAction (Unit {0})
  store_output secret_sharing output_id value committee = do
    fragments ← lift (R.encode_secret_shares value committee)
    on_storage (Storage.upload_secret_shares output_id 1 fragments)
  store_output homomorphic output_id value committee = do
    ciphertext ← lift (R.encode_fhe value)
    on_storage (Storage.upload_fhe_ciphertext output_id 1 ciphertext committee)

  module _ (S : SortitionBackend) where
    -- The event `ComputeRequested`.
    unfoldable pub run_compute : ComputeRequest → WorldAction (Unit {0})
    unfolding fetch_inputs compute output_id_of store_output
    run_compute e = do
      fail_if (is_empty e.input_data_ids) invalid_input
      committee ← lift (S.select e.seed e.eligible_nodes e.committee_size)
      values ← fetch_inputs e.execution_id committee e.input_data_ids
      output_value ← lift (compute e.operation values)
      store_output e.output_representation
          (output_id_of e.execution_id output_value e.output_representation) output_value committee
      on_chain (
          Chain.record_computation (record {
            execution_id = e.execution_id;
            output_data_id = output_id_of e.execution_id output_value e.output_representation;
            output_nodes = committee;
            output_representation = e.output_representation;
          }))

    unfoldable pub handle_event : RuntimeChainEvent → WorldAction (Unit {0})
    unfolding check_published run_compute
    handle_event (data_published e) = check_published e
    handle_event (compute_requested e) = run_compute e

    unfoldable pub handle_next : Option RuntimeChainEvent → WorldAction Bool
    unfolding handle_event
    handle_next none = pure false
    handle_next (some event) = do handle_event event; pure true

    unfoldable pub poll_once : WorldAction Bool
    unfolding handle_next
    poll_once = do event ← on_chain Chain.next_event; handle_next event

    -- The loop on fuel; `none` means that the fuel ran out.
    unfoldable pub run_until_idle : ℕ → ℕ → World → Option (Result WorkflowError ℕ × World)
    run_until_idle zero handled w = none
    run_until_idle (suc fuel) handled w =
        let (r, w') = poll_once w in
        elim r [
          | err e ↦ some (err e, w')
          | ok more ↦ elim more [
            | true ↦ run_until_idle fuel (handled + 1) w'
            | false ↦ some (ok handled, w')
          ]
        ]
