-- ===== src/Workflow/Runtime/Records.antt =====
-- What a handled compute request records on the chain.
use ppsc.Base.{
  ℕ, ◌+◌, ◌≡◌, refl, inl, inr, List, [], ◌∷◌, ◌++◌, arith, length, length-append, ok, Result-cases,
  nat_eq, pair_eq, bytes_eq, string_eq,
}
use ppsc.Core.{NodeId, DataId, ExecutionId, DataRepresentation, secret_sharing, homomorphic}
use ppsc.Workflow.Types.{WorkflowCryptoBackend}
use ppsc.Workflow.Sortition.{SortitionBackend}
use ppsc.Workflow.Chain.{ComputeRequest}
use ppsc.Workflow.Runtime.{
  World, compute, output_id_of, fetch_input, fetch_inputs, store_output, run_compute,
}
use ppsc.Workflow.Chain.{record_handoff, record_computation, ComputationUpdate, DataHandoffUpdate}
use ppsc.Workflow.Runtime.Handoffs.{RecordAll, length-RecordAll, fetch_inputs-RecordAll}

-- What a request that selected a committee and computed a value records.
abbrev pub recorded : ComputeRequest → List NodeId → ℕ → ComputationUpdate
recorded e committee value = record {
  execution_id = e.execution_id;
  output_data_id = output_id_of e.execution_id value e.output_representation;
  output_nodes = committee;
  output_representation = e.output_representation;
}

module _ (R : WorkflowCryptoBackend) where
  computations-fetch_input :
      (x : ExecutionId) (committee : List NodeId) (d : DataId) (w : World)
      → (fetch_input R x committee d w).1.chain.computations ≡ w.chain.computations
  unfolding fetch_input record_handoff
  computations-fetch_input x committee d w = ground arith

  computations-fetch_inputs :
      (x : ExecutionId) (committee : List NodeId) (ds : List DataId) (w : World)
      → (fetch_inputs R x committee ds w).1.chain.computations ≡ w.chain.computations
  unfolding fetch_inputs
  computations-fetch_inputs x committee [] w = refl
  computations-fetch_inputs x committee (d ∷ ds) w = ground (
    arith,
    computations-fetch_input x committee d w,
    computations-fetch_inputs x committee ds (fetch_input R x committee d w).1,
  )

  chain-store_output :
      (r : DataRepresentation) (d : DataId) (v : ℕ) (committee : List NodeId) (w : World)
      → (store_output R r d v committee w).1.chain ≡ w.chain
  unfolding store_output
  chain-store_output secret_sharing d v committee w = ground arith
  chain-store_output homomorphic d v committee w = ground arith

  module _ (S : SortitionBackend) where
    -- For any cryptographic and sortition backend: when a compute request is handled
    -- successfully, the committee that the sortition selected read all inputs, the operation on
    -- their values gave the output value, the chain has exactly one more computation, with the
    -- request's execution and representation, the output id of the value and the committee as its
    -- nodes, and exactly one more handoff for each input, in the order of the inputs: with the
    -- request's execution, the data id, the nodes that held it before its handoff, the committee
    -- and the version that the handoff gave, each on the storage that the handoffs before it
    -- left.
    pub run_compute_records :
        (e : ComputeRequest) (w : World)
        → (run_compute R S e w).0 ≡ ok tt
        → (committee : List NodeId) × (values : List ℕ) × (value : ℕ) × (S.select e.seed
              e.eligible_nodes e.committee_size
            ≡ ok committee)
          × ((fetch_inputs R e.execution_id committee e.input_data_ids w).0 ≡ ok values)
          × (compute e.operation values ≡ ok value)
          × ((run_compute R S e w).1.chain.computations
              ≡ w.chain.computations ++ recorded e committee value ∷ [])
          × (length (run_compute R S e w).1.chain.handoffs
              ≡ length w.chain.handoffs + length e.input_data_ids)
          × ((updates : List DataHandoffUpdate) × ((run_compute R S e w).1.chain.handoffs
                ≡ w.chain.handoffs ++ updates)
              × RecordAll R e.execution_id committee e.input_data_ids w.storage updates)
    unfolding run_compute record_computation
    run_compute_records e w h =
        elim (Result-cases (S.select e.seed e.eligible_nodes e.committee_size)) [
          | inr (er, p) ↦ absurd (ground arith)
          | inl (committee, p) ↦
              let fetched = fetch_inputs R e.execution_id committee e.input_data_ids w in
              elim (Result-cases fetched.0) [
                | inr (er, q) ↦ absurd (ground arith)
                | inl (values, q) ↦ elim (Result-cases (compute e.operation values)) [
                  | inr (er, c) ↦ absurd (ground arith)
                  | inl (v, c) ↦
                      let stored =
                        chain-store_output e.output_representation
                          (output_id_of e.execution_id v e.output_representation) v committee
                          fetched.1 in
                      let (updates, added, all) =
                        fetch_inputs-RecordAll R e.execution_id committee e.input_data_ids w q in
                      (
                        committee,
                        values,
                        v,
                        p,
                        q,
                        c,
                        ground (
                          arith,
                          stored,
                          computations-fetch_inputs e.execution_id committee e.input_data_ids w,
                        ),
                        ground (
                          arith,
                          stored,
                          added,
                          length-append w.chain.handoffs updates,
                          length-RecordAll R e.execution_id committee e.input_data_ids w.storage
                              updates all,
                        ),
                        (updates, ground (arith, stored, added), all),
                      )
                ]
              ]
        ]
