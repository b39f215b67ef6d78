-- ===== src/Workflow/Runtime/Handoffs.antt =====
-- The handoffs that fetching the inputs of a compute request records on the chain,
-- crates/runtime/src/workflow.rs.
use ppsc.Base.{
  ℕ, ◌≡◌, refl, sym, inl, inr, List, [], ◌∷◌, ◌++◌, arith, length, ok, Result-cases, nat_eq,
  pair_eq, bytes_eq, string_eq,
}
use mathlib.Core.Path.{subst}
use mathlib.Core.List.{append_assoc, append-nil}
use ppsc.Core.{NodeId, DataId, ExecutionId}
use ppsc.Workflow.Types.{WorkflowCryptoBackend, StorageNetwork}
use ppsc.Workflow.Storage
use ppsc.Workflow.Storage.{holders, locations, payloads_at}
use ppsc.Workflow.Chain.{record_handoff, DataHandoffUpdate}
use ppsc.Workflow.Runtime.{World, fetch_input, fetch_inputs}

module _ (R : WorkflowCryptoBackend) (x : ExecutionId) (committee : List NodeId) where
  -- A record of the handoff of a data id to the committee: it names the execution, the data id,
  -- the nodes that hold it now and the committee, and the version that the handoff gives.
  abbrev pub Records : DataId → StorageNetwork → DataHandoffUpdate → Type 0
  Records d s u =
      (u.execution_id ≡ x)
      × (u.data_id ≡ d)
      × (u.old_nodes ≡ holders d s.nodes)
      × (u.new_nodes ≡ committee)
      × ((Storage.handoff R d committee s).0 ≡ ok u.new_version)

  -- One record for each data id in order, each of the storage that the handoffs before it left.
  abbrev pub RecordAll : List DataId → StorageNetwork → List DataHandoffUpdate → Type 0
  RecordAll [] s [] = Unit
  RecordAll [] s (u ∷ us) = ⊥
  RecordAll (d ∷ ds) s [] = ⊥
  RecordAll (d ∷ ds) s (u ∷ us) =
      Records d s u × RecordAll ds (Storage.handoff R d committee s).1 us

  pub length-RecordAll :
      (ds : List DataId) (s : StorageNetwork) (us : List DataHandoffUpdate)
      → RecordAll ds s us
      → length us ≡ length ds
  length-RecordAll [] s [] h = refl
  length-RecordAll [] s (u ∷ us) h = absurd h
  length-RecordAll (d ∷ ds) s [] h = absurd h
  length-RecordAll (d ∷ ds) s (u ∷ us) h =
      omega (arith, length-RecordAll ds (Storage.handoff R d committee s).1 us h.1)

  fetch_input-Records :
      (d : DataId) (w : World) {value : ℕ}
      → (fetch_input R x committee d w).0 ≡ ok value
      → (u : DataHandoffUpdate) × ((fetch_input R x committee d w).1.chain.handoffs
          ≡ w.chain.handoffs ++ u ∷ [])
        × ((fetch_input R x committee d w).1.storage ≡ (Storage.handoff R d committee w.storage).1)
        × Records d w.storage u
  unfolding fetch_input record_handoff locations payloads_at
  fetch_input-Records d w h =
      let moved = Storage.handoff R d committee w.storage in
      elim (Result-cases moved.0) [
        | inr (e, b) ↦ absurd (ground arith)
        | inl (new_version, b) ↦ (
          record {
            execution_id = x;
            data_id = d;
            old_nodes = holders d w.storage.nodes;
            new_nodes = committee;
            new_version = new_version;
          },
          ground arith,
          ground arith,
          (refl, refl, refl, refl, b),
        )
      ]

  pub fetch_inputs-RecordAll :
      (ds : List DataId) (w : World) {values : List ℕ}
      → (fetch_inputs R x committee ds w).0 ≡ ok values
      → (us : List DataHandoffUpdate) × ((fetch_inputs R x committee ds w).1.chain.handoffs
          ≡ w.chain.handoffs ++ us)
        × RecordAll ds w.storage us
  unfolding fetch_inputs
  fetch_inputs-RecordAll [] w h = ([], sym (append-nil w.chain.handoffs), tt)
  fetch_inputs-RecordAll (d ∷ ds) w {values} h =
      let here = fetch_input R x committee d w in
      elim (Result-cases here.0) [
        | inr (e, failed) ↦ absurd (ground arith)
        | inl (value, done) ↦ elim (Result-cases (fetch_inputs R x committee ds here.1).0) [
          | inr (e, failed) ↦ absurd (ground arith)
          | inl (rest, later) ↦
              let (u, added, stored, records) = fetch_input-Records d w done in
              let (us, more, all) = fetch_inputs-RecordAll ds here.1 later in
              (
                u ∷ us,
                ground (arith, added, more, append_assoc w.chain.handoffs (u ∷ []) us),
                (records, subst (λ storage. RecordAll ds storage us) stored all),
              )
        ]
      ]
