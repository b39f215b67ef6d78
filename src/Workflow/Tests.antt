-- ===== src/Workflow/Tests.antt =====
-- A small storage network, chain and computation, and the theorems of the workflow at them.
use ppsc.Base.{
  ℕ, ◌+◌, ◌≤◌, ◌≡◌, refl, true, false, none, some, List, [], ◌∷◌, arith, length, first, Result, ok,
  err, and_then, nat_eq, pair_eq, bytes_eq, string_eq,
}
use ppsc.Core.{NodeId, secret_sharing, homomorphic, id_as_bytes}
use ppsc.Base.BTree.{BTree, contains_key, remove}
use ppsc.Base.BTree
use ppsc.Base.Bytes.{Bytes, to_be_bytes, from_be_bytes}
use ppsc.Workflow.Types.{
  WorkflowError, data_already_exists, SecretFragment, StoredObject, StorageNetwork, StorageAction,
}
use ppsc.Workflow.Storage
use ppsc.Workflow.Chain.{sum_u128, data_published, compute_requested}
use ppsc.Workflow.Runtime.{World, compute, run_until_idle}
use ppsc.Workflow.Storage.Handoff.{HandedOff, handoff_moves}
use ppsc.Workflow.Storage.Value.{handoff_keeps_value}
use ppsc.Workflow.Storage.Upload.{
  Uploaded, upload_secret_shares_stores, upload_fhe_ciphertext_stores, upload_not_atomic,
}
use ppsc.Workflow.Sortition.Laws.{select_committee, select_lowest_ranks, count, IsSorted}
use ppsc.Workflow.Sortition.{dev_sortition, select, rank, id_key}
use ppsc.Workflow.Crypto.{plaintext_crypto, share_payload, decode}
use ppsc.Workflow.Runtime.Records.{recorded, run_compute_records}
use ppsc.Workflow.Runtime.Loop.{Finished, run_until_idle_ends}
use ppsc.Workflow.Runtime.Sum.{compute-total}
use ppsc.Workflow.Storage.{
  sources_of, object_in, upload_secret_shares, upload_fhe_ciphertext, payloads_at, handoff,
}
use ppsc.Workflow.Chain.{ComputeRequest, DataHandoffUpdate}
use ppsc.Workflow.Runtime.Handoffs.{RecordAll}
use ppsc.Workflow.Runtime.{run_compute}
use ppsc.Workflow.Types.{WorkflowCryptoBackend}
use ppsc.Workflow.Sortition.{SortitionBackend}
use ppsc.Workflow.Runtime.{fetch_inputs}
use ppsc.Base.{map}
use ppsc.Workflow.Types.{data_not_found}

abbrev share_of_77 : ℕ → StoredObject
share_of_77 index = record {
  representation = secret_sharing;
  version = 1;
  payload = share_payload 77 index;
}

-- The data 5 is shared between the nodes 1 and 2.
abbrev two_holders : StorageNetwork
two_holders = record {
  nodes = (1, (5, share_of_77 0) ∷ []) ∷ (2, (5, share_of_77 1) ∷ []) ∷ [];
  poisoned = false;
}

abbrev next_nodes : List NodeId
next_nodes = 2 ∷ 3 ∷ []

abbrev handed_off : StorageNetwork
handed_off = (handoff plaintext_crypto 5 next_nodes two_holders).1

handoff_moves_example :
    (leader : StoredObject) × (first (sources_of 5 two_holders.nodes) ≡ some leader)
    × (2 ≡ leader.version + 1)
    × HandedOff true true 2 leader.representation none (object_in 3 5 handed_off.nodes)
unfolding handoff sources_of ppsc.Workflow.Crypto.handoff decode to_be_bytes from_be_bytes
handoff_moves_example = handoff_moves plaintext_crypto 5 next_nodes two_holders 3 5 refl

handoff_keeps_value_example :
    and_then (payloads_at 5 next_nodes handed_off).0 (λ read. decode read.0 read.1) ≡ ok 77
unfolding handoff sources_of decode share_payload ppsc.Workflow.Crypto.handoff to_be_bytes
    from_be_bytes
handoff_keeps_value_example =
    handoff_keeps_value 5 next_nodes two_holders {next = 2} {s' = handed_off} refl
      {leader = share_of_77 0} refl {value = 77} (omega arith) refl

abbrev two_fragments : List SecretFragment
two_fragments = record { node = 4; payload = 10 ∷ [] } ∷ record { node = 6; payload = 11 ∷ [] } ∷ []

upload_secret_shares_stores_example :
    Uploaded secret_sharing 3
      (some (11 ∷ []))
      none
      (object_in 6 8 (upload_secret_shares 8 3 two_fragments two_holders).1.nodes)
unfolding upload_secret_shares Storage.upload_each BTree.insert
upload_secret_shares_stores_example =
    upload_secret_shares_stores 8 3 two_fragments two_holders 6 refl

upload_fhe_ciphertext_stores_example :
    Uploaded homomorphic 3
      (some (9 ∷ []))
      none
      (object_in 2 8 (upload_fhe_ciphertext 8 3 (9 ∷ []) next_nodes two_holders).1.nodes)
unfolding upload_fhe_ciphertext Storage.upload_each BTree.insert
upload_fhe_ciphertext_stores_example =
    upload_fhe_ciphertext_stores 8 3 (9 ∷ []) next_nodes two_holders 2 refl

-- Node 4 is new to the data 5 and node 1 holds it.
abbrev clashing : StorageAction (Unit {0})
clashing =
    upload_secret_shares 5 3
      (record { node = 4; payload = 10 ∷ [] } ∷ record { node = 1; payload = 11 ∷ [] } ∷ [])

upload_not_atomic_example :
    ((clashing two_holders).0 ≡ err data_already_exists)
    × (object_in 4 5 (clashing two_holders).1.nodes
        ≡ some (record { representation = secret_sharing; version = 3; payload = 10 ∷ [] }))
upload_not_atomic_example =
    upload_not_atomic 5 3 4 1 (10 ∷ []) (11 ∷ []) two_holders refl (omega arith) (omega arith) refl
      refl

abbrev seed : Bytes
seed = 1 ∷ 2 ∷ []

abbrev eligible : List NodeId
eligible = 30 ∷ 10 ∷ 20 ∷ []

abbrev chosen : List NodeId
chosen = 10 ∷ 30 ∷ []

chosen_selected : select seed eligible 2 ≡ ok chosen
unfolding select rank from_be_bytes ppsc.Workflow.Crypto.dev_digest to_be_bytes
    mathlib.Core.List.flatten id_as_bytes
chosen_selected = refl

select_committee_example :
    (length chosen ≡ 2)
    × (count 30 chosen ≤ 1)
    × (count 30 chosen ≤ count 30 eligible)
    × IsSorted id_key chosen
select_committee_example = select_committee seed eligible 2 chosen_selected 30

select_lowest_ranks_example : rank seed 30 ≤ rank seed 20
select_lowest_ranks_example =
    select_lowest_ranks seed eligible 2 chosen_selected 30 20 (omega arith) (omega arith) refl

compute-total_example : compute sum_u128 (3 ∷ 4 ∷ []) ≡ ok 7
compute-total_example = compute-total (3 ∷ 4 ∷ [])

-- One published data item and one sum over it are pending.
abbrev pending : World
pending = record {
  chain = record {
    events =
        data_published (record {
          data_id = 5;
          representation = secret_sharing;
          version = 1;
          storage_nodes = 1 ∷ 2 ∷ [];
        })
        ∷ compute_requested (record {
          execution_id = 40;
          input_data_ids = 5 ∷ [];
          output_representation = homomorphic;
          operation = sum_u128;
          eligible_nodes = eligible;
          committee_size = 2;
          seed = seed;
        })
        ∷ [];
    handoffs = [];
    computations = [];
    events_poisoned = false;
    handoffs_poisoned = false;
    computations_poisoned = false;
  };
  storage = two_holders;
}

run_until_idle_ends_example :
    (out : Result WorkflowError ℕ × World) × (run_until_idle plaintext_crypto dev_sortition 3 0
        pending
      ≡ some out)
    × Finished 0 pending out
run_until_idle_ends_example =
    run_until_idle_ends plaintext_crypto dev_sortition 3 0 pending (omega arith)

-- A backend that stores a value as the byte of it, and a fixed committee.
abbrev byte_crypto : WorkflowCryptoBackend
byte_crypto = record {
  encode_secret_shares =
      λ value nodes. ok (map (λ node. record { node = node; payload = value ∷ [] }) nodes);
  encode_fhe = λ value. ok (value ∷ []);
  decode = λ representation payloads. elim payloads [
    | [] ↦ err data_not_found
    | p ∷ ps ↦ ok (from_be_bytes p)
  ];
  handoff = λ representation sources count. ok ((9 ∷ []) ∷ []);
}

abbrev fixed_committee : SortitionBackend
fixed_committee = record { select = λ seed eligible size. ok (3 ∷ []) }

abbrev one_holder : World
one_holder = record {
  chain = record {
    events = [];
    handoffs = [];
    computations = [];
    events_poisoned = false;
    handoffs_poisoned = false;
    computations_poisoned = false;
  };
  storage = record {
    nodes =
        (1, (5, record { representation = homomorphic; version = 1; payload = 9 ∷ [] }) ∷ []) ∷ [];
    poisoned = false;
  };
}

abbrev request : ComputeRequest
request = record {
  execution_id = 40;
  input_data_ids = 5 ∷ [];
  output_representation = homomorphic;
  operation = sum_u128;
  eligible_nodes = 3 ∷ [];
  committee_size = 1;
  seed = [];
}

request_handled : (run_compute byte_crypto fixed_committee request one_holder).0 ≡ ok tt
unfolding run_compute Storage.locations handoff ppsc.Workflow.Chain.record_handoff payloads_at
    BTree.insert from_be_bytes upload_fhe_ciphertext Storage.upload_each ppsc.Core.id_from_bytes
    ppsc.Workflow.Crypto.dev_digest to_be_bytes mathlib.Core.List.flatten id_as_bytes
    ppsc.Workflow.Chain.record_computation
request_handled = refl

run_compute_records_example :
    let out = run_compute byte_crypto fixed_committee request one_holder in
    (committee : List NodeId) × (values : List ℕ) × (value : ℕ) × (fixed_committee.select []
        (3 ∷ [])
        1
      ≡ ok committee)
    × ((fetch_inputs byte_crypto 40 committee (5 ∷ []) one_holder).0 ≡ ok values)
    × (compute sum_u128 values ≡ ok value)
    × (out.1.chain.computations ≡ recorded request committee value ∷ [])
    × (length out.1.chain.handoffs ≡ 1)
    × ((updates : List DataHandoffUpdate) × (out.1.chain.handoffs ≡ updates)
        × RecordAll byte_crypto 40 committee (5 ∷ []) one_holder.storage updates)
run_compute_records_example =
    run_compute_records byte_crypto fixed_committee request one_holder request_handled
