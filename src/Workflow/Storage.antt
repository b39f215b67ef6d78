-- ===== src/Workflow/Storage.antt =====
-- `InMemoryStorageNetwork`: uploads, locations, handoff and reads.
pub mod Objects
pub mod Handoff
pub mod Value
pub mod Upload
use ppsc.Base.{
  ℕ, zero, suc, ◌+◌, ◌-◌, ◌*◌, ◌/◌, ◌%◌, ◌^◌, ◌≤◌, ◌<◌, ◌≡◌, ◌≢◌, refl, sym, ap, ◌∙◌, ◌↔◌, ◌⊎◌, inl,
  inr, Bool, true, false, ◌&&◌, ◌||◌, not, Option, none, some, List, [], ◌∷◌, ◌++◌, map, arith,
  String, ltb, leb, ◌==◌, if◌then◌else◌, ltb→lt, lt→ltb, leb→le, le→leb, ==_iff, ==_refl,
  Bool-cases, Option-cases, length, is_empty, first, get_elem?, take, drop, All, length-append,
  length-map, Result, ok, err, and_then, map_ok, map_err, ok_or, Action, pure, lift, gets, modify,
  fail_if, after, ◌>>=◌, ◌>>◌, Result-cases, EqKey, nat_eq, pair_eq, bytes_eq, string_eq,
}
use ppsc.Core.{
  Identifier, NodeId, DataId, ExecutionId, DataRepresentation, secret_sharing, homomorphic,
  representation_beq, id_as_bytes, id_from_bytes,
}
use ppsc.Base.BTree.{BTree, contains_key, remove}
use ppsc.Base.BTree
use ppsc.Base.Bytes.{Bytes, u64_mod, u128_mod, to_be_bytes, from_be_bytes, text_bytes, starts_with}
use ppsc.Workflow.Types.{
  WorkflowError, invalid_input, invalid_encoding, data_already_exists, data_not_found,
  storage_unavailable, chain_unavailable, inconsistent_fragments, invalid_handoff,
  insufficient_eligible_nodes, location_mismatch, overflow, SecretFragment, StoredObject, Nodes,
  StorageNetwork, StorageAction, WorkflowCryptoBackend,
}

-- `self.nodes.lock().map_err(..)?`
abbrev pub lock : StorageAction (Unit {0})
lock s = fail_if s.poisoned storage_unavailable s

-- `nodes.entry(node).or_default()`
abbrev pub records_of : NodeId → Nodes → BTree StoredObject
records_of node nodes = elim (BTree.lookup node nodes) [ none ↦ [] | some records ↦ records ]

abbrev pub object_in : NodeId → DataId → Nodes → Option StoredObject
object_in node data_id nodes = BTree.lookup data_id (records_of node nodes)

-- `nodes.entry(node).or_default().insert(data_id, object)`
unfoldable pub put_object : NodeId → DataId → StoredObject → Nodes → Nodes
put_object node data_id object nodes =
    BTree.insert node (BTree.insert data_id object (records_of node nodes)) nodes

-- The loops of the two uploads, over the nodes and their payloads.
unfoldable pub upload_each :
    DataRepresentation → DataId → ℕ → List (NodeId × Bytes) → StorageAction (Unit {0})
unfolding put_object
upload_each representation data_id version [] = pure tt
upload_each representation data_id version ((node, payload) ∷ rest) =
    let later = upload_each representation data_id version rest in
    do
      records ← gets (λ s. records_of node s.nodes)
      fail_if (contains_key data_id records) data_already_exists
      modify (λ s. record s {
        nodes =
            put_object node data_id
              (record { representation = representation; version = version; payload = payload })
              s.nodes;
      })
      later

unfoldable pub upload_secret_shares : DataId → ℕ → List SecretFragment → StorageAction (Unit {0})
upload_secret_shares data_id version fragments = do
  fail_if (is_empty fragments || version == 0) invalid_input
  lock
  upload_each secret_sharing data_id version (map (λ f. (f.node, f.payload)) fragments)

unfoldable pub upload_fhe_ciphertext : DataId → ℕ → Bytes → List NodeId → StorageAction (Unit {0})
upload_fhe_ciphertext data_id version ciphertext storage_nodes = do
  fail_if (is_empty storage_nodes || (version == 0 || is_empty ciphertext)) invalid_input
  lock
  upload_each homomorphic data_id version (map (λ node. (node, ciphertext)) storage_nodes)

-- The nodes that hold a data id, in the order of the map.
unfoldable pub holders : DataId → Nodes → List NodeId
holders data_id [] = []
holders data_id ((node, records) ∷ nodes) =
    let rest = holders data_id nodes in if contains_key data_id records then node ∷ rest else rest

unfoldable pub locations : DataId → StorageAction (List NodeId)
locations data_id = do lock; gets (λ s. holders data_id s.nodes)

-- The objects stored under a data id, in the order of the nodes.
unfoldable pub sources_of : DataId → Nodes → List StoredObject
sources_of data_id [] = []
sources_of data_id ((node, records) ∷ nodes) =
    let rest = sources_of data_id nodes in
    elim (BTree.lookup data_id records) [ none ↦ rest | some object ↦ object ∷ rest ]

-- `sources.iter().any(..)`
unfoldable pub any_differs : StoredObject → List StoredObject → Bool
any_differs first [] = false
any_differs first (x ∷ xs) =
    (not (representation_beq x.representation first.representation)
      || not (x.version == first.version))
    || any_differs first xs

-- `target_nodes.iter().zip(target_payloads)`, each pair stored.
unfoldable pub write_targets :
    DataRepresentation → DataId → ℕ → List NodeId → List Bytes → Nodes → Nodes
unfolding put_object
write_targets representation data_id version [] payloads nodes = nodes
write_targets representation data_id version (node ∷ targets) [] nodes = nodes
write_targets representation data_id version (node ∷ targets) (payload ∷ payloads) nodes =
    write_targets representation data_id version targets payloads (
      put_object node data_id
        (record { representation = representation; version = version; payload = payload }) nodes)

-- `target_set.contains`
abbrev pub contains_node : List NodeId → NodeId → Bool
contains_node [] k = false
contains_node (x ∷ xs) k = k == x || contains_node xs k

-- The nodes outside the target set drop the data id.
unfoldable pub drop_others : DataId → List NodeId → Nodes → Nodes
drop_others data_id targets [] = []
drop_others data_id targets ((node, records) ∷ nodes) =
    (node, if contains_node targets node then records else remove data_id records)
    ∷ drop_others data_id targets nodes

-- `u64::checked_add(1)`
abbrev pub checked_next : ℕ → Option ℕ
checked_next version = if ltb (version + 1) u64_mod then some (version + 1) else none

module _ (R : WorkflowCryptoBackend) where
  unfoldable pub handoff : DataId → List NodeId → StorageAction ℕ
  unfolding sources_of any_differs write_targets drop_others
  handoff data_id target_nodes = do
    fail_if (is_empty target_nodes) invalid_input
    lock
    sources ← gets (λ s. sources_of data_id s.nodes)
    leader ← lift (ok_or (first sources) data_not_found)
    fail_if (any_differs leader sources) inconsistent_fragments
    payloads ←
        lift (R.handoff leader.representation (map (λ o. o.payload) sources) (length target_nodes))
    fail_if (not (length payloads == length target_nodes)) invalid_handoff
    next ← lift (ok_or (checked_next leader.version) overflow)
    modify (λ s. record s {
      nodes =
          drop_others data_id target_nodes
            (write_targets leader.representation data_id next target_nodes payloads s.nodes);
    })
    pure next

-- `representation.is_some_and(|current| current != record.representation)`
abbrev pub conflicts : Option DataRepresentation → DataRepresentation → Bool
conflicts none r = false
conflicts (some current) r = not (representation_beq current r)

-- The loop of `payloads_at`, with the payloads collected in order.
unfoldable pub collect_payloads :
    DataId
    → List NodeId
    → Option DataRepresentation
    → Nodes
    → Result WorkflowError (Option DataRepresentation × List Bytes)
collect_payloads data_id [] representation nodes = ok (representation, [])
collect_payloads data_id (node ∷ selected) representation nodes =
    and_then (ok_or (object_in node data_id nodes) data_not_found) λ object.
      let rest = collect_payloads data_id selected (some object.representation) nodes in
      if conflicts representation object.representation
      then err inconsistent_fragments
      else map_ok (λ r. (r.0, object.payload ∷ r.1)) rest

unfoldable pub payloads_at : DataId → List NodeId → StorageAction (DataRepresentation × List Bytes)
unfolding collect_payloads
payloads_at data_id selected = do
  lock
  nodes ← gets (λ s. s.nodes)
  found ← lift (collect_payloads data_id selected none nodes)
  representation ← lift (ok_or found.0 data_not_found)
  pure (representation, found.1)
