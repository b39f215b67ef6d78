-- ===== src/Workflow/Sortition.antt =====
-- `SortitionBackend` and `DeterministicDevSortition`: a committee by the digests of its members.
pub mod Laws
use ppsc.Base.{
  ℕ, zero, suc, ◌+◌, ◌-◌, ◌*◌, ◌/◌, ◌%◌, ◌^◌, ◌≤◌, ◌<◌, ◌≡◌, ◌≢◌, refl, sym, ap, ◌∙◌, ◌↔◌, ◌⊎◌, inl,
  inr, Bool, true, false, ◌&&◌, ◌||◌, not, Option, none, some, List, [], ◌∷◌, ◌++◌, map, arith,
  String, ltb, leb, ◌==◌, if◌then◌else◌, ltb→lt, lt→ltb, leb→le, le→leb, ==_iff, ==_refl,
  Bool-cases, Option-cases, length, is_empty, first, get_elem?, take, drop, All, length-append,
  length-map, Result, ok, err, and_then, map_ok, map_err, ok_or, Action, pure, lift, gets, modify,
  fail_if, after, ◌>>=◌, ◌>>◌, Result-cases, EqKey, nat_eq, pair_eq, bytes_eq, string_eq,
}
use ppsc.Core.{
  Identifier, NodeId, DataId, ExecutionId, DataRepresentation, secret_sharing, homomorphic,
  representation_beq, id_as_bytes, id_from_bytes,
}
use ppsc.Base.BTree.{BTree, contains_key, remove}
use ppsc.Base.BTree
use ppsc.Base.Bytes.{Bytes, u64_mod, u128_mod, to_be_bytes, from_be_bytes, text_bytes, starts_with}
use ppsc.Workflow.Types.{
  WorkflowError, invalid_input, invalid_encoding, data_already_exists, data_not_found,
  storage_unavailable, chain_unavailable, inconsistent_fragments, invalid_handoff,
  insufficient_eligible_nodes, location_mismatch, overflow, SecretFragment, StoredObject, Nodes,
  StorageNetwork, StorageAction, WorkflowCryptoBackend,
}
use ppsc.Workflow.Storage.{contains_node}
use ppsc.Workflow.Crypto.{dev_digest}

pub record SortitionBackend : Type 0 where
  pub select : Bytes → List NodeId → ℕ → Result WorkflowError (List NodeId)

-- `eligible.iter().copied().collect::<BTreeSet<_>>()`, as the list of its members.
unfoldable pub unique : List NodeId → List NodeId
unique [] = []
unique (x ∷ xs) = let rest = unique xs in if contains_node rest x then rest else x ∷ rest

-- A stable sort: an element goes before those whose key is not smaller.
unfoldable pub insert_by : (NodeId → ℕ) → NodeId → List NodeId → List NodeId
insert_by key x [] = x ∷ []
insert_by key x (y ∷ ys) =
    let rest = insert_by key x ys in if leb (key x) (key y) then x ∷ y ∷ ys else y ∷ rest

unfoldable pub sort_by : (NodeId → ℕ) → List NodeId → List NodeId
unfolding insert_by
sort_by key [] = []
sort_by key (x ∷ xs) = insert_by key x (sort_by key xs)

-- The digest that ranks a node. Arrays of 32 bytes are ordered as the numbers that they spell.
unfoldable pub rank : Bytes → NodeId → ℕ
rank seed node =
    from_be_bytes (dev_digest (text_bytes "PPSC_DEV_SORTITION") (seed ∷ id_as_bytes node ∷ []))

abbrev pub id_key : NodeId → ℕ
id_key node = node

unfoldable pub select : Bytes → List NodeId → ℕ → Result WorkflowError (List NodeId)
unfolding unique sort_by
select seed eligible committee_size =
    if committee_size == 0 || ltb (length eligible) committee_size
    then err insufficient_eligible_nodes
    else if not (length (unique eligible) == length eligible)
    then err invalid_input
    else ok (sort_by id_key (take committee_size (sort_by (rank seed) eligible)))

abbrev pub dev_sortition : SortitionBackend
dev_sortition = record { select = select }
