-- ===== src/Workflow/Storage/Objects.antt =====
-- What each storage operation does to the object that one node holds under one data id.
use ppsc.Base.{
  ℕ, ◌≡◌, refl, inl, inr, true, ◌&&◌, not, Option, none, some, List, [], ◌∷◌, arith, ◌==◌,
  if◌then◌else◌, Bool-cases, length, All, nat_eq, pair_eq, bytes_eq, string_eq,
}
use ppsc.Core.{NodeId, DataId, DataRepresentation}
use ppsc.Base.BTree.{BTree, contains_key, remove}
use ppsc.Base.BTree
use ppsc.Base.Bytes.{Bytes}
use ppsc.Workflow.Types.{StoredObject, Nodes}
use ppsc.Workflow.Storage.{
  records_of, object_in, put_object, write_targets, contains_node, drop_others,
}
use ppsc.Base.BTree.{insert, lookup-insert, lookup-remove}

-- The object that the zip of targets and payloads leaves on the node, over an older one.
abbrev pub assigned :
    NodeId
    → DataRepresentation
    → ℕ
    → List NodeId
    → List Bytes
    → Option StoredObject
    → Option StoredObject
assigned j r v [] ps o = o
assigned j r v (n ∷ ts) [] o = o
assigned j r v (n ∷ ts) (p ∷ ps) o =
    assigned j r v ts ps
      (if n == j then some (record { representation = r; version = v; payload = p }) else o)

-- A target gets one of the payloads, so what holds of each of them holds of its object.
module _ (j : NodeId) (r : DataRepresentation) (v : ℕ) (P : StoredObject → Type 0) where
  abbrev pub Good : Bytes → Type 0
  Good p = P (record { representation = r; version = v; payload = p })

  assigned_keeps :
      (ts : List NodeId) (ps : List Bytes) (o : StoredObject)
      → All Good ps
      → P o
      → (o' : StoredObject) × (assigned j r v ts ps (some o) ≡ some o') × P o'
  assigned_keeps [] ps o good h = (o, refl, h)
  assigned_keeps (n ∷ ts) [] o good h = (o, refl, h)
  assigned_keeps (n ∷ ts) (p ∷ ps) o good h = elim (Bool-cases (n == j)) [
    | inl same ↦ rw same (assigned_keeps ts ps _ good.1 good.0)
    | inr other ↦ rw other (assigned_keeps ts ps o good.1 h)
  ]

  pub assigned_target :
      (ts : List NodeId) (ps : List Bytes) (o : Option StoredObject)
      → All Good ps
      → length ps ≡ length ts
      → contains_node ts j ≡ true
      → (o' : StoredObject) × (assigned j r v ts ps o ≡ some o') × P o'
  assigned_target [] ps o good same h = cc
  assigned_target (n ∷ ts) [] o good same h = absurd (omega arith)
  assigned_target (n ∷ ts) (p ∷ ps) o good same h = elim (Bool-cases (n == j)) [
    | inl here ↦ rw here (assigned_keeps ts ps _ good.1 good.0)
    | inr other ↦ rw other (assigned_target ts ps o good.1 (omega arith) (ground arith))
  ]

module _ (j : NodeId) (e : DataId) where
  pub object_in-put_object :
      (n : NodeId) (d : DataId) (o : StoredObject) (nodes : Nodes)
      → object_in j e (put_object n d o nodes)
        ≡ (if n == j && d == e then some o else object_in j e nodes)
  unfolding put_object
  object_in-put_object n d o nodes = ground (
    arith,
    lookup-insert n j (BTree.insert d o (records_of n nodes)) nodes,
    lookup-insert d e o (records_of n nodes),
  )

  pub object_in-write_targets :
      (r : DataRepresentation) (d : DataId) (v : ℕ) (ts : List NodeId) (ps : List Bytes)
      (nodes : Nodes)
      → object_in j e (write_targets r d v ts ps nodes)
        ≡ (if d == e then assigned j r v ts ps (object_in j e nodes) else object_in j e nodes)
  unfolding write_targets
  object_in-write_targets r d v [] ps nodes = ground arith
  object_in-write_targets r d v (n ∷ ts) [] nodes = ground arith
  object_in-write_targets r d v (n ∷ ts) (p ∷ ps) nodes =
      rw (object_in-write_targets r d v ts ps, object_in-put_object n d)
        (elim (Bool-cases (d == e)) [
          | inl same ↦ rw same (elim (Bool-cases (n == j)) [ inl t ↦ rw t | inr t ↦ rw t ])
          | inr other ↦ rw other (elim (Bool-cases (n == j)) [ inl t ↦ rw t | inr t ↦ rw t ])
        ])

  pub object_in-drop_others :
      (d : DataId) (ts : List NodeId) (nodes : Nodes)
      → object_in j e (drop_others d ts nodes)
        ≡ (if d == e && not (contains_node ts j) then none else object_in j e nodes)
  unfolding drop_others
  object_in-drop_others d ts [] = ground arith
  object_in-drop_others d ts ((n, records) ∷ nodes) =
      ground (arith, object_in-drop_others d ts nodes, lookup-remove d e records)
