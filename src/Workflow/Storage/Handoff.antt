-- ===== src/Workflow/Storage/Handoff.antt =====
-- What a successful handoff has done to the storage network.
use ppsc.Base.{
  ℕ, ◌+◌, ◌≡◌, refl, inl, inr, Bool, true, false, Option, none, some, List, [], ◌∷◌, map, arith,
  ◌==◌, Bool-cases, Option-cases, length, is_empty, first, All, ok, Result-cases, nat_eq, pair_eq,
  bytes_eq, string_eq,
}
use ppsc.Core.{NodeId, DataId, DataRepresentation}
use ppsc.Base.Bytes.{Bytes}
use ppsc.Workflow.Types.{StoredObject, StorageNetwork, WorkflowCryptoBackend}
use ppsc.Workflow.Storage.{
  object_in, sources_of, any_differs, write_targets, contains_node, drop_others, handoff,
}
use ppsc.Workflow.Storage.Objects.{assigned, object_in-write_targets, object_in-drop_others}
use ppsc.Workflow.Storage.Objects.{Good, assigned_target}

module _ (R : WorkflowCryptoBackend) (d : DataId) (targets : List NodeId) where
  -- What the code after the checks has computed.
  pub record Accepted (s : StorageNetwork) (next : ℕ) (s' : StorageNetwork) : Type 0 where
    pub nonempty : is_empty targets ≡ false
    pub healthy : s'.poisoned ≡ false
    pub leader : StoredObject
    pub payloads : List Bytes
    pub found : first (sources_of d s.nodes) ≡ some leader
    pub agreed : any_differs leader (sources_of d s.nodes) ≡ false
    pub made :
        R.handoff leader.representation
          (map (λ o. o.payload) (sources_of d s.nodes))
          (length targets)
        ≡ ok payloads
    pub matched : length payloads ≡ length targets
    pub stepped : next ≡ leader.version + 1
    pub written :
        s'.nodes
        ≡ drop_others d targets
            (write_targets leader.representation d next targets payloads s.nodes)

  pub handoff-Accepted :
      (s : StorageNetwork) {next : ℕ} {s' : StorageNetwork}
      → handoff R d targets s ≡ (ok next, s')
      → Accepted s next s'
  unfolding handoff
  handoff-Accepted s h = elim (Option-cases (first (sources_of d s.nodes))) [
    | inl absent ↦ absurd (ground arith)
    | inr (leader, e) ↦
        elim (Result-cases (
          R.handoff leader.representation (map (λ o. o.payload) (sources_of d s.nodes))
            (length targets))) [
              | inr (why, f) ↦ absurd (ground arith)
              | inl (payloads, f) ↦ record {
                nonempty = ground arith;
                healthy = ground arith;
                leader = leader;
                payloads = payloads;
                found = e;
                agreed = ground arith;
                made = f;
                matched = ground arith;
                stepped = ground arith;
                written = ground arith;
              }
            ]
  ]

-- What one node holds under one data id after a handoff, by what it held before: another data id
-- is untouched; the id handed off is on every target, at the next version and in the same
-- representation, and on no other node.
abbrev pub HandedOff :
    Bool → Bool → ℕ → DataRepresentation → Option StoredObject → Option StoredObject → Type 0
HandedOff false target next r before after' = after' ≡ before
HandedOff true false next r before after' = after' ≡ none
HandedOff true true next r before none = ⊥
HandedOff true true next r before (some o) = (o.version ≡ next) × (o.representation ≡ r)

module _ (j : NodeId) (r : DataRepresentation) (v : ℕ) where
  abbrev IsNew : StoredObject → Type 0
  IsNew o = (o.version ≡ v) × (o.representation ≡ r)

  All-IsNew : (ps : List Bytes) → All (Good j r v IsNew) ps
  All-IsNew [] = tt
  All-IsNew (p ∷ ps) = ((refl, refl), All-IsNew ps)

  assigned-HandedOff :
      (ts : List NodeId) (ps : List Bytes) (before : Option StoredObject)
      → length ps ≡ length ts
      → contains_node ts j ≡ true
      → HandedOff true true v r before (assigned j r v ts ps before)
  assigned-HandedOff ts ps before same target =
      let (o, e, new) = assigned_target j r v IsNew ts ps before (All-IsNew ps) same target in
      rw e new

module _ (R : WorkflowCryptoBackend) (d : DataId) (targets : List NodeId) where
  -- Whatever the cryptographic backend, when a handoff succeeds, the data id was held by some
  -- node, the new version is one more than that of the first holder, and for every node and data
  -- id: another data id is untouched, the id handed off is at every target node with the new
  -- version and the first holder's representation, and no other node holds it any more.
  pub handoff_moves :
      (s : StorageNetwork) (j : NodeId) (e : DataId) {next : ℕ} {s' : StorageNetwork}
      → handoff R d targets s ≡ (ok next, s')
      → (leader : StoredObject) × (first (sources_of d s.nodes) ≡ some leader)
        × (next ≡ leader.version + 1)
        × HandedOff
            (d == e)
            (contains_node targets j)
            next
            leader.representation
            (object_in j e s.nodes)
            (object_in j e s'.nodes)
  handoff_moves s j e {next} h =
      let a = handoff-Accepted R d targets s h in
      (
        a.leader,
        a.found,
        a.stepped,
        rw (a.written, object_in-drop_others j e d targets, object_in-write_targets j e)
            (elim (Bool-cases (d == e)) [
              | inr other ↦ rw other refl
              | inl same ↦ rw same (elim (Bool-cases (contains_node targets j)) [
                | inr outside ↦ rw outside refl
                | inl target ↦ rw target (
                    assigned-HandedOff j a.leader.representation next targets a.payloads _ a.matched
                      target)
              ])
            ]),
      )
