-- ===== src/Workflow/Storage/Upload.antt =====
-- Uploads: what a success stores, and what a failure has already stored.
use ppsc.Base.{
  ℕ, ◌≡◌, ◌≢◌, refl, sym, ap, ◌∙◌, inl, inr, Bool, true, false, Option, none, some, List, [], ◌∷◌,
  map, arith, ◌==◌, if◌then◌else◌, ==_iff, Bool-cases, Result, ok, err, nat_eq, pair_eq, bytes_eq,
  string_eq,
}
use ppsc.Core.{NodeId, DataId, DataRepresentation, secret_sharing, homomorphic}
use ppsc.Base.BTree.{BTree, contains_key, remove}
use ppsc.Base.BTree
use ppsc.Base.Bytes.{Bytes}
use ppsc.Workflow.Types.{
  WorkflowError, data_already_exists, SecretFragment, StoredObject, StorageNetwork,
}
use ppsc.Workflow.Storage.{
  records_of, object_in, put_object, upload_each, upload_secret_shares, upload_fhe_ciphertext,
}
use ppsc.Workflow.Storage.Objects.{object_in-put_object}

abbrev new_object : DataRepresentation → ℕ → Bytes → StoredObject
new_object r v p = record { representation = r; version = v; payload = p }

-- The last payload that the list gives a node.
abbrev pub uploaded : NodeId → List (NodeId × Bytes) → Option Bytes
uploaded j [] = none
uploaded j ((n, p) ∷ rest) = if n == j then some p else uploaded j rest

-- What a node holds after a successful upload, by what it held before.
abbrev pub Uploaded :
    DataRepresentation → ℕ → Option Bytes → Option StoredObject → Option StoredObject → Type 0
Uploaded r v none before after' = after' ≡ before
Uploaded r v (some p) before after' =
    (before ≡ none) × (after' ≡ some (record { representation = r; version = v; payload = p }))

contains_key-false :
    (d : DataId) (m : BTree StoredObject) → contains_key d m ≡ false → BTree.lookup d m ≡ none
contains_key-false d m h = ground arith

-- One more entry at the head of the list, which stored its payload on node `n` if `b`.
join-Uploaded :
    (r : DataRepresentation) (v : ℕ) (p : Bytes) (o : Option Bytes) (b : Bool)
    (before after' : Option StoredObject)
    → (b ≡ true → before ≡ none)
    → Uploaded r v o (if b then some (new_object r v p) else before) after'
    → Uploaded r v (if b then some p else o) before after'
join-Uploaded r v p none true before after' new h = (new refl, h)
join-Uploaded r v p (some q) true before after' new h = absurd (cc h.0)
join-Uploaded r v p o false before after' new h = h

module _ (r : DataRepresentation) (d : DataId) (v : ℕ) where
  upload_each-Uploaded :
      (ps : List (NodeId × Bytes)) (s : StorageNetwork) (j : NodeId) {s' : StorageNetwork}
      → upload_each r d v ps s ≡ (ok tt, s')
      → Uploaded r v (uploaded j ps) (object_in j d s.nodes) (object_in j d s'.nodes)
  unfolding upload_each
  upload_each-Uploaded [] s j h =
      ap (λ (out : Result WorkflowError (Unit {0}) × StorageNetwork). object_in j d out.1.nodes)
        (sym h)
  upload_each-Uploaded ((n, p) ∷ ps) s j {s'} h =
      elim (Bool-cases (contains_key d (records_of n s.nodes))) [
        | inl taken ↦ absurd (cc (rw taken at h))
        | inr new ↦
            let stored : StorageNetwork = record s {
              nodes = put_object n d (new_object r v p) s.nodes;
            } in
            let later : upload_each r d v ps stored ≡ (ok tt, s') = rw new at h in
            let rest = upload_each-Uploaded ps stored j later in
            join-Uploaded r v p (uploaded j ps) (n == j) _ _
              (λ same.
                let found : n ≡ j = (==_iff n j).0 same in
                rw (← found) (contains_key-false d (records_of n s.nodes) new))
              (let here : object_in j d stored.nodes
                    ≡ (if n == j then some (new_object r v p) else object_in j d s.nodes) =
                  ground (arith, object_in-put_object j d n d (new_object r v p) s.nodes) in
                rw here at rest)
      ]

  -- Other data ids are untouched, also by an upload that fails.
  upload_each_others :
      (ps : List (NodeId × Bytes)) (s : StorageNetwork) (j : NodeId) (e : DataId)
      → (d == e) ≡ false
      → object_in j e (upload_each r d v ps s).1.nodes ≡ object_in j e s.nodes
  unfolding upload_each
  upload_each_others [] s j e other = refl
  upload_each_others ((n, p) ∷ ps) s j e other =
      elim (Bool-cases (contains_key d (records_of n s.nodes))) [
        | inl taken ↦ rw taken refl
        | inr new ↦
            let stored : StorageNetwork = record s {
              nodes = put_object n d (new_object r v p) s.nodes;
            } in
            rw new (
              upload_each_others ps stored j e other
              ∙ ground (arith, object_in-put_object j e n d (new_object r v p) s.nodes))
      ]

-- When an upload of secret shares succeeds, each node that the fragments name did not hold the
-- data id before and now holds its fragment, as a secret share at the given version, and every
-- other node holds under the data id what it held before.
pub upload_secret_shares_stores :
    (d : DataId) (v : ℕ) (fragments : List SecretFragment) (s : StorageNetwork) (j : NodeId)
    {s' : StorageNetwork}
    → upload_secret_shares d v fragments s ≡ (ok tt, s')
    → Uploaded secret_sharing v
        (uploaded j (map (λ f. (f.node, f.payload)) fragments))
        (object_in j d s.nodes)
        (object_in j d s'.nodes)
unfolding upload_secret_shares
upload_secret_shares_stores d v fragments s j {s'} h =
    upload_each-Uploaded secret_sharing d v (map (λ f. (f.node, f.payload)) fragments) s j {s' = s'}
      (ground arith)

-- When an upload of a ciphertext succeeds, each named node did not hold the data id before and
-- now holds the ciphertext, as a homomorphic object at the given version, and every other node
-- holds under the data id what it held before.
pub upload_fhe_ciphertext_stores :
    (d : DataId) (v : ℕ) (ciphertext : Bytes) (targets : List NodeId) (s : StorageNetwork)
    (j : NodeId) {s' : StorageNetwork}
    → upload_fhe_ciphertext d v ciphertext targets s ≡ (ok tt, s')
    → Uploaded homomorphic v
        (uploaded j (map (λ node. (node, ciphertext)) targets))
        (object_in j d s.nodes)
        (object_in j d s'.nodes)
unfolding upload_fhe_ciphertext
upload_fhe_ciphertext_stores d v ciphertext targets s j {s'} h =
    upload_each-Uploaded homomorphic d v (map (λ node. (node, ciphertext)) targets) s j {s' = s'}
      (ground arith)

-- On a healthy storage and at a nonzero version, an upload of two fragments of which the second
-- node already holds the data id and the first does not fails as already existing, and leaves the
-- first fragment stored.
pub upload_not_atomic :
    (d : DataId) (v : ℕ) (n k : NodeId) (p q : Bytes) (s : StorageNetwork) {o : StoredObject}
    → s.poisoned ≡ false
    → v ≢ 0
    → n ≢ k
    → object_in n d s.nodes ≡ none
    → object_in k d s.nodes ≡ some o
    → let out =
        upload_secret_shares d v
          (record { node = n; payload = p } ∷ record { node = k; payload = q } ∷ [])
          s in
      (out.0 ≡ err data_already_exists)
      × (object_in n d out.1.nodes
          ≡ some (record { representation = secret_sharing; version = v; payload = p }))
unfolding upload_secret_shares upload_each
upload_not_atomic d v n k p q s healthy positive other new old = ground (
  arith,
  object_in-put_object n d n d (new_object secret_sharing v p) s.nodes,
  object_in-put_object k d n d (new_object secret_sharing v p) s.nodes,
)
