-- ===== src/Workflow/Storage/Value.antt =====
-- The plaintext backend's encodings are read back, and a handoff keeps the stored value.
use ppsc.Base.{
  ℕ, zero, suc, ◌+◌, ◌<◌, ◌≡◌, refl, ap, ◌∙◌, true, false, Option, none, some, List, [], ◌∷◌, ◌++◌,
  map, arith, ==_refl, length, is_empty, first, take, All, length-append, ok, and_then, nat_eq,
  pair_eq, bytes_eq, string_eq,
}
use ppsc.Core.{NodeId, DataId, DataRepresentation, secret_sharing, homomorphic, representation_beq}
use ppsc.Base.Bytes.{Bytes, u128_mod, to_be_bytes}
use ppsc.Workflow.Types.{StoredObject, Nodes, StorageNetwork}
use ppsc.Workflow.Storage.{
  object_in, sources_of, contains_node, handoff, conflicts, collect_payloads, payloads_at,
}
use mathlib.Core.Path.{subst}
use mathlib.Core.List.{append-nil}
use ppsc.Base.{drop-append_self, take-append_self}
use ppsc.Base.Bytes.{length-to_be_bytes, from_be_bytes-to_be_bytes, starts_with-append}
use ppsc.Workflow.Storage.Objects.{
  assigned_target, Good, object_in-write_targets, object_in-drop_others,
}
use ppsc.Workflow.Storage.Handoff.{Accepted, handoff-Accepted}
use ppsc.Workflow.Crypto
use ppsc.Workflow.Crypto.{
  decode_prefixed_u128, share_payload, fhe_payload, decode_one, check_rest, decode, share_payloads,
  repeat_payload, target_payloads, plaintext_crypto, dev_ss_prefix, dev_fhe_prefix,
}

take_word : (x : ℕ) (rest : Bytes) → take 16 (to_be_bytes 16 x ++ rest) ≡ to_be_bytes 16 x
take_word x rest =
    subst (λ n. take n (to_be_bytes 16 x ++ rest) ≡ to_be_bytes 16 x) (length-to_be_bytes 16 x)
      (take-append_self (to_be_bytes 16 x) rest)

-- A word behind its prefix is read back, whatever follows it.
pub decode_prefixed-append :
    (prefix : Bytes) (value : ℕ) (rest : Bytes)
    → value < u128_mod
    → decode_prefixed_u128 (prefix ++ (to_be_bytes 16 value ++ rest)) prefix ≡ ok value
unfolding decode_prefixed_u128
decode_prefixed-append prefix value rest fits = ground (
  arith,
  starts_with-append prefix (to_be_bytes 16 value ++ rest),
  length-append prefix (to_be_bytes 16 value ++ rest),
  length-append (to_be_bytes 16 value) rest,
  length-to_be_bytes 16 value,
  drop-append_self prefix (to_be_bytes 16 value ++ rest),
  take_word value rest,
  from_be_bytes-to_be_bytes 16 value fits,
)

-- Every payload made for a value is read back as that value.
abbrev pub DecodesTo : DataRepresentation → ℕ → Bytes → Type 0
DecodesTo r value payload = decode_one r payload ≡ ok value

module _ (value : ℕ) (fits : value < u128_mod) where
  pub share_payload-DecodesTo : (i : ℕ) → DecodesTo secret_sharing value (share_payload value i)
  unfolding decode_one share_payload
  share_payload-DecodesTo i = decode_prefixed-append dev_ss_prefix value (to_be_bytes 8 i) fits

  pub fhe_payload-DecodesTo : DecodesTo homomorphic value (fhe_payload value)
  unfolding decode_one fhe_payload
  fhe_payload-DecodesTo =
      subst (λ w. decode_prefixed_u128 (dev_fhe_prefix ++ w) dev_fhe_prefix ≡ ok value)
        (append-nil (to_be_bytes 16 value)) (decode_prefixed-append dev_fhe_prefix value [] fits)

  share_payloads-DecodesTo :
      (i n : ℕ) → All (DecodesTo secret_sharing value) (share_payloads value i n)
  unfolding share_payloads
  share_payloads-DecodesTo i zero = tt
  share_payloads-DecodesTo i (suc n) =
      (share_payload-DecodesTo i, share_payloads-DecodesTo (i + 1) n)

  repeat_payload-DecodesTo :
      (n : ℕ) → All (DecodesTo homomorphic value) (repeat_payload (fhe_payload value) n)
  unfolding repeat_payload
  repeat_payload-DecodesTo zero = tt
  repeat_payload-DecodesTo (suc n) = (fhe_payload-DecodesTo, repeat_payload-DecodesTo n)

  pub target_payloads-DecodesTo :
      (r : DataRepresentation) (n : ℕ) → All (DecodesTo r value) (target_payloads r value n)
  unfolding target_payloads
  target_payloads-DecodesTo secret_sharing n = share_payloads-DecodesTo 0 n
  target_payloads-DecodesTo homomorphic n = repeat_payload-DecodesTo n

module _ (r : DataRepresentation) (value : ℕ) where
  check_rest-All : (ps : List Bytes) → All (DecodesTo r value) ps → check_rest r value ps ≡ ok value
  unfolding check_rest
  check_rest-All [] h = refl
  check_rest-All (p ∷ ps) h = rw (h.0, ==_refl value) (check_rest-All ps h.1)

  -- Payloads that all decode to a value decode together to it.
  pub decode-All :
      (ps : List Bytes) → is_empty ps ≡ false → All (DecodesTo r value) ps → decode r ps ≡ ok value
  unfolding decode
  decode-All [] nonempty h = cc
  decode-All (p ∷ ps) nonempty h = rw h.0 (check_rest-All ps h.1)

  -- The object that a node holds has the representation and decodes to the value.
  abbrev IsCopy : StoredObject → Type 0
  IsCopy o = (o.representation ≡ r) × DecodesTo r value o.payload

  abbrev pub HasCopy : DataId → Nodes → NodeId → Type 0
  HasCopy d nodes t = (o : StoredObject) × (object_in t d nodes ≡ some o) × IsCopy o

  representation_beq_refl : (q : DataRepresentation) → representation_beq q q ≡ true
  representation_beq_refl secret_sharing = refl
  representation_beq_refl homomorphic = refl

  abbrev collected : Option DataRepresentation → List NodeId → Option DataRepresentation
  collected rep [] = rep
  collected rep (t ∷ ts) = some r

  collected-some : (ts : List NodeId) → collected (some r) ts ≡ some r
  collected-some [] = refl
  collected-some (t ∷ ts) = refl

  collected_nonempty :
      (rep : Option DataRepresentation) (ts : List NodeId)
      → is_empty ts ≡ false
      → collected rep ts ≡ some r
  collected_nonempty rep [] h = cc
  collected_nonempty rep (t ∷ ts) h = refl

  collect_payloads-copies :
      (d : DataId) (nodes : Nodes) (ts : List NodeId) (rep : Option DataRepresentation)
      → conflicts rep r ≡ false
      → All (HasCopy d nodes) ts
      → (ps : List Bytes) × (collect_payloads d ts rep nodes ≡ ok (collected rep ts, ps))
        × (is_empty ps ≡ is_empty ts)
        × All (DecodesTo r value) ps
  unfolding collect_payloads
  collect_payloads-copies d nodes [] rep c h = ([], refl, refl, tt)
  collect_payloads-copies d nodes (t ∷ ts) rep c ((o, e, (er, v)), rest) =
      let same : conflicts (some r) r ≡ false = rw (representation_beq_refl r) refl in
      let (ps, f, n, all) = collect_payloads-copies d nodes ts (some r) same rest in
      (o.payload ∷ ps, rw (e, er, c, f, collected-some ts), refl, (v, all))

-- Each target is in the list of targets.
targets_contained :
    (xs ys : List NodeId)
    → ((k : NodeId) → contains_node ys k ≡ true → contains_node xs k ≡ true)
    → All (λ t. contains_node xs t ≡ true) ys
targets_contained xs [] sub = tt
targets_contained xs (y ∷ ys) sub =
    (sub y (ground (arith, ==_refl y)), targets_contained xs ys (λ k h. sub k (ground arith)))

length-share_payloads : (value i n : ℕ) → length (share_payloads value i n) ≡ n
unfolding share_payloads
length-share_payloads value i zero = refl
length-share_payloads value i (suc n) = ap suc (length-share_payloads value (i + 1) n)

length-repeat_payload : (p : Bytes) (n : ℕ) → length (repeat_payload p n) ≡ n
unfolding repeat_payload
length-repeat_payload p zero = refl
length-repeat_payload p (suc n) = ap suc (length-repeat_payload p n)

-- The backend makes one payload for each target.
pub length-target_payloads :
    (r : DataRepresentation) (value n : ℕ) → length (target_payloads r value n) ≡ n
unfolding target_payloads
length-target_payloads secret_sharing value n = length-share_payloads value 0 n
length-target_payloads homomorphic value n = length-repeat_payload (fhe_payload value) n

All-copies :
    (r : DataRepresentation) (value v : ℕ) (t : NodeId) (ps : List Bytes)
    → All (DecodesTo r value) ps
    → All (Good t r v (IsCopy r value)) ps
All-copies r value v t [] h = tt
All-copies r value v t (p ∷ ps) h = ((refl, h.0), All-copies r value v t ps h.1)

All-of_each :
    (P : NodeId → Type 0) (xs ts : List NodeId)
    → All (λ t. contains_node xs t ≡ true) ts
    → ((t : NodeId) → contains_node xs t ≡ true → P t)
    → All P ts
All-of_each P xs [] h each = tt
All-of_each P xs (t ∷ ts) h each = (each t h.0, All-of_each P xs ts h.1 each)

module _ (d : DataId) (targets : List NodeId) (s : StorageNetwork) {next : ℕ} {s' : StorageNetwork}
    (a : Accepted plaintext_crypto d targets s next s') {value : ℕ} (fits : value < u128_mod)
    (stored : decode a.leader.representation (map (λ o. o.payload) (sources_of d s.nodes))
      ≡ ok value) where
  made_payloads : a.payloads ≡ target_payloads a.leader.representation value (length targets)
  unfolding Crypto.handoff
  made_payloads = cc (rw stored at a.made)

  target_copy :
      (t : NodeId)
      → contains_node targets t ≡ true
      → HasCopy a.leader.representation value d s'.nodes t
  target_copy t target =
      let r = a.leader.representation in
      let all =
        All-copies r value next t (target_payloads r value (length targets))
          (target_payloads-DecodesTo value fits r (length targets)) in
      let (o, e, copy) =
        assigned_target t r next (IsCopy r value) targets (target_payloads r value (length targets))
          (object_in t d s.nodes) all (length-target_payloads r value (length targets)) target in
      (
        o,
        rw
            (
              a.written,
              object_in-drop_others t d d targets,
              ==_refl d,
              target,
              object_in-write_targets t d,
              ==_refl d,
              made_payloads,
            )
            e,
        copy,
      )

  read_back : and_then (payloads_at d targets s').0 (λ read. decode read.0 read.1) ≡ ok value
  unfolding payloads_at
  read_back =
      let r = a.leader.representation in
      let copies =
        All-of_each (HasCopy r value d s'.nodes) targets targets
          (targets_contained targets targets (λ k h. h)) target_copy in
      let (ps, e, n, all) = collect_payloads-copies r value d s'.nodes targets none refl copies in
      simp a.healthy (
        rw (e, collected_nonempty r value none targets a.nonempty)
          (decode-All r value ps (n ∙ a.nonempty) all))

module _ (d : DataId) (targets : List NodeId) (s : StorageNetwork) {next : ℕ}
    {s' : StorageNetwork} where
  -- With the plaintext backend, when a handoff of a data id succeeds and the old fragments, read
  -- in the order of their nodes, decoded to a value below 2 ^ 128, reading the id back at the
  -- target nodes and decoding gives that same value.
  pub handoff_keeps_value :
      handoff plaintext_crypto d targets s ≡ (ok next, s')
      → {leader : StoredObject} → first (sources_of d s.nodes) ≡ some leader
      → {value : ℕ} → value < u128_mod
      → decode leader.representation (map (λ o. o.payload) (sources_of d s.nodes)) ≡ ok value
      → and_then (payloads_at d targets s').0 (λ read. decode read.0 read.1) ≡ ok value
  handoff_keeps_value done {leader} found {value} fits stored =
      let a = handoff-Accepted plaintext_crypto d targets s done in
      let same : leader ≡ a.leader = cc (a.found, found) in
      read_back d targets s a fits (
        subst
          (λ (o : StoredObject).
            decode o.representation (map (λ o. o.payload) (sources_of d s.nodes)) ≡ ok value)
          same stored)
