-- ===== src/Manifest/Plan/Writes.antt =====
-- What `plan_write` and the opening of crates/runtime/src/manifest.rs plan: each declared write at
-- its key, with its value, both read from the values at the end of the function.
use ppsc.Base.{
  ◌≡◌, refl, inl, inr, true, Option, none, some, List, [], ◌∷◌, arith, String, length, ok,
  Result-cases, nat_eq, pair_eq, bytes_eq, string_eq,
}
use ppsc.Base.Bytes.{Bytes}
use Prim.Native.String.{String}
use ppsc.Manifest.Types.{
  ValueType, address, type_beq, type_beq-true, ManifestValue, state_key, StateManifest,
  PlannedWrite, ContractManifest, StateWrite, ManifestStateStore, ManifestCryptoBackend,
}
use ppsc.Manifest.Executor.{
  Values, resolve, state_of, write_key, plan_write, plan_writes, resolve_opening,
}

-- A name is declared with a type.
abbrev pub IsDeclared : ContractManifest → String → ValueType → Type 0
IsDeclared manifest name t =
    (declared : StateManifest) × (state_of manifest name ≡ ok declared) × (t ≡ declared.value_type)

-- A key for the reference of a write and the key type of its state: none for a scalar, and for a
-- mapping from addresses the 20 bytes of the address that the reference stands for.
abbrev pub IsKey : Values → Option String → Option ValueType → Bytes → Type 0
IsKey values none none key = key ≡ []
IsKey values none (some t) key = ⊥
IsKey values (some reference) none key = ⊥
IsKey values (some reference) (some t) key =
    (v : ManifestValue) × (t ≡ address)
    × (resolve reference values ≡ ok v)
    × (v.value_type ≡ address)
    × (length v.bytes ≡ 20)
    × (key ≡ v.bytes)

-- A write of a declared one: to its state, at the key and with the value that its references stand
-- for, the value of the declared type.
abbrev pub Plans : ContractManifest → Values → PlannedWrite → StateWrite → Type 0
Plans manifest values p w =
    (w.state ≡ p.state)
    × IsDeclared manifest w.state w.value.value_type
    × ((declared : StateManifest) × (state_of manifest p.state ≡ ok declared)
        × IsKey values p.key declared.key_type w.key)
    × (resolve p.value values ≡ ok w.value)

abbrev pub FollowsPlan : ContractManifest → Values → List PlannedWrite → List StateWrite → Type 0
FollowsPlan manifest values [] [] = Unit
FollowsPlan manifest values [] (w ∷ ws) = ⊥
FollowsPlan manifest values (p ∷ ps) [] = ⊥
FollowsPlan manifest values (p ∷ ps) (w ∷ ws) =
    Plans manifest values p w × FollowsPlan manifest values ps ws

-- The value that is opened is the one that the function's reference stands for.
abbrev pub Opens : Values → Option String → Option ManifestValue → Type 0
Opens values none opening = opening ≡ none
Opens values (some reference) opening =
    (v : ManifestValue) × (resolve reference values ≡ ok v) × (opening ≡ some v)

write_key-IsKey :
    (reference : Option String) (key_type : Option ValueType) (values : Values) {key : Bytes}
    → write_key reference key_type values ≡ ok key
    → IsKey values reference key_type key
unfolding write_key state_key
write_key-IsKey none none values h = ground arith
write_key-IsKey none (some t) values h = ground arith
write_key-IsKey (some reference) none values h = ground arith
write_key-IsKey (some reference) (some t) values {key} h =
    elim (Result-cases (resolve reference values)) [
      | inr (e, failed) ↦ absurd (ground arith)
      | inl (v, found) ↦
          let of_address : type_beq t address ≡ true = ground arith in
          let is_address : type_beq v.value_type address ≡ true = ground arith in
          let sized : length v.bytes ≡ 20 = ground arith in
          let same : key ≡ v.bytes = ground arith in
          (
            v,
            type_beq-true t address of_address,
            found,
            type_beq-true v.value_type address is_address,
            sized,
            same,
          )
    ]

module _ {S : Type 0} (manifest : ContractManifest) (store : ManifestStateStore S)
    (backend : ManifestCryptoBackend) where
  plan_write-Plans :
      (p : PlannedWrite) (values : Values) {w : StateWrite}
      → plan_write manifest store backend p values ≡ ok w
      → Plans manifest values p w
  unfolding plan_write
  plan_write-Plans p values {w} h = elim (Result-cases (state_of manifest p.state)) [
    | inr (e, missing) ↦ ground arith
    | inl (d, found) ↦ elim (Result-cases (write_key p.key d.key_type values)) [
      | inr (e, missing) ↦ ground arith
      | inl (k, keyed) ↦ elim (Result-cases (resolve p.value values)) [
        | inr (e, missing) ↦ ground arith
        | inl (v, read) ↦
            let typed : type_beq v.value_type d.value_type ≡ true = ground arith in
            let made : w ≡ record { state = p.state; key = k; value = v } = ground arith in
            rw made (
              refl,
              (d, found, type_beq-true v.value_type d.value_type typed),
              (d, found, write_key-IsKey p.key d.key_type values keyed),
              read,
            )
      ]
    ]
  ]

  pub plan_writes-FollowsPlan :
      (ps : List PlannedWrite) (values : Values) {ws : List StateWrite}
      → plan_writes manifest store backend ps values ≡ ok ws
      → FollowsPlan manifest values ps ws
  unfolding plan_writes
  plan_writes-FollowsPlan [] values {ws} h = let made : ws ≡ [] = ground arith in rw made tt
  plan_writes-FollowsPlan (p ∷ ps) values {ws} h =
      elim (Result-cases (plan_write manifest store backend p values)) [
        | inr (e, failed) ↦ absurd (ground arith)
        | inl (w, planned) ↦ elim (Result-cases (plan_writes manifest store backend ps values)) [
          | inr (e, failed) ↦ absurd (ground arith)
          | inl (rest, later) ↦
              let made : ws ≡ w ∷ rest = ground arith in
              rw made (plan_write-Plans p values planned, plan_writes-FollowsPlan ps values later)
        ]
      ]

  pub resolve_opening-Opens :
      (reference : Option String) (values : Values) {opening : Option ManifestValue}
      → resolve_opening manifest store backend reference values ≡ ok opening
      → Opens values reference opening
  unfolding resolve_opening
  resolve_opening-Opens none values h = ground arith
  resolve_opening-Opens (some reference) values {opening} h =
      elim (Result-cases (resolve reference values)) [
        | inr (e, failed) ↦ absurd (ground arith)
        | inl (v, found) ↦ let same : opening ≡ some v = ground arith in (v, found, same)
      ]
