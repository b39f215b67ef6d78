-- ===== src/Manifest/Typing.antt =====
-- The types of the cells of the store, which the executor keeps.
use ppsc.Base.{
  ◌≡◌, inl, inr, Bool, true, false, List, [], ◌∷◌, arith, String, if◌then◌else◌, Bool-cases, ok,
  err, Result-cases, nat_eq, pair_eq, bytes_eq, string_eq,
}
use ppsc.Base.Bytes.{Bytes}
use ppsc.Base.Dict.{insert}
use Prim.Native.String.{String}
use ppsc.Manifest.Types.{
  ManifestRuntimeError, ManifestValue, PlannedWrite, ContractManifest, InvocationInputs, StateWrite,
  ExecutionOutcome, ManifestCryptoBackend,
}
use ppsc.Manifest.Executor.{Values, evaluate, execute}
use ppsc.Manifest.Memory.{CellKey, Cells, InMemoryManifestState, store_all, commit, memory_store}
use ppsc.Manifest.Plan.{evaluate_follows_manifest}
use ppsc.Manifest.Plan.Writes.{IsDeclared, FollowsPlan}

-- Each cell holds a value of the type that the manifest declares for its state.
abbrev pub IsTyped : ContractManifest → Cells → Type 0
IsTyped manifest [] = Unit
IsTyped manifest ((k, v) ∷ m) = IsDeclared manifest k.0 v.value_type × IsTyped manifest m

if-IsTyped :
    (manifest : ContractManifest) (b : Bool) (m n : Cells)
    → IsTyped manifest m
    → IsTyped manifest n
    → IsTyped manifest (if b then m else n)
if-IsTyped manifest true m n p q = p
if-IsTyped manifest false m n p q = q

insert-IsTyped :
    (manifest : ContractManifest) (k : CellKey) (v : ManifestValue) (m : Cells)
    → IsDeclared manifest k.0 v.value_type
    → IsTyped manifest m
    → IsTyped manifest (insert k v m)
insert-IsTyped manifest k v [] p h = (p, tt)
insert-IsTyped manifest k v ((j, w) ∷ m) p h =
    if-IsTyped manifest (pair_eq.beq k j) _ _ (p, h.1) (h.0, insert-IsTyped manifest k v m p h.1)

store_all-IsTyped :
    (manifest : ContractManifest) (values : Values) (ps : List PlannedWrite) (ws : List StateWrite)
    (cells : Cells)
    → FollowsPlan manifest values ps ws
    → IsTyped manifest cells
    → IsTyped manifest (store_all ws cells)
unfolding store_all
store_all-IsTyped manifest values [] [] cells f h = h
store_all-IsTyped manifest values [] (w ∷ ws) cells f h = absurd f
store_all-IsTyped manifest values (p ∷ ps) [] cells f h = absurd f
store_all-IsTyped manifest values (p ∷ ps) (w ∷ ws) cells f h =
    store_all-IsTyped manifest values ps ws (insert (w.state, w.key) w.value cells) f.1
      (insert-IsTyped manifest (w.state, w.key) w.value cells f.0.1 h)

commit-IsTyped :
    (manifest : ContractManifest) (values : Values) (ps : List PlannedWrite) (ws : List StateWrite)
    (s : InMemoryManifestState)
    → FollowsPlan manifest values ps ws
    → IsTyped manifest s.cells
    → IsTyped manifest (commit ws s).1.cells
unfolding commit
commit-IsTyped manifest values ps ws s f h = elim (Bool-cases s.poisoned) [
  | inl broken ↦ simp broken h
  | inr healthy ↦ simp healthy (store_all-IsTyped manifest values ps ws s.cells f h)
]

module _ (manifest : ContractManifest) (backend : ManifestCryptoBackend) (name : String)
    (sender : Bytes) (inputs : InvocationInputs) where
  execute_failed :
      (s : InMemoryManifestState) {e : ManifestRuntimeError}
      → evaluate manifest memory_store backend name sender inputs s ≡ err e
      → (execute manifest memory_store backend name sender inputs s).1 ≡ s
  unfolding execute
  execute_failed s h = ground arith

  execute_committed :
      (s : InMemoryManifestState) {outcome : ExecutionOutcome}
      → evaluate manifest memory_store backend name sender inputs s ≡ ok outcome
      → (execute manifest memory_store backend name sender inputs s).1
        ≡ (commit outcome.state_writes s).1
  unfolding execute
  execute_committed s h = ground arith

  -- If every cell of the in-memory store holds a value of the type that the manifest declares for
  -- its state, this holds after any execution of any function with any inputs and backend,
  -- successful or not.
  pub execute-IsTyped :
      (s : InMemoryManifestState)
      → IsTyped manifest s.cells
      → IsTyped manifest (execute manifest memory_store backend name sender inputs s).1.cells
  execute-IsTyped s h =
      elim (Result-cases (evaluate manifest memory_store backend name sender inputs s)) [
        | inr (e, failed) ↦ rw (execute_failed s failed) h
        | inl (outcome, done) ↦
            let (function, start, end, found, starts, (runs, opcodes, follows, opens)) =
              evaluate_follows_manifest manifest memory_store backend name sender inputs s done in
            rw (execute_committed s done)
              (commit-IsTyped manifest end function.state_writes outcome.state_writes s follows h)
      ]
