-- ===== src/Manifest/Memory.antt =====
-- `InMemoryManifestState` of crates/runtime/src/manifest.rs, and the executor over it.
use ppsc.Base.{
  ◌≡◌, refl, Bool, false, Option, none, some, List, [], ◌∷◌, arith, String, if◌then◌else◌, Result,
  ok, err, ok_or, Action, gets, modify, fail_if, ◌>>=◌, ◌>>◌, nat_eq, pair_eq, bytes_eq, string_eq,
}
use ppsc.Base.Bytes.{Bytes}
use ppsc.Base.Dict.{Dict, lookup, insert, lookup-insert}
use Prim.Native.String.{String}
use ppsc.Manifest.Types.{
  ManifestRuntimeError, state_not_found, state_unavailable, ManifestValue, ContractManifest,
  InvocationInputs, StateWrite, ExecutionOutcome, ManifestStateStore, ManifestCryptoBackend,
}
use ppsc.Manifest.Executor.{evaluate, execute}

abbrev pub CellKey : Type 0
CellKey = String × Bytes

abbrev pub Cells : Type 0
Cells = Dict CellKey ManifestValue

-- `poisoned` is the mutex's flag.
pub record InMemoryManifestState : Type 0 where
  pub cells : Cells
  pub poisoned : Bool

abbrev pub CellAction : Type 0 → Type 0
CellAction A = Action ManifestRuntimeError InMemoryManifestState A

unfoldable pub initialize : String → Bytes → ManifestValue → CellAction (Unit {0})
initialize state key value = do
  fail_if (← gets (λ s. s.poisoned)) state_unavailable
  modify (λ s. record s { cells = insert (state, key) value s.cells })

unfoldable pub load :
    String → Bytes → InMemoryManifestState → Result ManifestRuntimeError ManifestValue
load state key s =
    if s.poisoned
    then err state_unavailable
    else ok_or (lookup (state, key) s.cells) state_not_found

unfoldable pub store_all : List StateWrite → Cells → Cells
store_all [] cells = cells
store_all (write ∷ writes) cells =
    store_all writes (insert (write.state, write.key) write.value cells)

unfoldable pub commit : List StateWrite → CellAction (Unit {0})
unfolding store_all
commit writes = do
  fail_if (← gets (λ s. s.poisoned)) state_unavailable
  modify (λ s. record s { cells = store_all writes s.cells })

abbrev pub memory_store : ManifestStateStore InMemoryManifestState
memory_store = record { load = load; commit = commit }

-- The value that the writes leave in a cell, if one of them is to it.
abbrev pub last_write : CellKey → List StateWrite → Option ManifestValue
last_write cell [] = none
last_write cell (write ∷ writes) = elim (last_write cell writes) [
  | some v ↦ some v
  | none ↦ if pair_eq.beq (write.state, write.key) cell then some write.value else none
]

abbrev pub or_else : Option ManifestValue → Option ManifestValue → Option ManifestValue
or_else none other = other
or_else (some v) other = some v

lookup-store_all :
    (cell : CellKey) (writes : List StateWrite) (cells : Cells)
    → lookup cell (store_all writes cells) ≡ or_else (last_write cell writes) (lookup cell cells)
unfolding store_all
lookup-store_all cell [] cells = refl
lookup-store_all cell (w ∷ ws) cells =
    rw
      (
        lookup-store_all cell ws (insert (w.state, w.key) w.value cells),
        lookup-insert (w.state, w.key) cell w.value cells,
      )
      (ground arith)

module _ (manifest : ContractManifest) (backend : ManifestCryptoBackend) (name : String)
    (sender : Bytes) (inputs : InvocationInputs) where
  -- When the mutex of the in-memory store is healthy and a function evaluates to an outcome, the
  -- execution returns that outcome and the store stays healthy, and every cell holds the last of
  -- the outcome's writes to it or, without one, what it held before.
  pub execute_commits :
      (s : InMemoryManifestState) (cell : CellKey) {outcome : ExecutionOutcome}
      → s.poisoned ≡ false
      → evaluate manifest memory_store backend name sender inputs s ≡ ok outcome
      → let out = execute manifest memory_store backend name sender inputs s in
        (out.0 ≡ ok outcome)
        × (out.1.poisoned ≡ false)
        × (lookup cell out.1.cells
            ≡ or_else (last_write cell outcome.state_writes) (lookup cell s.cells))
  unfolding execute commit
  execute_commits s cell {outcome} healthy done = (
    ground arith,
    ground arith,
    ground (arith, lookup-store_all cell outcome.state_writes s.cells),
  )

  -- When the execution of a function over the in-memory store fails, the store is exactly as
  -- before.
  pub execute_fails_unchanged :
      (s : InMemoryManifestState) {e : ManifestRuntimeError}
      → (execute manifest memory_store backend name sender inputs s).0 ≡ err e
      → (execute manifest memory_store backend name sender inputs s).1 ≡ s
  unfolding execute commit
  execute_fails_unchanged s failed = ground arith
