-- ===== src/Base/BTree.antt =====
-- Rust's `BTreeMap` over number keys, as an association list in the order of its keys. Iteration
-- follows the order, so that the order of a result can be stated.
use Prim.Native.Nat.{ℕ, ◌<◌, compare, Ordering}
use mathlib.Core.Path.{◌≡◌}
use mathlib.Core.Bool.{Bool, true, false}
use mathlib.Core.Option.{Option, none, some}
use mathlib.Core.List.{List, [], ◌∷◌}
use native.Mathlib.Omega.{arith}
use ppsc.Base.Tests.{◌==◌, if◌then◌else◌}

abbrev pub BTree : Type 0 → Type 0
BTree V = List (ℕ × V)

module _ {V : Type 0} where
  abbrev pub lookup : ℕ → BTree V → Option V
  lookup k [] = none
  lookup k ((j, v) ∷ m) = if k == j then some v else lookup k m

  abbrev pub contains_key : ℕ → BTree V → Bool
  contains_key k m = elim (lookup k m) [ none ↦ false | some _ ↦ true ]

  unfoldable pub insert : ℕ → V → BTree V → BTree V
  insert k v [] = (k, v) ∷ []
  insert k v ((j, w) ∷ m) =
      let rest = insert k v m in
      elim (compare k j) [
        | Ordering.lt ↦ (k, v) ∷ (j, w) ∷ m
        | Ordering.eq ↦ (k, v) ∷ m
        | Ordering.gt ↦ (j, w) ∷ rest
      ]

  unfoldable pub remove : ℕ → BTree V → BTree V
  remove k [] = []
  remove k ((j, v) ∷ m) = let rest = remove k m in if k == j then rest else (j, v) ∷ rest

  -- All keys lie above a bound, and the keys increase.
  abbrev pub AllAbove : ℕ → BTree V → Type 0
  AllAbove b [] = Unit
  AllAbove b ((k, v) ∷ m) = (b < k) × AllAbove b m

  abbrev pub IsSorted : BTree V → Type 0
  IsSorted [] = Unit
  IsSorted ((k, v) ∷ m) = AllAbove k m × IsSorted m

  pub lookup-insert :
      (k j : ℕ) (v : V) (m : BTree V)
      → lookup j (insert k v m) ≡ (if k == j then some v else lookup j m)
  unfolding insert
  lookup-insert k j v [] = ground arith
  lookup-insert k j v ((i, w) ∷ m) = ground (arith, lookup-insert k j v m)

  pub lookup-remove :
      (k j : ℕ) (m : BTree V) → lookup j (remove k m) ≡ (if k == j then none else lookup j m)
  unfolding remove
  lookup-remove k j [] = ground arith
  lookup-remove k j ((i, w) ∷ m) = ground (arith, lookup-remove k j m)

  insert-AllAbove :
      (b k : ℕ) (v : V) (m : BTree V) → b < k → AllAbove b m → AllAbove b (insert k v m)
  unfolding insert
  insert-AllAbove b k v [] h a = (h, tt)
  insert-AllAbove b k v ((j, w) ∷ m) h a = ground (arith, insert-AllAbove b k v m h a.1)

  above_trans : (a b : ℕ) (m : BTree V) → a < b → AllAbove b m → AllAbove a m
  above_trans a b [] h p = tt
  above_trans a b ((k, v) ∷ m) h p = (omega arith, above_trans a b m h p.1)

  pub insert-IsSorted : (k : ℕ) (v : V) (m : BTree V) → IsSorted m → IsSorted (insert k v m)
  unfolding insert
  insert-IsSorted k v [] h = (tt, tt)
  insert-IsSorted k v ((j, w) ∷ m) h =
      ground (arith, insert-IsSorted k v m h.1, insert-AllAbove j k v m, above_trans k j m)

  remove-AllAbove : (b k : ℕ) (m : BTree V) → AllAbove b m → AllAbove b (remove k m)
  unfolding remove
  remove-AllAbove b k [] a = tt
  remove-AllAbove b k ((j, w) ∷ m) a = ground (arith, remove-AllAbove b k m a.1)

  pub remove-IsSorted : (k : ℕ) (m : BTree V) → IsSorted m → IsSorted (remove k m)
  unfolding remove
  remove-IsSorted k [] h = tt
  remove-IsSorted k ((j, w) ∷ m) h =
      ground (arith, remove-IsSorted k m h.1, remove-AllAbove j k m h.0)
