-- ===== src/Base/Dict.antt =====
-- A map as an association list, and a set as a list. Used where the program never iterates over
-- its map, so that the order of the entries cannot be seen.
use Prim.Native.Nat.{ℕ, ◌+◌}
use mathlib.Core.Path.{◌≡◌, subst}
use mathlib.Core.Bool.{Bool, true, false, ◌||◌}
use mathlib.Core.Option.{Option, none, some}
use mathlib.Core.List.{List, [], ◌∷◌}
use native.Mathlib.Omega.{arith}
use ppsc.Base.Tests.{if◌then◌else◌}
use ppsc.Base.Eq.{EqKey}
use mathlib.Core.Path.{ap}

abbrev pub Dict : Type 0 → Type 0 → Type 0
Dict K V = List (K × V)

abbrev pub measure_at : {K V : Type 0} → (K → V → ℕ) → K → Option V → ℕ
measure_at f k none = 0
measure_at f k (some v) = f k v

of_test {ℓ} :
    {V : Type 0} (P : V → Type ℓ) (b : Bool) {w v : V} {o : Option V}
    → P w
    → (o ≡ some v → P v)
    → (if b then some w else o) ≡ some v
    → P v
of_test P true p h found = subst P (cc) p
of_test P false p h found = h found

module _ {K V : Type 0} ⦃e : EqKey K⦄ where
  abbrev pub lookup : K → Dict K V → Option V
  lookup k [] = none
  lookup k ((j, v) ∷ m) = if e.beq k j then some v else lookup k m

  abbrev pub insert : K → V → Dict K V → Dict K V
  insert k v [] = (k, v) ∷ []
  insert k v ((j, w) ∷ m) = if e.beq k j then (k, v) ∷ m else (j, w) ∷ insert k v m

  pub lookup-insert :
      (k j : K) (v : V) (m : Dict K V)
      → lookup j (insert k v m) ≡ (if e.beq k j then some v else lookup j m)
  lookup-insert k j v [] = ground (arith, e.beq_iff k j, e.beq_iff j k)
  lookup-insert k j v ((i, w) ∷ m) =
      ground
        (arith, lookup-insert k j v m, e.beq_iff k j, e.beq_iff j k, e.beq_iff k i, e.beq_iff j i)

  -- A property of every value.
  abbrev pub AllValues {ℓ} : (V → Type ℓ) → Dict K V → Type ℓ
  AllValues P [] = Unit
  AllValues P ((k, v) ∷ m) = P v × AllValues P m

  if-AllValues {ℓ} :
      (P : V → Type ℓ) (b : Bool) (m n : Dict K V)
      → AllValues P m
      → AllValues P n
      → AllValues P (if b then m else n)
  if-AllValues P true m n p q = p
  if-AllValues P false m n p q = q

  pub insert-AllValues {ℓ} :
      (P : V → Type ℓ) (k : K) (v : V) (m : Dict K V)
      → P v
      → AllValues P m
      → AllValues P (insert k v m)
  insert-AllValues P k v [] p h = (p, tt)
  insert-AllValues P k v ((j, w) ∷ m) p h =
      if-AllValues P (e.beq k j) _ _ (p, h.1) (h.0, insert-AllValues P k v m p h.1)

  pub AllValues-lookup {ℓ} :
      (P : V → Type ℓ) (k : K) {v : V} (m : Dict K V) → AllValues P m → lookup k m ≡ some v → P v
  AllValues-lookup P k [] h found = cc
  AllValues-lookup P k ((j, w) ∷ m) h found =
      of_test P (e.beq k j) h.0 (AllValues-lookup P k m h.1) found

  -- The sum of a measure over the values, which replacing or adding an entry changes by the
  -- difference of two values.
  abbrev pub sum_values : (K → V → ℕ) → Dict K V → ℕ
  sum_values f [] = 0
  sum_values f ((k, v) ∷ m) = f k v + sum_values f m

  pub sum_values-insert :
      (f : K → V → ℕ) (k : K) (v : V) (m : Dict K V)
      → sum_values f (insert k v m) + measure_at f k (lookup k m) ≡ sum_values f m + f k v
  sum_values-insert f k v [] = omega arith
  sum_values-insert f k v ((j, w) ∷ m) =
      ground (arith, sum_values-insert f k v m, e.beq_iff k j, ap (λ x. f x w) {x = k} {y = j})

module _ {K : Type 0} ⦃e : EqKey K⦄ where
  abbrev pub contains : List K → K → Bool
  contains [] k = false
  contains (x ∷ xs) k = e.beq k x || contains xs k
