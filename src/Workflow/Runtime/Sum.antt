-- ===== src/Workflow/Runtime/Sum.antt =====
-- The checked sum of the inputs.
use ppsc.Base.{
  ℕ, ◌+◌, ◌<◌, ◌≡◌, List, [], ◌∷◌, arith, ltb, if◌then◌else◌, ok, err, nat_eq, pair_eq, bytes_eq,
  string_eq,
}
use ppsc.Base.Bytes.{u128_mod}
use ppsc.Workflow.Types.{overflow}
use ppsc.Workflow.Chain.{sum_u128}
use ppsc.Workflow.Runtime.{sum_values, compute}

-- The sum of the values, with no bound.
abbrev pub total : List ℕ → ℕ
total [] = 0
total (x ∷ xs) = x + total xs

sum_values-total :
    (acc : ℕ) (values : List ℕ)
    → acc < u128_mod
    → sum_values acc values
      ≡ (if ltb (acc + total values) u128_mod then ok (acc + total values) else err overflow)
unfolding sum_values
sum_values-total acc [] h = ground arith
sum_values-total acc (x ∷ xs) h = ground (arith, sum_values-total (acc + x) xs)

-- The checked sum over the input values is their sum when that is below 2 ^ 128, and an overflow
-- otherwise.
pub compute-total :
    (values : List ℕ)
    → compute sum_u128 values
      ≡ (if ltb (total values) u128_mod then ok (total values) else err overflow)
unfolding compute
compute-total values = ground (arith, sum_values-total 0 values (omega arith))
