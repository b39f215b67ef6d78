-- ===== src/Sharing.antt =====
-- Shamir sharing over any share field, crates/crypto/src/mpc/shamir.rs, with the handoff of shares
-- between committees, handoff.rs of the same folder.
pub mod Laws
pub mod Linear
pub mod Tests
use ppsc.Base.{
  ℕ, zero, suc, ◌+◌, ◌-◌, ◌*◌, ◌/◌, ◌%◌, ◌^◌, ◌≤◌, ◌<◌, ◌≡◌, ◌≢◌, refl, sym, ap, ◌∙◌, ◌↔◌, ◌⊎◌, inl,
  inr, Bool, true, false, ◌&&◌, ◌||◌, not, Option, none, some, List, [], ◌∷◌, ◌++◌, map, arith,
  String, ltb, leb, ◌==◌, if◌then◌else◌, ltb→lt, lt→ltb, leb→le, le→leb, ==_iff, ==_refl,
  Bool-cases, Option-cases, length, is_empty, first, get_elem?, take, drop, All, length-append,
  length-map, Result, ok, err, and_then, map_ok, map_err, ok_or, Action, pure, lift, gets, modify,
  fail_if, after, ◌>>=◌, ◌>>◌, Result-cases, EqKey, nat_eq, pair_eq, bytes_eq, string_eq,
}

-- `ShareField`, with its equality. The prime fields of the program come from a library outside it.
pub record ShareField (F : Type 0) : Type 0 where
  pub field_zero : F
  pub field_one : F
  pub add : F → F → F
  pub sub : F → F → F
  pub mul : F → F → F
  pub div : F → F → F
  pub neg : F → F
  pub eq : F → F → Bool
  pub from_u64 : ℕ → F

pub data MpcError : Type 0 where
  invalid_threshold insufficient_participants duplicate_share insufficient_shares : MpcError
  share_count_mismatch inconsistent_shares too_few_parties invalid_packing_parameters : MpcError
  invalid_bit_length range_check_failed mac_check_failed : MpcError

pub record ShamirShare (F : Type 0) : Type 0 where
  pub point : F
  pub value : F

pub record Committee (F : Type 0) : Type 0 where
  pub threshold : ℕ
  pub points : List F

pub record HandoffMask (F : Type 0) : Type 0 where
  pub source : List (ShamirShare F)
  pub source_degree : ℕ
  pub destination : List (ShamirShare F)
  pub destination_degree : ℕ

abbrev pub Mpc : Type 0 → Type 0
Mpc A = Result MpcError A

abbrev pub size : {F : Type 0} → Committee F → ℕ
size c = length c.points

abbrev pub points_of : {F : Type 0} → List (ShamirShare F) → List F
points_of [] = []
points_of (s ∷ shares) = s.point ∷ points_of shares

abbrev pub values_of : {F : Type 0} → List (ShamirShare F) → List F
values_of [] = []
values_of (s ∷ shares) = s.value ∷ values_of shares

unfoldable pub validate_parameters : ℕ → ℕ → Mpc (Unit {0})
validate_parameters threshold participants =
    if threshold == 0
    then err invalid_threshold
    else if leb participants threshold
    then err insufficient_participants
    else ok tt

module _ {F : Type 0} (K : ShareField F) where
  -- `(1..=n).map(..)`, from a number on.
  unfoldable pub points_from : ℕ → ℕ → List F
  points_from i zero = []
  points_from i (suc n) = K.from_u64 i ∷ points_from (i + 1) n

  unfoldable pub evaluation_points : ℕ → List F
  unfolding points_from
  evaluation_points n = points_from 1 n

  unfoldable pub new_committee : ℕ → ℕ → Mpc (Committee F)
  unfolding validate_parameters evaluation_points
  new_committee threshold participants =
      and_then (validate_parameters threshold participants)
        λ _. ok (record { threshold = threshold; points = evaluation_points participants })

  -- Horner's rule from the last coefficient.
  unfoldable pub eval_poly : List F → F → F
  eval_poly [] x = K.field_zero
  eval_poly (c ∷ coeffs) x = K.add (K.mul (eval_poly coeffs x) x) c

  unfoldable pub shares_at : List F → List F → List (ShamirShare F)
  unfolding eval_poly
  shares_at coeffs [] = []
  shares_at coeffs (p ∷ points) =
      record { point = p; value = eval_poly coeffs p } ∷ shares_at coeffs points

  -- `split`, with the random coefficients as an argument, `threshold` of them.
  unfoldable pub split : F → ℕ → List F → List F → Mpc (List (ShamirShare F))
  unfolding validate_parameters shares_at
  split secret threshold points random =
      and_then (validate_parameters threshold (length points))
        λ _. ok (shares_at (secret ∷ take threshold random) points)

  abbrev pub contains_point : F → List F → Bool
  contains_point p [] = false
  contains_point p (q ∷ ps) = K.eq p q || contains_point p ps

  abbrev pub has_duplicate : List F → Bool
  has_duplicate [] = false
  has_duplicate (p ∷ ps) = contains_point p ps || has_duplicate ps

  -- The inner loop: the product over the indices other than `i`, from an index on.
  unfoldable pub lagrange_basis : ℕ → F → ℕ → List F → F → F
  lagrange_basis i pi j [] li = li
  lagrange_basis i pi j (pj ∷ ps) li =
      lagrange_basis i pi (j + 1) ps
        (if i == j then li else K.mul li (K.div (K.neg pj) (K.sub pi pj)))

  -- The outer loop, from an index on. The values are as many as the points.
  unfoldable pub weighted_sum : List F → ℕ → List F → List F → F → F
  unfolding lagrange_basis
  weighted_sum points i [] values acc = acc
  weighted_sum points i (pi ∷ ps) [] acc = acc
  weighted_sum points i (pi ∷ ps) (v ∷ values) acc =
      weighted_sum points (i + 1) ps values
        (K.add acc (K.mul (lagrange_basis i pi 0 points K.field_one) v))

  unfoldable pub interpolate : List F → List F → ℕ → Mpc F
  unfolding weighted_sum
  interpolate points values min_shares =
      if ltb (length points) min_shares
      then err insufficient_shares
      else if has_duplicate points
      then err duplicate_share
      else ok (weighted_sum points 0 points values K.field_zero)

  unfoldable pub reconstruct : List (ShamirShare F) → ℕ → Mpc F
  unfolding interpolate
  reconstruct shares min_shares = interpolate (points_of shares) (values_of shares) min_shares

  unfoldable pub reconstruct_from_parts : List F → List F → ℕ → Mpc F
  unfolding interpolate
  reconstruct_from_parts points values min_shares =
      if not (length points == length values)
      then err share_count_mismatch
      else interpolate points values min_shares

  -- The closure of `masked_difference_shares` over the zipped shares.
  unfoldable pub subtract_shares :
      List (ShamirShare F) → List (ShamirShare F) → Mpc (List (ShamirShare F))
  subtract_shares [] mask = ok []
  subtract_shares (x ∷ xs) [] = ok []
  subtract_shares (x ∷ xs) (r ∷ mask) =
      let rest = subtract_shares xs mask in
      if not (K.eq x.point r.point)
      then err inconsistent_shares
      else map_ok (λ ds. record { point = x.point; value = K.sub x.value r.value } ∷ ds) rest

  unfoldable pub masked_difference_shares :
      List (ShamirShare F) → List (ShamirShare F) → Mpc (List (ShamirShare F))
  unfolding subtract_shares
  masked_difference_shares x mask =
      if not (length x == length mask) then err share_count_mismatch else subtract_shares x mask

  unfoldable pub apply_difference : F → List (ShamirShare F) → List (ShamirShare F)
  apply_difference delta [] = []
  apply_difference delta (r ∷ mask) =
      record { point = r.point; value = K.add r.value delta } ∷ apply_difference delta mask

  unfoldable pub basic_handoff :
      List (ShamirShare F) → HandoffMask F → Committee F → Committee F → Mpc (List (ShamirShare F))
  unfolding masked_difference_shares reconstruct apply_difference
  basic_handoff x mask src dst =
      if not (length x == length mask.source) || not (length x == size src)
      then err share_count_mismatch
      else if not (length mask.destination == size dst)
      then err share_count_mismatch
      else and_then (masked_difference_shares x mask.source) λ delta_shares.
        and_then (reconstruct delta_shares (src.threshold + 1))
          λ delta. ok (apply_difference delta mask.destination)

  -- The closure of `multiply_and_handoff` over the three zipped lists.
  unfoldable pub multiply_shares :
      List (ShamirShare F)
      → List (ShamirShare F)
      → List (ShamirShare F)
      → Mpc (List (ShamirShare F))
  multiply_shares [] ys mask = ok []
  multiply_shares (x ∷ xs) [] mask = ok []
  multiply_shares (x ∷ xs) (y ∷ ys) [] = ok []
  multiply_shares (x ∷ xs) (y ∷ ys) (r ∷ mask) =
      let rest = multiply_shares xs ys mask in
      if not (K.eq x.point y.point) || not (K.eq x.point r.point)
      then err inconsistent_shares
      else map_ok
          (λ ds. record { point = x.point; value = K.sub (K.mul x.value y.value) r.value } ∷ ds)
          rest

  unfoldable pub multiply_and_handoff :
      List (ShamirShare F)
      → List (ShamirShare F)
      → HandoffMask F
      → Committee F
      → Committee F
      → Mpc (List (ShamirShare F))
  unfolding multiply_shares reconstruct apply_difference
  multiply_and_handoff x y mask src dst =
      if not (length x == length y)
        || (not (length x == length mask.source) || not (length x == size src))
      then err share_count_mismatch
      else if not (length mask.destination == size dst)
      then err share_count_mismatch
      else if leb (size src) (2 * src.threshold)
      then err too_few_parties
      else and_then (multiply_shares x y mask.source) λ delta_shares.
        and_then (reconstruct delta_shares (2 * src.threshold + 1))
          λ delta. ok (apply_difference delta mask.destination)
