-- ===== src/Sharing/Linear.antt =====
-- Reconstruction is linear in the shares, and a handoff keeps the shared secret.
use ppsc.Base.{
  ℕ, suc, ◌+◌, ◌≡◌, refl, sym, ap, ◌∙◌, inl, inr, true, List, [], ◌∷◌, arith, length, ok,
  Result-cases, nat_eq, pair_eq, bytes_eq, string_eq,
}
use ppsc.Sharing.{
  ShareField, ShamirShare, Committee, HandoffMask, points_of, values_of, interpolate, reconstruct,
  subtract_shares, masked_difference_shares, apply_difference, basic_handoff,
}
use ppsc.Sharing.{weighted_sum}
use ppsc.Sharing.Laws.{
  IsShareField, ones, differences, shifted, sub_self, add_sub_cancel, weighted_sum-differences,
  weighted_sum-shifted,
}

module _ {F : Type 0} {K : ShareField F} (laws : IsShareField K) where
  -- Lagrange's sum at all the points.
  abbrev at_zero : List F → List F → F
  at_zero points values = weighted_sum K points 0 points values K.field_zero

  interpolate_value :
      (points values : List F) (n : ℕ) {a : F}
      → interpolate K points values n ≡ ok a
      → at_zero points values ≡ a
  unfolding interpolate
  interpolate_value points values n h = ground arith

  interpolate_same :
      (points values others : List F) (n : ℕ) {a : F}
      → interpolate K points values n ≡ ok a
      → interpolate K points others n ≡ ok (at_zero points others)
  unfolding interpolate
  interpolate_same points values others n h = ground arith

  record Masked (xs mask deltas : List (ShamirShare F)) : Type 0 where
    delta_points : points_of deltas ≡ points_of xs
    mask_points : points_of mask ≡ points_of xs
    delta_values : values_of deltas ≡ differences K (values_of xs) (values_of mask)

  subtract_shares-Masked :
      (xs mask : List (ShamirShare F)) {deltas : List (ShamirShare F)}
      → length xs ≡ length mask
      → subtract_shares K xs mask ≡ ok deltas
      → Masked xs mask deltas
  unfolding subtract_shares
  subtract_shares-Masked [] [] {deltas} same h =
      let made : deltas ≡ [] = ground arith in
      rw made (record { delta_points = refl; mask_points = refl; delta_values = refl })
  subtract_shares-Masked [] (r ∷ mask) same h = absurd (ground arith)
  subtract_shares-Masked (x ∷ xs) [] same h = absurd (ground arith)
  subtract_shares-Masked (x ∷ xs) (r ∷ mask) {deltas} same h =
      elim (Result-cases (subtract_shares K xs mask)) [
        | inr (e, failed) ↦ absurd (ground arith)
        | inl (rest, later) ↦
            let made : deltas ≡ record { point = x.point; value = K.sub x.value r.value } ∷ rest =
              ground arith in
            let agree : K.eq x.point r.point ≡ true = ground arith in
            let m = subtract_shares-Masked xs mask {deltas = rest} (omega (arith, same)) later in
            rw made (record {
              delta_points = ap (λ l. x.point ∷ l) m.delta_points;
              mask_points =
                  ap (λ l. r.point ∷ l) m.mask_points
                  ∙ ap (λ q. q ∷ points_of xs) (sym (laws.eq_true x.point r.point agree));
              delta_values = ap (λ l. K.sub x.value r.value ∷ l) m.delta_values;
            })
      ]

  points_of-apply_difference :
      (delta : F) (mask : List (ShamirShare F))
      → points_of (apply_difference K delta mask) ≡ points_of mask
  unfolding apply_difference
  points_of-apply_difference delta [] = refl
  points_of-apply_difference delta (r ∷ mask) =
      ap (λ l. r.point ∷ l) (points_of-apply_difference delta mask)

  values_of-apply_difference :
      (delta : F) (mask : List (ShamirShare F))
      → values_of (apply_difference K delta mask) ≡ shifted K delta (values_of mask)
  unfolding apply_difference
  values_of-apply_difference delta [] = refl
  values_of-apply_difference delta (r ∷ mask) =
      ap (λ l. K.add r.value delta ∷ l) (values_of-apply_difference delta mask)

  length-values : (xs : List (ShamirShare F)) → length (values_of xs) ≡ length (points_of xs)
  length-values [] = refl
  length-values (x ∷ xs) = ap suc (length-values xs)

  -- The difference that the dealer reconstructs is that of the two shared values.
  reconstruct-differences :
      (xs mask deltas : List (ShamirShare F)) (n : ℕ) {secret r : F}
      → Masked xs mask deltas
      → reconstruct K xs n ≡ ok secret
      → reconstruct K mask n ≡ ok r
      → reconstruct K deltas n ≡ ok (K.sub secret r)
  unfolding reconstruct
  reconstruct-differences xs mask deltas n {secret} {r} m hx hm =
      let points = points_of xs in
      let hm' = rw m.mask_points at hm in
      let sizes : length (values_of mask) ≡ length points =
        length-values mask ∙ ap length m.mask_points in
      let sum : at_zero points (differences K (values_of xs) (values_of mask)) ≡ K.sub secret r =
        ap (weighted_sum K points 0 points (differences K (values_of xs) (values_of mask)))
          (sym (sub_self laws K.field_zero))
        ∙ (weighted_sum-differences laws points 0 points (values_of xs) (values_of mask)
              K.field_zero K.field_zero (length-values xs) sizes
            ∙ (ap (λ y. K.sub y (at_zero points (values_of mask)))
                  (interpolate_value points (values_of xs) n hx)
                ∙ ap (K.sub secret) (interpolate_value points (values_of mask) n hm'))) in
      rw (m.delta_points, m.delta_values)
        (interpolate_same points (values_of xs) (differences K (values_of xs) (values_of mask)) n hx
          ∙ ap ok sum)

  -- Adding a constant to all shares adds it to the shared value.
  reconstruct-apply_difference :
      (mask : List (ShamirShare F)) (n : ℕ) (delta : F) {r : F}
      → interpolate K (points_of mask) (ones K (points_of mask)) n ≡ ok K.field_one
      → reconstruct K mask n ≡ ok r
      → reconstruct K (apply_difference K delta mask) n ≡ ok (K.add r delta)
  unfolding reconstruct
  reconstruct-apply_difference mask n delta {r} constant hm =
      let points = points_of mask in
      let start : K.field_zero ≡ K.add K.field_zero (K.mul delta K.field_zero) =
        sym (ap (K.add K.field_zero) (laws.mul_zero delta) ∙ laws.add_zero K.field_zero) in
      let sum : at_zero points (shifted K delta (values_of mask)) ≡ K.add r delta =
        ap (weighted_sum K points 0 points (shifted K delta (values_of mask))) start
        ∙ (weighted_sum-shifted laws points 0 points (values_of mask) delta K.field_zero
              K.field_zero (length-values mask)
            ∙ (ap (λ y. K.add y (K.mul delta (at_zero points (ones K points))))
                  (interpolate_value points (values_of mask) n hm)
                ∙ ap (K.add r) (
                    ap (K.mul delta) (interpolate_value points (ones K points) n constant)
                    ∙ laws.mul_one delta))) in
      rw (points_of-apply_difference delta mask, values_of-apply_difference delta mask)
        (interpolate_same points (values_of mask) (shifted K delta (values_of mask)) n hm
          ∙ ap ok sum)

  handed_off :
      (xs : List (ShamirShare F)) (mask : HandoffMask F) (src dst : Committee F)
      {output : List (ShamirShare F)}
      → basic_handoff K xs mask src dst ≡ ok output
      → (deltas : List (ShamirShare F)) × (delta : F) × (length xs ≡ length mask.source)
        × (subtract_shares K xs mask.source ≡ ok deltas)
        × (reconstruct K deltas (src.threshold + 1) ≡ ok delta)
        × (output ≡ apply_difference K delta mask.destination)
  unfolding basic_handoff masked_difference_shares
  handed_off xs mask src dst {output} h = elim (Result-cases (subtract_shares K xs mask.source)) [
    | inr (e, failed) ↦ absurd (ground arith)
    | inl (deltas, made) ↦ elim (Result-cases (reconstruct K deltas (src.threshold + 1))) [
      | inr (e, failed) ↦ absurd (ground arith)
      | inl (delta, found) ↦ (deltas, delta, ground arith, made, found, ground arith)
    ]
  ]

  -- Over any share field with the laws `IsShareField`: when the basic handoff succeeds, the
  -- source shares reconstruct to a secret, the two halves of the mask reconstruct at their
  -- committees to one common value, and reconstruction at the destination's points takes the
  -- constant sharing of one to one, then the handed-over shares reconstruct at the destination to
  -- the same secret.
  pub handoff_keeps_secret :
      (xs : List (ShamirShare F)) (mask : HandoffMask F) (src dst : Committee F)
      {output : List (ShamirShare F)} {secret r : F}
      → basic_handoff K xs mask src dst ≡ ok output
      → reconstruct K xs (src.threshold + 1) ≡ ok secret
      → reconstruct K mask.source (src.threshold + 1) ≡ ok r
      → reconstruct K mask.destination (dst.threshold + 1) ≡ ok r
      → interpolate K
          (points_of mask.destination)
          (ones K (points_of mask.destination))
          (dst.threshold + 1)
        ≡ ok K.field_one
      → reconstruct K output (dst.threshold + 1) ≡ ok secret
  handoff_keeps_secret xs mask src dst {output} {secret} {r} done hx hs hd constant =
      let (deltas, delta, same, made, found, written) = handed_off xs mask src dst done in
      let difference =
        reconstruct-differences xs mask.source deltas (src.threshold + 1)
          (subtract_shares-Masked xs mask.source same made) hx hs in
      let masked : delta ≡ K.sub secret r = cc (found, difference) in
      rw (written, masked)
        (reconstruct-apply_difference mask.destination (dst.threshold + 1) (K.sub secret r) constant
            hd
          ∙ ap ok (add_sub_cancel laws r secret))
