-- ===== src/Sharing/Laws.antt =====
-- The laws of a share field, and Lagrange's sum of differences and of shifted values.
use ppsc.Base.{
  ℕ, ◌+◌, ◌≡◌, refl, sym, ap, ◌∙◌, true, List, [], ◌∷◌, arith, length, nat_eq, pair_eq, bytes_eq,
  string_eq,
}
use ppsc.Sharing.{ShareField}
use ppsc.Sharing.{weighted_sum, lagrange_basis}

-- The laws of a share field that the protocols rely on.
pub record IsShareField {F : Type 0} (K : ShareField F) : Type 0 where
  pub eq_true : (a b : F) → K.eq a b ≡ true → a ≡ b
  pub add_assoc : (a b c : F) → K.add (K.add a b) c ≡ K.add a (K.add b c)
  pub add_comm : (a b : F) → K.add a b ≡ K.add b a
  pub add_zero : (a : F) → K.add a K.field_zero ≡ a
  pub add_neg : (a : F) → K.add a (K.neg a) ≡ K.field_zero
  pub neg_add : (a b : F) → K.neg (K.add a b) ≡ K.add (K.neg a) (K.neg b)
  pub sub_neg : (a b : F) → K.sub a b ≡ K.add a (K.neg b)
  pub mul_comm : (a b : F) → K.mul a b ≡ K.mul b a
  pub mul_add : (a b c : F) → K.mul a (K.add b c) ≡ K.add (K.mul a b) (K.mul a c)
  pub mul_neg : (a b : F) → K.mul a (K.neg b) ≡ K.neg (K.mul a b)
  pub mul_one : (a : F) → K.mul a K.field_one ≡ a
  pub mul_zero : (a : F) → K.mul a K.field_zero ≡ K.field_zero

-- The value of one at each point.
abbrev pub ones : {F : Type 0} → ShareField F → List F → List F
ones K [] = []
ones K (p ∷ points) = K.field_one ∷ ones K points

module _ {F : Type 0} (K : ShareField F) where
  abbrev pub differences : List F → List F → List F
  differences [] vs = []
  differences (u ∷ us) [] = []
  differences (u ∷ us) (v ∷ vs) = K.sub u v ∷ differences us vs

  abbrev pub shifted : F → List F → List F
  shifted delta [] = []
  shifted delta (v ∷ vs) = K.add v delta ∷ shifted delta vs

module _ {F : Type 0} {K : ShareField F} (laws : IsShareField K) where
  add_shuffle : (a b c d : F) → K.add (K.add a b) (K.add c d) ≡ K.add (K.add a c) (K.add b d)
  add_shuffle a b c d =
      laws.add_assoc a b (K.add c d)
      ∙ (ap (K.add a) (
            sym (laws.add_assoc b c d)
            ∙ (ap (λ y. K.add y d) (laws.add_comm b c) ∙ laws.add_assoc c b d))
          ∙ sym (laws.add_assoc a c (K.add b d)))

  sub_add_sub : (a b p q : F) → K.add (K.sub a b) (K.sub p q) ≡ K.sub (K.add a p) (K.add b q)
  sub_add_sub a b p q =
      rw
        (laws.sub_neg a b, laws.sub_neg p q, laws.sub_neg (K.add a p) (K.add b q), laws.neg_add b q)
        (add_shuffle a (K.neg b) p (K.neg q))

  mul_sub : (a b c : F) → K.mul a (K.sub b c) ≡ K.sub (K.mul a b) (K.mul a c)
  mul_sub a b c =
      rw
        (
          laws.sub_neg b c,
          laws.sub_neg (K.mul a b) (K.mul a c),
          laws.mul_add a b (K.neg c),
          laws.mul_neg a c,
        )
        refl

  pub sub_self : (a : F) → K.sub a a ≡ K.field_zero
  sub_self a = laws.sub_neg a a ∙ laws.add_neg a

  pub add_sub_cancel : (a b : F) → K.add a (K.sub b a) ≡ b
  add_sub_cancel a b =
      ap (K.add a) (laws.sub_neg b a ∙ laws.add_comm b (K.neg a))
      ∙ (sym (laws.add_assoc a (K.neg a) b)
          ∙ (ap (λ y. K.add y b) (laws.add_neg a)
              ∙ (laws.add_comm K.field_zero b ∙ laws.add_zero b)))

  module _ (points : List F) where
    pub weighted_sum-differences :
        (i : ℕ) (ps us vs : List F) (a b : F)
        → length us ≡ length ps
        → length vs ≡ length ps
        → weighted_sum K points i ps (differences K us vs) (K.sub a b)
          ≡ K.sub (weighted_sum K points i ps us a) (weighted_sum K points i ps vs b)
    unfolding weighted_sum
    weighted_sum-differences i [] us vs a b hu hv = refl
    weighted_sum-differences i (p ∷ ps) [] vs a b hu hv = ground arith
    weighted_sum-differences i (p ∷ ps) (u ∷ us) [] a b hu hv = ground arith
    weighted_sum-differences i (p ∷ ps) (u ∷ us) (v ∷ vs) a b hu hv =
        let l = lagrange_basis K i p 0 points K.field_one in
        ap (weighted_sum K points (i + 1) ps (differences K us vs))
          (ap (K.add (K.sub a b)) (mul_sub l u v) ∙ sub_add_sub a b (K.mul l u) (K.mul l v))
        ∙ weighted_sum-differences (i + 1) ps us vs _ _ (omega (arith, hu)) (omega (arith, hv))

    shift_step :
        (l a e v delta : F)
        → K.add (K.add a (K.mul delta e)) (K.mul l (K.add v delta))
          ≡ K.add (K.add a (K.mul l v)) (K.mul delta (K.add e (K.mul l K.field_one)))
    shift_step l a e v delta =
        ap (K.add (K.add a (K.mul delta e))) (laws.mul_add l v delta)
        ∙ (add_shuffle a (K.mul delta e) (K.mul l v) (K.mul l delta)
            ∙ ap (K.add (K.add a (K.mul l v))) (
                ap (K.add (K.mul delta e))
                  (laws.mul_comm l delta ∙ ap (K.mul delta) (sym (laws.mul_one l)))
                ∙ sym (laws.mul_add delta e (K.mul l K.field_one))))

    pub weighted_sum-shifted :
        (i : ℕ) (ps vs : List F) (delta a e : F)
        → length vs ≡ length ps
        → weighted_sum K points i ps (shifted K delta vs) (K.add a (K.mul delta e))
          ≡ K.add
              (weighted_sum K points i ps vs a)
              (K.mul delta (weighted_sum K points i ps (ones K ps) e))
    unfolding weighted_sum
    weighted_sum-shifted i [] vs delta a e hv = refl
    weighted_sum-shifted i (p ∷ ps) [] delta a e hv = ground arith
    weighted_sum-shifted i (p ∷ ps) (v ∷ vs) delta a e hv =
        ap (weighted_sum K points (i + 1) ps (shifted K delta vs))
          (shift_step (lagrange_basis K i p 0 points K.field_one) a e v delta)
        ∙ weighted_sum-shifted (i + 1) ps vs delta _ _ (omega (arith, hv))
