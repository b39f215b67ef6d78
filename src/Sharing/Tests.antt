-- ===== src/Sharing/Tests.antt =====
-- A field of three elements, and the theorems of the sharing at it.
use ppsc.Base.{
  ℕ, zero, suc, ◌≡◌, refl, Bool, true, false, List, [], ◌∷◌, ok, nat_eq, pair_eq, bytes_eq,
  string_eq,
}
use ppsc.Sharing.{ShareField, ShamirShare, Committee, HandoffMask, reconstruct, basic_handoff}
use ppsc.Sharing.Laws.{IsShareField}
use ppsc.Sharing.Linear.{handoff_keeps_secret}

-- The field of three elements.
pub data Trit : Type 0 where
  t0 t1 t2 : Trit

abbrev pub trit_add : Trit → Trit → Trit
trit_add t0 t0 = t0
trit_add t0 t1 = t1
trit_add t0 t2 = t2
trit_add t1 t0 = t1
trit_add t1 t1 = t2
trit_add t1 t2 = t0
trit_add t2 t0 = t2
trit_add t2 t1 = t0
trit_add t2 t2 = t1

abbrev pub trit_mul : Trit → Trit → Trit
trit_mul t0 t0 = t0
trit_mul t0 t1 = t0
trit_mul t0 t2 = t0
trit_mul t1 t0 = t0
trit_mul t1 t1 = t1
trit_mul t1 t2 = t2
trit_mul t2 t0 = t0
trit_mul t2 t1 = t2
trit_mul t2 t2 = t1

abbrev pub trit_neg : Trit → Trit
trit_neg t0 = t0
trit_neg t1 = t2
trit_neg t2 = t1

-- Each of the two elements other than zero is its own inverse.
abbrev pub trit_of : ℕ → Trit
trit_of zero = t0
trit_of (suc zero) = t1
trit_of (suc (suc zero)) = t2
trit_of (suc (suc (suc n))) = trit_of n

abbrev pub trit_eq : Trit → Trit → Bool
trit_eq t0 t0 = true
trit_eq t0 t1 = false
trit_eq t0 t2 = false
trit_eq t1 t0 = false
trit_eq t1 t1 = true
trit_eq t1 t2 = false
trit_eq t2 t0 = false
trit_eq t2 t1 = false
trit_eq t2 t2 = true

abbrev pub trits : ShareField Trit
trits = record {
  field_zero = t0;
  field_one = t1;
  add = trit_add;
  sub = λ a b. trit_add a (trit_neg b);
  mul = trit_mul;
  div = trit_mul;
  neg = trit_neg;
  eq = trit_eq;
  from_u64 = trit_of;
}

trit_add_assoc : (a b c : Trit) → trit_add (trit_add a b) c ≡ trit_add a (trit_add b c)
trit_add_assoc t0 t0 t0 = refl
trit_add_assoc t0 t0 t1 = refl
trit_add_assoc t0 t0 t2 = refl
trit_add_assoc t0 t1 t0 = refl
trit_add_assoc t0 t1 t1 = refl
trit_add_assoc t0 t1 t2 = refl
trit_add_assoc t0 t2 t0 = refl
trit_add_assoc t0 t2 t1 = refl
trit_add_assoc t0 t2 t2 = refl
trit_add_assoc t1 t0 t0 = refl
trit_add_assoc t1 t0 t1 = refl
trit_add_assoc t1 t0 t2 = refl
trit_add_assoc t1 t1 t0 = refl
trit_add_assoc t1 t1 t1 = refl
trit_add_assoc t1 t1 t2 = refl
trit_add_assoc t1 t2 t0 = refl
trit_add_assoc t1 t2 t1 = refl
trit_add_assoc t1 t2 t2 = refl
trit_add_assoc t2 t0 t0 = refl
trit_add_assoc t2 t0 t1 = refl
trit_add_assoc t2 t0 t2 = refl
trit_add_assoc t2 t1 t0 = refl
trit_add_assoc t2 t1 t1 = refl
trit_add_assoc t2 t1 t2 = refl
trit_add_assoc t2 t2 t0 = refl
trit_add_assoc t2 t2 t1 = refl
trit_add_assoc t2 t2 t2 = refl

trit_add_comm : (a b : Trit) → trit_add a b ≡ trit_add b a
trit_add_comm t0 t0 = refl
trit_add_comm t0 t1 = refl
trit_add_comm t0 t2 = refl
trit_add_comm t1 t0 = refl
trit_add_comm t1 t1 = refl
trit_add_comm t1 t2 = refl
trit_add_comm t2 t0 = refl
trit_add_comm t2 t1 = refl
trit_add_comm t2 t2 = refl

trit_add_zero : (a : Trit) → trit_add a t0 ≡ a
trit_add_zero t0 = refl
trit_add_zero t1 = refl
trit_add_zero t2 = refl

trit_add_neg : (a : Trit) → trit_add a (trit_neg a) ≡ t0
trit_add_neg t0 = refl
trit_add_neg t1 = refl
trit_add_neg t2 = refl

trit_neg_add : (a b : Trit) → trit_neg (trit_add a b) ≡ trit_add (trit_neg a) (trit_neg b)
trit_neg_add t0 t0 = refl
trit_neg_add t0 t1 = refl
trit_neg_add t0 t2 = refl
trit_neg_add t1 t0 = refl
trit_neg_add t1 t1 = refl
trit_neg_add t1 t2 = refl
trit_neg_add t2 t0 = refl
trit_neg_add t2 t1 = refl
trit_neg_add t2 t2 = refl

trit_mul_comm : (a b : Trit) → trit_mul a b ≡ trit_mul b a
trit_mul_comm t0 t0 = refl
trit_mul_comm t0 t1 = refl
trit_mul_comm t0 t2 = refl
trit_mul_comm t1 t0 = refl
trit_mul_comm t1 t1 = refl
trit_mul_comm t1 t2 = refl
trit_mul_comm t2 t0 = refl
trit_mul_comm t2 t1 = refl
trit_mul_comm t2 t2 = refl

trit_mul_add : (a b c : Trit) → trit_mul a (trit_add b c) ≡ trit_add (trit_mul a b) (trit_mul a c)
trit_mul_add t0 t0 t0 = refl
trit_mul_add t0 t0 t1 = refl
trit_mul_add t0 t0 t2 = refl
trit_mul_add t0 t1 t0 = refl
trit_mul_add t0 t1 t1 = refl
trit_mul_add t0 t1 t2 = refl
trit_mul_add t0 t2 t0 = refl
trit_mul_add t0 t2 t1 = refl
trit_mul_add t0 t2 t2 = refl
trit_mul_add t1 t0 t0 = refl
trit_mul_add t1 t0 t1 = refl
trit_mul_add t1 t0 t2 = refl
trit_mul_add t1 t1 t0 = refl
trit_mul_add t1 t1 t1 = refl
trit_mul_add t1 t1 t2 = refl
trit_mul_add t1 t2 t0 = refl
trit_mul_add t1 t2 t1 = refl
trit_mul_add t1 t2 t2 = refl
trit_mul_add t2 t0 t0 = refl
trit_mul_add t2 t0 t1 = refl
trit_mul_add t2 t0 t2 = refl
trit_mul_add t2 t1 t0 = refl
trit_mul_add t2 t1 t1 = refl
trit_mul_add t2 t1 t2 = refl
trit_mul_add t2 t2 t0 = refl
trit_mul_add t2 t2 t1 = refl
trit_mul_add t2 t2 t2 = refl

trit_mul_neg : (a b : Trit) → trit_mul a (trit_neg b) ≡ trit_neg (trit_mul a b)
trit_mul_neg t0 t0 = refl
trit_mul_neg t0 t1 = refl
trit_mul_neg t0 t2 = refl
trit_mul_neg t1 t0 = refl
trit_mul_neg t1 t1 = refl
trit_mul_neg t1 t2 = refl
trit_mul_neg t2 t0 = refl
trit_mul_neg t2 t1 = refl
trit_mul_neg t2 t2 = refl

trit_mul_one : (a : Trit) → trit_mul a t1 ≡ a
trit_mul_one t0 = refl
trit_mul_one t1 = refl
trit_mul_one t2 = refl

trit_mul_zero : (a : Trit) → trit_mul a t0 ≡ t0
trit_mul_zero t0 = refl
trit_mul_zero t1 = refl
trit_mul_zero t2 = refl

trit_eq-true : (a b : Trit) → trit_eq a b ≡ true → a ≡ b
trit_eq-true t0 t0 h = refl
trit_eq-true t0 t1 h = cc
trit_eq-true t0 t2 h = cc
trit_eq-true t1 t0 h = cc
trit_eq-true t1 t1 h = refl
trit_eq-true t1 t2 h = cc
trit_eq-true t2 t0 h = cc
trit_eq-true t2 t1 h = cc
trit_eq-true t2 t2 h = refl

pub trits-IsShareField : IsShareField trits
trits-IsShareField = record {
  eq_true = trit_eq-true;
  add_assoc = trit_add_assoc;
  add_comm = trit_add_comm;
  add_zero = trit_add_zero;
  add_neg = trit_add_neg;
  neg_add = trit_neg_add;
  sub_neg = λ a b. refl;
  mul_comm = trit_mul_comm;
  mul_add = trit_mul_add;
  mul_neg = trit_mul_neg;
  mul_one = trit_mul_one;
  mul_zero = trit_mul_zero;
}

abbrev pub share : Trit → Trit → ShamirShare Trit
share p v = record { point = p; value = v }

abbrev pub two_members : Committee Trit
two_members = record { threshold = 1; points = t1 ∷ t2 ∷ [] }

-- The secret 2 on the polynomial 2 + X, and the mask 1 on 1 + 2 X and on 1 + X.
abbrev pub secret_shares : List (ShamirShare Trit)
secret_shares = share t1 t0 ∷ share t2 t1 ∷ []

abbrev pub mask : HandoffMask Trit
mask = record {
  source = share t1 t0 ∷ share t2 t2 ∷ [];
  source_degree = 1;
  destination = share t1 t2 ∷ share t2 t0 ∷ [];
  destination_degree = 1;
}

abbrev pub handed_shares : List (ShamirShare Trit)
handed_shares = share t1 t0 ∷ share t2 t1 ∷ []

handed_over : basic_handoff trits secret_shares mask two_members two_members ≡ ok handed_shares
unfolding basic_handoff
handed_over = refl

handoff_keeps_secret_example : reconstruct trits handed_shares 2 ≡ ok t2
unfolding reconstruct
handoff_keeps_secret_example =
    handoff_keeps_secret trits-IsShareField secret_shares mask two_members two_members {r = t1}
      handed_over refl refl refl refl
