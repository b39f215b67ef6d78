-- ===== src/Base/Eq.antt =====
-- Equality of keys, as an interface with instances for numbers, pairs, byte strings and texts.
use Prim.Native.Nat.{ℕ}
use Prim.Native.String.{String}
use mathlib.Core.Path.{◌≡◌}
use mathlib.Core.Logic.{◌↔◌}
use mathlib.Core.Bool.{Bool, true, false, ◌&&◌}
use mathlib.Core.List.{List, [], ◌∷◌}
use native.Mathlib.Omega.{arith}
use text.Mathlib.Text.{◌==◌ as str_eq}
use text.Mathlib.TextEquality.{eq_iff}
use ppsc.Base.Tests.{◌==◌, ==_iff}

pub record EqKey (A : Type 0) : Type 0 where
  pub beq : A → A → Bool
  pub beq_iff : (a b : A) → (beq a b ≡ true) ↔ (a ≡ b)

abbrev pub pair_beq : {A B : Type 0} → (A → A → Bool) → (B → B → Bool) → A × B → A × B → Bool
pair_beq p q (a, b) (c, d) = p a c && q b d

abbrev pub list_beq : {A : Type 0} → (A → A → Bool) → List A → List A → Bool
list_beq p [] [] = true
list_beq p [] (y ∷ ys) = false
list_beq p (x ∷ xs) [] = false
list_beq p (x ∷ xs) (y ∷ ys) = p x y && list_beq p xs ys

pub pair_beq_iff :
    {A B : Type 0} (e : EqKey A) (f : EqKey B) (x y : A × B)
    → (pair_beq e.beq f.beq x y ≡ true) ↔ (x ≡ y)
pair_beq_iff e f (a, b) (c, d) = ground (arith, e.beq_iff a c, f.beq_iff b d)

pub list_beq_iff : {A : Type 0} (e : EqKey A) (x y : List A) → (list_beq e.beq x y ≡ true) ↔ (x ≡ y)
list_beq_iff e [] [] = ground arith
list_beq_iff e [] (y ∷ ys) = ground arith
list_beq_iff e (x ∷ xs) [] = ground arith
list_beq_iff e (x ∷ xs) (y ∷ ys) = ground (arith, e.beq_iff x y, list_beq_iff e xs ys)

instance abbrev pub nat_eq : EqKey ℕ
nat_eq = record { beq = ◌==◌; beq_iff = ==_iff }

instance abbrev pub pair_eq : {A B : Type 0} ⦃e : EqKey A⦄ ⦃f : EqKey B⦄ → EqKey (A × B)
pair_eq ⦃e⦄ ⦃f⦄ = record { beq = pair_beq e.beq f.beq; beq_iff = pair_beq_iff e f }

instance abbrev pub bytes_eq : {A : Type 0} ⦃e : EqKey A⦄ → EqKey (List A)
bytes_eq ⦃e⦄ = record { beq = list_beq e.beq; beq_iff = list_beq_iff e }

instance abbrev pub string_eq : EqKey String
string_eq = record { beq = str_eq; beq_iff = eq_iff }
