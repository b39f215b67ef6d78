-- ===== src/Compiler/Outcome.antt =====
-- How a run of the lexer or the parser of crates/compiler/src/lib.rs ends: with a value, with a
-- `CompileError`, at an index out of bounds, or (in this model only) without fuel.
use ppsc.Compiler.Syntax.{CompileError}
use ppsc.Base.{refl}
use ppsc.Base.{◌≡◌}
use ppsc.Base.{Bool, ◌⊎◌}
use ppsc.Base.{inl, true}
use ppsc.Base.{false, inr}
use ppsc.Base.{if◌then◌else◌}

pub data Outcome (A : Type 0) : Type 0 where
  done : A → Outcome A
  failed : CompileError → Outcome A
  panicked out_of_fuel : Outcome A

abbrev pub bind : {A B : Type 0} → Outcome A → (A → Outcome B) → Outcome B
bind run next = elim run [
  | done a ↦ next a
  | failed e ↦ failed e
  | panicked ↦ panicked
  | out_of_fuel ↦ out_of_fuel
]

-- The run ends with a value of which `P` holds, or with an error.
pub data Finishes {A : Type 0} (P : A → Type 0) : Outcome A → Type 0 where
  with_value : {a : A} → P a → Finishes P (done a)
  with_error : {e : CompileError} → Finishes P (failed e)

module _ {A : Type 0} {P : A → Type 0} where
  pub Finishes-bind :
      {B : Type 0} {Q : B → Type 0} {r : Outcome A} {f : A → Outcome B}
      → Finishes P r
      → ((a : A) → P a → Finishes Q (f a))
      → Finishes Q (bind r f)
  Finishes-bind (with_value {a} h) k = k a h
  Finishes-bind with_error k = with_error

  pub Finishes-choice :
      (b : Bool) {x y : Outcome A}
      → (b ≡ true → Finishes P x)
      → (b ≡ false → Finishes P y)
      → Finishes P (elim b [ true ↦ x | false ↦ y ])
  Finishes-choice true hx hy = hx refl
  Finishes-choice false hx hy = hy refl

  pub Finishes-if :
      (b : Bool) {x y : Outcome A}
      → (b ≡ true → Finishes P x)
      → (b ≡ false → Finishes P y)
      → Finishes P (if b then x else y)
  Finishes-if true hx hy = hx refl
  Finishes-if false hx hy = hy refl

  pub Finishes-weaken :
      {Q : A → Type 0} {r : Outcome A} → Finishes P r → ((a : A) → P a → Q a) → Finishes Q r
  Finishes-weaken (with_value {a} h) k = with_value (k a h)
  Finishes-weaken with_error k = with_error

  pub Finishes-result :
      {r : Outcome A}
      → Finishes P r
      → ((a : A) × (r ≡ done a) × P a) ⊎ ((e : CompileError) × (r ≡ failed e))
  Finishes-result (with_value {a} h) = inl (a, refl, h)
  Finishes-result (with_error {e}) = inr (e, refl)
