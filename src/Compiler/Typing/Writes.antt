-- ===== src/Compiler/Typing/Writes.antt =====
-- The references in compiled writes of crates/compiler/src/lib.rs are no numbers, hence bound.
use ppsc.Base.{
  ◌≡◌, sym, true, false, Option, none, some, List, [], ◌∷◌, String, All, arith, inl, inr,
  Bool-cases, string_eq, pair_eq,
}
use ppsc.Base.Dict.{contains}
use Prim.Native.String.{String}
use ppsc.Manifest.Types.{ValueType, uint, type_beq, PlannedWrite}
use ppsc.Compiler.Syntax.{StateDecl}
use ppsc.Compiler.Lowering.{find_decl}
use ppsc.Compiler.Typing.{Scope, HasType, WriteTyped, type_eq}
use ppsc.Manifest.Types.{StateManifest}
use ppsc.Compiler.Typing.{KeyTyped, find_decl}
use ppsc.Compiler.Compile.{is_key_type, is_state_type}
use ppsc.Compiler.Typing.Programs.{StatesFollow}

-- A reference of a type other than that of public numbers is bound.
pub not_const :
    (scope : Scope) (r : String) (ty : ValueType)
    → HasType scope r ty
    → type_beq ty uint ≡ false
    → contains scope (r, ty) ≡ true
not_const scope r ty h protected = ground (arith, h, protected)

state_type_not_uint : (ty : ValueType) → is_state_type ty ≡ true → type_beq ty uint ≡ false
unfolding type_beq
state_type_not_uint ty h = ground arith

key_type_not_uint : (ty : ValueType) → is_key_type (some ty) ≡ true → type_beq ty uint ≡ false
unfolding type_beq
key_type_not_uint ty h = ground arith

abbrev pub IsBound : Scope → String → Type 0
IsBound scope r = (ty : ValueType) × (contains scope (r, ty) ≡ true)

abbrev pub KeyBound : Scope → Option String → Type 0
KeyBound scope none = Unit
KeyBound scope (some r) = IsBound scope r

abbrev pub WriteBound : Scope → PlannedWrite → Type 0
WriteBound scope w = IsBound scope w.value × KeyBound scope w.key

key_bound :
    (scope : Scope) (key : Option String) (key_type : Option ValueType)
    → KeyTyped scope key key_type
    → is_key_type key_type ≡ true
    → KeyBound scope key
key_bound scope none key_type h allowed = tt
key_bound scope (some r) none h allowed = absurd h
key_bound scope (some r) (some ty) h allowed =
    (ty, not_const scope r ty h (key_type_not_uint ty allowed))

declared_allowed :
    (n : String) (ds : List StateDecl) (ms : List StateManifest) {d : StateDecl}
    → StatesFollow ds ms
    → find_decl n ds ≡ some d
    → (is_state_type d.ty ≡ true) × (is_key_type d.key_ty ≡ true)
unfolding find_decl
declared_allowed n [] [] follow found = absurd (ground arith)
declared_allowed n [] (m ∷ ms) follow found = absurd follow
declared_allowed n (x ∷ ds) [] follow found = absurd follow
declared_allowed n (x ∷ ds) (m ∷ ms) {d} ((e1, ty, key, h1, h2), follow) found =
    elim (Bool-cases (string_eq.beq x.name n)) [
      | inl here ↦ let is : x ≡ d = ground arith in rw (sym is) (rw (sym ty) h1, rw (sym key) h2)
      | inr there ↦
          declared_allowed n ds ms follow
            (let next : find_decl n ds ≡ some d = ground arith in next)
    ]

pub writes_bound :
    (ds : List StateDecl) (ms : List StateManifest) (scope : Scope) (ws : List PlannedWrite)
    → StatesFollow ds ms
    → All (WriteTyped ds scope) ws
    → All (WriteBound scope) ws
writes_bound ds ms scope [] follow h = tt
writes_bound ds ms scope (w ∷ ws) follow ((d, found, hv, hk), h) =
    let (allowed, allowed_key) = declared_allowed w.state ds ms follow found in
    (
      (
        (d.ty, not_const scope w.value d.ty hv (state_type_not_uint d.ty allowed)),
        key_bound scope w.key d.key_ty hk allowed_key,
      ),
      writes_bound ds ms scope ws follow h,
    )
