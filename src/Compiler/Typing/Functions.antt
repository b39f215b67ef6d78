-- ===== src/Compiler/Typing/Functions.antt =====
-- Lowered functions of crates/compiler/src/lib.rs are well typed.
use ppsc.Base.{◌≡◌, refl, sym, List, [], ◌∷◌, map, String, All, Result, ok, arith, string_eq}
use ppsc.Base.Dict.{Dict, AllValues, insert-AllValues}
use Prim.Native.String.{String, ◌++◌ as str_append}
use ppsc.Manifest.Types.{ValueType, address, FunctionManifest}
use ppsc.Compiler.Syntax.{StateDecl, Param, Function, CompileError}
use ppsc.Compiler.Lowering.{TypedRef, Lowerer, bind_params, new_lowerer, function_manifest, lower}
use ppsc.Compiler.Typing.{Scope, HasType, TypedOperators, scope_after, WriteTyped, OpeningTyped}
use ppsc.Compiler.Typing.Invariant.{RefTyped, IsTyped, Post, reached, stopped}
use ppsc.Compiler.Typing.{type_beq_iff}
use ppsc.Compiler.Lowering.{lowered}
use ppsc.Compiler.Lowering.{abi_input}
use ppsc.Compiler.Typing.Statements.{lower_body-Post}

-- The references that a function starts from.
abbrev pub param_scope : List Param → Scope
param_scope [] = []
param_scope (p ∷ ps) = (str_append "input:" p.name, p.ty) ∷ param_scope ps

abbrev pub initial_scope : List Param → Scope
initial_scope ps = ("context:msg.sender", address) ∷ param_scope ps

cons-HasType :
    (scope : Scope) (x : String × ValueType) (r : String) (ty : ValueType)
    → HasType scope r ty
    → HasType (x ∷ scope) r ty
cons-HasType scope x r ty h = ground (arith, h)

here-HasType : (scope : Scope) (r : String) (ty : ValueType) → HasType ((r, ty) ∷ scope) r ty
here-HasType scope r ty = ground (arith, string_eq.beq_iff r r, type_beq_iff ty ty)

abbrev InScope : Scope → Param → Type 0
InScope scope p = HasType scope (str_append "input:" p.name) p.ty

All-cons :
    (scope : Scope) (x : String × ValueType) (ps : List Param)
    → All (InScope scope) ps
    → All (InScope (x ∷ scope)) ps
All-cons scope x [] h = tt
All-cons scope x (p ∷ ps) (hp, h) =
    (cons-HasType scope x (str_append "input:" p.name) p.ty hp, All-cons scope x ps h)

params-InScope : (ps : List Param) → All (InScope (param_scope ps)) ps
params-InScope [] = tt
params-InScope (p ∷ ps) = (
  here-HasType (param_scope ps) (str_append "input:" p.name) p.ty,
  All-cons (param_scope ps) _ ps (params-InScope ps),
)

bind_params-typed :
    (scope : Scope) (ps : List Param) (env : Dict String TypedRef)
    → All (InScope scope) ps
    → AllValues (RefTyped scope) env
    → AllValues (RefTyped scope) (bind_params ps env)
unfolding bind_params
bind_params-typed scope [] env hp h = h
bind_params-typed scope (p ∷ ps) env (hp, hs) h =
    bind_params-typed scope ps _ hs (insert-AllValues (RefTyped scope) p.name _ env hp h)

new_lowerer-IsTyped :
    (states : List StateDecl) (ps : List Param) → IsTyped states (initial_scope ps) (new_lowerer ps)
unfolding new_lowerer
new_lowerer-IsTyped states ps = record {
  env_typed =
      bind_params-typed (initial_scope ps) ps _ (All-cons (param_scope ps) _ ps (params-InScope ps))
        (here-HasType (param_scope ps) "context:msg.sender" address, tt);
  operators_typed = tt;
  writes_typed = tt;
  opening_typed = tt;
}

-- A lowered function, in the scope of its sender and parameters.
abbrev pub FunctionTyped : List StateDecl → Function → FunctionManifest → Type 0
FunctionTyped states g m =
    (m.name ≡ g.name)
    × (m.inputs ≡ map abi_input g.params)
    × TypedOperators states (initial_scope g.params) m.operators
    × All (WriteTyped states (scope_after (initial_scope g.params) m.operators)) m.state_writes
    × OpeningTyped (scope_after (initial_scope g.params) m.operators) m.opening_output

lowered-FunctionTyped :
    (selector : String → String) (states : List StateDecl) (function : Function)
    {m : FunctionManifest} {r : Result CompileError (Unit {0}) × Lowerer}
    → Post states (initial_scope function.params) (λ _ _. Unit {0}) (new_lowerer function.params) r
    → lowered selector function r ≡ ok m
    → FunctionTyped states function m
unfolding function_manifest
lowered-FunctionTyped selector states function {m} (reached {s' = s'} typed k _) h =
    let made : function_manifest selector function s' ≡ m = ground arith in
    rw (sym made) (refl, refl, typed.operators_typed, typed.writes_typed, typed.opening_typed)
lowered-FunctionTyped selector states function stopped h = absurd (ground arith)

-- When lowering a function succeeds, its name and inputs are the declared ones, and every operator that it emits refers only to the sender, to
-- parameters, to numbers and to earlier operators, with the types that its opcode expects, and loads
-- only declared mappings at keys of their key type; every write is of the declared type to a declared
-- state, with a key exactly where the state is a mapping; and the opening, if there is one, is a picked value.
pub lower-FunctionTyped :
    (selector : String → String) (states : List StateDecl) (function : Function)
    {m : FunctionManifest}
    → lower selector states function ≡ ok m
    → FunctionTyped states function m
unfolding lower
lower-FunctionTyped selector states function {m} h =
    lowered-FunctionTyped selector states function
      (lower_body-Post states function.name (initial_scope function.params) function.body
        (new_lowerer function.params) (new_lowerer-IsTyped states function.params))
      h
