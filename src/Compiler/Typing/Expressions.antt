-- ===== src/Compiler/Typing/Expressions.antt =====
-- Lowered expressions of crates/compiler/src/lib.rs are well typed.
use ppsc.Base.{
  inl, inr, ◌∙◌, Bool-cases, Option-cases, ℕ, ◌+◌, ◌≡◌, refl, sym, ap, Bool, true, Option, none,
  some, List, [], ◌∷◌, length, first, String, All, Result, ok, err, ok_or, arith, ◌==◌,
  if◌then◌else◌, string_eq,
}
use ppsc.Manifest.Types.{ValueType, fhe_uint, fhe_bool, type_beq, type_beq-true}
use ppsc.Compiler.Syntax
use Prim.Native.String.{◌++◌ as str_append}
use ppsc.Compiler.Syntax.{
  representation_of, StateDecl, CompileError, Message, Expression, Arguments, name, index, call,
  no_arguments, argument,
}
use ppsc.Base.Dict.{lookup, AllValues, AllValues-lookup}
use ppsc.Compiler.Operations.{operations, Operation, operation, conversion}
use ppsc.Compiler.Lowering.{
  TypedRef, Lowerer, find_decl, types_of, references_of, check_arguments, apply_operation,
  load_indexed, lookup_value, lower_expression, lower_arguments, state_named, expect_type,
}
use ppsc.Compiler.Typing.{
  Scope, HasType, HasTypes, Signature, encrypt, fhe_add, fhe_sub, fhe_ge, mpc_add, mpc_sub, mpc_ge,
  share_uint, share_bool, encrypt_shares, pick, receive, send, WellTyped, loads, operates,
}
use ppsc.Compiler.Typing.Invariant.{
  RefTyped, IsTyped, Post, reached, stopped, Post-bind, Post-when, push_node-Post, scope_of,
}
use ppsc.Base.Dict.{AllValues}
use ppsc.Compiler.Lowering.{failing}
use ppsc.Compiler.Operations.{op}
use ppsc.Compiler.Typing.{sint}
use ppsc.Manifest.Types.{secret_sharing}
use ppsc.Compiler.Typing.{secret_bool}
use ppsc.Compiler.Typing.{uint}
use ppsc.Compiler.Lowering.{error}
use ppsc.Compiler.Lowering.{count_checked}
use ppsc.Manifest.Types.{Representation}
use ppsc.Compiler.Lowering.{node}
use ppsc.Compiler.Lowering.{push_node}
use ppsc.Base.{◌>>=◌}
use ppsc.Base.{pure}
use ppsc.Compiler.Typing.{is_const}
use ppsc.Compiler.Text.{text_bytes-append}
use ppsc.Base.Bytes.{starts_with-append}
use ppsc.Base.Bytes.{text_bytes}

abbrev Signed : Operation → Type 0
Signed o = Signature o.opcode o.expected o.output

all-Signed : AllValues Signed operations
all-Signed = (
  encrypt,
  (
    fhe_add,
    (
      fhe_sub,
      (fhe_ge, (mpc_add, (mpc_sub, (mpc_ge, (encrypt_shares, (pick, (receive, (send, tt)))))))),
    ),
  ),
)

conversion-Signed : (ty : Option ValueType) {o : Operation} → conversion ty ≡ some o → Signed o
conversion-Signed none same = absurd (ground arith)
conversion-Signed (some ty) {o} same = elim (Bool-cases (type_beq ty fhe_uint)) [
  | inl number ↦
      let is : op (fhe_uint ∷ []) sint "convert.h2s" secret_sharing ≡ o = ground arith in
      rw (sym is) share_uint
  | inr other ↦ elim (Bool-cases (type_beq ty fhe_bool)) [
    | inl truth ↦
        let is : op (fhe_bool ∷ []) secret_bool "convert.h2s" secret_sharing ≡ o = ground arith in
        rw (sym is) share_bool
    | inr neither ↦ absurd (ground arith)
  ]
]

operation-Signed :
    (n : String) (ty : Option ValueType) {o : Operation} → operation n ty ≡ ok o → Signed o
unfolding operation
operation-Signed n ty {o} same = elim (Bool-cases (string_eq.beq n "H2S")) [
  | inl converts ↦ elim (Option-cases (conversion ty)) [
    | inl none_found ↦ absurd (ground arith)
    | inr (q, found) ↦ let is : q ≡ o = ground arith in conversion-Signed ty (found ∙ ap some is)
  ]
  | inr other ↦ elim (Option-cases (lookup n operations)) [
    | inl none_found ↦ absurd (ground arith)
    | inr (q, found) ↦
        let is : q ≡ o = ground arith in
        rw (sym is) (AllValues-lookup Signed n operations all-Signed found)
  ]
]

check_arguments-HasTypes :
    (states : List StateDecl) (function : String) (scope : Scope) (n : String) (i : ℕ)
    (refs : List TypedRef) (wanted : List ValueType)
    → (length refs == length wanted) ≡ true
    → check_arguments states function n i refs wanted ≡ ok tt
    → All (RefTyped scope) refs
    → HasTypes scope (references_of refs) wanted
unfolding check_arguments
check_arguments-HasTypes states function scope n i [] [] same checked typed = tt
check_arguments-HasTypes states function scope n i [] (t ∷ ts) same checked typed =
    absurd (ground arith)
check_arguments-HasTypes states function scope n i (r ∷ refs) [] same checked typed =
    absurd (ground arith)
check_arguments-HasTypes states function scope n i (r ∷ refs) (t ∷ ts) same checked (hr, hs) =
    let later : check_arguments states function n (i + 1) refs ts ≡ ok tt = ground arith in
    let matches : type_beq r.ty t ≡ true = ground arith in
    (
      rw (sym (type_beq-true r.ty t matches)) hr,
      check_arguments-HasTypes states function scope n (i + 1) refs ts (ground arith) later hs,
    )

if-ok : (b : Bool) (e : CompileError) → (if b then ok tt else err e) ≡ ok tt → b ≡ true
if-ok b e h = ground arith

pub ok_or-some :
    {A : Type 0} (o : Option A) (e : CompileError) {a : A} → ok_or o e ≡ ok a → o ≡ some a
ok_or-some o e h = ground arith

const-HasType : (scope : Scope) (value : String) → HasType scope (str_append "const:" value) uint
unfolding type_beq
const-HasType scope value =
    let spelled : is_const (str_append "const:" value) ≡ true =
      rw text_bytes-append (starts_with-append (text_bytes "const:") (text_bytes value)) in
    ground (arith, spelled)

module _ (states : List StateDecl) (function : String) (base : Scope) where
  pub expect_type-same :
      (expected actual : ValueType) (context : String) {u : Unit {0}}
      → expect_type states function expected actual context ≡ ok u
      → expected ≡ actual
  unfolding expect_type
  expect_type-same expected actual context h = type_beq-true expected actual (ground arith)

  abbrev pub Typed : TypedRef → Lowerer → Type 0
  Typed t s = RefTyped (scope_of states base s) t

  failing-ok :
      (r : Result Message Operation) {o : Operation} → failing states function r ≡ ok o → r ≡ ok o
  failing-ok (ok q) h = ground arith
  failing-ok (err m) h = absurd (ground arith)

  -- An operator that is typed where it is appended gives a typed reference.
  node-Post :
      (opcode : String) (domain : Representation) (inputs : List String) (output : ValueType)
      (state : Option String) (s : Lowerer)
      → IsTyped states base s
      → WellTyped states
          (scope_of states base s)
          (node opcode domain inputs output state s.operators)
      → Post states base Typed s (
          (push_node opcode domain inputs output state >>= λ id.
          pure (record { ty = output; reference = id }))
            s)
  node-Post opcode domain inputs output state s typed op_typed =
      Post-bind states base
        (push_node-Post states base opcode domain inputs output state s typed op_typed)
        λ id s4 typed4 k4 new. reached typed4 (λ r ty h. h) new

  apply_operation-Post :
      (n : String) (refs : List TypedRef) (s : Lowerer)
      → IsTyped states base s
      → All (RefTyped (scope_of states base s)) refs
      → Post states base Typed s (apply_operation states function n refs s)
  unfolding apply_operation
  apply_operation-Post n refs s typed hr =
      let chosen = operation n (first (types_of refs)) in
      Post-when states base (failing states function chosen) _ λ o found.
        Post-when states base (count_checked states function n refs o.expected) _ λ _ counted.
          Post-when states base (check_arguments states function n 0 refs o.expected) _ λ _ checked.
            node-Post o.opcode o.domain (references_of refs) o.output none s typed (
              operates o.expected refl
                (operation-Signed n (first (types_of refs)) (failing-ok chosen found))
                (check_arguments-HasTypes states function (scope_of states base s) n 0 refs
                  o.expected (if-ok (length refs == length o.expected) _ counted) checked hr))

  pub state_named-found :
      (n : String) {d : StateDecl}
      → state_named states function n ≡ ok d
      → find_decl n states ≡ some d
  unfolding state_named
  state_named-found n h = ok_or-some (find_decl n states) _ h

  load_indexed-Post :
      (n : String) (d : StateDecl) (key : TypedRef) (s : Lowerer)
      → IsTyped states base s
      → find_decl n states ≡ some d
      → RefTyped (scope_of states base s) key
      → Post states base Typed s (load_indexed states function n d key s)
  unfolding load_indexed
  load_indexed-Post n d key s typed found hk =
      Post-when states base (ok_or d.key_ty (error states function Syntax.scalar_indexed)) _
        λ expected keyed.
          Post-when states base (expect_type states function expected key.ty "state key") _
            λ _ same.
              node-Post "load_state" (representation_of d.ty) (key.reference ∷ []) d.ty (some n) s
                typed
                (loads n d expected key.reference refl refl found (ok_or-some d.key_ty _ keyed) refl
                  (rw (expect_type-same expected key.ty "state key" same) hk) refl)

  lookup_value-Post :
      (n : String) (s : Lowerer)
      → IsTyped states base s
      → Post states base Typed s (lookup_value states function n s)
  unfolding lookup_value
  lookup_value-Post n s typed = elim (Option-cases (lookup n s.env)) [
    | inl none_found ↦ rw none_found stopped
    | inr (t, found) ↦ rw found (
        reached typed (λ r ty h. h)
          (AllValues-lookup (RefTyped (scope_of states base s)) n s.env typed.env_typed found))
  ]

  mutual
    unfolding lower_expression lower_arguments

    pub lower_expression-Post :
        (e : Expression) (s : Lowerer)
        → IsTyped states base s
        → Post states base Typed s (lower_expression states function e s)
    lower_expression-Post (name n) s typed = lookup_value-Post n s typed
    lower_expression-Post (Syntax.Expression.number value) s typed =
        reached typed (λ r ty h. h) (const-HasType (scope_of states base s) value)
    lower_expression-Post (index n key) s typed =
        Post-when states base (state_named states function n) _ λ d named.
          Post-bind states base (lower_expression-Post key s typed)
            λ k s1 typed1 k1 hk. load_indexed-Post n d k s1 typed1 (state_named-found n named) hk
    lower_expression-Post (call n xs) s typed =
        Post-bind states base (lower_arguments-Post xs s typed)
          λ refs s1 typed1 k1 hr. apply_operation-Post n refs s1 typed1 hr

    lower_arguments-Post :
        (xs : Arguments) (s : Lowerer)
        → IsTyped states base s
        → Post states base
            (λ refs s'. All (RefTyped (scope_of states base s')) refs)
            s
            (lower_arguments states function xs s)
    lower_arguments-Post no_arguments s typed = reached typed (λ r ty h. h) tt
    lower_arguments-Post (argument x more) s typed =
        Post-bind states base (lower_expression-Post x s typed) λ r s1 typed1 k1 hr.
          Post-bind states base (lower_arguments-Post more s1 typed1)
            λ rs s2 typed2 k2 hs. reached typed2 (λ r ty h. h) (k2 r.reference r.ty hr, hs)
