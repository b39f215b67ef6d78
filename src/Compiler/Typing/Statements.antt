-- ===== src/Compiler/Typing/Statements.antt =====
-- Lowered statements of crates/compiler/src/lib.rs are well typed.
use ppsc.Base.{
  ◌≡◌, refl, sym, Bool, true, Option, none, some, List, [], ◌∷◌, ◌++◌, String, All, Result, ok, err,
  arith, string_eq,
}
use mathlib.Core.Path.{subst}
use ppsc.Base.Dict.{insert-AllValues}
use Prim.Native.String.{String}
use ppsc.Manifest.Types.{ValueType, opened, secret_bool, void, type_beq-true, type_beq}
use ppsc.Compiler.Syntax
use ppsc.Compiler.Syntax.{
  StateDecl, Param, Function, Statement, Expression, name, index, call, local, assign, require,
  return_value, evaluate, CompileError,
}
use ppsc.Compiler.Lowering.{
  TypedRef, Lowerer, find_decl, error, expect_type, state_named, push_write, write_indexed,
  write_scalar, assignment, lower_statement, lower_body,
}
use ppsc.Compiler.Typing.{Scope, HasType, operates, requires, WriteTyped}
use ppsc.Compiler.Typing.Invariant.{
  RefTyped, IsTyped, Post, reached, stopped, Post-bind, Post-when, push_node-Post, scope_of,
}
use ppsc.Compiler.Typing.Expressions.{
  lower_expression-Post, state_named-found, expect_type-same, ok_or-some,
}
use ppsc.Base.{ok_or}
use ppsc.Base.{if◌then◌else◌}
use ppsc.Compiler.Lowering.{push_node}
use ppsc.Manifest.Types.{secret_sharing}
use ppsc.Base.{◌>>=◌}
use ppsc.Base.{pure}

All-snoc :
    {A : Type 0} (P : A → Type 0) (xs : List A) (x : A) → All P xs → P x → All P (xs ++ x ∷ [])
All-snoc P [] x h hx = (hx, tt)
All-snoc P (y ∷ xs) x (hy, h) hx = (hy, All-snoc P xs x h hx)

typed_as :
    (scope : Scope) (t : TypedRef) (ty : ValueType)
    → t.ty ≡ ty
    → RefTyped scope t
    → HasType scope t.reference ty
typed_as scope t ty same h = subst (λ u. HasType scope t.reference u) same h

module _ (states : List StateDecl) (function : String) (base : Scope) where
  abbrev Anything : {A : Type 0} → A → Lowerer → Type 0
  Anything a s = Unit

  push_write-Post :
      (n : String) (key : Option String) (value : String) (s : Lowerer)
      → IsTyped states base s
      → WriteTyped states (scope_of states base s) (record { state = n; key = key; value = value })
      → Post states base Anything s (push_write states function n key value s)
  unfolding push_write
  push_write-Post n key value s typed w =
      reached
        (record {
          env_typed = typed.env_typed;
          operators_typed = typed.operators_typed;
          writes_typed = All-snoc _ s.writes _ typed.writes_typed w;
          opening_typed = typed.opening_typed;
        })
        (λ r ty h. h) tt

  write_indexed-Post :
      (n : String) (d : StateDecl) (key value : TypedRef) (s : Lowerer)
      → IsTyped states base s
      → find_decl n states ≡ some d
      → RefTyped (scope_of states base s) key
      → RefTyped (scope_of states base s) value
      → Post states base Anything s (write_indexed states function n d key value s)
  unfolding write_indexed
  write_indexed-Post n d key value s typed found hk hv =
      Post-when states base (ok_or d.key_ty (error states function Syntax.scalar_indexed)) _
        λ expected keyed.
          Post-when states base (expect_type states function expected key.ty "state key") _
            λ _ same.
              Post-when states base (expect_type states function d.ty value.ty "state assignment") _
                λ _ same_value. push_write-Post n (some key.reference) value.reference s typed (
                  d,
                  found,
                  rw
                      (expect_type-same states function base d.ty value.ty "state assignment"
                        same_value)
                      hv,
                  rw (ok_or-some d.key_ty _ keyed) (
                      rw (expect_type-same states function base expected key.ty "state key" same)
                        hk),
                )

  no_key :
      (key_ty : Option ValueType) (e : CompileError) {u : Unit {0}}
      → elim key_ty as (λ _. Result CompileError (Unit {0})) [ none ↦ ok tt | some key ↦ err e ]
        ≡ ok u
      → key_ty ≡ none
  no_key none e h = refl
  no_key (some key) e h = absurd (ground arith)

  write_scalar-Post :
      (n : String) (d : StateDecl) (value : TypedRef) (s : Lowerer)
      → IsTyped states base s
      → find_decl n states ≡ some d
      → RefTyped (scope_of states base s) value
      → Post states base Anything s (write_scalar states function n d value s)
  unfolding write_scalar
  write_scalar-Post n d value s typed found hv =
      Post-when states base
        (elim d.key_ty [
          | none ↦ ok tt
          | some key ↦ err (error states function Syntax.mapping_not_indexed)
        ])
        _
        λ _ unkeyed.
          Post-when states base (expect_type states function d.ty value.ty "state assignment") _
            λ _ same_value. push_write-Post n none value.reference s typed (
              d,
              found,
              rw (expect_type-same states function base d.ty value.ty "state assignment" same_value)
                  hv,
              let unkeyed_state : d.key_ty ≡ none =
                    no_key d.key_ty (error states function Syntax.mapping_not_indexed) unkeyed in
                  rw unkeyed_state tt,
            )

  assignment-Post :
      (target : Expression) (value : TypedRef) (s : Lowerer)
      → IsTyped states base s
      → RefTyped (scope_of states base s) value
      → Post states base Anything s (assignment states function target value s)
  unfolding assignment
  assignment-Post (index n key) value s typed hv =
      Post-when states base (state_named states function n) _ λ d named.
        Post-bind states base (lower_expression-Post states function base key s typed)
          λ k s1 typed1 k1 hk.
            write_indexed-Post n d k value s1 typed1
              (state_named-found states function base n named) hk (k1 value.reference value.ty hv)
  assignment-Post (name n) value s typed hv =
      Post-when states base (state_named states function n) _ λ d named.
        write_scalar-Post n d value s typed (state_named-found states function base n named) hv
  assignment-Post (Syntax.Expression.number n) value s typed hv = stopped
  assignment-Post (call n xs) value s typed hv = stopped

  opened-when :
      (b : Bool) (e : CompileError) {u : Unit {0}} → (if b then ok tt else err e) ≡ ok u → b ≡ true
  opened-when b e h = ground arith

  require-Post :
      (r : String) (s : Lowerer)
      → IsTyped states base s
      → HasType (scope_of states base s) r secret_bool
      → Post states base Anything s
          ((push_node "require_secret" secret_sharing (r ∷ []) void none >>= λ _. pure tt) s)
  require-Post r s typed h =
      Post-bind states base
        (push_node-Post states base "require_secret" secret_sharing (r ∷ []) void none s typed
          (operates (secret_bool ∷ []) refl requires (h, tt)))
        λ _ s1 typed1 k1 _. reached typed1 (λ r ty h. h) tt

  lower_statement-Post :
      (statement : Statement) (s : Lowerer)
      → IsTyped states base s
      → Post states base Anything s (lower_statement states function statement s)
  unfolding lower_statement
  lower_statement-Post (local expected n e) s typed =
      Post-bind states base (lower_expression-Post states function base e s typed)
        λ v s1 typed1 k1 hv.
          Post-when states base (expect_type states function expected v.ty "local declaration") _
            λ _ same.
              reached
                (record {
                  env_typed =
                      insert-AllValues (RefTyped (scope_of states base s1)) n v s1.env hv
                        typed1.env_typed;
                  operators_typed = typed1.operators_typed;
                  writes_typed = typed1.writes_typed;
                  opening_typed = typed1.opening_typed;
                })
                (λ r ty h. h) tt
  lower_statement-Post (assign target e) s typed =
      Post-bind states base (lower_expression-Post states function base e s typed)
        λ v s1 typed1 k1 hv. assignment-Post target v s1 typed1 hv
  lower_statement-Post (require e) s typed =
      Post-bind states base (lower_expression-Post states function base e s typed)
        λ c s1 typed1 k1 hc.
          Post-when states base (expect_type states function secret_bool c.ty "require") _ λ _ same.
            require-Post c.reference s1 typed1 (
              typed_as (scope_of states base s1) c secret_bool
                (sym (expect_type-same states function base secret_bool c.ty "require" same)) hc)
  lower_statement-Post (return_value e) s typed =
      Post-bind states base (lower_expression-Post states function base e s typed)
        λ v s1 typed1 k1 hv.
          Post-when states base
            (if type_beq v.ty opened
              then ok tt
              else err (error states function Syntax.only_opened_returned))
            _
            λ _ same.
              reached
                (record {
                  env_typed = typed1.env_typed;
                  operators_typed = typed1.operators_typed;
                  writes_typed = typed1.writes_typed;
                  opening_typed =
                      typed_as (scope_of states base s1) v opened
                        (type_beq-true v.ty opened (opened-when _ _ same)) hv;
                })
                (λ r ty h. h) tt
  lower_statement-Post (evaluate e) s typed =
      Post-bind states base (lower_expression-Post states function base e s typed)
        λ v s1 typed1 k1 hv. reached typed1 (λ r ty h. h) tt

  pub lower_body-Post :
      (body : List Statement) (s : Lowerer)
      → IsTyped states base s
      → Post states base Anything s (lower_body states function body s)
  unfolding lower_body
  lower_body-Post [] s typed = reached typed (λ r ty h. h) tt
  lower_body-Post (statement ∷ body) s typed =
      Post-bind states base (lower_statement-Post statement s typed)
        λ _ s1 typed1 k1 _. lower_body-Post body s1 typed1
