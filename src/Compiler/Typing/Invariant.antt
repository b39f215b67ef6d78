-- ===== src/Compiler/Typing/Invariant.antt =====
-- The state of the lowering in crates/compiler/src/lib.rs stays well typed.
use ppsc.Base.{
  ◌≡◌, refl, ◌||◌, Option, none, some, List, [], ◌∷◌, ◌++◌, String, All, Result, ok, err, after,
  pair_eq, string_eq, arith,
}
use ppsc.Base.Dict.{contains, AllValues}
use ppsc.Manifest.Types.{ValueType, OperatorNode, PlannedWrite}
use ppsc.Compiler.Syntax.{StateDecl, CompileError}
use ppsc.Compiler.Lowering.{TypedRef, Lowerer, Lowered}
use ppsc.Compiler.Typing.{
  type_eq, Scope, HasType, WellTyped, TypedOperators, scope_after, KeyTyped, WriteTyped,
  OpeningTyped, entry,
}
use ppsc.Compiler.Typing.{opened}
use ppsc.Compiler.Lowering.{push_node}
use ppsc.Base.Dict.{Dict}
use ppsc.Manifest.Types.{Representation}
use ppsc.Compiler.Lowering.{node}
use ppsc.Compiler.Typing.{type_beq_iff}

pub contains-append :
    (xs ys : Scope) (k : String × ValueType)
    → contains (xs ++ ys) k ≡ (contains xs k || contains ys k)
contains-append [] ys k = refl
contains-append (x ∷ xs) ys k = ground (arith, contains-append xs ys k)

HasType-append :
    (scope more : Scope) (r : String) (ty : ValueType)
    → HasType scope r ty
    → HasType (scope ++ more) r ty
HasType-append scope more r ty h = ground (arith, contains-append scope more (r, ty), h)

HasType-new : (scope : Scope) (r : String) (ty : ValueType) → HasType (scope ++ (r, ty) ∷ []) r ty
HasType-new scope r ty =
    ground (
      arith,
      contains-append scope ((r, ty) ∷ []) (r, ty),
      string_eq.beq_iff r r,
      type_beq_iff ty ty,
    )

-- Every reference keeps its type.
abbrev pub Keeps : Scope → Scope → Type 0
Keeps scope later = (r : String) (ty : ValueType) → HasType scope r ty → HasType later r ty

scope_after-snoc :
    (scope : Scope) (ops : List OperatorNode) (op : OperatorNode)
    → scope_after scope (ops ++ op ∷ []) ≡ scope_after scope ops ++ entry op ∷ []
scope_after-snoc scope [] op = refl
scope_after-snoc scope (x ∷ ops) op = scope_after-snoc (scope ++ entry x ∷ []) ops op

TypedOperators-snoc :
    (states : List StateDecl) (scope : Scope) (ops : List OperatorNode) (op : OperatorNode)
    → TypedOperators states scope ops
    → WellTyped states (scope_after scope ops) op
    → TypedOperators states scope (ops ++ op ∷ [])
TypedOperators-snoc states scope [] op h typed = (typed, tt)
TypedOperators-snoc states scope (x ∷ ops) op (hx, h) typed =
    (hx, TypedOperators-snoc states (scope ++ entry x ∷ []) ops op h typed)

abbrev pub RefTyped : Scope → TypedRef → Type 0
RefTyped scope t = HasType scope t.reference t.ty

module _ (states : List StateDecl) (base : Scope) where
  abbrev pub scope_of : Lowerer → Scope
  scope_of s = scope_after base s.operators

  -- What holds of the lowerer throughout.
  pub record IsTyped (s : Lowerer) : Type 0 where
    pub env_typed : AllValues (RefTyped (scope_of s)) s.env
    pub operators_typed : TypedOperators states base s.operators
    pub writes_typed : All (WriteTyped states (scope_of s)) s.writes
    pub opening_typed : OpeningTyped (scope_of s) s.opening_output

  -- A step that succeeds keeps the lowerer typed, keeps the types of all references and
  -- establishes `Q`.
  pub data Post {A : Type 0} (Q : A → Lowerer → Type 0) (s : Lowerer)
      : Result CompileError A × Lowerer → Type 0 where
    reached :
        {a : A} {s' : Lowerer}
        → IsTyped s'
        → Keeps (scope_of s) (scope_of s')
        → Q a s'
        → Post Q s (ok a, s')
    stopped : {e : CompileError} {s' : Lowerer} → Post Q s (err e, s')

  Post-weaken :
      {A : Type 0} {Q : A → Lowerer → Type 0} {s s' : Lowerer} {r : Result CompileError A × Lowerer}
      → Keeps (scope_of s) (scope_of s')
      → Post Q s' r
      → Post Q s r
  Post-weaken k (reached typed keeps q) = reached typed (λ x ty h. keeps x ty (k x ty h)) q
  Post-weaken k stopped = stopped

  after-Post :
      {A B : Type 0} (Q : A → Lowerer → Type 0) (R : B → Lowerer → Type 0) (s : Lowerer)
      (r : Result CompileError A × Lowerer) (f : A → Lowered B)
      → Post Q s r
      → ((a : A) (s' : Lowerer)
          → IsTyped s'
          → Keeps (scope_of s) (scope_of s')
          → Q a s'
          → Post R s' (f a s'))
      → Post R s (after r f)
  after-Post Q R s r f (reached {a} {s'} typed keeps q) h = Post-weaken keeps (h a s' typed keeps q)
  after-Post Q R s r f stopped h = stopped

  -- A step and what follows it.
  pub Post-bind :
      {A B : Type 0} {Q : A → Lowerer → Type 0} {R : B → Lowerer → Type 0} {s : Lowerer}
      {r : Result CompileError A × Lowerer} {f : A → Lowered B}
      → Post Q s r
      → ((a : A) (s' : Lowerer)
          → IsTyped s'
          → Keeps (scope_of s) (scope_of s')
          → Q a s'
          → Post R s' (f a s'))
      → Post R s (after r f)
  Post-bind {Q = Q} {R = R} {s = s} {r = r} {f = f} h k = after-Post Q R s r f h k

  -- A test that leaves the lowerer alone, and what follows when it passes.
  pub Post-when :
      {A B : Type 0} {R : B → Lowerer → Type 0} {s : Lowerer} (r : Result CompileError A)
      (f : A → Lowered B)
      → ((a : A) → r ≡ ok a → Post R s (f a s))
      → Post R s (after (r, s) f)
  Post-when (ok a) f h = h a refl
  Post-when (err e) f h = stopped

  AllValues-map :
      (P Q : TypedRef → Type 0) (env : Dict String TypedRef)
      → ((t : TypedRef) → P t → Q t)
      → AllValues P env
      → AllValues Q env
  AllValues-map P Q [] k h = tt
  AllValues-map P Q ((n, t) ∷ env) k (h, hs) = (k t h, AllValues-map P Q env k hs)

  KeyTyped-Keeps :
      (scope later : Scope) (key : Option String) (ty : Option ValueType)
      → Keeps scope later
      → KeyTyped scope key ty
      → KeyTyped later key ty
  KeyTyped-Keeps scope later none none k h = tt
  KeyTyped-Keeps scope later none (some ty) k h = h
  KeyTyped-Keeps scope later (some r) none k h = h
  KeyTyped-Keeps scope later (some r) (some ty) k h = k r ty h

  writes-Keeps :
      (scope later : Scope) (ws : List PlannedWrite)
      → Keeps scope later
      → All (WriteTyped states scope) ws
      → All (WriteTyped states later) ws
  writes-Keeps scope later [] k h = tt
  writes-Keeps scope later (w ∷ ws) k ((d, found, value, key), hs) = (
    (d, found, k w.value d.ty value, KeyTyped-Keeps scope later w.key d.key_ty k key),
    writes-Keeps scope later ws k hs,
  )

  OpeningTyped-Keeps :
      (scope later : Scope) (o : Option String)
      → Keeps scope later
      → OpeningTyped scope o
      → OpeningTyped later o
  OpeningTyped-Keeps scope later none k h = tt
  OpeningTyped-Keeps scope later (some r) k h = k r opened h

  -- An operator that is typed where it is appended.
  pub push_node-Post :
      (opcode : String) (domain : Representation) (inputs : List String) (output : ValueType)
      (state : Option String) (s : Lowerer)
      → IsTyped s
      → WellTyped states (scope_of s) (node opcode domain inputs output state s.operators)
      → Post
          (λ id s'. HasType (scope_of s') id output)
          s
          (push_node opcode domain inputs output state s)
  unfolding push_node
  push_node-Post opcode domain inputs output state s typed op_typed =
      let op = node opcode domain inputs output state s.operators in
      let grown = scope_after-snoc base s.operators op in
      let keeps : Keeps (scope_of s) (scope_after base (s.operators ++ op ∷ [])) =
        λ r ty h. rw grown (HasType-append (scope_of s) (entry op ∷ []) r ty h) in
      reached
        (record {
          env_typed = AllValues-map _ _ s.env (λ t h. keeps t.reference t.ty h) typed.env_typed;
          operators_typed =
              TypedOperators-snoc states base s.operators op typed.operators_typed op_typed;
          writes_typed = writes-Keeps _ _ s.writes keeps typed.writes_typed;
          opening_typed = OpeningTyped-Keeps _ _ s.opening_output keeps typed.opening_typed;
        })
        keeps (rw grown (HasType-new (scope_of s) op.id output))
