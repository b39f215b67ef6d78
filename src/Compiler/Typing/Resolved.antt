-- ===== src/Compiler/Typing/Resolved.antt =====
-- References that the executor of crates/runtime/src/manifest.rs finds in the scope of
-- crates/compiler/src/lib.rs.
use ppsc.Base.{
  ◌≢◌, ◌≡◌, refl, Bool, true, false, Option, none, some, List, [], ◌∷◌, ◌++◌, String, Result, ok,
  err, and_then, map_ok, ok_or, arith, inl, inr, Bool-cases, string_eq, pair_eq, if◌then◌else◌,
}
use ppsc.Base.Bytes.{Bytes}
use ppsc.Base.Dict.{contains, lookup, insert, lookup-insert}
use Prim.Native.String.{String}
use ppsc.Manifest.Types.{
  ValueType, ManifestRuntimeError, unknown_reference, ManifestValue, HostCall, ManifestStateStore,
  ManifestCryptoBackend,
}
use ppsc.Manifest.Executor.{Values, resolve, resolve_owned, resolve_all}
use ppsc.Compiler.Typing.{Scope, HasType, HasTypes, is_const, type_eq}
use ppsc.Compiler.Typing.Invariant.{contains-append}
use ppsc.Manifest.Executor.{load_key, of_type}
use ppsc.Manifest.Types.{state_key}
use ppsc.Manifest.Executor.{Executed}
use ppsc.Base.{after}

abbrev pub is_unknown : ManifestRuntimeError → Bool
is_unknown unknown_reference = true
is_unknown _ = false

-- The outcome is not a failure to find a reference, and `Q` holds of its value if it has one.
pub data Resolved {A : Type 0} (Q : A → Type 0) : Result ManifestRuntimeError A → Type 0 where
  value : {a : A} → Q a → Resolved Q (ok a)
  other : {e : ManifestRuntimeError} → is_unknown e ≡ false → Resolved Q (err e)

abbrev pub Any : {A : Type 0} → A → Type 0
Any a = Unit

module _ {A : Type 0} {P : A → Type 0} where
  pub Resolved-then :
      {B : Type 0} {Q : B → Type 0} {r : Result ManifestRuntimeError A}
      {f : A → Result ManifestRuntimeError B}
      → Resolved P r
      → ((a : A) → P a → Resolved Q (f a))
      → Resolved Q (and_then r f)
  Resolved-then (value {a} h) k = k a h
  Resolved-then (other h) k = other h

  pub Resolved-map :
      {B : Type 0} {Q : B → Type 0} {r : Result ManifestRuntimeError A} (f : A → B)
      → Resolved P r
      → ((a : A) → P a → Q (f a))
      → Resolved Q (map_ok f r)
  Resolved-map f (value {a} h) k = value (k a h)
  Resolved-map f (other h) k = other h

  pub Resolved-when :
      (b : Bool) {x y : Result ManifestRuntimeError A}
      → Resolved P x
      → Resolved P y
      → Resolved P (if b then x else y)
  Resolved-when true hx hy = hx
  Resolved-when false hx hy = hy

-- An action that may add host calls, and what follows it.
pub after-Resolved :
    {A B : Type 0} {P : A → Type 0} {Q : B → Type 0} (r : Result ManifestRuntimeError A)
    (calls : List HostCall) (f : A → Executed B)
    → Resolved P r
    → ((a : A) (calls : List HostCall) → P a → Resolved Q (f a calls).0)
    → Resolved Q (after (r, calls) f).0
after-Resolved (ok a) calls f (value p) k = k a calls p
after-Resolved (err e) calls f (other h) k = other h

pub Resolved-ok_or :
    {A : Type 0} (o : Option A) (e : ManifestRuntimeError)
    → is_unknown e ≡ false
    → Resolved Any (ok_or o e)
Resolved-ok_or none e h = other h
Resolved-ok_or (some a) e h = value tt

pub Resolved-found :
    {A : Type 0} (o : Option A) (e : ManifestRuntimeError)
    → is_unknown e ≡ false
    → Resolved (λ a. o ≡ some a) (ok_or o e)
Resolved-found none e h = other h
Resolved-found (some a) e h = value refl

pub Resolved-known :
    {A : Type 0} {r : Result ManifestRuntimeError A} → Resolved Any r → r ≢ err unknown_reference
Resolved-known (value p) same = absurd (ground arith)
Resolved-known (other h) same = absurd (ground arith)

-- Every reference of the scope has a value.
abbrev pub Bound : Scope → Values → Type 0
Bound scope values =
    (r : String) (ty : ValueType)
    → contains scope (r, ty) ≡ true
    → (v : ManifestValue) × (lookup r values ≡ some v)

pub Bound-snoc :
    (scope : Scope) (values : Values) (id : String) (ty : ValueType) (v : ManifestValue)
    → Bound scope values
    → Bound (scope ++ (id, ty) ∷ []) (insert id v values)
Bound-snoc scope values id ty v bound r t h = elim (Bool-cases (string_eq.beq id r)) [
  | inl same ↦ (v, ground (arith, lookup-insert id r v values, same))
  | inr different ↦
      let old : contains scope (r, t) ≡ true = ground (
        arith,
        h,
        different,
        contains-append scope ((id, ty) ∷ []) (r, t),
        string_eq.beq_iff id r,
        string_eq.beq_iff r id,
      ) in
      let (w, found) = bound r t old in
      (w, ground (arith, lookup-insert id r v values, different, found))
]

module _ (scope : Scope) (values : Values) (bound : Bound scope values) where
  pub resolve-Resolved :
      (r : String) (ty : ValueType)
      → contains scope (r, ty) ≡ true
      → Resolved Any (resolve r values)
  unfolding resolve
  resolve-Resolved r ty h = let (v, found) = bound r ty h in rw found (value tt)

  resolve_owned-Resolved :
      (r : String) (ty : ValueType) → HasType scope r ty → Resolved Any (resolve_owned r values)
  unfolding resolve_owned
  resolve_owned-Resolved r ty h = elim (Bool-cases (is_const r)) [
    | inl number ↦ rw number (Resolved-map _ (Resolved-ok_or _ _ refl) λ _ _. tt)
    | inr reference ↦ rw reference (resolve-Resolved r ty (ground (arith, h, reference)))
  ]

  pub resolve_all-Resolved :
      (rs : List String) (tys : List ValueType)
      → HasTypes scope rs tys
      → Resolved Any (resolve_all rs values)
  unfolding resolve_all
  resolve_all-Resolved [] tys h = value tt
  resolve_all-Resolved (r ∷ rs) [] h = absurd h
  resolve_all-Resolved (r ∷ rs) (ty ∷ tys) (hr, hs) =
      Resolved-then (resolve_owned-Resolved r ty hr)
        λ v _. Resolved-map _ (resolve_all-Resolved rs tys hs) λ _ _. tt

-- The store and the backend report other errors than a missing reference.
pub record IsResolving {S : Type 0} (store : ManifestStateStore S) (backend : ManifestCryptoBackend)
    : Type 0 where
  pub loads_resolve : (name : String) (key : Bytes) (s : S) → Resolved Any (store.load name key s)
  pub evaluate_resolves :
      (opcode : String) (arguments : List ManifestValue)
      → Resolved Any (backend.evaluate opcode arguments)
  pub secret_bool_resolves : (v : ManifestValue) → Resolved Any (backend.secret_bool v)
  pub pick_resolves : (v : ManifestValue) → Resolved Any (backend.pick v)

pub of_type-Resolved : (ty : ValueType) (v : ManifestValue) → Resolved Any (of_type ty v)
of_type-Resolved ty v = Resolved-when _ (other refl) (value tt)

pub state_key-Resolved : (v : ManifestValue) → Resolved Any (state_key v)
unfolding state_key
state_key-Resolved v = Resolved-when _ (other refl) (value tt)

pub load_key-Resolved :
    (key_type : Option ValueType) (arguments : List ManifestValue)
    → Resolved Any (load_key key_type arguments)
unfolding load_key
load_key-Resolved none arguments = Resolved-when _ (value tt) (other refl)
load_key-Resolved (some ty) arguments =
    Resolved-when _ (Resolved-then (Resolved-ok_or _ _ refl) λ v _. state_key-Resolved v)
      (other refl)
