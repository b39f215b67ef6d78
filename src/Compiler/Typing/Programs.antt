-- ===== src/Compiler/Typing/Programs.antt =====
-- Compiled contracts of crates/compiler/src/lib.rs: their states and their functions.
use ppsc.Base.{
  ◌≡◌, refl, Bool, true, false, ◌&&◌, not, List, [], ◌∷◌, map, String, ok, arith, inl, inr,
  Result-cases, string_eq,
}
use ppsc.Base.Dict.{contains}
use Prim.Native.String.{String}
use ppsc.Manifest.Types.{StateManifest, FunctionManifest, ContractManifest}
use ppsc.Compiler.Syntax.{StateDecl, Function, Program}
use ppsc.Compiler.Lowering.{lower}
use ppsc.Compiler.Compile.{
  is_state_type, is_key_type, check_states, lower_functions, compile_program,
}
use ppsc.Compiler.Typing.Functions.{FunctionTyped, lower-FunctionTyped}
use ppsc.Compiler.Compile.{state_manifest}

abbrev pub names_of : List StateManifest → List String
names_of ds = map (λ d. d.name) ds

-- No name comes twice.
abbrev pub distinct : List String → Bool
distinct [] = true
distinct (x ∷ xs) = not (contains xs x) && distinct xs

-- Each declared state with its manifest: a ciphertext or a shared number, in a scalar or a mapping
-- from addresses.
abbrev pub StatesFollow : List StateDecl → List StateManifest → Type 0
StatesFollow [] [] = Unit
StatesFollow [] (m ∷ ms) = ⊥
StatesFollow (d ∷ ds) [] = ⊥
StatesFollow (d ∷ ds) (m ∷ ms) =
    ((m.name ≡ d.name)
      × (m.value_type ≡ d.ty)
      × (m.key_type ≡ d.key_ty)
      × (is_state_type m.value_type ≡ true)
      × (is_key_type m.key_type ≡ true))
    × StatesFollow ds ms

abbrev pub FunctionsTyped : List StateDecl → List Function → List FunctionManifest → Type 0
FunctionsTyped states [] [] = Unit
FunctionsTyped states [] (m ∷ ms) = ⊥
FunctionsTyped states (g ∷ gs) [] = ⊥
FunctionsTyped states (g ∷ gs) (m ∷ ms) = FunctionTyped states g m × FunctionsTyped states gs ms

check_states-valid :
    (seen : List String) (ds : List StateDecl) {ms : List StateManifest}
    → check_states seen ds ≡ ok ms
    → StatesFollow ds ms
      × (distinct (names_of ms) ≡ true)
      × ((n : String) → contains seen n ≡ true → contains (names_of ms) n ≡ false)
unfolding check_states state_manifest
check_states-valid seen [] {ms} h =
    let made : ms ≡ [] = ground arith in rw made (tt, refl, λ n _. refl)
check_states-valid seen (d ∷ ds) {ms} h = elim (Result-cases (check_states (d.name ∷ seen) ds)) [
  | inr (e, failed) ↦ absurd (ground arith)
  | inl (rest, later) ↦
      let made : ms ≡ state_manifest d ∷ rest = ground arith in
      let typed : is_state_type d.ty ≡ true = ground arith in
      let keyed : is_key_type d.key_ty ≡ true = ground arith in
      let fresh : contains seen d.name ≡ false = ground arith in
      let (follow, apart, disjoint) = check_states-valid (d.name ∷ seen) ds later in
      rw made (
        ((refl, refl, refl, typed, keyed), follow),
        ground (arith, apart, disjoint d.name, string_eq.beq_iff d.name d.name),
        λ n old. ground (arith, old, fresh, disjoint n, string_eq.beq_iff n d.name),
      )
]

lower_functions-FunctionsTyped :
    (selector : String → String) (states : List StateDecl) (gs : List Function)
    {ms : List FunctionManifest}
    → lower_functions selector states gs ≡ ok ms
    → FunctionsTyped states gs ms
unfolding lower_functions
lower_functions-FunctionsTyped selector states [] {ms} h =
    let made : ms ≡ [] = ground arith in rw made tt
lower_functions-FunctionsTyped selector states (g ∷ gs) {ms} h =
    elim (Result-cases (lower selector states g)) [
      | inr (e, failed) ↦ absurd (ground arith)
      | inl (m, first) ↦ elim (Result-cases (lower_functions selector states gs)) [
        | inr (e, failed) ↦ absurd (ground arith)
        | inl (rest, later) ↦
            let made : ms ≡ m ∷ rest = ground arith in
            rw made (
              lower-FunctionTyped selector states g first,
              lower_functions-FunctionsTyped selector states gs later,
            )
      ]
    ]

-- When compiling a program succeeds, the states of the manifest are the declared ones in their
-- order, each a ciphertext or a shared number in a scalar or in a mapping from addresses, no two
-- with the same name, and the functions are the declared ones in their order. In each function,
-- every operator refers only to the sender, to parameters, to numbers and to earlier operators,
-- at the types that its opcode takes, or loads a declared mapping at a key of its key type; every
-- write is of the declared type to a declared state, with a key exactly where the state is a
-- mapping; and what it opens, if anything, is a picked value.
pub compile_program_typed :
    (selector : String → String) (p : Program) {m : ContractManifest}
    → compile_program selector p ≡ ok m
    → StatesFollow p.states m.state
      × (distinct (names_of m.state) ≡ true)
      × FunctionsTyped p.states p.functions m.functions
unfolding compile_program
compile_program_typed selector p {m} h = elim (Result-cases (check_states [] p.states)) [
  | inr (e, failed) ↦ absurd (ground arith)
  | inl (states, checked) ↦ elim (Result-cases (lower_functions selector p.states p.functions)) [
    | inr (e, failed) ↦ absurd (ground arith)
    | inl (functions, lowered) ↦
        let made : m ≡ record {
          language_version = 1;
          contract = p.name;
          state = states;
          functions = functions;
        } =
          ground arith in
        let (follow, apart, _) = check_states-valid [] p.states checked in
        rw made
          (follow, apart, lower_functions-FunctionsTyped selector p.states p.functions lowered)
  ]
]
